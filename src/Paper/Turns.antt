-- ===== src/Paper/Turns.antt =====
-- The turns of a cycle of the paper flow simulator (services/webui-frontend/src/lib/sim/paperSim.ts): how
-- many it lasts, and what they come to.
use pqc_qkd_hybrid_network.Base.{
  ℕ, suc, ◌+◌, ◌≤◌, ◌≡◌, refl, sym, ap, subst, ◌∙◌, inl, inr, true, false, Option, none, some, List,
  [], ◌∷◌, length, leb, ◌==◌, arith, Bool-cases, Option-cases,
}
use pqc_qkd_hybrid_network.E2e.Fields.{is_running}
use pqc_qkd_hybrid_network.Paper.State.{
  Layer, qkd, arnika, wireguard, rosenpass, data_layer, phase_of_layer,
}
use pqc_qkd_hybrid_network.Paper.Work.{fails_at}
use pqc_qkd_hybrid_network.Paper.Position.{Course, moved, turn, turns}

-- The phases that a cycle lasts: all five, or those up to the one that carries the failed layer.
abbrev pub lasting : Option Layer → ℕ
lasting none = 5
lasting (some l) = phase_of_layer l

-- What a cycle adds to the successes.
abbrev pub gained : Option Layer → ℕ
gained none = 1
gained (some l) = 0

-- A cycle has been counted, and the next one begun.
pub record IsOver (before after : Course) : Type 0 where
  pub first : after.phase ≡ 1
  pub anew : after.accepted ≡ true
  pub counted : after.total ≡ before.total + 1
  pub won : after.succeeded ≡ before.succeeded + gained before.layer

pub turn-steady :
    (now : ℕ) (c : Course)
    → is_running c.status ≡ true
    → ((turn now c).status ≡ c.status) × ((turn now c).timer ≡ c.timer) × ((turn now c).start ≡ now)
unfolding turn moved
turn-steady now c runs = elim (Bool-cases (fails_at c.layer c.phase)) [
  | inl fails ↦ rw (fails, runs) (refl, refl, refl)
  | inr works ↦
      rw (works, runs)
        (elim (Bool-cases (leb 5 c.phase)) [
          | inl last ↦ rw last (refl, refl, refl)
          | inr on ↦ rw on (refl, refl, refl)
        ])
]

pub lasting-bounds : (o : Option Layer) → (1 ≤ lasting o) × (lasting o ≤ 5)
lasting-bounds none = (omega arith, omega arith)
lasting-bounds (some qkd) = (omega arith, omega arith)
lasting-bounds (some arnika) = (omega arith, omega arith)
lasting-bounds (some wireguard) = (omega arith, omega arith)
lasting-bounds (some rosenpass) = (omega arith, omega arith)
lasting-bounds (some data_layer) = (omega arith, omega arith)

fails_at-early : (o : Option Layer) (n : ℕ) → suc n ≤ lasting o → fails_at o n ≡ false
fails_at-early none n lt = refl
fails_at-early (some l) n lt = ground arith

-- The last phase of a cycle.
turn-last :
    (now : ℕ) (c : Course)
    → c.phase ≡ lasting c.layer
    → c.accepted ≡ true
    → is_running c.status ≡ true
    → IsOver c (turn now c)
unfolding turn moved
turn-last now c last ok runs = elim (Option-cases c.layer) [
  | inl whole ↦
      let works = ap (λ o. fails_at o c.phase) whole in
      let five : leb 5 c.phase ≡ true = at_end (last ∙ ap lasting whole) in
      let gain : 1 ≡ gained c.layer = ap gained (sym whole) in
      rw (works, five, runs, ok)
        (record { first = refl; anew = refl; counted = refl; won = omega (arith, gain) })
  | inr (l, failed) ↦
      let fails : fails_at c.layer c.phase ≡ true =
        ap (λ o. fails_at o c.phase) failed ∙ same_phase l (last ∙ ap lasting failed) in
      let gain : 0 ≡ gained c.layer = ap gained (sym failed) in
      rw (fails, runs)
        (record { first = refl; anew = refl; counted = refl; won = omega (arith, gain) })
]
  where
    at_end : c.phase ≡ 5 → leb 5 c.phase ≡ true
    at_end e = ground arith

    same_phase : (l : Layer) → c.phase ≡ phase_of_layer l → (phase_of_layer l == c.phase) ≡ true
    same_phase l e = ground arith

not_last : (n last : ℕ) → suc n ≤ last → last ≤ 5 → leb 5 n ≡ false
not_last n last early high = ground arith

-- A phase that is not the last of its cycle.
turn-early :
    (now : ℕ) (c : Course)
    → fails_at c.layer c.phase ≡ false
    → leb 5 c.phase ≡ false
    → turn now c ≡ record c { phase = c.phase + 1; start = now }
unfolding turn moved
turn-early now c works on = rw (works, on) refl

-- The turns from a phase of a cycle to its end.
pub turns-IsOver :
    (nows : List ℕ) (c : Course)
    → c.phase + length nows ≡ suc (lasting c.layer)
    → 1 ≤ length nows
    → c.accepted ≡ true
    → is_running c.status ≡ true
    → IsOver c (turns nows c)
unfolding turns
turns-IsOver [] c end some_left ok runs = absurd (omega (arith, some_left))
turns-IsOver (now ∷ []) c end some_left ok runs = turn-last now c (omega (arith, end)) ok runs
turns-IsOver (now ∷ next ∷ nows) c end some_left ok runs =
    let (low, high) = lasting-bounds c.layer in
    let early : suc c.phase ≤ lasting c.layer = omega (arith, end) in
    let works = fails_at-early c.layer c.phase early in
    let on = not_last c.phase (lasting c.layer) early high in
    let d : Course = record c { phase = c.phase + 1; start = now } in
    let ih = turns-IsOver (next ∷ nows) d (omega (arith, end)) (omega arith) ok runs in
    let e : turn now c ≡ d = turn-early now c works on in
    subst (λ t. IsOver c (turns (next ∷ nows) t)) (sym e)
      (record { first = ih.first; anew = ih.anew; counted = ih.counted; won = ih.won })

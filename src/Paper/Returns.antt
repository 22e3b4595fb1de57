-- ===== src/Paper/Returns.antt =====
-- No event of the paper flow simulator (services/webui-frontend/src/lib/sim/paperSim.ts) throws.
use mathlib.Core.Option
use pqc_qkd_hybrid_network.Base.{
  ℕ, zero, suc, ◌-◌, ◌≤◌, ◌≡◌, refl, ap, ◌∙◌, inl, inr, true, false, Option, none, some, List, [],
  ◌∷◌, length, ◌==◌, arith, Bool-cases, if_both, Option-known,
}
use pqc_qkd_hybrid_network.E2e.State.{stepped, dwell_done}
use pqc_qkd_hybrid_network.E2e.Crypto.{Noble, World, chacha_seal, derive_hkdf_sha3, encode_utf8}
use pqc_qkd_hybrid_network.E2e.Fields.{is_running}
use pqc_qkd_hybrid_network.E2e.Sealing.{IsCipher}
use pqc_qkd_hybrid_network.Lab.State.{is_some}
use pqc_qkd_hybrid_network.Paper.State.{PhaseBudget, budget_of, nominal_phase_dwell_ms, did_step}
use pqc_qkd_hybrid_network.Paper.Fields.{Sim, new_sim, record_action, emit}
use pqc_qkd_hybrid_network.Paper.Work.{
  Worked, fails_at, payload, tunnel_psk, data_work, work_of, run_budget, run_phase,
}
use pqc_qkd_hybrid_network.Paper.Control.{
  set_status, returned, after_run, relabel, tick_cascade, emit_cascade, Event, starts, pauses,
  resumes, resets, steps, fires, clears, disposes, sets_hops, injects, step, tick, fire, handle,
  handle_all,
}
use pqc_qkd_hybrid_network.Paper.Orderly.{Keyed-home, IsOrderly}
use pqc_qkd_hybrid_network.Paper.Kept.{
  tick_cascade-IsOrderly, tick_cascade-control, begun-IsOrderly,
}
use pqc_qkd_hybrid_network.Paper.Safe.{handle-IsOrderly}

-- What the code relies on of the key derivation: it returns as many bytes as it is asked for.
pub record IsKdf (noble : Noble) : Type 0 where
  pub sizes : (ikm salt info : List ℕ) (n : ℕ) → length (noble.hkdf ikm salt info n) ≡ n

is_some-map {ℓ} :
    {A B : Type ℓ} (f : A → B) (o : Option A) → is_some o ≡ true → is_some (Option.map f o) ≡ true
is_some-map f none h = h
is_some-map f (some a) h = refl

is_some-known {ℓ} : {A : Type ℓ} (o : Option A) → is_some o ≡ true → (a : A) × (o ≡ some a)
is_some-known none h = absurd (cc h)
is_some-known (some a) h = (a, refl)

budget_known : (n : ℕ) → 1 ≤ n → n ≤ 5 → (b : PhaseBudget) × (budget_of n ≡ some b) × (b.phase ≡ n)
budget_known zero low high = absurd (omega (arith, low))
budget_known (suc zero) low high = (_, refl, refl)
budget_known (suc (suc zero)) low high = (_, refl, refl)
budget_known (suc (suc (suc zero))) low high = (_, refl, refl)
budget_known (suc (suc (suc (suc zero)))) low high = (_, refl, refl)
budget_known (suc (suc (suc (suc (suc zero))))) low high = (_, refl, refl)
budget_known (suc (suc (suc (suc (suc (suc n)))))) low high = absurd (omega (arith, high))

module _ (noble : Noble) (w : World) (cipher : IsCipher noble) (kdf : IsKdf noble) where
  data_work-returns :
      (b : PhaseBudget) (s : Sim)
      → is_some s.pqc_secret ≡ true
      → is_some (data_work noble w b s) ≡ true
  unfolding data_work chacha_seal tunnel_psk derive_hkdf_sha3
  data_work-returns b s h =
      let (secret, e) = is_some-known s.pqc_secret h in
      let psk = tunnel_psk noble w secret in
      let (c, sealed, len) =
        cipher.seals psk (w.draw 0 12) (encode_utf8 "alice->bob") (payload s)
          (kdf.sizes _ _ _ 32) in
      Option-known (λ o. is_some o ≡ true) s.pqc_secret secret none _ e
        (is_some-map _ (chacha_seal noble w 0 psk (payload s))
          (is_some-map _ _ (ap is_some sealed)))

  work_of-returns :
      (b : PhaseBudget) (s : Sim)
      → (b.phase ≡ 5 → is_some s.pqc_secret ≡ true)
      → is_some (work_of noble w b s) ≡ true
  unfolding work_of
  work_of-returns b s h = if_both returns (b.phase == 2) _ _ refl (
      if_both returns (b.phase == 3) _ _ refl (
        if_both returns (b.phase == 4) _ _ refl (elim (Bool-cases (b.phase == 5)) [
          | inl five ↦ rw five (data_work-returns b s (h (ground arith)))
          | inr other ↦ rw other refl
        ])))
    where
      returns : Option Worked → Type 0
      returns o = is_some o ≡ true

  run_budget-returns :
      (b : PhaseBudget) (s : Sim)
      → (b.phase ≡ 5 → is_some s.pqc_secret ≡ true)
      → is_some (run_budget noble w b s) ≡ true
  unfolding run_budget
  run_budget-returns b s h = is_some-map _ _ (elim (Bool-cases (fails_at s.fail_layer b.phase)) [
    | inl fails ↦ rw fails refl
    | inr works ↦ rw works (work_of-returns b s h)
  ])

  -- A phase of a orderly state runs.
  pub run_phase-returns :
      (s : Sim) → 1 ≤ s.phase → IsOrderly s → is_some (run_phase noble w s) ≡ true
  unfolding run_phase
  run_phase-returns s low h =
      let (b, known, at) = budget_known s.phase low h.is_ready.exists in
      Option-known (λ o. is_some o ≡ true) (budget_of s.phase) b none (λ c. run_budget noble w c s)
        known
        (run_budget-returns b s (λ five. h.is_ready.keyed.has_secret (omega (arith, five, at))))

  after_run-returns :
      (f : Sim → Sim) (s : Sim) (o : Option Sim)
      → is_some o ≡ true
      → (after_run f s o).threw ≡ false
  after_run-returns f s none h = absurd (cc h)
  after_run-returns f s (some t) h = refl

  step-returns : (s : Sim) → IsOrderly s → (step noble w s).threw ≡ false
  unfolding step record_action
  step-returns s h = elim (Bool-cases (is_running s.status)) [
    | inl runs ↦ rw runs refl
    | inr rests ↦
        let begun = set_status stepped (record_action w did_step s) in
        rw rests (elim (Bool-cases (s.phase == 0)) [
          | inl first ↦ rw first refl
          | inr later ↦ rw later (
              after_run-returns (λ t. emit (relabel s.status t)) begun (run_phase noble w begun)
                (run_phase-returns begun (ground arith) (begun-IsOrderly w s rests h)))
        ])
  ]

  tick-returns : (s : Sim) → IsOrderly s → (tick noble w s).threw ≡ false
  unfolding tick
  tick-returns s h = elim (Bool-cases (is_running s.status)) [
    | inr rests ↦ rw rests refl
    | inl runs ↦
        let s' = tick_cascade w s in
        let h' = tick_cascade-IsOrderly w s h in
        rw runs (
          if_both (λ c. c.threw ≡ false)
            (dwell_done (w.performance_now - s'.phase_start) nominal_phase_dwell_ms) _
            (returned (emit_cascade w s'))
            (after_run-returns (λ t. t) s' (run_phase noble w s')
              (run_phase-returns s'
                (h'.is_ready.going (ap (λ c. is_running c.0) (tick_cascade-control w s) ∙ runs))
                h'))
            refl)
  ]

  pub handle-returns : (e : Event) (s : Sim) → IsOrderly s → (handle noble w e s).threw ≡ false
  unfolding handle fire
  handle-returns steps s h = step-returns s h
  handle-returns fires s h =
      if_both (λ c. c.threw ≡ false) s.has_timer (tick noble w s) (returned s) (tick-returns s h)
        refl
  handle-returns starts s h = refl
  handle-returns pauses s h = refl
  handle-returns resumes s h = refl
  handle-returns resets s h = refl
  handle-returns clears s h = refl
  handle-returns disposes s h = refl
  handle-returns (sets_hops n) s h = refl
  handle-returns (injects l) s h = refl

pub new_sim-IsOrderly : IsOrderly new_sim
new_sim-IsOrderly = record {
  is_ready = record {
    exists = omega arith;
    keyed = Keyed-home false false;
    going = λ e. absurd (cc e);
    timed = λ e. absurd (cc e);
  };
  is_bounded = record {
    hops = (omega arith, omega arith);
    cycles_fit = omega arith;
    history_fits = record { below = omega arith; counted = omega arith };
    actions_fit = record { below = omega arith; counted = omega arith };
  };
  is_stamped = record { stamps = tt; at_rest = λ e. (refl, refl) };
}

-- With the cipher and the key derivation as documented, no sequence of events on a new simulator
-- throws, and it ends in a orderly state.
pub handle_all_returns :
    (noble : Noble) (es : List (World × Event))
    → IsCipher noble
    → IsKdf noble
    → ((handle_all noble es new_sim).threw ≡ false) × IsOrderly (handle_all noble es new_sim).sim
unfolding handle_all
handle_all_returns noble es cipher kdf = go es new_sim new_sim-IsOrderly
  where
    go :
        (es : List (World × Event)) (s : Sim)
        → IsOrderly s
        → ((handle_all noble es s).threw ≡ false) × IsOrderly (handle_all noble es s).sim
    go [] s h = (refl, h)
    go (e ∷ es) s h =
        let ok = handle-returns noble e.0 cipher kdf e.1 s h in
        rw ok (go es (handle noble e.0 e.1 s).sim (handle-IsOrderly noble e.0 e.1 s h))

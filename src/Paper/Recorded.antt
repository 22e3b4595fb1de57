-- ===== src/Paper/Recorded.antt =====
-- The history of the paper flow simulator (services/webui-frontend/src/lib/sim/paperSim.ts): the record of
-- the current phase is the last one and open, and all others are completed.
use mathlib.Core.Option
use pqc_qkd_hybrid_network.Base.{
  ℕ, zero, suc, ◌+◌, ◌-◌, ◌≤◌, ◌≡◌, refl, sym, ap, subst, ◌∙◌, inl, inr, Bool, true, false, ◌||◌,
  ◌&&◌, Option, none, some, List, [], ◌∷◌, ◌++◌, length, length-append, drop, All, ltb, leb, ◌==◌,
  arith, Bool-cases, if_both, if_true, if_false, ==_iff,
}
use pqc_qkd_hybrid_network.E2e.Crypto.{Noble, World}
use pqc_qkd_hybrid_network.E2e.Fields.{is_running, is_null}
use pqc_qkd_hybrid_network.Paper.State.{PhaseBudget, budget_of, PhaseRec}
use pqc_qkd_hybrid_network.Paper.Fields.{
  Sim, emit, push_history, open_record, enter_phase, begin_cycle,
}
use pqc_qkd_hybrid_network.Paper.Work.{
  Worked, fails_at, note_failed, plain_work, close_open, account, end_cycle, move_on, work_of,
  run_budget, run_phase,
}
use pqc_qkd_hybrid_network.Paper.Done.{Yields, Yields-map, budget_of-phase, Done, work_of-Done}

-- A record that is completed.
abbrev pub IsClosed : PhaseRec → Type 0
IsClosed r = is_null r.completed_at ≡ false

-- The records of a run in a phase: in phase 0 all are completed, and in another all but the last one,
-- which is open and that of the phase.
pub data Recorded (phase : ℕ) : List PhaseRec → Type 0 where
  at_rest : (rs : List PhaseRec) → phase ≡ 0 → All IsClosed rs → Recorded phase rs
  open_last :
      (rs : List PhaseRec) (r : PhaseRec)
      → All IsClosed rs
      → is_null r.completed_at ≡ true
      → r.phase ≡ phase
      → 1 ≤ phase
      → Recorded phase (rs ++ r ∷ [])

abbrev pub IsRecorded : Sim → Type 0
IsRecorded s = Recorded s.phase s.history

-- In phase 0 all records are completed.
pub Recorded-rest :
    (phase : ℕ) (rs : List PhaseRec) → Recorded phase rs → phase ≡ 0 → All IsClosed rs
Recorded-rest phase rs (at_rest _ zero_phase closed) e = closed
Recorded-rest phase rs (open_last init r closed unset at low) e = absurd (omega (arith, low, e))

All-drop : (n : ℕ) (rs : List PhaseRec) → All IsClosed rs → All IsClosed (drop n rs)
All-drop zero rs h = h
All-drop (suc n) [] h = h
All-drop (suc n) (r ∷ rs) (h, hs) = All-drop n rs hs

-- As many records as are kept can be dropped from the front of them.
drop-append :
    (n : ℕ) (rs : List PhaseRec) (r : PhaseRec)
    → n ≤ length rs
    → drop n (rs ++ r ∷ []) ≡ drop n rs ++ r ∷ []
drop-append zero rs r le = refl
drop-append (suc n) [] r le = absurd (omega (arith, le))
drop-append (suc n) (x ∷ rs) r le = drop-append n rs r (omega (arith, le))

push_history-Recorded :
    (rs : List PhaseRec) (r : PhaseRec)
    → All IsClosed rs
    → is_null r.completed_at ≡ true
    → 1 ≤ r.phase
    → Recorded r.phase (push_history rs r)
unfolding push_history
push_history-Recorded rs r closed unset low =
    let size = length-append rs (r ∷ []) in
    let n = length (rs ++ r ∷ []) - 30 in
    if_both (Recorded r.phase) (ltb 30 (length (rs ++ r ∷ []))) (drop n (rs ++ r ∷ []))
      (rs ++ r ∷ [])
      (subst (Recorded r.phase) (sym (drop-append n rs r (omega (arith, size))))
        (open_last (drop n rs) r (All-drop n rs closed) unset refl low))
      (open_last rs r closed unset refl low)

and_false : (a b : Bool) → b ≡ false → (a && b) ≡ false
and_false a b h = ground arith

and_true : (a b : Bool) → a ≡ true → b ≡ true → (a && b) ≡ true
and_true a b h k = ground arith

abbrev completed : World → Worked → PhaseRec → PhaseRec
completed w done r = record r {
  completed_at = some w.date_now;
  packets = done.packets;
  bytes = done.bytes;
  detail = some done.detail;
}

-- Nothing is closed where nothing is open, and otherwise the last record.
close_open-none :
    (w : World) (phase : ℕ) (done : Worked) (rs : List PhaseRec)
    → All IsClosed rs
    → close_open w phase done rs ≡ none
unfolding close_open
close_open-none w phase done [] h = refl
close_open-none w phase done (r ∷ rs) (h, hs) =
    let rest = close_open-none w phase done rs hs in
    rw rest (
      if_false (λ o. o ≡ none) (r.phase == phase && is_null r.completed_at) _ none
        (and_false (r.phase == phase) (is_null r.completed_at) h) refl)

close_open-last :
    (w : World) (phase : ℕ) (done : Worked) (rs : List PhaseRec) (r : PhaseRec)
    → All IsClosed rs
    → is_null r.completed_at ≡ true
    → r.phase ≡ phase
    → (out : List PhaseRec) × (close_open w phase done (rs ++ r ∷ []) ≡ some out) × All IsClosed out
unfolding close_open
close_open-last w phase done [] r closed unset at = (
  completed w done r ∷ [],
  if_true (λ o. o ≡ some (completed w done r ∷ [])) (r.phase == phase && is_null r.completed_at)
      (some (completed w done r ∷ [])) none
      (and_true (r.phase == phase) (is_null r.completed_at) ((==_iff r.phase phase).1 at) unset)
      refl,
  (refl, tt),
)
close_open-last w phase done (x ∷ rs) r (h, hs) unset at =
    let (out, e, all) = close_open-last w phase done rs r hs unset at in
    rw e (x ∷ out, refl, (h, all))

-- After the work of the current phase all records are completed.
account-IsClosed :
    (w : World) (done : Worked)
    → IsRecorded done.sim
    → All IsClosed (account w done.sim.phase done).history
unfolding account
account-IsClosed w done h = go done.sim.history h
  where
    go :
        (rs : List PhaseRec)
        → Recorded done.sim.phase rs
        → All IsClosed (Option.get_or (close_open w done.sim.phase done rs) rs)
    go rs (at_rest _ zero_phase closed) =
        rw (close_open-none w done.sim.phase done rs closed) closed
    go rs (open_last init r closed unset at low) =
        let (out, e, all) = close_open-last w done.sim.phase done init r closed unset at in rw e all

module _ (w : World) where
  enter_phase-IsRecorded :
      (n : ℕ) (s : Sim) → 1 ≤ n → All IsClosed s.history → IsRecorded (enter_phase w n s)
  unfolding enter_phase
  enter_phase-IsRecorded n s low h = push_history-Recorded s.history (open_record w n) h refl low

  pub begin_cycle-IsRecorded : (s : Sim) → All IsClosed s.history → IsRecorded (begin_cycle w s)
  unfolding begin_cycle
  begin_cycle-IsRecorded s h = enter_phase-IsRecorded 1 _ (omega arith) h

  end_cycle-IsRecorded : (s : Sim) → All IsClosed s.history → IsRecorded (end_cycle w s)
  unfolding end_cycle
  end_cycle-IsRecorded s h =
      if_both IsRecorded (is_running s.status) (begin_cycle w _) _ (begin_cycle-IsRecorded _ h)
        (at_rest s.history refl h)

  move_on-IsRecorded :
      (n : ℕ) (failed : Bool) (s : Sim) → All IsClosed s.history → IsRecorded (move_on w n failed s)
  unfolding move_on
  move_on-IsRecorded n failed s h =
      if_both IsRecorded (failed || leb 5 n) (end_cycle w s) (enter_phase w (n + 1) s)
        (end_cycle-IsRecorded s h) (enter_phase-IsRecorded (n + 1) s (omega arith) h)

  worked-IsRecorded :
      (b : PhaseBudget) (failed : Bool) (s : Sim) (done : Worked)
      → b.phase ≡ s.phase
      → IsRecorded s
      → Done b failed s done
      → IsRecorded (move_on w b.phase failed (account w b.phase done))
  worked-IsRecorded b failed s done at h d =
      let recorded : IsRecorded done.sim = subst IsRecorded (sym d.same) h in
      let same = ap (λ t. t.phase) d.same ∙ sym at in
      move_on-IsRecorded b.phase failed (account w b.phase done) (
        subst (λ n. All IsClosed (account w n done).history) same
          (account-IsClosed w done recorded))

module _ (noble : Noble) (w : World) where
  run_budget-IsRecorded :
      (b : PhaseBudget) (s : Sim)
      → b.phase ≡ s.phase
      → IsRecorded s
      → Yields IsRecorded (run_budget noble w b s)
  unfolding run_budget
  run_budget-IsRecorded b s at h = elim (Bool-cases (fails_at s.fail_layer b.phase)) [
    | inl fails ↦ rw fails (
        worked-IsRecorded w b true (note_failed true s) (plain_work b true (note_failed true s)) at
          h
          (record {
            same = refl;
            keeps_key = λ e. refl;
            keeps = λ e. refl;
            makes = λ ok e. absurd (cc ok);
          }))
    | inr works ↦ rw works (
        Yields-map (Done b false s) IsRecorded
          (λ done. emit (move_on w b.phase false (account w b.phase done))) (work_of noble w b s)
          (λ done d. worked-IsRecorded w b false s done at h d) (work_of-Done noble w b s))
  ]

  pub run_phase-IsRecorded : (s : Sim) → IsRecorded s → Yields IsRecorded (run_phase noble w s)
  unfolding run_phase
  run_phase-IsRecorded s h = go (budget_of s.phase) (budget_of-phase s.phase)
    where
      go :
          (o : Option PhaseBudget)
          → Yields (λ b. (b.phase ≡ s.phase) × (1 ≤ s.phase)) o
          → Yields IsRecorded (elim o [ none ↦ none | some b ↦ run_budget noble w b s ])
      go none y = tt
      go (some b) (at, low) = run_budget-IsRecorded b s at h

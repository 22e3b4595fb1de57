-- ===== src/Paper/Position.antt =====
-- The course of a run of the paper flow simulator (services/webui-frontend/src/lib/sim/paperSim.ts) through
-- its phases and cycles, apart from its keys, packets and records, and that `runPhase` follows it.
use pqc_qkd_hybrid_network.Base.{
  ℕ, ◌+◌, ◌≤◌, ◌≡◌, refl, sym, ap, ◌∙◌, inl, inr, Bool, true, false, ◌||◌, Option, none, some, List,
  [], ◌∷◌, leb, Bool-cases, if◌then◌else◌,
}
use pqc_qkd_hybrid_network.E2e.State.{Status}
use pqc_qkd_hybrid_network.E2e.Crypto.{Noble, World}
use pqc_qkd_hybrid_network.E2e.Fields.{is_running}
use pqc_qkd_hybrid_network.Paper.State.{Layer, PhaseBudget, budget_of}
use pqc_qkd_hybrid_network.Paper.Fields.{Sim, emit, enter_phase, begin_cycle}
use pqc_qkd_hybrid_network.Paper.Work.{
  Worked, fails_at, plain_work, account, end_cycle, move_on, note_failed, work_of, run_budget,
  run_phase,
}
use pqc_qkd_hybrid_network.Paper.Done.{Yields, Yields-map, Done, work_of-Done, budget_of-phase}

pub record Course : Type 0 where
  pub phase : ℕ
  pub accepted : Bool
  pub total : ℕ
  pub succeeded : ℕ
  pub layer : Option Layer
  pub status : Status
  pub timer : Bool
  pub start : ℕ

abbrev pub course : Sim → Course
course s = record {
  phase = s.phase;
  accepted = s.cycle_accepted;
  total = s.cycles_total;
  succeeded = s.cycles_succeeded;
  layer = s.fail_layer;
  status = s.status;
  timer = s.has_timer;
  start = s.phase_start;
}

-- A cycle ends as a success if none of its phases failed.
abbrev pub ended : Course → Course
ended c = record c { succeeded = if c.accepted then c.succeeded + 1 else c.succeeded; phase = 0 }

abbrev pub begun : ℕ → Course → Course
begun now c = record c { total = c.total + 1; accepted = true; phase = 1; start = now }

-- After a phase: its cycle ends if it failed or was the last, and a run begins the next one.
unfoldable pub moved : ℕ → Bool → Course → Course
moved now failed c =
    let next = if is_running c.status then begun now (ended c) else ended c in
    if failed || leb 5 c.phase then next else record c { phase = c.phase + 1; start = now }

abbrev pub failed_at : Bool → Course → Course
failed_at failed c = if failed then record c { accepted = false } else c

unfoldable pub turn : ℕ → Course → Course
turn now c = let failed = fails_at c.layer c.phase in moved now failed (failed_at failed c)

unfoldable pub turns : List ℕ → Course → Course
turns [] c = c
turns (now ∷ nows) c = turns nows (turn now c)

module _ (noble : Noble) (w : World) where
  move_on-course :
      (failed : Bool) (s : Sim)
      → course (move_on w s.phase failed s) ≡ moved w.performance_now failed (course s)
  unfolding move_on end_cycle begin_cycle enter_phase moved
  move_on-course failed s = elim (Bool-cases (failed || leb 5 s.phase)) [
    | inl over ↦ rw over (elim (Bool-cases (is_running s.status)) [
      | inl runs ↦ rw runs refl
      | inr rests ↦ rw rests refl
    ])
    | inr on ↦ rw on refl
  ]

  worked-course :
      (b : PhaseBudget) (failed : Bool) (s : Sim) (done : Worked)
      → b.phase ≡ s.phase
      → Done b failed s done
      → course (move_on w b.phase failed (account w b.phase done))
        ≡ moved w.performance_now failed (course s)
  unfolding account
  worked-course b failed s done at d =
      ap (λ n. course (move_on w n failed (account w b.phase done)))
        (at ∙ sym (ap (λ t. t.phase) d.same))
      ∙ (move_on-course failed (account w b.phase done)
          ∙ ap (λ t. moved w.performance_now failed (course t)) d.same)

  run_budget-course :
      (b : PhaseBudget) (s : Sim)
      → b.phase ≡ s.phase
      → Yields (λ t. course t ≡ turn w.performance_now (course s)) (run_budget noble w b s)
  unfolding run_budget turn
  run_budget-course b s at = elim (Bool-cases (fails_at s.fail_layer s.phase)) [
    | inl fails ↦
        let same = ap (fails_at s.fail_layer) at ∙ fails in
        rw (fails, same)
          (worked-course b true (note_failed true s) (plain_work b true (note_failed true s)) at
            (record {
              same = refl;
              keeps_key = λ e. refl;
              keeps = λ e. refl;
              makes = λ ok e. absurd (cc ok);
            }))
    | inr works ↦
        let same = ap (fails_at s.fail_layer) at ∙ works in
        rw (works, same)
          (Yields-map (Done b false s) (λ t. course t ≡ moved w.performance_now false (course s))
            (λ done. emit (move_on w b.phase false (account w b.phase done))) (work_of noble w b s)
            (λ done d. worked-course b false s done at d) (work_of-Done noble w b s))
  ]

  -- `runPhase` follows the course.
  pub run_phase-course :
      (s : Sim) → Yields (λ t. course t ≡ turn w.performance_now (course s)) (run_phase noble w s)
  unfolding run_phase
  run_phase-course s = go (budget_of s.phase) (budget_of-phase s.phase)
    where
      go :
          (o : Option PhaseBudget)
          → Yields (λ b. (b.phase ≡ s.phase) × (1 ≤ s.phase)) o
          → Yields
              (λ t. course t ≡ turn w.performance_now (course s))
              (elim o [ none ↦ none | some b ↦ run_budget noble w b s ])
      go none y = tt
      go (some b) (at, low) = run_budget-course b s at

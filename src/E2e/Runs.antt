-- ===== src/E2e/Runs.antt =====
-- The settings of a run of the end-to-end simulator (e2eSim.ts): when the mode and the packets of a
-- cycle change, and when the timer is set.
use pqc_qkd_hybrid_network.Base.{
  ℕ, ◌+◌, ◌≤◌, ◌≡◌, ◌≢◌, refl, ap, ◌⊎◌, inl, inr, Bool, true, false, not, ◌&&◌, some, arith,
  Bool-cases, if_both, leb, ◌==◌, if◌then◌else◌,
}
use pqc_qkd_hybrid_network.E2e.State.{Status, paused}
use pqc_qkd_hybrid_network.E2e.Crypto.{Noble, World}
use pqc_qkd_hybrid_network.E2e.Fields.{Sim, is_running, enter, exit, ensure_loop}
use pqc_qkd_hybrid_network.E2e.Work.{go_home, halt, run_step_work, advance}
use pqc_qkd_hybrid_network.E2e.Sim.{enter_first}
use pqc_qkd_hybrid_network.E2e.Cases.{Run, run_step_work-IsSameRun}

-- The mode is kept, and so are the packets of the cycle, unless it is over and step 1 of the next one is
-- entered with the number that is set.
pub record IsLatched (sim next : Sim) : Type 0 where
  pub same_mode : next.s.mode ≡ sim.s.mode
  pub same_packets :
      (next.cycle_packets ≡ sim.cycle_packets)
      ⊎ (4 ≤ sim.s.current_step)
        × (next.s.current_step ≡ 1)
        × (next.s.steps_total ≡ sim.s.steps_total + 1)
        × (next.cycle_packets ≡ next.s.packets_per_cycle)

-- The timer is set exactly while the status is running.
abbrev pub IsTimed : Sim → Type 0
IsTimed sim = (sim.has_timer ≡ is_running sim.s.status)

pub same : {sim : Sim} → IsLatched sim sim
same = record { same_mode = refl; same_packets = inl refl }

module _ (w : World) (old : Sim) where
  -- Entering a step of the same cycle.
  enter_next-IsLatched :
      (n : ℕ) (sim : Sim)
      → sim.s.mode ≡ old.s.mode
      → sim.cycle_packets ≡ old.cycle_packets
      → (n == 1) ≡ false
      → IsLatched old (enter w n sim)
  unfolding enter
  enter_next-IsLatched n sim m c later = rw later (record { same_mode = m; same_packets = inl c })

  -- Entering step 1 of the next cycle.
  enter_first-IsLatched :
      (sim : Sim)
      → sim.s.mode ≡ old.s.mode
      → 4 ≤ old.s.current_step
      → sim.s.steps_total ≡ old.s.steps_total
      → IsLatched old (enter w 1 sim)
  unfolding enter
  enter_first-IsLatched sim m over n = record {
    same_mode = m;
    same_packets = inr (over, refl, omega (arith, n), refl);
  }

  pub advance-IsLatched :
      (stepping : Bool) (sim : Sim)
      → sim.s.mode ≡ old.s.mode
      → sim.cycle_packets ≡ old.cycle_packets
      → sim.s.current_step ≡ old.s.current_step
      → sim.s.steps_total ≡ old.s.steps_total
      → old.s.current_step ≢ 0
      → IsLatched old (advance w stepping sim)
  unfolding advance
  advance-IsLatched stepping sim m c at n begun = elim (Bool-cases (leb 4 sim.s.current_step)) [
    | inl over ↦ rw over (
        if_both (IsLatched old) (is_running sim.s.status && not stepping) (enter w 1 (go_home sim))
          (go_home sim) (enter_first-IsLatched (go_home sim) m (ground arith) n)
          (record { same_mode = m; same_packets = inl c }))
    | inr on ↦ rw on (enter_next-IsLatched (sim.s.current_step + 1) sim m c (ground arith))
  ]

-- The work of a step keeps the mode, the packets of the cycle, and the step.
pub run_step_work-settings :
    (noble : Noble) (w : World) (sim next : Sim)
    → run_step_work noble w sim ≡ some next
    → (next.s.mode ≡ sim.s.mode)
      × (next.cycle_packets ≡ sim.cycle_packets)
      × (next.s.current_step ≡ sim.s.current_step)
      × (next.s.steps_total ≡ sim.s.steps_total)
unfolding halt exit
run_step_work-settings noble w sim next e = elim (run_step_work-IsSameRun noble w sim next e) [
  | inl kept ↦ (
    ap (λ (r : Run). r.mode) kept,
    ap (λ (r : Run). r.latched) kept,
    ap (λ (r : Run). r.step) kept,
    ap (λ (r : Run). r.entered) kept,
  )
  | inr (halted, _, _) ↦ (
    ap (λ (t : Sim). t.s.mode) halted,
    ap (λ (t : Sim). t.cycle_packets) halted,
    ap (λ (t : Sim). t.s.current_step) halted,
    ap (λ (t : Sim). t.s.steps_total) halted,
  )
]

-- The status and the timer.
abbrev pub control : Sim → Status × Bool
control sim = (sim.s.status, sim.has_timer)

module _ (w : World) (sim : Sim) where
  enter-control : (n : ℕ) → control (enter w n sim) ≡ control sim
  unfolding enter
  enter-control n = refl

  pub enter_first-control : control (enter_first w sim) ≡ control sim
  unfolding enter_first
  enter_first-control =
      if_both (λ t. control t ≡ control sim) (sim.s.current_step == 0) (enter w 1 sim) sim
        (enter-control 1) refl

  pub ensure_loop-control : control (ensure_loop w sim) ≡ (sim.s.status, true)
  unfolding ensure_loop
  ensure_loop-control = elim (Bool-cases sim.has_timer) [
    | inl set ↦ rw (set, control, ensure_loop) refl
    | inr unset ↦ rw (unset, control, ensure_loop) refl
  ]

pub advance-control :
    (w : World) (stepping : Bool) (sim : Sim) → control (advance w stepping sim) ≡ control sim
unfolding advance
advance-control w stepping sim =
    if_both (λ t. control t ≡ control sim) (leb 4 sim.s.current_step)
      (if is_running sim.s.status && not stepping then enter w 1 (go_home sim) else go_home sim)
      (enter w (sim.s.current_step + 1) sim)
      (if_both (λ t. control t ≡ control sim) (is_running sim.s.status && not stepping)
        (enter w 1 (go_home sim)) (go_home sim) (enter-control w (go_home sim) 1) refl)
      (enter-control w sim (sim.s.current_step + 1))

-- The work of a step keeps the status and the timer, or pauses the run and stops the timer.
pub run_step_work-control :
    (noble : Noble) (w : World) (sim next : Sim)
    → run_step_work noble w sim ≡ some next
    → (control next ≡ control sim) ⊎ (control next ≡ (paused, false))
unfolding halt exit
run_step_work-control noble w sim next e = elim (run_step_work-IsSameRun noble w sim next e) [
  | inl kept ↦ inl (ap (λ (r : Run). (r.status, r.timer)) kept)
  | inr (halted, _, _) ↦ inr (ap (λ (t : Sim). (t.s.status, t.has_timer)) halted)
]

-- ===== src/E2e/Settled.antt =====
-- Every event of the end-to-end simulator (e2eSim.ts) keeps the timer and the status together.
use pqc_qkd_hybrid_network.Base.{
  ℕ, ◌-◌, ◌≡◌, refl, [], sym, ap, subst, ◌∙◌, inl, inr, Bool, true, false, ◌||◌, ◌&&◌, some,
  Bool-cases, Option-cases, if_both, ltb, ◌==◌, arith,
}
use pqc_qkd_hybrid_network.E2e.State.{
  Mode, Status, running, stepped, did_run, did_resume, did_step, dwell_done,
}
use pqc_qkd_hybrid_network.E2e.Crypto.{Noble, World}
use pqc_qkd_hybrid_network.E2e.Fields.{Sim, is_running, record_action}
use pqc_qkd_hybrid_network.E2e.Work.{run_step_work, advance}
use pqc_qkd_hybrid_network.E2e.Sim.{
  set_status, enter_first, start, pause, resume, reset, abort, is_stepped, is_paused, relabel,
  begin_step, set_mode, set_packets_per_cycle, inject_failure, clear_failure, step, tick,
}
use pqc_qkd_hybrid_network.E2e.Events.{
  Event, starts, pauses, resumes, resets, aborts, steps, fires, clears, disposes, sets_mode,
  sets_packets, injects, handle,
}
use pqc_qkd_hybrid_network.E2e.Runs.{
  IsTimed, control, enter_first-control, ensure_loop-control, advance-control,
  run_step_work-control,
}

-- A status that is not running, with no timer.
not_timed : (c : Status × Bool) → is_running c.0 ≡ false → c.1 ≡ false → c.1 ≡ is_running c.0
not_timed c s t = cc

module _ (w : World) (noble : Noble) where
  start-IsTimed : (sim : Sim) → IsTimed (start w sim)
  unfolding start
  start-IsTimed sim =
      let logged = set_status running (record_action w did_run sim) in
      let c = ensure_loop-control w (enter_first w logged) in
      let d = enter_first-control w logged in
      ap (λ p. p.1) c ∙ sym (ap (λ p. is_running p.0) (c ∙ ap (λ p. (p.0, true)) d))

  resume-IsTimed : (sim : Sim) → IsTimed (resume w sim)
  unfolding resume
  resume-IsTimed sim =
      let c = ensure_loop-control w (set_status running (record_action w did_resume sim)) in
      ap (λ p. p.1) c ∙ sym (ap (λ p. is_running p.0) c)

  -- After the work of a step and the move to the next.
  worked-control :
      (stepping : Bool) (sim worked : Sim)
      → run_step_work noble w sim ≡ some worked
      → IsTimed sim
      → IsTimed (advance w stepping worked)
  worked-control stepping sim worked e t =
      let c = advance-control w stepping worked in
      elim (run_step_work-control noble w sim worked e) [
        | inl kept ↦ subst (λ p. p.1 ≡ is_running p.0) (sym (c ∙ kept)) t
        | inr halted ↦ subst (λ p. p.1 ≡ is_running p.0) (sym (c ∙ halted)) refl
      ]

  relabel-IsTimed : (before : Status) (sim : Sim) → IsTimed sim → IsTimed (relabel before sim)
  relabel-IsTimed before sim t = elim (Bool-cases (is_stepped sim.s.status && is_paused before)) [
    | inl label ↦ rw label (t ∙ stepped_stops sim.s.status (is_paused before) label)
    | inr keep ↦ rw keep t
  ]
    where
      stepped_stops : (s : Status) (b : Bool) → (is_stepped s && b) ≡ true → is_running s ≡ false
      stepped_stops s b h = ground arith

  step-IsTimed : (sim : Sim) → IsTimed sim → IsTimed (step noble w sim)
  unfolding step begin_step
  step-IsTimed sim t = elim (Bool-cases (is_running sim.s.status)) [
    | inl busy ↦ rw busy t
    | inr free ↦
        let logged = set_status stepped (record_action w did_step sim) in
        let begun = begin_step w sim in
        let c : control begun ≡ (stepped, false) =
          enter_first-control w logged ∙ ap (λ b. (stepped, b)) (t ∙ free) in
        let timed : IsTimed begun = subst (λ p. p.1 ≡ is_running p.0) (sym c) refl in
        elim (Option-cases (run_step_work noble w begun)) [
          | inl thrown ↦ rw (free, thrown) timed
          | inr (worked, e) ↦
              rw (free, e)
                (relabel-IsTimed sim.s.status (advance w true worked)
                  (worked-control true begun worked e timed))
        ]
  ]

  tick-IsTimed : (sim : Sim) → IsTimed sim → IsTimed (tick noble w sim)
  unfolding tick
  tick-IsTimed sim t =
      elim (Bool-cases
        (is_running sim.s.status && dwell_done (w.performance_now - sim.step_start) 500)) [
          | inr early ↦ rw early t
          | inl due ↦ elim (Option-cases (run_step_work noble w sim)) [
            | inl thrown ↦ rw (due, thrown) t
            | inr (worked, e) ↦ rw (due, e) (worked-control false sim worked e t)
          ]
        ]

  set_mode-IsTimed : (m : Mode) (sim : Sim) → IsTimed sim → IsTimed (set_mode w m sim).0
  unfolding set_mode
  set_mode-IsTimed m sim t = elim (Bool-cases (sim.s.current_step == 0)) [
    | inl home ↦ rw home t
    | inr within ↦ rw within t
  ]

  set_packets-IsTimed :
      (n : ℕ) (sim : Sim) → IsTimed sim → IsTimed (set_packets_per_cycle w n sim).0
  unfolding set_packets_per_cycle
  set_packets-IsTimed n sim t = elim (Bool-cases (ltb n 1 || ltb 1024 n)) [
    | inl out ↦ rw out t
    | inr within ↦ rw within t
  ]

-- What an event leaves: a timer that is set exactly while the status is running, but after `dispose`,
-- which keeps the status: then no timer is set, and no key is left.
pub record IsDisposed (sim next : Sim) : Type 0 where
  pub untimed : next.has_timer ≡ false
  pub same_status : next.s.status ≡ sim.s.status
  pub no_qkd : next.qkd_key ≡ []
  pub no_secret : next.pqc_secret ≡ []
  pub no_derived : next.derived ≡ []

abbrev pub IsSettled : Event → Sim → Sim → Type 0
IsSettled disposes sim next = IsDisposed sim next
IsSettled _ sim next = IsTimed next

-- Where the timer is set exactly while the status is running, every event but `dispose` keeps it so;
-- `dispose` leaves the status, but no timer and no key.
pub handle-IsSettled :
    (noble : Noble) (w : World) (e : Event) (sim : Sim)
    → IsTimed sim
    → IsSettled e sim (handle noble w e sim)
unfolding handle pause reset abort set_mode set_packets_per_cycle inject_failure clear_failure
handle-IsSettled noble w starts sim t = start-IsTimed w noble sim
handle-IsSettled noble w pauses sim t = refl
handle-IsSettled noble w resumes sim t = resume-IsTimed w noble sim
handle-IsSettled noble w resets sim t = refl
handle-IsSettled noble w aborts sim t = refl
handle-IsSettled noble w steps sim t = step-IsTimed w noble sim t
handle-IsSettled noble w fires sim t =
    if_both IsTimed sim.has_timer (tick noble w sim) sim (tick-IsTimed w noble sim t) t
handle-IsSettled noble w clears sim t = t
handle-IsSettled noble w disposes sim t = record {
  untimed = refl;
  same_status = refl;
  no_qkd = refl;
  no_secret = refl;
  no_derived = refl;
}
handle-IsSettled noble w (sets_mode m) sim t = set_mode-IsTimed w noble m sim t
handle-IsSettled noble w (sets_packets n) sim t = set_packets-IsTimed w noble n sim t
handle-IsSettled noble w (injects l) sim t = t

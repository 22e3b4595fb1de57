-- ===== src/E2e/Latched.antt =====
-- No event of the end-to-end simulator (e2eSim.ts) changes the settings of a cycle that has begun.
use pqc_qkd_hybrid_network.Base.{
  ℕ, ◌-◌, ◌≡◌, ◌≢◌, refl, sym, ap, subst, ◌∙◌, inl, inr, true, false, ◌||◌, ◌&&◌, Bool-cases,
  Option-cases, if_both, ltb, ◌==◌, arith,
}
use pqc_qkd_hybrid_network.E2e.State.{
  Mode, Status, running, stepped, did_run, did_resume, did_step, dwell_done,
}
use pqc_qkd_hybrid_network.E2e.Crypto.{Noble, World}
use pqc_qkd_hybrid_network.E2e.Fields.{Sim, is_running, record_action, emit, ensure_loop}
use pqc_qkd_hybrid_network.E2e.Work.{run_step_work, advance}
use pqc_qkd_hybrid_network.E2e.Sim.{
  set_status, enter_first, start, pause, resume, reset, abort, is_stepped, is_paused, relabel,
  begin_step, set_mode, set_packets_per_cycle, inject_failure, clear_failure, step, tick,
}
use pqc_qkd_hybrid_network.E2e.Events.{
  Event, starts, pauses, resumes, resets, aborts, steps, fires, clears, disposes, sets_mode,
  sets_packets, injects, handle,
}
use pqc_qkd_hybrid_network.E2e.Runs.{IsLatched, same, advance-IsLatched, run_step_work-settings}

module _ (w : World) (noble : Noble) where
  -- Where a cycle has begun nothing is entered.
  enter_first-within : (sim : Sim) → (sim.s.current_step == 0) ≡ false → enter_first w sim ≡ sim
  unfolding enter_first
  enter_first-within sim h = rw h refl

  start-IsLatched : (sim : Sim) → (sim.s.current_step == 0) ≡ false → IsLatched sim (start w sim)
  unfolding start ensure_loop
  start-IsLatched sim h =
      let logged = set_status running (record_action w did_run sim) in
      subst (λ t. IsLatched sim (emit (ensure_loop w t))) (sym (enter_first-within logged h))
        (if_both (λ t. IsLatched sim (emit t)) sim.has_timer logged
          (record logged {
            step_start = w.performance_now;
            cycle_start = w.performance_now;
            has_timer = true;
          })
          (record { same_mode = refl; same_packets = inl refl })
          (record { same_mode = refl; same_packets = inl refl }))

  resume-IsLatched : (sim : Sim) → IsLatched sim (resume w sim)
  unfolding resume ensure_loop
  resume-IsLatched sim =
      let logged = set_status running (record_action w did_resume sim) in
      if_both (λ t. IsLatched sim (emit t)) sim.has_timer logged
        (record logged {
          step_start = w.performance_now;
          cycle_start = w.performance_now;
          has_timer = true;
        })
        (record { same_mode = refl; same_packets = inl refl })
        (record { same_mode = refl; same_packets = inl refl })

  relabel-IsLatched :
      (old : Sim) (before : Status) (sim : Sim)
      → IsLatched old sim
      → IsLatched old (relabel before sim)
  relabel-IsLatched old before sim l =
      elim (Bool-cases (is_stepped sim.s.status && is_paused before)) [
        | inl label ↦ rw label (record { same_mode = l.same_mode; same_packets = l.same_packets })
        | inr keep ↦ rw keep l
      ]

  step-IsLatched :
      (sim : Sim) → (sim.s.current_step == 0) ≡ false → IsLatched sim (step noble w sim)
  unfolding step begin_step
  step-IsLatched sim h =
      let logged = set_status stepped (record_action w did_step sim) in
      let begun = begin_step w sim in
      let b : begun ≡ logged = enter_first-within logged h in
      elim (Bool-cases (is_running sim.s.status)) [
        | inl busy ↦ rw busy same
        | inr free ↦ elim (Option-cases (run_step_work noble w begun)) [
          | inl thrown ↦
              rw (free, thrown)
                (subst (IsLatched sim) (sym b)
                  (record { same_mode = refl; same_packets = inl refl }))
          | inr (worked, e) ↦
              let (m, c, at, n) = run_step_work-settings noble w begun worked e in
              let l =
                advance-IsLatched w sim true worked (m ∙ ap (λ (t : Sim). t.s.mode) b)
                  (c ∙ ap (λ (t : Sim). t.cycle_packets) b)
                  (at ∙ ap (λ (t : Sim). t.s.current_step) b)
                  (n ∙ ap (λ (t : Sim). t.s.steps_total) b) (ground arith) in
              let l' = relabel-IsLatched sim sim.s.status (advance w true worked) l in
              rw (free, e) (record { same_mode = l'.same_mode; same_packets = l'.same_packets })
        ]
      ]

  tick-IsLatched : (sim : Sim) → sim.s.current_step ≢ 0 → IsLatched sim (tick noble w sim)
  unfolding tick
  tick-IsLatched sim h =
      elim (Bool-cases
        (is_running sim.s.status && dwell_done (w.performance_now - sim.step_start) 500)) [
          | inr early ↦ rw early same
          | inl due ↦ elim (Option-cases (run_step_work noble w sim)) [
            | inl thrown ↦ rw (due, thrown) same
            | inr (worked, e) ↦
                let (m, c, at, n) = run_step_work-settings noble w sim worked e in
                let l = advance-IsLatched w sim false worked m c at n h in
                rw (due, e) (record { same_mode = l.same_mode; same_packets = l.same_packets })
          ]
        ]

  set_mode-within :
      (m : Mode) (sim : Sim) → (sim.s.current_step == 0) ≡ false → (set_mode w m sim).0 ≡ sim
  unfolding set_mode
  set_mode-within m sim h = rw h refl

  set_packets-IsLatched : (n : ℕ) (sim : Sim) → IsLatched sim (set_packets_per_cycle w n sim).0
  unfolding set_packets_per_cycle
  set_packets-IsLatched n sim = elim (Bool-cases (ltb n 1 || ltb 1024 n)) [
    | inl out ↦ rw out same
    | inr within ↦ rw within (record { same_mode = refl; same_packets = inl refl })
  ]

-- Once a cycle has begun no event changes its mode. Nor does any change the number of packets that it
-- seals, but where it is in step 4 and the event enters step 1 of the next cycle, by one more entry
-- of a step: that takes the number that is set.
pub handle-IsLatched :
    (noble : Noble) (w : World) (e : Event) (sim : Sim)
    → sim.s.current_step ≢ 0
    → IsLatched sim (handle noble w e sim)
unfolding handle pause reset abort inject_failure clear_failure
handle-IsLatched noble w starts sim h = start-IsLatched w noble sim (ground arith)
handle-IsLatched noble w pauses sim h = record { same_mode = refl; same_packets = inl refl }
handle-IsLatched noble w resumes sim h = resume-IsLatched w noble sim
handle-IsLatched noble w resets sim h = record { same_mode = refl; same_packets = inl refl }
handle-IsLatched noble w aborts sim h = record { same_mode = refl; same_packets = inl refl }
handle-IsLatched noble w steps sim h = step-IsLatched w noble sim (ground arith)
handle-IsLatched noble w fires sim h =
    if_both (IsLatched sim) sim.has_timer (tick noble w sim) sim (tick-IsLatched w noble sim h) same
handle-IsLatched noble w clears sim h = record { same_mode = refl; same_packets = inl refl }
handle-IsLatched noble w disposes sim h = record { same_mode = refl; same_packets = inl refl }
handle-IsLatched noble w (sets_mode m) sim h =
    subst (IsLatched sim) (sym (set_mode-within w noble m sim (ground arith))) same
handle-IsLatched noble w (sets_packets n) sim h = set_packets-IsLatched w noble n sim
handle-IsLatched noble w (injects l) sim h = record { same_mode = refl; same_packets = inl refl }

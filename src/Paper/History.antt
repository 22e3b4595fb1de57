-- ===== src/Paper/History.antt =====
-- Every event of the paper flow simulator (services/webui-frontend/src/lib/sim/paperSim.ts) keeps its
-- history in step with its phase.
use pqc_qkd_hybrid_network.Base.{
  ◌-◌, refl, inl, inr, not, Option, none, some, [], leb, ◌==◌, ==_iff, Bool-cases, if_both,
  Option-both,
}
use pqc_qkd_hybrid_network.E2e.State.{stepped, running, paused, dwell_done}
use pqc_qkd_hybrid_network.E2e.Crypto.{Noble, World}
use pqc_qkd_hybrid_network.E2e.Fields.{is_running}
use pqc_qkd_hybrid_network.E2e.Sim.{is_paused}
use pqc_qkd_hybrid_network.Paper.State.{
  nominal_phase_dwell_ms, cascade_emit_ms, did_step, did_run, did_resume,
}
use pqc_qkd_hybrid_network.Paper.Fields.{Sim, emit, record_action, ensure_loop}
use pqc_qkd_hybrid_network.Paper.Work.{run_phase}
use pqc_qkd_hybrid_network.Paper.Control.{
  set_status, begin_if_idle, start, pause, resume, reset, set_hop_count, inject_failure,
  clear_failure, advance_cascade, returned, after_run, relabel, tick_cascade, emit_cascade, Event,
  starts, pauses, resumes, resets, steps, fires, clears, disposes, sets_hops, injects, step, tick,
  fire, handle,
}
use pqc_qkd_hybrid_network.Paper.Done.{Yields}
use pqc_qkd_hybrid_network.Paper.Recorded.{
  at_rest, IsRecorded, Recorded-rest, begin_cycle-IsRecorded, run_phase-IsRecorded,
}

module _ (noble : Noble) (w : World) where
  going-IsRecorded : (s : Sim) → IsRecorded s → IsRecorded (ensure_loop w (begin_if_idle w s))
  unfolding ensure_loop begin_if_idle
  going-IsRecorded s h =
      let b = begin_if_idle w s in
      let begun : IsRecorded b = elim (Bool-cases (s.phase == 0)) [
        | inl first ↦ rw first (
            begin_cycle-IsRecorded w s
              (Recorded-rest s.phase s.history h ((==_iff s.phase 0).0 first)))
        | inr later ↦ rw later h
      ] in
      if_both IsRecorded b.has_timer b _ begun begun

  after_run-IsRecorded :
      (f : Sim → Sim) (s : Sim) (o : Option Sim)
      → ((t : Sim) → IsRecorded t → IsRecorded (f t))
      → IsRecorded s
      → Yields IsRecorded o
      → IsRecorded (after_run f s o).sim
  after_run-IsRecorded f s none keeps h y = h
  after_run-IsRecorded f s (some t) keeps h y = keeps t y

  step-IsRecorded : (s : Sim) → IsRecorded s → IsRecorded (step noble w s).sim
  unfolding step record_action
  step-IsRecorded s h =
      let begun = set_status stepped (record_action w did_step s) in
      if_both (λ c. IsRecorded c.sim) (is_running s.status) (returned s) _ h
        (elim (Bool-cases (s.phase == 0)) [
          | inl first ↦ rw first (
              begin_cycle-IsRecorded w begun
                (Recorded-rest s.phase s.history h ((==_iff s.phase 0).0 first)))
          | inr later ↦ rw later (
              after_run-IsRecorded (λ t. emit (relabel s.status t)) begun (run_phase noble w begun)
                (λ t k. if_both IsRecorded (is_paused s.status) (set_status paused t) t k k) h
                (run_phase-IsRecorded noble w begun h))
        ])

  tick_cascade-IsRecorded : (s : Sim) → IsRecorded s → IsRecorded (tick_cascade w s)
  unfolding tick_cascade advance_cascade
  tick_cascade-IsRecorded s h = Option-both IsRecorded s.fail_layer s _ h (λ l.
      Option-both IsRecorded s.last_tick_at s (λ t. advance_cascade w (w.performance_now - t) s) h
        (λ t. h))

  emit_cascade-IsRecorded : (s : Sim) → IsRecorded s → IsRecorded (emit_cascade w s)
  unfolding emit_cascade
  emit_cascade-IsRecorded s h = Option-both IsRecorded s.fail_layer s _ h (λ l.
      if_both IsRecorded (leb cascade_emit_ms (w.performance_now - s.last_cascade_emit))
        (emit (record s { last_cascade_emit = w.performance_now })) s h h)

  tick-IsRecorded : (s : Sim) → IsRecorded s → IsRecorded (tick noble w s).sim
  unfolding tick
  tick-IsRecorded s h =
      let s' = tick_cascade w s in
      let h' = tick_cascade-IsRecorded s h in
      if_both (λ c. IsRecorded c.sim) (not (is_running s.status)) (returned s) _ h
        (if_both (λ c. IsRecorded c.sim)
          (dwell_done (w.performance_now - s'.phase_start) nominal_phase_dwell_ms) _
          (returned (emit_cascade w s'))
          (after_run-IsRecorded (λ t. t) s' (run_phase noble w s') (λ t k. k) h'
            (run_phase-IsRecorded noble w s' h'))
          (emit_cascade-IsRecorded s' h'))

  -- Any event keeps the history in step with the phase: in phase 0 all records are completed, and
  -- in any other all but the last one, which is open and that of the phase.
  pub handle-IsRecorded : (e : Event) (s : Sim) → IsRecorded s → IsRecorded (handle noble w e s).sim
  unfolding handle fire start pause resume reset set_hop_count inject_failure clear_failure
      record_action
  handle-IsRecorded starts s h = going-IsRecorded (set_status running (record_action w did_run s)) h
  handle-IsRecorded resumes s h =
      going-IsRecorded (set_status running (record_action w did_resume s)) h
  handle-IsRecorded pauses s h = h
  handle-IsRecorded resets s h = at_rest [] refl tt
  handle-IsRecorded steps s h = step-IsRecorded s h
  handle-IsRecorded fires s h =
      if_both (λ c. IsRecorded c.sim) s.has_timer (tick noble w s) (returned s)
        (tick-IsRecorded s h) h
  handle-IsRecorded clears s h = h
  handle-IsRecorded disposes s h = h
  handle-IsRecorded (sets_hops n) s h = h
  handle-IsRecorded (injects l) s h = h

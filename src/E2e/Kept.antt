-- ===== src/E2e/Kept.antt =====
-- The bounds of the end-to-end simulator (e2eSim.ts) are kept by every event.
use pqc_qkd_hybrid_network.Base.{
  ℕ, refl, inl, inr, true, false, List, [], ◌∷◌, ◌||◌, ◌&&◌, ◌-◌, arith, Bool-cases, Option-cases,
  if_both, ltb, ◌==◌,
}
use pqc_qkd_hybrid_network.E2e.State.{
  Mode, Layer, did_run, did_pause, did_resume, did_reset, did_abort, did_step, did_clear,
  did_set_mode, did_set_packets, did_inject, running, stepped, dwell_done, Status,
}
use pqc_qkd_hybrid_network.E2e.Crypto.{Noble, World}
use pqc_qkd_hybrid_network.E2e.Fields.{
  Sim, fresh, new_sim, is_running, is_fatal, record_action, stop_loop, clear_key_material,
}
use pqc_qkd_hybrid_network.E2e.Work.{run_step_work, advance}
use pqc_qkd_hybrid_network.E2e.Sim.{
  set_status, enter_first, start, pause, resume, reset, abort, is_stepped, is_paused, relabel,
  begin_step, set_mode, set_packets_per_cycle, inject_failure, clear_failure, step, tick,
}
use pqc_qkd_hybrid_network.E2e.Events.{
  Event, starts, pauses, resumes, resets, aborts, steps, fires, clears, disposes, sets_mode,
  sets_packets, injects, handle, handle_all,
}
use pqc_qkd_hybrid_network.E2e.Bounds.{
  IsBounded, record_action-IsBounded, enter-IsBounded, ensure_loop-IsBounded,
  run_step_work-IsBounded, advance-IsBounded,
}

module _ (w : World) where
  enter_first-IsBounded : (sim : Sim) → IsBounded sim → IsBounded (enter_first w sim)
  unfolding enter_first
  enter_first-IsBounded sim b = elim (Bool-cases (sim.s.current_step == 0)) [
    | inl home ↦ rw home (enter-IsBounded w 1 sim (omega arith) b)
    | inr within ↦ rw within b
  ]

  start-IsBounded : (sim : Sim) → IsBounded sim → IsBounded (start w sim)
  unfolding start
  start-IsBounded sim b =
      let logged = set_status running (record_action w did_run sim) in
      ensure_loop-IsBounded w (enter_first w logged)
        (enter_first-IsBounded logged (record_action-IsBounded w did_run sim b))

  resume-IsBounded : (sim : Sim) → IsBounded sim → IsBounded (resume w sim)
  unfolding resume
  resume-IsBounded sim b =
      ensure_loop-IsBounded w (set_status running (record_action w did_resume sim))
        (record_action-IsBounded w did_resume sim b)

  reset-IsBounded : (sim : Sim) → IsBounded sim → IsBounded (reset w sim)
  unfolding reset is_fatal
  reset-IsBounded sim b =
      record_action-IsBounded w did_reset
        (record (clear_key_material
          (record (stop_loop sim) { s = fresh sim.s.mode sim.s.packets_per_cycle })) {
            cycle_bytes = 0;
            key_id = "";
            alice_pool = 0;
          })
        (record {
          history_fits = record { below = omega arith; counted = omega arith };
          actions_fit = record { below = omega arith; counted = omega arith };
          pool_fits = omega arith;
          step_exists = omega arith;
          packets_set = b.packets_set;
          packets_latched = b.packets_latched;
          verdict = refl;
          labelled = refl;
        })

  abort-IsBounded : (sim : Sim) → IsBounded sim → IsBounded (abort w sim)
  unfolding abort
  abort-IsBounded sim b =
      let c = record_action-IsBounded w did_abort sim b in
      record {
        history_fits = c.history_fits;
        actions_fit = c.actions_fit;
        pool_fits = c.pool_fits;
        step_exists = omega arith;
        packets_set = c.packets_set;
        packets_latched = c.packets_latched;
        verdict = c.verdict;
        labelled = c.labelled;
      }

  set_mode-IsBounded : (m : Mode) (sim : Sim) → IsBounded sim → IsBounded (set_mode w m sim).0
  unfolding set_mode
  set_mode-IsBounded m sim b = elim (Bool-cases (sim.s.current_step == 0)) [
    | inr within ↦ rw within b
    | inl home ↦
        let c = record_action-IsBounded w (did_set_mode m) sim b in
        rw home (record {
          history_fits = c.history_fits;
          actions_fit = c.actions_fit;
          pool_fits = c.pool_fits;
          step_exists = c.step_exists;
          packets_set = c.packets_set;
          packets_latched = c.packets_latched;
          verdict = refl;
          labelled = refl;
        })
  ]

  set_packets-IsBounded :
      (n : ℕ) (sim : Sim) → IsBounded sim → IsBounded (set_packets_per_cycle w n sim).0
  unfolding set_packets_per_cycle
  set_packets-IsBounded n sim b = elim (Bool-cases (ltb n 1 || ltb 1024 n)) [
    | inl out ↦ rw out b
    | inr within ↦
        let c = record_action-IsBounded w (did_set_packets n) sim b in
        rw within (record {
          history_fits = c.history_fits;
          actions_fit = c.actions_fit;
          pool_fits = c.pool_fits;
          step_exists = c.step_exists;
          packets_set = (ground arith, ground arith);
          packets_latched = c.packets_latched;
          verdict = c.verdict;
          labelled = c.labelled;
        })
  ]

  inject_failure-IsBounded :
      (l : Layer) (sim : Sim) → IsBounded sim → IsBounded (inject_failure w l sim)
  unfolding inject_failure
  inject_failure-IsBounded l sim b =
      let c = record_action-IsBounded w (did_inject l) sim b in
      record {
        history_fits = c.history_fits;
        actions_fit = c.actions_fit;
        pool_fits = c.pool_fits;
        step_exists = c.step_exists;
        packets_set = c.packets_set;
        packets_latched = c.packets_latched;
        verdict = refl;
        labelled = c.labelled;
      }

  clear_failure-IsBounded : (sim : Sim) → IsBounded sim → IsBounded (clear_failure w sim)
  unfolding clear_failure is_fatal
  clear_failure-IsBounded sim b =
      let c = record_action-IsBounded w did_clear sim b in
      record {
        history_fits = c.history_fits;
        actions_fit = c.actions_fit;
        pool_fits = c.pool_fits;
        step_exists = c.step_exists;
        packets_set = c.packets_set;
        packets_latched = c.packets_latched;
        verdict = refl;
        labelled = c.labelled;
      }

  relabel-IsBounded : (before : Status) (sim : Sim) → IsBounded sim → IsBounded (relabel before sim)
  relabel-IsBounded before sim b = elim (Bool-cases (is_stepped sim.s.status && is_paused before)) [
    | inl yes_paused ↦ rw yes_paused b
    | inr no_paused ↦ rw no_paused b
  ]

  module _ (noble : Noble) where
    step-IsBounded : (sim : Sim) → IsBounded sim → IsBounded (step noble w sim)
    unfolding step begin_step
    step-IsBounded sim b =
        let begun = begin_step w sim in
        let c =
          enter_first-IsBounded (set_status stepped (record_action w did_step sim))
            (record_action-IsBounded w did_step sim b) in
        elim (Bool-cases (is_running sim.s.status)) [
          | inl busy ↦ rw busy b
          | inr free ↦ elim (Option-cases (run_step_work noble w begun)) [
            | inl thrown ↦ rw (free, thrown) c
            | inr (worked, e) ↦
                rw (free, e)
                  (relabel-IsBounded sim.s.status (advance w true worked) (
                    advance-IsBounded w true worked
                      (run_step_work-IsBounded w noble begun worked e c)))
          ]
        ]

    tick-IsBounded : (sim : Sim) → IsBounded sim → IsBounded (tick noble w sim)
    unfolding tick
    tick-IsBounded sim b =
        elim (Bool-cases
          (is_running sim.s.status && dwell_done (w.performance_now - sim.step_start) 500)) [
            | inr early ↦ rw early b
            | inl due ↦ elim (Option-cases (run_step_work noble w sim)) [
              | inl thrown ↦ rw (due, thrown) b
              | inr (worked, e) ↦
                  rw (due, e)
                    (advance-IsBounded w false worked
                      (run_step_work-IsBounded w noble sim worked e b))
            ]
          ]

-- Every event keeps the bounds: at most 20 step records and 50 actions, no more than were counted; at
-- most 8 keys in the pool; a step from 0 to 4; packets per cycle, set and latched, from 1 to 1024; the
-- published verdict that of the failed layer and the mode, and the label that of the mode.
pub handle-IsBounded :
    (noble : Noble) (w : World) (e : Event) (sim : Sim)
    → IsBounded sim
    → IsBounded (handle noble w e sim)
unfolding handle pause
handle-IsBounded noble w starts sim b = start-IsBounded w sim b
handle-IsBounded noble w pauses sim b = record_action-IsBounded w did_pause sim b
handle-IsBounded noble w resumes sim b = resume-IsBounded w sim b
handle-IsBounded noble w resets sim b = reset-IsBounded w sim b
handle-IsBounded noble w aborts sim b = abort-IsBounded w sim b
handle-IsBounded noble w steps sim b = step-IsBounded w noble sim b
handle-IsBounded noble w fires sim b =
    if_both IsBounded sim.has_timer (tick noble w sim) sim (tick-IsBounded w noble sim b) b
handle-IsBounded noble w clears sim b = clear_failure-IsBounded w sim b
handle-IsBounded noble w disposes sim b = b
handle-IsBounded noble w (sets_mode m) sim b = set_mode-IsBounded w m sim b
handle-IsBounded noble w (sets_packets n) sim b = set_packets-IsBounded w n sim b
handle-IsBounded noble w (injects l) sim b = inject_failure-IsBounded w l sim b

pub new_sim-IsBounded : IsBounded new_sim
unfolding is_fatal
new_sim-IsBounded = record {
  history_fits = record { below = omega arith; counted = omega arith };
  actions_fit = record { below = omega arith; counted = omega arith };
  pool_fits = omega arith;
  step_exists = omega arith;
  packets_set = (omega arith, omega arith);
  packets_latched = (omega arith, omega arith);
  verdict = refl;
  labelled = refl;
}

-- After any events on a new simulator at most 20 step records and 50 actions are kept, the key pool has
-- at most 8 keys, the step is from 0 to 4, the packets per cycle, set and latched, are from 1 to 1024,
-- and the published verdict and label are those of the failed layer and the mode.
pub handle_all-IsBounded :
    (noble : Noble) (es : List (World × Event)) → IsBounded (handle_all noble es new_sim)
unfolding handle_all
handle_all-IsBounded noble es = go es new_sim new_sim-IsBounded
  where
    go :
        (es : List (World × Event)) (sim : Sim)
        → IsBounded sim
        → IsBounded (handle_all noble es sim)
    go [] sim b = b
    go (e ∷ es) sim b = go es (handle noble e.0 e.1 sim) (handle-IsBounded noble e.0 e.1 sim b)

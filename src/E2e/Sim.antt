-- ===== src/E2e/Sim.antt =====
-- The public methods of `E2ESim` (services/webui-frontend/src/lib/sim/e2eSim.ts), the tick of its
-- timer, and runs of them.
use pqc_qkd_hybrid_network.Base.{
  ℕ, ◌-◌, Bool, true, false, not, ◌&&◌, ◌||◌, none, some, ltb, ◌==◌, if◌then◌else◌,
}
use pqc_qkd_hybrid_network.E2e.State.{
  Mode, Layer, Status, idle, running, paused, stepped, did_run, did_pause, did_resume, did_reset,
  did_abort, did_step, did_clear, did_set_mode, did_set_packets, did_inject, no_error, aborted,
  mode_label_of, packets_per_cycle_min, packets_per_cycle_max, nominal_step_dwell_ms, dwell_done,
}
use pqc_qkd_hybrid_network.E2e.Crypto.{Noble, World}
use pqc_qkd_hybrid_network.E2e.Fields.{
  Sim, fresh, is_running, emit, record_action, enter, stop_loop, ensure_loop, clear_key_material,
  is_fatal,
}
use pqc_qkd_hybrid_network.E2e.Work.{run_step_work, advance}

abbrev pub set_status : Status → Sim → Sim
set_status status sim = record sim { s = record sim.s { status = status } }

-- `if (current_step === 0) enter(1)`
unfoldable pub enter_first : World → Sim → Sim
unfolding enter
enter_first w sim = if sim.s.current_step == 0 then enter w 1 sim else sim

unfoldable pub start : World → Sim → Sim
unfolding enter_first ensure_loop
start w sim =
    emit (ensure_loop w (enter_first w (set_status running (record_action w did_run sim))))

unfoldable pub pause : World → Sim → Sim
pause w sim = emit (stop_loop (set_status paused (record_action w did_pause sim)))

unfoldable pub resume : World → Sim → Sim
unfolding ensure_loop
resume w sim = emit (ensure_loop w (set_status running (record_action w did_resume sim)))

unfoldable pub reset : World → Sim → Sim
reset w sim =
    let cleared =
      clear_key_material
        (record (stop_loop sim) { s = fresh sim.s.mode sim.s.packets_per_cycle }) in
    emit
      (record_action w did_reset (record cleared { cycle_bytes = 0; key_id = ""; alice_pool = 0 }))

unfoldable pub abort : World → Sim → Sim
abort w sim =
    let stopped = stop_loop (record_action w did_abort sim) in
    let cleared = clear_key_material (record stopped {
      s = record stopped.s { status = idle; current_step = 0; step_name = "aborted" };
    }) in
    emit (record cleared {
      cycle_bytes = 0;
      key_id = "";
      s = record cleared.s { last_error = aborted };
    })

-- Whether the status is still the one of a manual step.
abbrev pub is_stepped : Status → Bool
is_stepped stepped = true
is_stepped _ = false

abbrev pub is_paused : Status → Bool
is_paused paused = true
is_paused _ = false

-- The label of a manual step, but where the run was paused before it.
abbrev pub relabel : Status → Sim → Sim
relabel before sim =
    if is_stepped sim.s.status && is_paused before then set_status paused sim else sim

-- Up to the work of the step.
unfoldable pub begin_step : World → Sim → Sim
unfolding enter_first
begin_step w sim = enter_first w (set_status stepped (record_action w did_step sim))

unfoldable pub set_mode : World → Mode → Sim → Sim × Bool
unfolding is_fatal
set_mode w mode sim =
    if not (sim.s.current_step == 0)
    then (sim, false)
    else let logged = record_action w (did_set_mode mode) sim in
      (
        emit (record logged {
          s = record logged.s {
            mode = mode;
            mode_label = mode_label_of mode;
            failure_is_fatal = is_fatal sim.s.failed_layer mode;
          };
        }),
        true,
      )

-- A number that is not whole is no ℕ, and is refused like one out of range.
unfoldable pub set_packets_per_cycle : World → ℕ → Sim → Sim × Bool
set_packets_per_cycle w n sim =
    if ltb n packets_per_cycle_min || ltb packets_per_cycle_max n
    then (sim, false)
    else let logged = record_action w (did_set_packets n) sim in
      (emit (record logged { s = record logged.s { packets_per_cycle = n } }), true)

unfoldable pub inject_failure : World → Layer → Sim → Sim
unfolding is_fatal
inject_failure w layer sim =
    let logged = record_action w (did_inject layer) sim in
    emit (record logged {
      s = record logged.s {
        failed_layer = some layer;
        failure_is_fatal = is_fatal (some layer) sim.s.mode;
      };
    })

unfoldable pub clear_failure : World → Sim → Sim
clear_failure w sim =
    let logged = record_action w did_clear sim in
    emit (record logged {
      s = record logged.s { failed_layer = none; failure_is_fatal = false; last_error = no_error };
    })

abbrev pub dispose : Sim → Sim
dispose sim = clear_key_material (stop_loop sim)

module _ (noble : Noble) where
  -- `step`, which leaves the state as it was when the work of the step throws.
  unfoldable pub step : World → Sim → Sim
  unfolding begin_step run_step_work advance
  step w sim =
      if is_running sim.s.status
      then sim
      else let begun = begin_step w sim in
        elim (run_step_work noble w begun) [
          | none ↦ begun
          | some worked ↦ emit (relabel sim.s.status (advance w true worked))
        ]

  -- `tick`, of a timer that is set.
  unfoldable pub tick : World → Sim → Sim
  unfolding dwell_done run_step_work advance
  tick w sim =
      if is_running sim.s.status
        && dwell_done (w.performance_now - sim.step_start) nominal_step_dwell_ms
      then elim (run_step_work noble w sim) [
        | none ↦ sim
        | some worked ↦ emit (advance w false worked)
      ]
      else sim

-- ===== src/Paper/Control.antt =====
-- The public methods of `PaperSim` (services/webui-frontend/src/lib/sim/paperSim.ts), the tick of its
-- timer, and runs of them.
use mathlib.Core.Option
use pqc_qkd_hybrid_network.Base.{
  ℕ, ◌+◌, ◌-◌, min, max, Bool, true, false, not, Option, none, some, List, [], ◌∷◌, map, leb, ◌==◌,
  if◌then◌else◌,
}
use pqc_qkd_hybrid_network.Base.Int.{ℤ, pos, negsuc}
use pqc_qkd_hybrid_network.E2e.State.{Status, running, paused, stepped, dwell_done}
use pqc_qkd_hybrid_network.E2e.Crypto.{Noble, World}
use pqc_qkd_hybrid_network.E2e.Fields.{is_running}
use pqc_qkd_hybrid_network.E2e.Sim.{is_paused}
use pqc_qkd_hybrid_network.Paper.State.{
  Layer, is_same, Stage, cascade_stages, nominal_phase_dwell_ms, cascade_emit_ms, max_hop_count,
  Scheduled, did_run, did_pause, did_resume, did_reset, did_step, did_clear, did_set_hops,
  did_inject,
}
use pqc_qkd_hybrid_network.Paper.Fields.{
  Sim, initial, is_reached, emit, record_action, begin_cycle, stop_loop, ensure_loop,
}
use pqc_qkd_hybrid_network.Paper.Work.{run_phase}

abbrev pub set_status : Status → Sim → Sim
set_status status s = record s { status = status }

-- `if (this.phase === 0) this.beginCycle()`
unfoldable pub begin_if_idle : World → Sim → Sim
begin_if_idle w s = if s.phase == 0 then begin_cycle w s else s

unfoldable pub start : World → Sim → Sim
start w s = emit (ensure_loop w (begin_if_idle w (set_status running (record_action w did_run s))))

unfoldable pub pause : World → Sim → Sim
pause w s = emit (stop_loop (set_status paused (record_action w did_pause s)))

unfoldable pub resume : World → Sim → Sim
resume w s =
    emit (ensure_loop w (begin_if_idle w (set_status running (record_action w did_resume s))))

-- The hop count, the phase start, the last tick and the last emission stay.
unfoldable pub reset : World → Sim → Sim
reset w s = emit (
    record_action w did_reset (record initial {
      hop = s.hop;
      last_tick_at = s.last_tick_at;
      last_cascade_emit = s.last_cascade_emit;
      phase_start = s.phase_start;
      shown = s.shown;
    }))

-- The number of the slider is whole.
unfoldable pub clamp_hops : ℤ → ℕ
clamp_hops (pos n) = max 1 (min max_hop_count n)
clamp_hops (negsuc n) = 1

unfoldable pub set_hop_count : World → ℤ → Sim → Sim
set_hop_count w n s =
    let hop = clamp_hops n in emit (record_action w (did_set_hops hop) (record s { hop = hop }))

-- `CASCADE_STAGES.slice(startIdx)`: the stages from the first of a layer on, or all of them.
unfoldable pub stages_from : Layer → List Stage → Option (List Stage)
stages_from layer [] = none
stages_from layer (c ∷ cs) = if is_same c.layer layer then some (c ∷ cs) else stages_from layer cs

-- A stage that an injection schedules, `base` after the first of all stages. No stage is before it.
abbrev pub schedule : ℕ → ℕ → Stage → Scheduled
schedule now base c = record {
  offset_s = c.offset_s - base;
  layer = c.layer;
  triggered_at = if c.offset_s == base then some now else none;
}

abbrev pub base_of : List Stage → ℕ
base_of [] = 0
base_of (c ∷ cs) = c.offset_s

unfoldable pub cascade_of : ℕ → Layer → List Scheduled
cascade_of now layer =
    let stages = Option.get_or (stages_from layer cascade_stages) cascade_stages in
    map (schedule now (base_of stages)) stages

unfoldable pub inject_failure : World → Layer → Sim → Sim
inject_failure w layer s = emit (record (record_action w (did_inject layer) s) {
  fail_layer = some layer;
  fail_started = some w.date_now;
  cascade_elapsed_ms = 0;
  cascade = cascade_of w.date_now layer;
})

unfoldable pub clear_failure : World → Sim → Sim
clear_failure w s = emit (record (record_action w did_clear s) {
  fail_layer = none;
  fail_started = none;
  cascade = [];
  cascade_elapsed_ms = 0;
})

abbrev pub dispose : Sim → Sim
dispose s = stop_loop s

-- A stage is stamped when the clock reaches it.
abbrev pub stamp : ℕ → ℕ → Scheduled → Scheduled
stamp wall elapsed_ms c = elim c.triggered_at [
  | some t ↦ c
  | none ↦ if is_reached elapsed_ms c then record c { triggered_at = some wall } else c
]

unfoldable pub advance_cascade : World → ℕ → Sim → Sim
advance_cascade w dt s =
    let elapsed = s.cascade_elapsed_ms + dt in
    record s { cascade_elapsed_ms = elapsed; cascade = map (stamp w.date_now elapsed) s.cascade }

-- What a call leaves, and whether it threw.
pub record Called : Type 0 where
  pub sim : Sim
  pub threw : Bool

abbrev pub returned : Sim → Called
returned s = record { sim = s; threw = false }

-- The state of a call after `runPhase`, which leaves it as it was when it throws.
abbrev pub after_run : (Sim → Sim) → Sim → Option Sim → Called
after_run f s none = record { sim = s; threw = true }
after_run f s (some s') = returned (f s')

-- A step from a paused run leaves it paused.
abbrev pub relabel : Status → Sim → Sim
relabel before s = if is_paused before then set_status paused s else s

-- The clock of the cascade at a tick.
unfoldable pub tick_cascade : World → Sim → Sim
tick_cascade w s =
    let advanced : Sim = elim s.fail_layer [
      | none ↦ s
      | some l ↦ elim s.last_tick_at [
        | none ↦ s
        | some t ↦ advance_cascade w (w.performance_now - t) s
      ]
    ] in
    record advanced { last_tick_at = some w.performance_now }

-- The state is published between phases only while a failure's cascade runs, and not too often.
unfoldable pub emit_cascade : World → Sim → Sim
emit_cascade w s = elim s.fail_layer [
  | none ↦ s
  | some l ↦
      if leb cascade_emit_ms (w.performance_now - s.last_cascade_emit)
      then emit (record s { last_cascade_emit = w.performance_now })
      else s
]

pub data Event : Type 0 where
  starts pauses resumes resets steps fires clears disposes : Event
  sets_hops : ℤ → Event
  injects : Layer → Event

module _ (noble : Noble) where
  unfoldable pub step : World → Sim → Called
  step w s =
      let begun = set_status stepped (record_action w did_step s) in
      let ran = after_run (λ s'. emit (relabel s.status s')) begun (run_phase noble w begun) in
      if is_running s.status
      then returned s
      else if s.phase == 0
      then returned (emit (begin_cycle w begun))
      else ran

  unfoldable pub tick : World → Sim → Called
  tick w s =
      let s' = tick_cascade w s in
      let ran = after_run (λ s''. s'') s' (run_phase noble w s') in
      if not (is_running s.status)
      then returned s
      else if dwell_done (w.performance_now - s'.phase_start) nominal_phase_dwell_ms
      then ran
      else returned (emit_cascade w s')

  -- The timer fires only while it is set.
  unfoldable pub fire : World → Sim → Called
  fire w s = if s.has_timer then tick w s else returned s

  unfoldable pub handle : World → Event → Sim → Called
  handle w starts s = returned (start w s)
  handle w pauses s = returned (pause w s)
  handle w resumes s = returned (resume w s)
  handle w resets s = returned (reset w s)
  handle w steps s = step w s
  handle w fires s = fire w s
  handle w clears s = returned (clear_failure w s)
  handle w disposes s = returned (dispose s)
  handle w (sets_hops n) s = returned (set_hop_count w n s)
  handle w (injects l) s = returned (inject_failure w l s)

  -- A run of events, up to one that throws.
  unfoldable pub handle_all : List (World × Event) → Sim → Called
  handle_all [] s = returned s
  handle_all (e ∷ es) s =
      let c = handle e.0 e.1 s in let rest = handle_all es c.sim in if c.threw then c else rest

-- ===== src/Paper/Fields.antt =====
-- The fields of `PaperSim` (services/webui-frontend/src/lib/sim/paperSim.ts), the state that it
-- publishes, and the private methods that record an action, begin a cycle and enter a phase.
use mathlib.Core.Option
use pqc_qkd_hybrid_network.Base.{
  ℕ, ◌+◌, ◌*◌, String, Bool, true, false, Option, none, some, List, [], ◌∷◌, ◌++◌, length, map, leb,
  ltb, if◌then◌else◌,
}
use pqc_qkd_hybrid_network.E2e.State.{Status, idle}
use pqc_qkd_hybrid_network.E2e.Crypto.{World}
use pqc_qkd_hybrid_network.E2e.Fields.{last_of}
use pqc_qkd_hybrid_network.Lab.Records.{push_limited}
use pqc_qkd_hybrid_network.Paper.State.{
  Layer, budget_of, phase_history_limit, action_log_limit, default_hop_count, Scheduled,
  CascadeEvent, Action, OperatorAction, PhaseRec, PaperFlowState,
}

-- The fields of the class; `has_timer` is `timer !== null`, and `shown` the state that `onState` was
-- last called with.
pub record Sim : Type 0 where
  pub status : Status
  pub phase : ℕ
  pub hop : ℕ
  pub cycles_total : ℕ
  pub cycles_succeeded : ℕ
  pub packets_total : ℕ
  pub bytes_total : ℕ
  pub last_payload : List ℕ
  pub qkd_key : Option (List ℕ)
  pub pqc_secret : Option (List ℕ)
  pub fail_layer : Option Layer
  pub fail_started : Option ℕ
  pub cascade : List Scheduled
  pub cascade_elapsed_ms : ℕ
  pub last_tick_at : Option ℕ
  pub last_cascade_emit : ℕ
  pub history : List PhaseRec
  pub phases_total : ℕ
  pub actions : List OperatorAction
  pub actions_total : ℕ
  pub cycle_accepted : Bool
  pub has_timer : Bool
  pub phase_start : ℕ
  pub shown : Option PaperFlowState

-- The fields of a new `PaperSim`, before it emits.
abbrev pub initial : Sim
initial = record {
  status = idle;
  phase = 0;
  hop = default_hop_count;
  cycles_total = 0;
  cycles_succeeded = 0;
  packets_total = 0;
  bytes_total = 0;
  last_payload = [];
  qkd_key = none;
  pqc_secret = none;
  fail_layer = none;
  fail_started = none;
  cascade = [];
  cascade_elapsed_ms = 0;
  last_tick_at = none;
  last_cascade_emit = 0;
  history = [];
  phases_total = 0;
  actions = [];
  actions_total = 0;
  cycle_accepted = true;
  has_timer = false;
  phase_start = 0;
  shown = none;
}

-- `this.cascadeElapsedS >= c.t_offset_s`
abbrev pub is_reached : ℕ → Scheduled → Bool
is_reached elapsed_ms c = leb (1000 * c.offset_s) elapsed_ms

abbrev pub event_of : ℕ → Scheduled → CascadeEvent
event_of elapsed_ms c = record {
  offset_s = c.offset_s;
  layer = c.layer;
  triggered_at = c.triggered_at;
  fired = is_reached elapsed_ms c;
}

unfoldable pub snapshot : Sim → PaperFlowState
snapshot s = record {
  status = s.status;
  current_phase = s.phase;
  current_phase_name = Option.get_or (Option.map (λ b. b.name) (budget_of s.phase)) "idle";
  hop_count = s.hop;
  cycles_total = s.cycles_total;
  cycles_succeeded = s.cycles_succeeded;
  packets_total = s.packets_total;
  bytes_total = s.bytes_total;
  last_data_payload_b64 = s.last_payload;
  active_layer = s.fail_layer;
  failure_started_at = s.fail_started;
  elapsed_ms = s.cascade_elapsed_ms;
  cascade = map (event_of s.cascade_elapsed_ms) s.cascade;
  history = last_of phase_history_limit s.history;
  phases_total = s.phases_total;
  operator_actions = s.actions;
  actions_total = s.actions_total;
}

abbrev pub emit : Sim → Sim
emit s = record s { shown = some (snapshot s) }

abbrev pub new_sim : Sim
new_sim = emit initial

-- `record`
unfoldable pub record_action : World → Action → Sim → Sim
record_action w a s = record s {
  actions = push_limited action_log_limit s.actions (record { at = w.date_now; action = a });
  actions_total = s.actions_total + 1;
}

-- `push`, then `slice` when the history is over its limit.
unfoldable pub push_history : List PhaseRec → PhaseRec → List PhaseRec
push_history history r =
    let pushed = history ++ r ∷ [] in
    if ltb phase_history_limit (length pushed) then last_of phase_history_limit pushed else pushed

-- `PHASE_BUDGETS[phase].name`
abbrev pub name_of : ℕ → String
name_of phase = Option.get_or (Option.map (λ b. b.name) (budget_of phase)) "undefined"

abbrev pub open_record : World → ℕ → PhaseRec
open_record w phase = record {
  phase = phase;
  name = name_of phase;
  started_at = w.date_now;
  completed_at = none;
  packets = 0;
  bytes = 0;
  detail = none;
}

-- `enterPhase`. The phases that are entered, 1 to 5, have a budget.
unfoldable pub enter_phase : World → ℕ → Sim → Sim
enter_phase w phase s = record s {
  phase = phase;
  history = push_history s.history (open_record w phase);
  phases_total = s.phases_total + 1;
  phase_start = w.performance_now;
}

unfoldable pub begin_cycle : World → Sim → Sim
begin_cycle w s = enter_phase w 1 (record s {
  cycles_total = s.cycles_total + 1;
  cycle_accepted = true;
  qkd_key = none;
  pqc_secret = none;
})

abbrev pub stop_loop : Sim → Sim
stop_loop s = record s { has_timer = false }

unfoldable pub ensure_loop : World → Sim → Sim
ensure_loop w s = if s.has_timer then s else record s {
  phase_start = w.performance_now;
  last_tick_at = some w.performance_now;
  has_timer = true;
}

-- ===== src/E2e/Fields.antt =====
-- The fields of `E2ESim` (services/webui-frontend/src/lib/sim/e2eSim.ts) and the private methods that
-- record, enter and leave a step. A method takes what the browser returns during the call and the
-- state, and returns the new state.
use mathlib.Core.Option
use pqc_qkd_hybrid_network.Base.{
  ℕ, ◌+◌, ◌-◌, ◌*◌, String, Bool, true, false, ◌&&◌, Option, none, some, List, [], ◌∷◌, ◌++◌,
  length, drop, ltb, ◌==◌, if◌then◌else◌,
}
use pqc_qkd_hybrid_network.E2e.State.{
  Mode, mode_a, mode_b, mode_c, Layer, qkd, pqc, data_layer, Status, idle, running, StepDetail,
  empty_detail, StepRec, Action, OperatorAction, no_error, E2eState, step_names, mode_label_of,
  default_packets_per_cycle, steps_per_cycle, step_history_limit, action_log_limit,
  nominal_step_dwell_ms,
}
use pqc_qkd_hybrid_network.E2e.Crypto.{World}

-- The fields of the class; `has_timer` is `timer !== null`, and `shown` the state that `onState` was
-- last called with.
pub record Sim : Type 0 where
  pub s : E2eState
  pub has_timer : Bool
  pub step_start : ℕ
  pub cycle_start : ℕ
  pub cycle_packets : ℕ
  pub qkd_key : List ℕ
  pub pqc_secret : List ℕ
  pub derived : List ℕ
  pub key_id : String
  pub cycle_bytes : ℕ
  pub alice_pool : ℕ
  pub shown : Option E2eState

abbrev pub fresh : Mode → ℕ → E2eState
fresh mode packets = record {
  status = idle;
  failed_layer = none;
  failure_is_fatal = false;
  current_step = 0;
  step_name = "idle";
  mode = mode;
  mode_label = mode_label_of mode;
  completed_cycles = 0;
  total_bytes_encrypted = 0;
  total_packets = 0;
  last_qkd_key_id = "";
  last_psk_prefix_hex = [];
  last_error = no_error;
  rate_bps = none;
  nominal_cycle_ms = steps_per_cycle * nominal_step_dwell_ms;
  packets_per_cycle = packets;
  history = [];
  steps_total = 0;
  operator_actions = [];
  actions_total = 0;
}

-- The state of a new `E2ESim`.
abbrev pub new_sim : Sim
new_sim = record {
  s = fresh mode_c default_packets_per_cycle;
  has_timer = false;
  step_start = 0;
  cycle_start = 0;
  cycle_packets = default_packets_per_cycle;
  qkd_key = [];
  pqc_secret = [];
  derived = [];
  key_id = "";
  cycle_bytes = 0;
  alice_pool = 0;
  shown = none;
}

abbrev pub is_running : Status → Bool
is_running running = true
is_running _ = false

abbrev pub is_layer : Layer → Option Layer → Bool
is_layer qkd (some qkd) = true
is_layer pqc (some pqc) = true
is_layer data_layer (some data_layer) = true
is_layer _ _ = false

abbrev pub is_mode : Mode → Mode → Bool
is_mode mode_a mode_a = true
is_mode mode_b mode_b = true
is_mode mode_c mode_c = true
is_mode _ _ = false

abbrev pub emit : Sim → Sim
emit sim = record sim { shown = some sim.s }

-- `push`, then `shift` when the log is over its limit.
unfoldable pub log_action : List OperatorAction → OperatorAction → List OperatorAction
log_action actions a =
    let pushed = actions ++ a ∷ [] in
    if ltb action_log_limit (length pushed) then drop 1 pushed else pushed

abbrev pub record_action : World → Action → Sim → Sim
record_action w a sim = record sim {
  s = record sim.s {
    operator_actions = log_action sim.s.operator_actions (record { at = w.date_now; action = a });
    actions_total = sim.s.actions_total + 1;
  };
}

-- `xs.slice(-n)`, for a positive `n`
abbrev pub last_of {ℓ} : {A : Type ℓ} → ℕ → List A → List A
last_of n xs = drop (length xs - n) xs

-- `push`, then `slice` when the history is over its limit.
unfoldable pub push_history : List StepRec → StepRec → List StepRec
push_history history r =
    let pushed = history ++ r ∷ [] in
    if ltb step_history_limit (length pushed) then last_of step_history_limit pushed else pushed

unfoldable pub enter : World → ℕ → Sim → Sim
enter w step sim =
    let first = step == 1 in
    record sim {
      s = record sim.s {
        current_step = step;
        step_name = Option.get_or (step_names step) "idle";
        history = push_history sim.s.history (record {
          step = step;
          name = Option.get_or (step_names step) "";
          started_at = w.date_now;
          completed_at = none;
          detail = empty_detail;
        });
        steps_total = sim.s.steps_total + 1;
      };
      cycle_start = if first then w.performance_now else sim.cycle_start;
      cycle_bytes = if first then 0 else sim.cycle_bytes;
      cycle_packets = if first then sim.s.packets_per_cycle else sim.cycle_packets;
      step_start = w.performance_now;
    }

-- `completed_at === null`
abbrev pub is_null : Option ℕ → Bool
is_null none = true
is_null (some t) = false

-- The last record of the step that is not completed, completed; nothing where there is none.
unfoldable pub complete_last : ℕ → ℕ → StepDetail → List StepRec → Option (List StepRec)
complete_last step now detail [] = none
complete_last step now detail (r ∷ rs) = elim (complete_last step now detail rs) [
  | some rs' ↦ some (r ∷ rs')
  | none ↦
      if r.step == step && is_null r.completed_at
      then some (record r { completed_at = some now; detail = detail } ∷ rs)
      else none
]

unfoldable pub exit : World → StepDetail → Sim → Sim
exit w detail sim = record sim {
  s = record sim.s {
    history =
        Option.get_or (complete_last sim.s.current_step w.date_now detail sim.s.history)
          sim.s.history;
  };
}

abbrev pub stop_loop : Sim → Sim
stop_loop sim = record sim { has_timer = false }

unfoldable pub ensure_loop : World → Sim → Sim
ensure_loop w sim = if sim.has_timer then sim else record sim {
  step_start = w.performance_now;
  cycle_start = w.performance_now;
  has_timer = true;
}

-- Filling the old arrays with zeros cannot be seen: nothing else holds them.
abbrev pub clear_key_material : Sim → Sim
clear_key_material sim = record sim {
  qkd_key = [];
  pqc_secret = [];
  derived = [];
  s = record sim.s { last_qkd_key_id = ""; last_psk_prefix_hex = [] };
}

-- `failureIsFatal`
unfoldable pub is_fatal : Option Layer → Mode → Bool
is_fatal none mode = false
is_fatal (some data_layer) mode = true
is_fatal (some qkd) mode = is_mode mode mode_a
is_fatal (some pqc) mode = is_mode mode mode_b

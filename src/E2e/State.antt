-- ===== src/E2e/State.antt =====
-- The types and constants of services/webui-frontend/src/lib/sim/e2eSim.ts and pacing.ts. Times are
-- in milliseconds, and a text that is only shown is the constructor of its kind.
use mathlib.Core.Option
use pqc_qkd_hybrid_network.Base.{
  ℕ, ◌-◌, ◌*◌, ◌/◌, String, Bool, Option, none, some, List, map, leb, ◌==◌, if◌then◌else◌,
}
use pqc_qkd_hybrid_network.Base.Int.{ℤ, sub_ℕ}

pub data Mode : Type 0 where
  mode_a mode_b mode_c : Mode

-- A layer that the operator can knock out.
pub data Layer : Type 0 where
  qkd pqc data_layer : Layer

pub data Status : Type 0 where
  idle running paused stepped : Status

-- One constructor for each object that `exit` is given, and the empty one of `enter`.
pub data StepDetail : Type 0 where
  empty_detail no_secret : StepDetail
  plane_failed plane : (alice_pool : ℕ) → StepDetail
  ids_failed : (key_id : String) (alice_pool : ℕ) → StepDetail
  ids : (key_id : String) (qkd_key_len alice_pool : ℕ) → StepDetail
  derived_psk : (psk_prefix : List ℕ) (qkd_bytes pqc_bytes : ℕ) → StepDetail
  refused : Option Layer → StepDetail
  exchanged : (packets bytes elapsed_ms : ℕ) → StepDetail

pub record StepRec : Type 0 where
  pub step : ℕ
  pub name : String
  pub started_at : ℕ
  pub completed_at : Option ℕ
  pub detail : StepDetail

-- One constructor for each text that `record` is given.
pub data Action : Type 0 where
  did_run did_pause did_resume did_reset did_abort did_step did_clear : Action
  did_set_mode : Mode → Action
  did_set_packets : ℕ → Action
  did_inject : Layer → Action

pub record OperatorAction : Type 0 where
  pub at : ℕ
  pub action : Action

-- One constructor for each text of `last_error`.
pub data LastError : Type 0 where
  no_error aborted data_failed : LastError
  only_source_failed degraded : Layer → Mode → LastError

-- Bits over milliseconds: the rate in bit/s is a thousand times their quotient.
pub record Rate : Type 0 where
  pub bits : ℕ
  pub elapsed_ms : ℕ

-- `engine`, a constant label, is left out.
pub record E2eState : Type 0 where
  pub status : Status
  pub failed_layer : Option Layer
  pub failure_is_fatal : Bool
  pub current_step : ℕ
  pub step_name : String
  pub mode : Mode
  pub mode_label : String
  pub completed_cycles : ℕ
  pub total_bytes_encrypted : ℕ
  pub total_packets : ℕ
  pub last_qkd_key_id : String
  pub last_psk_prefix_hex : List ℕ
  pub last_error : LastError
  pub rate_bps : Option Rate
  pub nominal_cycle_ms : ℕ
  pub packets_per_cycle : ℕ
  pub history : List StepRec
  pub steps_total : ℕ
  pub operator_actions : List OperatorAction
  pub actions_total : ℕ

abbrev pub step_names : ℕ → Option String
step_names n =
    if n == 1
    then some "Quantum Plane"
    else if n == 2
    then some "QKD Key IDs (ETSI 014)"
    else if n == 3
    then some "PQC Handshake (HKDF-SHA3-256)"
    else if n == 4
    then some "Data Exchange (ChaCha20-Poly1305)"
    else none

abbrev pub mode_label_of : Mode → String
mode_label_of mode_a = "QKD-only"
mode_label_of mode_b = "PQC-only"
mode_label_of mode_c = "Hybrid (QKD ‖ PQC)"

abbrev pub default_packets_per_cycle : ℕ
default_packets_per_cycle = 64

abbrev pub packets_per_cycle_min : ℕ
packets_per_cycle_min = 1

abbrev pub packets_per_cycle_max : ℕ
packets_per_cycle_max = 1024

abbrev pub steps_per_cycle : ℕ
steps_per_cycle = 4

abbrev pub step_history_limit : ℕ
step_history_limit = 20

abbrev pub action_log_limit : ℕ
action_log_limit = 50

abbrev pub key_pool_capacity : ℕ
key_pool_capacity = 8

abbrev pub loop_tick_ms : ℕ
loop_tick_ms = 100

abbrev pub dwell_ms : ℕ → ℕ
dwell_ms ticks = ticks * loop_tick_ms

-- With half a tick of tolerance.
unfoldable pub dwell_done : ℕ → ℕ → Bool
dwell_done elapsed_ms nominal_ms = leb (nominal_ms - loop_tick_ms / 2) elapsed_ms

abbrev pub nominal_step_dwell_ms : ℕ
nominal_step_dwell_ms = dwell_ms 5

-- A row of the CSV, without the columns of the detail.
pub record CsvRow : Type 0 where
  pub step : ℕ
  pub name : String
  pub started_at : ℕ
  pub completed_at : Option ℕ
  pub ui_dwell_ms : Option ℤ
  pub nominal_dwell_ms : ℕ
  pub detail : StepDetail

-- A completion time of 0 counts as none.
unfoldable pub e2e_csv_rows : List StepRec → List CsvRow
e2e_csv_rows history = map row history
  where
    truthy : Option ℕ → Option ℕ
    truthy none = none
    truthy (some t) = if t == 0 then none else some t

    row : StepRec → CsvRow
    row h = record {
      step = h.step;
      name = h.name;
      started_at = h.started_at;
      completed_at = truthy h.completed_at;
      ui_dwell_ms = Option.map (λ t. sub_ℕ t h.started_at) (truthy h.completed_at);
      nominal_dwell_ms = nominal_step_dwell_ms;
      detail = h.detail;
    }

-- ===== src/Paper/State.antt =====
-- The types and constants of services/webui-frontend/src/lib/sim/paperSim.ts. Times are in milliseconds,
-- and a text that is only shown is the constructor of its kind.
use pqc_qkd_hybrid_network.Base.{
  ℕ, ◌+◌, String, Bool, true, false, Option, none, some, List, [], ◌∷◌, map, find, ◌==◌,
  if◌then◌else◌,
}
use pqc_qkd_hybrid_network.E2e.State.{dwell_ms, Status}

pub data Layer : Type 0 where
  qkd arnika wireguard rosenpass data_layer : Layer

abbrev pub is_same : Layer → Layer → Bool
is_same qkd qkd = true
is_same arnika arnika = true
is_same wireguard wireguard = true
is_same rosenpass rosenpass = true
is_same data_layer data_layer = true
is_same _ _ = false

-- The descriptions of the phases are left out.
pub record PhaseBudget : Type 0 where
  pub phase : ℕ
  pub name : String
  pub packets : ℕ
  pub bytes : ℕ
  pub period_s : Option ℕ
  pub grace_s : ℕ

-- `PHASE_BUDGETS`, each with its phase.
abbrev pub phase_budgets : List PhaseBudget
phase_budgets =
    record {
      phase = 1;
      name = "Quantum Plane";
      packets = 0;
      bytes = 0;
      period_s = none;
      grace_s = 0;
    }
    ∷ record {
      phase = 2;
      name = "Arnika QKD key_ID exchange";
      packets = 2;
      bytes = 78;
      period_s = some 120;
      grace_s = 60;
    }
    ∷ record {
      phase = 3;
      name = "WireGuard hop handshake";
      packets = 3;
      bytes = 398;
      period_s = some 120;
      grace_s = 60;
    }
    ∷ record {
      phase = 4;
      name = "Rosenpass PQC handshake";
      packets = 4;
      bytes = 4772;
      period_s = some 120;
      grace_s = 60;
    }
    ∷ record {
      phase = 5;
      name = "Final data tunnel + Data Exchange";
      packets = 0;
      bytes = 0;
      period_s = some 120;
      grace_s = 60;
    }
    ∷ []

-- `PHASE_BUDGETS[phase]`
abbrev pub budget_of : ℕ → Option PhaseBudget
budget_of phase = find (λ b. b.phase == phase) phase_budgets

abbrev pub short_name_of : ℕ → Option String
short_name_of n =
    if n == 1
    then some "Quantum Plane"
    else if n == 2
    then some "QKD key_ID exchange"
    else if n == 3
    then some "WireGuard hop"
    else if n == 4
    then some "Rosenpass PQC"
    else if n == 5
    then some "Data tunnel"
    else none

-- `PHASE_NAMES`
abbrev pub phase_names : List (ℕ × String × Option String)
phase_names = map (λ b. (b.phase, b.name, short_name_of b.phase)) phase_budgets

abbrev pub sum_of : (PhaseBudget → ℕ) → List PhaseBudget → ℕ
sum_of f [] = 0
sum_of f (b ∷ bs) = f b + sum_of f bs

abbrev pub total_packets : ℕ
total_packets = sum_of (λ b. b.packets) phase_budgets

abbrev pub total_bytes : ℕ
total_bytes = sum_of (λ b. b.bytes) phase_budgets

-- The description of a stage is left out.
pub record Stage : Type 0 where
  pub offset_s : ℕ
  pub layer : Layer

abbrev pub cascade_stages : List Stage
cascade_stages =
    record { offset_s = 0; layer = qkd }
    ∷ record { offset_s = 180; layer = arnika }
    ∷ record { offset_s = 240; layer = wireguard }
    ∷ record { offset_s = 300; layer = wireguard }
    ∷ record { offset_s = 360; layer = rosenpass }
    ∷ record { offset_s = 420; layer = rosenpass }
    ∷ record { offset_s = 480; layer = data_layer }
    ∷ record { offset_s = 540; layer = data_layer }
    ∷ record { offset_s = 720; layer = data_layer }
    ∷ []

abbrev pub phase_of_layer : Layer → ℕ
phase_of_layer qkd = 1
phase_of_layer arnika = 2
phase_of_layer wireguard = 3
phase_of_layer rosenpass = 4
phase_of_layer data_layer = 5

abbrev pub nominal_phase_dwell_ms : ℕ
nominal_phase_dwell_ms = dwell_ms 4

abbrev pub phase_history_limit : ℕ
phase_history_limit = 30

abbrev pub action_log_limit : ℕ
action_log_limit = 50

abbrev pub cascade_emit_ms : ℕ
cascade_emit_ms = 500

abbrev pub default_hop_count : ℕ
default_hop_count = 4

abbrev pub max_hop_count : ℕ
max_hop_count = 8

-- `CascadeSched`
pub record Scheduled : Type 0 where
  pub offset_s : ℕ
  pub layer : Layer
  pub triggered_at : Option ℕ

-- `CascadeEvent`
pub record CascadeEvent : Type 0 where
  pub offset_s : ℕ
  pub layer : Layer
  pub triggered_at : Option ℕ
  pub fired : Bool

-- One constructor for each text that `record` is given.
pub data Action : Type 0 where
  did_run did_pause did_resume did_reset did_step did_clear : Action
  did_set_hops : ℕ → Action
  did_inject : Layer → Action

pub record OperatorAction : Type 0 where
  pub at : ℕ
  pub action : Action

-- What phase 5 adds to the detail; the two labels are constants and left out.
pub record Sealed : Type 0 where
  pub data_bytes : ℕ
  pub psk_prefix : List ℕ

pub record Detail : Type 0 where
  pub period_s : Option ℕ
  pub grace_s : ℕ
  pub failed : Bool
  pub hop_psk_prefix : Option (List ℕ)
  pub sealed : Option Sealed

-- The empty detail of a record that is open is none.
pub record PhaseRec : Type 0 where
  pub phase : ℕ
  pub name : String
  pub started_at : ℕ
  pub completed_at : Option ℕ
  pub packets : ℕ
  pub bytes : ℕ
  pub detail : Option Detail

-- `PaperFlowState`, without the budgets, which are constants, and the label of the engine.
pub record PaperFlowState : Type 0 where
  pub status : Status
  pub current_phase : ℕ
  pub current_phase_name : String
  pub hop_count : ℕ
  pub cycles_total : ℕ
  pub cycles_succeeded : ℕ
  pub packets_total : ℕ
  pub bytes_total : ℕ
  pub last_data_payload_b64 : List ℕ
  pub active_layer : Option Layer
  pub failure_started_at : Option ℕ
  pub elapsed_ms : ℕ
  pub cascade : List CascadeEvent
  pub history : List PhaseRec
  pub phases_total : ℕ
  pub operator_actions : List OperatorAction
  pub actions_total : ℕ

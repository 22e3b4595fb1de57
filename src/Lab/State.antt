-- ===== src/Lab/State.antt =====
-- The state of the class `ProtocolLabSim` (services/webui-frontend/src/lib/sim/protocolLabSim.ts) and the
-- methods that record into it. Times of day and random values are arguments.
use mathlib.Core.Option
use pqc_qkd_hybrid_network.Base.{
  ℕ, zero, suc, ◌+◌, ◌*◌, ◌/◌, String, Bool, Option, none, some, List, [], ◌∷◌,
}
use pqc_qkd_hybrid_network.Base.Int.{pos_part}
use pqc_qkd_hybrid_network.Etsi004.Stream.{Transition, CallResult, Env}
use pqc_qkd_hybrid_network.Etsi004.Km.{Km}
use pqc_qkd_hybrid_network.Routing.Rank.{RouteChoice}
use pqc_qkd_hybrid_network.Lab.Relay.{LastRelay, relay_sample}
use pqc_qkd_hybrid_network.Lab.Records.{
  Lane, lane_004, TimelineMessage, TickStepId, StepOutcome, TickStep, TickRelay, TickTrace, TickRec,
  trace_step, trace_route, trace_relay_over, log_message,
}
use pqc_qkd_hybrid_network.Lab.Routes.{Lab}
use pqc_qkd_hybrid_network.Lab.Scenario.{Preset, Scenario}
use pqc_qkd_hybrid_network.Lab.Wording.{call_text}

pub data Status : Type 0 where
  idle running paused stepped : Status

abbrev pub is_running : Status → Bool
is_running running = Bool.true
is_running _ = Bool.false

-- The key store of a service. Its reading note, a label, is left out.
pub record Service : Type 0 where
  pub stored : ℕ
  pub capacity : ℕ
  pub refill_at : ℕ
  pub refill_to : ℕ
  pub refills : ℕ
  pub failed_refills : ℕ

-- The fields that only ticks and controls use, beside those of `Lab`. A rate of key requests, and the
-- credit of the demand, are in thousandths of a key. `draws` and `opened` count the calls of
-- `randomBytes` and `newKsid`; `timer_on` says whether the interval timer is set.
pub record Sim : Type 0 where
  pub preset : Preset
  pub scenario : Option Scenario
  pub lab : Lab
  pub status : Status
  pub credit : List (String × ℕ)
  pub keys_per_s : Option ℕ
  pub demand_credit : ℕ
  pub delivered : ℕ
  pub unmet : ℕ
  pub requests_ok : ℕ
  pub requests_failed : ℕ
  pub service : Option Service
  pub km : Km
  pub ksid : Option String
  pub last_status : Option ℕ
  pub messages : List TimelineMessage
  pub last_relay : Option LastRelay
  pub history : List TickRec
  pub pending_event : List String
  pub pace_ms : ℕ
  pub last_tick : Option TickTrace
  pub trace_steps : List TickStep
  pub trace_relay : Option TickRelay
  pub last_tick_start : Option ℕ
  pub last_advance : ℕ
  pub timer_on : Bool
  pub draws : ℕ
  pub opened : ℕ

-- What the platform answers to the n-th call of `randomBytes(KEY_BYTES)` and of `newKsid`.
pub record Platform : Type 0 where
  pub random_bytes : ℕ → List ℕ
  pub new_ksid : ℕ → String

abbrev pub key_bytes : Sim → ℕ
key_bytes s = s.lab.key_bits / 8

-- `tickN * tickS`
abbrev pub time_s : Sim → ℕ
time_s s = s.lab.tick_n * s.lab.tick_s

abbrev pub is_some {ℓ} : {A : Type ℓ} → Option A → Bool
is_some none = Bool.false
is_some (some a) = Bool.true

abbrev pub capacity_of : Option RouteChoice → Option ℕ
capacity_of none = none
capacity_of (some r) = Option.map pos_part r.bottleneck_bps

-- What the functions that the key manager is built with return in a state. Rates are not negative.
abbrev pub env_of : Platform → Sim → Env
env_of w s = record {
  key_chunk_bytes = key_bytes s;
  route_up = is_some s.lab.route;
  capacity = capacity_of s.lab.route;
  now = time_s s * 1000;
  new_ksid = w.new_ksid s.opened;
}

-- `log`
unfoldable pub log : Lane → String → Option ℕ → Option Transition → Sim → Sim
log lane text status transition s = record s {
  messages =
      log_message
        (record {
          t_s = time_s s;
          lane = lane;
          text = text;
          status = status;
          http = none;
          transition = transition;
        })
        s.messages;
}

-- `log004`
unfoldable pub log_004 : String → CallResult → Sim → Sim
log_004 call r s = record s {
  messages =
      log_message
        (record {
          t_s = time_s s;
          lane = lane_004;
          text = call_text (key_bytes s) call r;
          status = r.status;
          http = r.http;
          transition = some r.transition;
        })
        s.messages;
}

-- `traceStep`, `traceRoute` and `traceRelayOver`
unfoldable pub note : TickStepId → StepOutcome → String → Sim → Sim
note id outcome detail s = record s { trace_steps = trace_step id outcome detail s.trace_steps }

unfoldable pub note_route : Sim → Sim
note_route s = record s { trace_steps = trace_route s.lab.route s.lab.route_none s.trace_steps }

unfoldable pub note_relay : String → Sim → Sim
note_relay amount s = record s { trace_relay = trace_relay_over amount s.lab.route s.trace_relay }

-- The pads of a route, one for each hop.
unfoldable pub pads_from : Platform → ℕ → ℕ → List (List ℕ)
pads_from w n zero = []
pads_from w n (suc hops) = w.random_bytes n ∷ pads_from w (suc n) hops

abbrev pub hops_of : Option RouteChoice → ℕ
hops_of none = 0
hops_of (some r) = r.hops

-- `relaySample`: the key is drawn before the pads.
unfoldable pub relay_key : Platform → Sim → Sim × List ℕ
relay_key w s =
    let hops = hops_of s.lab.route in
    let key = w.random_bytes s.draws in
    (
      record s {
        draws = s.draws + 1 + hops;
        last_relay = some (relay_sample key (pads_from w (suc s.draws) hops));
      },
      key,
    )

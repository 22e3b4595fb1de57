-- ===== src/Lab/Records.antt =====
-- The types of the protocol lab (services/webui-frontend/src/lib/sim/protocolLabSim.ts) that record a
-- tick, and the functions that only record.
use mathlib.Core.Option
use pqc_qkd_hybrid_network.Base.{
  ℕ, String, Option, none, some, List, [], ◌∷◌, ◌++◌, length, drop, ltb, if◌then◌else◌,
}
use pqc_qkd_hybrid_network.Base.Int.{ℤ}
use pqc_qkd_hybrid_network.E2e.State.{dwell_ms}
use pqc_qkd_hybrid_network.Etsi004.Stream.{Transition}
use pqc_qkd_hybrid_network.Routing.Rank.{RouteChoice, join}
use pqc_qkd_hybrid_network.Routing.Select.{NoRoute, endpoint_down, no_path, every_path_blocked}
use pqc_qkd_hybrid_network.Lab.Links.{Accounting, keys, stores, service_buffer, route_only}

abbrev pub nominal_tick_dwell_ms : ℕ
nominal_tick_dwell_ms = dwell_ms 3

-- The dwells that the page offers.
abbrev pub tick_paces : List ℕ
tick_paces = dwell_ms 24 ∷ dwell_ms 12 ∷ nominal_tick_dwell_ms ∷ []

abbrev pub history_limit : ℕ
history_limit = 500

abbrev pub message_limit : ℕ
message_limit = 60

pub data Lane : Type 0 where
  lane_014 lane_004 : Lane

pub record TimelineMessage : Type 0 where
  pub t_s : ℕ
  pub lane : Lane
  pub text : String
  pub status : Option ℕ
  pub http : Option ℕ
  pub transition : Option Transition

pub data TickStepId : Type 0 where
  generate stream route relay deliver : TickStepId

pub data StepOutcome : Type 0 where
  ok wait fail idle : StepOutcome

pub record TickStep : Type 0 where
  pub id : TickStepId
  pub outcome : StepOutcome
  pub detail : String

-- What crossed the route.
pub record TickRelay : Type 0 where
  pub nodes : List String
  pub link_ids : List String
  pub amount : String

pub record TickTrace : Type 0 where
  pub tick : ℕ
  pub t_s : ℕ
  pub steps : List TickStep
  pub relay : Option TickRelay

-- What a tick does in each mode, in order, without the labels.
abbrev pub tick_pipeline : Accounting → List TickStepId
tick_pipeline keys = generate ∷ stream ∷ route ∷ relay ∷ deliver ∷ []
tick_pipeline stores = generate ∷ route ∷ relay ∷ deliver ∷ []
tick_pipeline service_buffer = deliver ∷ route ∷ relay ∷ []
tick_pipeline route_only = route ∷ []

-- A dwell or a number of relays that the source leaves as the empty text is none.
pub record TickRec : Type 0 where
  pub tick : ℕ
  pub sim_time_s : ℕ
  pub started_at : ℕ
  pub ui_dwell_ms : Option ℤ
  pub nominal_dwell_ms : ℕ
  pub route : String
  pub relays : Option ℕ
  pub delivered_bits : ℕ
  pub unmet_bits : ℕ
  pub event : String
  pub buffers : List (String × Option ℤ)

pub data RerouteReason : Type 0 where
  started below_threshold link_failed node_failed alarm recovered no_route_left : RerouteReason

pub record Reroute : Type 0 where
  pub t_s : ℕ
  pub from : Option (List String)
  pub to : Option (List String)
  pub reason : RerouteReason

-- `push`, then `shift` when the list is over its limit.
abbrev pub push_limited {ℓ} : {A : Type ℓ} → ℕ → List A → A → List A
push_limited limit xs x =
    let pushed = xs ++ x ∷ [] in if ltb limit (length pushed) then drop 1 pushed else pushed

-- The text of a selection without a route.
abbrev pub no_route_text : NoRoute → String
no_route_text (endpoint_down n) = join n ("endpoint " ∷ " is down" ∷ [])
no_route_text no_path = "no path of working links"
no_route_text every_path_blocked = "every path has a hop that cannot carry the request"

abbrev pub trace_step : TickStepId → StepOutcome → String → List TickStep → List TickStep
trace_step id outcome detail steps =
    steps ++ record { id = id; outcome = outcome; detail = detail } ∷ []

unfoldable pub trace_route : Option RouteChoice → Option NoRoute → List TickStep → List TickStep
unfolding join
trace_route (some r) why steps = trace_step route ok (join " > " r.nodes) steps
trace_route none why steps =
    trace_step route fail (Option.get_or (Option.map no_route_text why) "no route") steps

unfoldable pub trace_relay_over : String → Option RouteChoice → Option TickRelay → Option TickRelay
trace_relay_over amount none before = before
trace_relay_over amount (some r) before =
    some (record { nodes = r.nodes; link_ids = r.link_ids; amount = amount })

unfoldable pub log_message : TimelineMessage → List TimelineMessage → List TimelineMessage
log_message m messages = push_limited message_limit messages m

-- ===== src/Lab/Load.antt =====
-- `load` of the protocol lab (services/webui-frontend/src/lib/sim/protocolLabSim.ts): the state that a
-- preset, a scenario or a demand of free play starts with.
use Prim.Native.Nat.{Ordering}
use mathlib.Core.Option
use pqc_qkd_hybrid_network.Base.{
  ℕ, String, Bool, true, false, ◌&&◌, Option, none, some, List, [], map, str_eq, or_else,
  if◌then◌else◌,
}
use pqc_qkd_hybrid_network.Base.Dict.{lookup}
use pqc_qkd_hybrid_network.Base.Int.{ℤ}
use pqc_qkd_hybrid_network.Routing.Graph.{includes}
use pqc_qkd_hybrid_network.Etsi004.Km.{clear}
use pqc_qkd_hybrid_network.Lab.Links.{Accounting, keys, LinkState}
use pqc_qkd_hybrid_network.Lab.Generate.{Params, is_qkd}
use pqc_qkd_hybrid_network.Lab.Routes.{Lab}
use pqc_qkd_hybrid_network.Lab.Scenario.{
  PresetLink, Preset, Run, with_stores, with_buffer, Scenario, accounting_of, Catalog, preset_by_id,
  scenario_of,
}
use pqc_qkd_hybrid_network.Lab.State.{Sim, Service, Platform}
use pqc_qkd_hybrid_network.Lab.Stream.{reroute, open_stream}

abbrev pub free_play_tick_s : ℕ
free_play_tick_s = 1

-- The endpoints and the rate that free play is given, in thousandths of a key per second.
pub record Demand : Type 0 where
  pub from : String
  pub to : String
  pub keys_per_s : ℕ

-- `clearKeyMaterial`
abbrev pub clear_key_material : Sim → Sim
clear_key_material s = record s { last_relay = none; km = clear s.km }

abbrev pub not_in_run_of : Option Scenario → List String
not_in_run_of none = Option.get_or none []
not_in_run_of (some sc) = sc.not_in_run

-- The stores of a run, and the threshold of those links that have one.
abbrev pub store_of : Run → String → Option ℤ
store_of (with_stores run) id = lookup id run.stores
store_of _ id = none

abbrev pub threshold_of : Run → String → Option ℤ
threshold_of (with_stores run) id = Option.map (λ _. run.threshold) (lookup id run.stores)
threshold_of _ id = none

abbrev pub is_keys : Accounting → Bool
is_keys keys = true
is_keys _ = false

-- A value for the links that count keys.
abbrev pub counted : Accounting → PresetLink → ℕ → Option ℕ
counted accounting l n = if is_keys accounting && is_qkd l.kind then some n else none

unfoldable pub load_link : Params → Accounting → Option Scenario → PresetLink → LinkState
unfolding includes lookup
load_link p accounting sc l = record {
  id = l.id;
  a = l.a;
  b = l.b;
  kind = l.kind;
  down = false;
  down_reason = none;
  not_in_run = includes (not_in_run_of sc) l.id;
  gen_bps = l.rate;
  stored_keys = counted accounting l 0;
  fill_to_keys = counted accounting l p.low_watermark;
  max_keys = counted accounting l p.max_keys;
  stored_bits = elim sc [ none ↦ none | some s ↦ store_of s.run l.id ];
  threshold_bits = elim sc [ none ↦ none | some s ↦ threshold_of s.run l.id ];
}

abbrev pub service_of : Option Scenario → Option Service
service_of none = none
service_of (some sc) = elim sc.run [
  | with_buffer run ↦ some (record {
    stored = run.capacity;
    capacity = run.capacity;
    refill_at = run.refill_at;
    refill_to = run.refill_to;
    refills = 0;
    failed_refills = 0;
  })
  | _ ↦ none
]

abbrev pub mode_of : Preset → Option Scenario → Accounting
mode_of preset none = preset.free_play
mode_of preset (some sc) = accounting_of sc.run

-- An end of the demand: the scenario's, that of the given demand, or the preset's.
abbrev pub end_of :
    Option Scenario → Option Demand → (Scenario → String) → (Demand → String) → String → String
end_of (some sc) free of_scenario of_demand default = of_scenario sc
end_of none (some d) of_scenario of_demand default = of_demand d
end_of none none of_scenario of_demand default = default

unfoldable pub load_lab : Params → Preset → Option Scenario → Option Demand → Lab
unfolding load_link
load_lab p preset sc free = record {
  accounting = mode_of preset sc;
  key_bits = p.key_bits;
  tick_s = elim sc [ none ↦ free_play_tick_s | some s ↦ s.tick_s ];
  tick_n = 0;
  nodes = preset.nodes;
  links = map (load_link p (mode_of preset sc) sc) preset.links;
  down_nodes = [];
  demand_from = end_of sc free (λ s. s.demand_from) (λ d. d.from) preset.default_from;
  demand_to = end_of sc free (λ s. s.demand_to) (λ d. d.to) preset.default_to;
  preferred = elim sc [ none ↦ none | some s ↦ s.preferred ];
  route = none;
  route_none = none;
  alternatives = [];
  rejected = [];
  reroutes = [];
}

-- The fields as `load` sets them before it chooses a route.
unfoldable pub load_fields : Params → Preset → Option Scenario → Option Demand → Sim → Sim
unfolding load_lab
load_fields p preset sc free s = record s {
  preset = preset;
  scenario = sc;
  lab = load_lab p preset sc free;
  keys_per_s = or_else (Option.map (λ d. d.keys_per_s) free) s.keys_per_s;
  demand_credit = 0;
  credit = [];
  delivered = 0;
  unmet = 0;
  requests_ok = 0;
  requests_failed = 0;
  service = service_of sc;
  km = [];
  ksid = none;
  last_status = none;
  messages = [];
  last_relay = none;
  history = [];
  pending_event = [];
  last_tick = none;
  trace_steps = [];
  trace_relay = none;
  last_tick_start = none;
}

-- Whether a scenario belongs to a preset.
abbrev pub belongs : Preset → Option Scenario → Bool
belongs preset none = true
belongs preset (some sc) = str_eq sc.preset_id preset.id

-- A state after a call, and whether the call threw.
abbrev pub Called : Type 0
Called = Sim × Bool

module _ (p : Params) (collate : String → String → Ordering) (w : Platform) where
  -- The state that is loaded: with a route, and with a stream if keys are counted.
  unfoldable pub loaded : Preset → Option Scenario → Option Demand → Sim → Sim
  loaded preset sc free s =
      let s' = reroute collate p.key_bits (load_fields p preset sc free s) in
      if is_keys s'.lab.accounting then open_stream w s' else s'

  -- `load` once the preset and the scenario are found. A scenario of another preset is refused, with the
  -- preset and the scenario already changed.
  unfoldable pub load_found : Preset → Option Scenario → Option Demand → Sim → Called
  load_found preset sc free s =
      let refused : Sim = record (clear_key_material s) { preset = preset; scenario = sc } in
      if belongs preset sc then (loaded preset sc free s, false) else (refused, true)

  -- `load` once the preset is found. It throws at a scenario that is not found, with the preset already
  -- changed.
  unfoldable pub load_listed : Catalog → Preset → Option String → Option Demand → Sim → Called
  load_listed c preset scenario_id free s = elim (scenario_of c scenario_id) [
    | none ↦ (record (clear_key_material s) { preset = preset }, true)
    | some sc ↦ load_found preset sc free s
  ]

  -- `load`. It throws at a preset that is not found, with the key material already cleared.
  unfoldable pub load : Catalog → String → Option String → Option Demand → Sim → Called
  load c preset_id scenario_id free s = elim (preset_by_id preset_id c.presets) [
    | none ↦ (clear_key_material s, true)
    | some preset ↦ load_listed c preset scenario_id free s
  ]

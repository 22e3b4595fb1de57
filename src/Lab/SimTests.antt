-- ===== src/Lab/SimTests.antt =====
-- The simulator of the protocol lab (services/webui-frontend/src/lib/sim/protocolLabSim.ts) on a triangle
-- of nodes: its ticks, its controls and its runs.
mod Modes
use Prim.Native.Nat.{compare, Ordering}
use pqc_qkd_hybrid_network.Base.{
  ℕ, ◌+◌, ◌-◌, ◌*◌, ◌≡◌, ◌↔◌, ◌⊎◌, refl, String, str_eq, true, false, min, none, some, List, [],
  ◌∷◌, All, arith,
}
use pqc_qkd_hybrid_network.Base.Dict.{lookup, insert}
use pqc_qkd_hybrid_network.Base.Int.{pos}
use pqc_qkd_hybrid_network.Base.Sort.{insert_sorted, sort}
use pqc_qkd_hybrid_network.Base.Comparison.{compare_ℤ}
use pqc_qkd_hybrid_network.Base.Text.{decimal, decimal_from, text}
use pqc_qkd_hybrid_network.E2e.Crypto.{to_hex}
use pqc_qkd_hybrid_network.Routing.Graph.{
  includes, add_nodes, push_edge, is_down, add_links, adjacency, edges_at, walk_edges, walk,
  simple_paths,
}
use pqc_qkd_hybrid_network.Routing.Rank.{
  RouteChoice, known_of, min_from, min_of, min_or_null, describe_route, desc, join, route_key,
  compare_routes, rank_routes,
}
use pqc_qkd_hybrid_network.Routing.Select.{
  down_links, blocked_by, usable_of, rejected_of, paths_of, preferred_of, choose, compare_rejected,
  select_among, select_route,
}
use pqc_qkd_hybrid_network.Etsi004.Stream.{established, empty_qos, Stream}
use pqc_qkd_hybrid_network.Etsi004.Km.{supply, undelivered}
use pqc_qkd_hybrid_network.Lab.Links.{
  keys, stores, qkd_link, outage, LinkState, change_link, inject,
}
use pqc_qkd_hybrid_network.Lab.Relay.{xor_bits, xor_pad, carry, same_bytes, relay_sample}
use pqc_qkd_hybrid_network.Lab.Generate.{Params, stored_total}
use pqc_qkd_hybrid_network.Lab.Records.{tick_pipeline, log_message}
use pqc_qkd_hybrid_network.Lab.Choose.{
  stick, broken_of, reason_of, note_reroute, select_for, choose_route,
}
use pqc_qkd_hybrid_network.Lab.Routes.{
  routable, view_store, view_rate, view_keys, view_link, view_of,
}
use pqc_qkd_hybrid_network.Lab.Scenario.{
  Preset, Scenario, Catalog, StoresRun, BufferRun, with_stores, unquantified,
}
use pqc_qkd_hybrid_network.Lab.State.{idle, Sim, Service, Platform, log, pads_from, relay_key}
use pqc_qkd_hybrid_network.Lab.Stream.{
  reroute, take_keys, waiting_text, relay_over, after_round, unrelayed_said, refill_said,
  refill_round, refill_loop, refill_known,
}
use pqc_qkd_hybrid_network.Lab.Consume.{consume_stream}
use pqc_qkd_hybrid_network.Lab.Modes.{due_keys, tick_stores, tick_buffer}
use pqc_qkd_hybrid_network.Lab.Advance.{advance}
use pqc_qkd_hybrid_network.Lab.Control.{step, failure_text, inject_failure, handle}
use pqc_qkd_hybrid_network.Lab.Sound.{IsSound}
use pqc_qkd_hybrid_network.Lab.Advanced.{last_ids, advance-pipeline}
use pqc_qkd_hybrid_network.Lab.Handled.{handle-IsSound}
use pqc_qkd_hybrid_network.Lab.Load.{load, load_found, load_listed}
use pqc_qkd_hybrid_network.Lab.Refused.{IsAbsent, IsForeign, load_throws_iff}
use pqc_qkd_hybrid_network.Lab.Refilled.{IsRefilled, refill_known-IsRefilled}
use pqc_qkd_hybrid_network.Lab.Relayed.{refill_round_conserves}
use pqc_qkd_hybrid_network.Lab.Conserved.{HoldsKey}
use pqc_qkd_hybrid_network.Lab.Counted.{IsCounted, consume_stream-IsCounted}
use pqc_qkd_hybrid_network.Lab.Served.{IsInStep}
use pqc_qkd_hybrid_network.Lab.Lively.{refill_serves}
use pqc_qkd_hybrid_network.Lab.Stores.{IsAbove}
use pqc_qkd_hybrid_network.Lab.StoresTick.{tick_stores-IsAbove}
use pqc_qkd_hybrid_network.Lab.Buffered.{IsRefreshed, tick_buffer-IsRefreshed}
use pqc_qkd_hybrid_network.Lab.Avoids.{inject_failure_avoids}

sim_code : Unit {0}
unfolding refill_known refill_loop refill_round after_round refill_said unrelayed_said waiting_text
    take_keys relay_over relay_key pads_from reroute log log_message undelivered supply decimal
    decimal_from text inject_failure inject failure_text change_link choose_route select_for
    note_reroute reason_of broken_of stick view_of view_link view_keys view_rate view_store routable
    stored_total relay_sample same_bytes carry xor_pad xor_bits to_hex select_route select_among
    compare_rejected choose preferred_of paths_of rejected_of usable_of blocked_by down_links
    rank_routes compare_routes route_key join desc describe_route min_or_null min_of min_from
    known_of simple_paths walk walk_edges edges_at adjacency add_links is_down push_edge add_nodes
    includes lookup insert sort insert_sorted compare_ℤ
sim_code = tt

-- A text comparison: by length.
abbrev text_length : String → ℕ
text_length String.[] = 0
text_length (String.◌∷◌ c s) = 1 + text_length s

abbrev collate : String → String → Ordering
collate s t = compare (text_length s) (text_length t)

abbrev platform : Platform
platform = record { random_bytes = λ n. n ∷ []; new_ksid = λ n. "stream" }

abbrev params : Params
params = record { key_bits = 8; low_watermark = 2; max_keys = 8 }

-- A link that generates 2.5 bit/s and holds some keys.
abbrev link : String → String → String → ℕ → LinkState
link id a b stored = record {
  id = id;
  a = a;
  b = b;
  kind = qkd_link;
  down = false;
  down_reason = none;
  not_in_run = false;
  gen_bps = some 2500;
  stored_keys = some stored;
  fill_to_keys = some 4;
  max_keys = some 8;
  stored_bits = some (pos 90);
  threshold_bits = some (pos 40);
}

abbrev links : List LinkState
links = link "ab" "a" "b" 1 ∷ link "bc" "b" "c" 3 ∷ link "ac" "a" "c" 4 ∷ []

abbrev preset : Preset
preset = record {
  id = "triangle";
  nodes = "a" ∷ "b" ∷ "c" ∷ [];
  links = [];
  free_play = keys;
  default_from = "a";
  default_to = "c";
}

abbrev stream_open : Stream
stream_open = record {
  ksid = "stream";
  apps = record { source = "qkd://a/app"; destination = "qkd://c/app" };
  qos = record empty_qos { key_chunk_size = some 1 };
  is_opened = record { on_a = true; on_b = true };
  is_closed = record { on_a = false; on_b = false };
  state = established;
  chunks = [];
  delivered = record { on_a = []; on_b = [] };
}

-- Free play with a stream that is open, and one request per second.
abbrev sim : Sim
sim = record {
  preset = preset;
  scenario = none;
  lab = record {
    accounting = keys;
    key_bits = 8;
    tick_s = 1;
    tick_n = 5;
    nodes = preset.nodes;
    links = links;
    down_nodes = [];
    demand_from = "a";
    demand_to = "c";
    preferred = none;
    route = none;
    route_none = none;
    alternatives = [];
    rejected = [];
    reroutes = [];
  };
  status = idle;
  credit = [];
  keys_per_s = some 1000;
  demand_credit = 500;
  delivered = 0;
  unmet = 0;
  requests_ok = 0;
  requests_failed = 0;
  service = none;
  km = ("stream", stream_open) ∷ [];
  ksid = some "stream";
  last_status = none;
  messages = [];
  last_relay = none;
  history = [];
  pending_event = [];
  pace_ms = 300;
  last_tick = none;
  trace_steps = [];
  trace_relay = none;
  last_tick_start = none;
  last_advance = 0;
  timer_on = false;
  draws = 0;
  opened = 1;
}

sim-IsSound : IsSound sim
sim-IsSound = record {
  matched = refl;
  bounded = record {
    history = omega arith;
    messages = omega arith;
    reroutes = omega arith;
    credit = omega arith;
    looped = λ e. absurd (cc e);
  };
  belonging = refl;
  free = refl;
}

-- A scenario of a preset that the catalog has not.
abbrev elsewhere : Scenario
elsewhere = record {
  id = "replay";
  preset_id = "square";
  tick_s = 60;
  demand_from = "a";
  demand_to = "c";
  preferred = none;
  not_in_run = [];
  run = with_stores (record { rate_bps = 1; threshold = pos 40; stores = []; generation = [] });
}

abbrev catalog : Catalog
catalog = record { presets = preset ∷ []; scenarios = elsewhere ∷ [] }

handle-IsSound_example : IsSound (handle catalog params collate platform (step 7) sim).0
unfolding handle
handle-IsSound_example =
    handle-IsSound catalog params collate platform (step 7) sim (refl, tt) sim-IsSound refl

load_throws_iff_example :
    ((load params collate platform catalog "triangle" (some "replay") none sim).1 ≡ true)
    ↔ IsAbsent (λ q. str_eq q.id "triangle") catalog.presets
      ⊎ IsForeign catalog "triangle" (some "replay")
load_throws_iff_example =
    load_throws_iff params collate platform catalog "triangle" (some "replay") none sim

load_tests :
    ((load params collate platform catalog "triangle" (some "replay") none sim).1 ≡ true)
    × ((load params collate platform catalog "square" none none sim).1 ≡ true)
    × ((load params collate platform catalog "triangle" (some "") none sim).1 ≡ false)
unfolding load load_listed load_found
load_tests = (refl, refl, refl)

advance-pipeline_example :
    last_ids params collate platform (advance params collate platform 9 sim)
    ≡ some (tick_pipeline keys)
advance-pipeline_example = advance-pipeline params collate platform 9 sim refl

sim-IsInStep : IsInStep "stream" sim.km stream_open
unfolding sim_code
sim-IsInStep = record { there = refl; live = refl; in_step = refl }

refill_known-IsRefilled_example :
    IsRefilled params "stream" stream_open (refill_known params collate platform "stream" sim)
unfolding sim_code
refill_known-IsRefilled_example =
    refill_known-IsRefilled params collate platform "stream" sim stream_open refl refl

-- The direct link holds keys enough for the watermark.
refill_tests :
    let r = refill_known params collate platform "stream" sim in
    (r.relayed ≡ 2) × (stored_total r.sim.lab.links ≡ 6) × (r.sim.draws ≡ 4)
unfolding sim_code
refill_tests = (refl, refl, refl)

abbrev direct : RouteChoice
direct = record {
  nodes = "a" ∷ "c" ∷ [];
  link_ids = "ac" ∷ [];
  hops = 1;
  relays = 0;
  bottleneck_bits = some (pos 32);
  bottleneck_bps = some (pos 2500);
}

-- The simulator after one key has gone over the direct link.
abbrev once : Sim
once = relay_over platform "stream" direct (reroute collate 8 sim)

refill_round_conserves_example :
    (r : RouteChoice) × (once.lab.route ≡ some r)
    × All (HoldsKey links) r.link_ids
    × (stored_total once.lab.links + r.hops ≡ stored_total links)
unfolding sim_code
refill_round_conserves_example =
    refill_round_conserves collate sim refl (omega arith) (refl, (refl, (refl, tt))) params platform
      "stream" once refl

consume_stream-IsCounted_example : IsCounted sim (consume_stream platform sim)
consume_stream-IsCounted_example = consume_stream-IsCounted platform sim

refill_serves_example :
    let r = refill_known params collate platform "stream" sim in
    let c = consume_stream platform r.sim in
    (c.served ≡ c.requested) × (c.unmet ≡ 0) × (c.why ≡ none)
unfolding sim_code
refill_serves_example =
    refill_serves platform params collate sim "stream" stream_open sim-IsInStep refl refl refl
      (omega arith)

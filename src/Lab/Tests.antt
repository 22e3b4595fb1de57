-- ===== src/Lab/Tests.antt =====
-- The links, the generation, the relay and the choice of a route of the protocol lab
-- (services/webui-frontend/src/lib/sim/protocolLabSim.ts) on a triangle of nodes.
use Prim.Native.Nat.{compare, Ordering}
use pqc_qkd_hybrid_network.Base.{
  ℕ, ◌+◌, ◌≤◌, ◌≡◌, refl, String, true, false, none, some, List, [], ◌∷◌, All, length, arith,
}
use pqc_qkd_hybrid_network.Base.Dict.{lookup, insert}
use pqc_qkd_hybrid_network.Base.Int.{pos}
use pqc_qkd_hybrid_network.Base.Sort.{insert_sorted, sort}
use pqc_qkd_hybrid_network.Base.Comparison.{compare_ℤ}
use pqc_qkd_hybrid_network.E2e.Crypto.{to_hex}
use pqc_qkd_hybrid_network.Routing.Graph.{
  includes, add_nodes, push_edge, is_down, add_links, adjacency, edges_at, walk_edges, walk,
  simple_paths,
}
use pqc_qkd_hybrid_network.Routing.Rank.{
  RouteChoice, known_of, min_from, min_of, min_or_null, describe_route, desc, join, route_key,
  compare_routes, rank_routes,
}
use pqc_qkd_hybrid_network.Routing.Select.{
  down_links, blocked_by, usable_of, rejected_of, paths_of, preferred_of, choose, compare_rejected,
  select_among, select_route,
}
use pqc_qkd_hybrid_network.Routing.Choice.{IsSafeRoute}
use pqc_qkd_hybrid_network.Lab.Links.{
  keys, qkd_link, outage, LinkState, at_link, at_node, Network, change_link, add_node, delete_node,
  inject, repair_link, repair_at, clear,
}
use pqc_qkd_hybrid_network.Lab.Failures.{IsFailed, IsConsistent, failures-IsConsistent}
use pqc_qkd_hybrid_network.Lab.Relay.{
  xor_bits, xor_pad, carry, same_bytes, relay_sample, relay_sample_recovers,
}
use pqc_qkd_hybrid_network.Lab.Generate.{
  Params, IsWithin, made_of, credit_left, generate_on, generate_link, generate_keys, stored_total,
  generate_keys_bounds,
}
use pqc_qkd_hybrid_network.Lab.Records.{started}
use pqc_qkd_hybrid_network.Lab.Choose.{
  stick, broken_of, reason_of, note_reroute, select_for, choose_route,
}
use pqc_qkd_hybrid_network.Lab.Routes.{
  Lab, graph_of, routable, view_store, view_rate, view_keys, view_link, view_of,
}
use pqc_qkd_hybrid_network.Lab.Rerouting.{choose_route-IsSafe}

lab_code : Unit {0}
unfolding choose_route select_for note_reroute reason_of broken_of stick view_of view_link view_keys
    view_rate view_store routable generate_keys generate_link generate_on credit_left made_of
    stored_total relay_sample same_bytes carry xor_pad xor_bits to_hex clear inject repair_at
    repair_link delete_node add_node change_link select_route select_among compare_rejected choose
    preferred_of paths_of rejected_of usable_of blocked_by down_links rank_routes compare_routes
    route_key join desc describe_route min_or_null min_of min_from known_of simple_paths walk
    walk_edges edges_at adjacency add_links is_down push_edge add_nodes includes lookup insert sort
    insert_sorted compare_ℤ
lab_code = tt

-- A text comparison: by length.
abbrev text_length : String → ℕ
text_length String.[] = 0
text_length (String.◌∷◌ c s) = 1 + text_length s

abbrev collate : String → String → Ordering
collate s t = compare (text_length s) (text_length t)

-- A link that generates 2.5 bit/s and holds some keys.
abbrev link : String → String → String → ℕ → LinkState
link id a b stored = record {
  id = id;
  a = a;
  b = b;
  kind = qkd_link;
  down = false;
  down_reason = none;
  not_in_run = false;
  gen_bps = some 2500;
  stored_keys = some stored;
  fill_to_keys = some 4;
  max_keys = some 8;
  stored_bits = none;
  threshold_bits = none;
}

abbrev links : List LinkState
links = link "ab" "a" "b" 1 ∷ link "bc" "b" "c" 3 ∷ link "ac" "a" "c" 4 ∷ []

abbrev net : Network
net = record { links = links; down_nodes = [] }

net-IsConsistent : IsConsistent net
unfolding lab_code
net-IsConsistent = (up, (up, (up, tt)))
  where
    up : {id a b : String} {n : ℕ} → IsFailed [] (link id a b n)
    up = record { cut = λ e. absurd (cc e); known = refl; meant = λ e. absurd (cc e) }

failures-IsConsistent_example :
    IsConsistent (inject (at_node "b") net)
    × IsConsistent (clear (some (at_link "ab" (some outage))) net)
failures-IsConsistent_example =
    failures-IsConsistent net (at_node "b") (some (at_link "ab" (some outage))) net-IsConsistent

-- A node that fails and is restored takes its links down and up again.
failure_tests : clear (some (at_node "b")) (inject (at_node "b") net) ≡ net
unfolding lab_code
failure_tests = refl

relay_sample_recovers_example :
    (carry (7 ∷ 200 ∷ []) ((255 ∷ 31 ∷ []) ∷ (8 ∷ 9 ∷ []) ∷ []) ≡ 7 ∷ 200 ∷ [])
    × ((relay_sample (7 ∷ 200 ∷ []) ((255 ∷ 31 ∷ []) ∷ (8 ∷ 9 ∷ []) ∷ [])).recovered_equals_sent
        ≡ true)
    × (length (relay_sample (7 ∷ 200 ∷ []) ((255 ∷ 31 ∷ []) ∷ (8 ∷ 9 ∷ []) ∷ [])).key_prefix ≤ 16)
relay_sample_recovers_example =
    relay_sample_recovers (7 ∷ 200 ∷ []) ((255 ∷ 31 ∷ []) ∷ (8 ∷ 9 ∷ []) ∷ [])
      (omega arith, (omega arith, tt))

abbrev params : Params
params = record { key_bits = 2; low_watermark = 4; max_keys = 8 }

links-IsWithin : All (IsWithin params) links
links-IsWithin = (omega arith, (omega arith, (omega arith, tt)))

generate_keys_bounds_example :
    let r = generate_keys params 1 links [] in
    All (IsWithin params) r.links
    × (stored_total r.links ≡ stored_total links + r.keys)
    × (r.link_count ≤ r.keys)
generate_keys_bounds_example = generate_keys_bounds params 1 links [] links-IsWithin

-- Two of the links make a key each and bank the rest of their credit, but one that is full then.
generate_tests :
    let r = generate_keys params 1 links [] in
    (r.keys ≡ 2)
    × (r.link_count ≡ 2)
    × (stored_total r.links ≡ 10)
    × (lookup "ab" r.credit ≡ some 500)
unfolding lab_code
generate_tests = (refl, refl, refl, refl)

abbrev lab : Lab
lab = record {
  accounting = keys;
  key_bits = 2;
  tick_s = 1;
  tick_n = 5;
  nodes = "a" ∷ "b" ∷ "c" ∷ [];
  links = links;
  down_nodes = [];
  demand_from = "a";
  demand_to = "c";
  preferred = none;
  route = none;
  route_none = none;
  alternatives = [];
  rejected = [];
  reroutes = [];
}

abbrev direct : RouteChoice
direct = record {
  nodes = "a" ∷ "c" ∷ [];
  link_ids = "ac" ∷ [];
  hops = 1;
  relays = 0;
  bottleneck_bits = some (pos 8);
  bottleneck_bps = some (pos 2500);
}

choose_route_tests :
    ((choose_route collate lab 2).route ≡ some direct)
    × ((choose_route collate lab 2).reroutes
        ≡ record { t_s = 5; from = none; to = some ("a" ∷ "c" ∷ []); reason = started } ∷ [])
    × ((choose_route collate (choose_route collate lab 2) 2).reroutes
        ≡ (choose_route collate lab 2).reroutes)
unfolding lab_code
choose_route_tests = (refl, refl, refl)

choose_route-IsSafe_example :
    IsSafeRoute (graph_of lab) "a" "c" (view_of lab 2) [] direct
    × ((c : RouteChoice) × ((select_for collate lab 2).chosen ≡ some c) × (direct.hops ≤ c.hops))
unfolding lab_code
choose_route-IsSafe_example = choose_route-IsSafe collate lab 2 direct refl

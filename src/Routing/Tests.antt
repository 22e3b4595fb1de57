-- ===== src/Routing/Tests.antt =====
-- The enumeration and the choice of routes
-- (services/webui-frontend/src/lib/sim/protocolLab/routing.ts) on a triangle of nodes.
use Prim.Native.Nat.{compare, Ordering}
use mathlib.Core.List.{Memᴰ}
use pqc_qkd_hybrid_network.Base.{
  ℕ, suc, ◌≤◌, ◌≡◌, refl, ◌≢◌, ◌↔◌, String, true, false, none, some, List, [], ◌∷◌, All, length,
  arith, str_eq, ap, not, if◌then◌else◌,
}
use pqc_qkd_hybrid_network.Base.Dict.{lookup, insert}
use pqc_qkd_hybrid_network.Base.Int.{pos}
use pqc_qkd_hybrid_network.Base.Sort.{insert_sorted, sort}
use pqc_qkd_hybrid_network.Base.Comparison.{
  compare_ℤ, IsComparison, key-IsComparison, compare-IsComparison,
}
use pqc_qkd_hybrid_network.Routing.Graph.{
  Link, Graph, Down, SimplePath, includes, add_nodes, push_edge, is_down, add_links, adjacency,
  edges_at, walk_edges, walk, simple_paths,
}
use pqc_qkd_hybrid_network.Routing.Rank.{
  LinkView, RouteChoice, known_of, min_from, min_of, min_or_null, describe_route, desc, join,
  route_key, compare_routes, rank_routes,
}
use pqc_qkd_hybrid_network.Routing.Select.{
  down_links, blocked_by, usable_of, rejected_of, paths_of, preferred_of, choose, compare_rejected,
  select_among, select_route, every_path_blocked,
}
use pqc_qkd_hybrid_network.Routing.Total.{simple_paths_total}
use pqc_qkd_hybrid_network.Routing.Paths.{IsSimplePath, IsClosed, simple_paths_sound}
use pqc_qkd_hybrid_network.Routing.Complete.{simple_paths_complete}
use pqc_qkd_hybrid_network.Routing.Selection.{IsUsable}
use pqc_qkd_hybrid_network.Routing.Best.{IsNoWorse, select_route_best}
use pqc_qkd_hybrid_network.Routing.Choice.{down_of, IsSafeRoute, select_route_safe}
use pqc_qkd_hybrid_network.Routing.Availability.{select_route-none_iff}

routing : Unit {0}
unfolding select_route select_among compare_rejected choose preferred_of paths_of rejected_of
    usable_of blocked_by down_links rank_routes compare_routes route_key join desc describe_route
    min_or_null min_of min_from known_of simple_paths walk walk_edges edges_at adjacency add_links
    is_down push_edge add_nodes includes lookup insert sort insert_sorted compare_ℤ
routing = tt

-- A text comparison: by length.
abbrev text_length : String → ℕ
text_length String.[] = 0
text_length (String.◌∷◌ c s) = suc (text_length s)

abbrev collate : String → String → Ordering
collate s t = compare (text_length s) (text_length t)

collate-IsComparison : IsComparison collate
collate-IsComparison = key-IsComparison compare text_length compare-IsComparison

abbrev link : String → String → String → Link
link id a b = record { id = id; a = a; b = b }

abbrev net : Graph
net = record {
  nodes = "a" ∷ "b" ∷ "c" ∷ [];
  links = link "ab" "a" "b" ∷ link "bc" "b" "c" ∷ link "ac" "a" "c" ∷ [];
}

net-IsClosed : IsClosed net
net-IsClosed l (Memᴰ.head e) = rw e (Memᴰ.head refl, Memᴰ.tail (Memᴰ.head refl))
net-IsClosed l (Memᴰ.tail (Memᴰ.head e)) =
    rw e (Memᴰ.tail (Memᴰ.head refl), Memᴰ.tail (Memᴰ.tail (Memᴰ.head refl)))
net-IsClosed l (Memᴰ.tail (Memᴰ.tail (Memᴰ.head e))) =
    rw e (Memᴰ.head refl, Memᴰ.tail (Memᴰ.tail (Memᴰ.head refl)))
net-IsClosed l (Memᴰ.tail (Memᴰ.tail (Memᴰ.tail none_left))) = elim none_left [ ]

abbrev nothing_down : Down
nothing_down = record { nodes = []; links = [] }

abbrev short : SimplePath
short = record { nodes = "a" ∷ "c" ∷ []; link_ids = "ac" ∷ [] }

abbrev long : SimplePath
long = record { nodes = "a" ∷ "b" ∷ "c" ∷ []; link_ids = "ab" ∷ "bc" ∷ [] }

path_tests :
    (simple_paths net "a" "c" nothing_down ≡ some (long ∷ short ∷ []))
    × (simple_paths net "a" "c" (record { nodes = "b" ∷ []; links = [] }) ≡ some (short ∷ []))
    × (simple_paths net "a" "c" (record { nodes = []; links = "ac" ∷ [] }) ≡ some (long ∷ []))
unfolding routing
path_tests = (refl, refl, refl)

-- The view of a link: the link "ac" is up but holds too little.
abbrev view : String → LinkView
view id =
    let low = str_eq id "ac" in
    record {
      up = true;
      usable = not low;
      why = if low then some "below the threshold" else none;
      available_bits = some (pos 100);
      rate_bps = if low then none else some (pos 40);
    }

abbrev open_view : String → LinkView
open_view id = record (view id) { usable = true }

abbrev long_route : RouteChoice
long_route = record {
  nodes = "a" ∷ "b" ∷ "c" ∷ [];
  link_ids = "ab" ∷ "bc" ∷ [];
  hops = 2;
  relays = 1;
  bottleneck_bits = some (pos 100);
  bottleneck_bps = some (pos 40);
}

abbrev short_route : RouteChoice
short_route = record {
  nodes = "a" ∷ "c" ∷ [];
  link_ids = "ac" ∷ [];
  hops = 1;
  relays = 0;
  bottleneck_bits = some (pos 100);
  bottleneck_bps = none;
}

select_tests :
    ((select_route collate net "a" "c" view [] none).chosen ≡ some long_route)
    × ((select_route collate net "a" "c" open_view [] none).chosen ≡ some short_route)
    × ((select_route collate net "a" "c" open_view [] (some ("a" ∷ "b" ∷ "c" ∷ []))).chosen
        ≡ some long_route)
    × ((select_route collate net "a" "c" view ("b" ∷ []) none).no_route ≡ some every_path_blocked)
unfolding routing
select_tests = (refl, refl, refl, refl)

simple_paths_total_example :
    (out : List SimplePath) × (simple_paths net "a" "c" nothing_down ≡ some out)
simple_paths_total_example = simple_paths_total net "a" "c" nothing_down

simple_paths_sound_example :
    (length (long ∷ short ∷ []) ≤ 64)
    × All (IsSimplePath net nothing_down "a" "c") (long ∷ short ∷ [])
unfolding routing
simple_paths_sound_example = simple_paths_sound net "a" "c" nothing_down (long ∷ short ∷ []) refl

a-ne-c : ◌≢◌ {A = String} "a" "c"
a-ne-c e = absurd (cc (ap (λ s. str_eq s "a") e))

short-IsSimplePath : IsSimplePath net nothing_down "a" "c" short
unfolding routing
short-IsSimplePath = simple_paths_sound_example.1.1.0

simple_paths_complete_example : Memᴰ short (long ∷ short ∷ [])
unfolding routing
simple_paths_complete_example =
    simple_paths_complete net "a" "c" nothing_down (long ∷ short ∷ []) short net-IsClosed refl refl
      a-ne-c refl (omega arith) short-IsSimplePath

select_route_safe_example :
    IsSafeRoute net "a" "c" view [] long_route
    × (includes [] "a" ≡ false)
    × (includes [] "c" ≡ false)
unfolding routing
select_route_safe_example = select_route_safe collate net "a" "c" view [] none long_route refl

select_route_best_example :
    All
      (λ p. IsUsable open_view p → IsNoWorse collate short_route (describe_route open_view p))
      (paths_of net "a" "c" (down_of net open_view []))
unfolding routing
select_route_best_example =
    select_route_best collate net "a" "c" open_view [] short_route collate-IsComparison refl

select_route-none_iff_example :
    ((select_route collate net "a" "c" view ("b" ∷ []) none).chosen ≡ none)
    ↔ All (λ p. ¬ IsUsable view p) (paths_of net "a" "c" (down_of net view ("b" ∷ [])))
unfolding routing
select_route-none_iff_example =
    select_route-none_iff collate net "a" "c" view ("b" ∷ []) none refl refl

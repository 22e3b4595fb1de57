-- ===== src/Routing/Select.antt =====
-- `selectRoute` of services/webui-frontend/src/lib/sim/protocolLab/routing.ts.
use Prim.Native.Nat.{compare, Ordering}
use mathlib.Core.Option
use pqc_qkd_hybrid_network.Base.{
  String, not, Option, none, some, List, [], ◌∷◌, find, str_eq, if◌then◌else◌, or_else,
}
use pqc_qkd_hybrid_network.Base.Sort.{sort}
use pqc_qkd_hybrid_network.Base.Comparison.{is_le, or_next}
use pqc_qkd_hybrid_network.Routing.Graph.{Link, Graph, Down, SimplePath, includes, simple_paths}
use pqc_qkd_hybrid_network.Routing.Rank.{
  LinkView, RouteChoice, describe_route, route_key, rank_routes,
}

-- A rejected route with the first link that cannot carry the request and its reason, which the source
-- joins to one text.
pub record Rejected : Type 0 where
  pub route : RouteChoice
  pub blocked : String
  pub why : String

-- One constructor for each text of `none`.
pub data NoRoute : Type 0 where
  endpoint_down : String → NoRoute
  no_path every_path_blocked : NoRoute

pub record Selection : Type 0 where
  pub chosen : Option RouteChoice
  pub ranked : List RouteChoice
  pub rejected : List Rejected
  pub no_route : Option NoRoute

-- `head`, or `null` of the empty list.
abbrev pub first_of_list {ℓ} : {A : Type ℓ} → List A → Option A
first_of_list [] = none
first_of_list (x ∷ xs) = some x

-- The ids of the links that are down.
unfoldable pub down_links : (String → LinkView) → List Link → List String
down_links view [] = []
down_links view (l ∷ ls) =
    if not (view l.id).up then l.id ∷ down_links view ls else down_links view ls

-- The first link of the path that is not usable.
unfoldable pub blocked_by : (String → LinkView) → SimplePath → Option String
blocked_by view p = find (λ id. not (view id).usable) p.link_ids

-- The loop that splits the paths.
unfoldable pub usable_of : (String → LinkView) → List SimplePath → List RouteChoice
unfolding blocked_by
usable_of view [] = []
usable_of view (p ∷ ps) = elim (blocked_by view p) [
  | none ↦ describe_route view p ∷ usable_of view ps
  | some id ↦ usable_of view ps
]

unfoldable pub rejected_of : (String → LinkView) → List SimplePath → List Rejected
unfolding blocked_by
rejected_of view [] = []
rejected_of view (p ∷ ps) = elim (blocked_by view p) [
  | none ↦ rejected_of view ps
  | some id ↦
      record {
        route = describe_route view p;
        blocked = id;
        why = Option.get_or (view id).why "unusable";
      }
      ∷ rejected_of view ps
]

-- The paths that `simplePaths` returns; it never runs out of fuel (Routing/Total.antt).
unfoldable pub paths_of : Graph → String → String → Down → List SimplePath
paths_of g src dst down = elim (simple_paths g src dst down) [ none ↦ [] | some out ↦ out ]

-- The ranked route along the preferred nodes, if these are given.
unfoldable pub preferred_of : Option (List String) → List RouteChoice → Option RouteChoice
preferred_of none ranked = none
preferred_of (some preferred) ranked =
    find (λ r. str_eq (route_key r.nodes) (route_key preferred)) ranked

-- `pref ?? ranked[0] ?? null`
unfoldable pub choose : Option (List String) → List RouteChoice → Option RouteChoice
unfolding preferred_of
choose preferred ranked = or_else (preferred_of preferred ranked) (first_of_list ranked)

module _ (collate : String → String → Ordering) where
  unfoldable pub compare_rejected : Rejected → Rejected → Ordering
  compare_rejected x y =
      or_next (compare x.route.hops y.route.hops)
        (collate (route_key x.route.nodes) (route_key y.route.nodes))

  unfoldable pub select_among :
      (String → LinkView) → Option (List String) → List SimplePath → Selection
  unfolding choose usable_of rejected_of compare_rejected
  select_among view preferred paths =
      let ranked = rank_routes collate (usable_of view paths) in
      record {
        chosen = choose preferred ranked;
        ranked = ranked;
        rejected = sort (λ x y. is_le (compare_rejected x y)) (rejected_of view paths);
        no_route = elim (choose preferred ranked) [
          | none ↦ some every_path_blocked
          | some r ↦ none
        ];
      }

  unfoldable pub select_route :
      Graph → String → String → (String → LinkView) → List String → Option (List String) → Selection
  unfolding select_among paths_of down_links
  select_route g src dst view down_nodes preferred =
      let nothing : NoRoute → Selection =
        λ why. record { chosen = none; ranked = []; rejected = []; no_route = some why } in
      if includes down_nodes src
      then nothing (endpoint_down src)
      else if includes down_nodes dst
      then nothing (endpoint_down dst)
      else elim (paths_of g src dst
          (record { nodes = down_nodes; links = down_links view g.links })) [
            | [] ↦ nothing no_path
            | p ∷ ps ↦ select_among view preferred (p ∷ ps)
          ]

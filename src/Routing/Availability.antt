-- ===== src/Routing/Availability.antt =====
-- When `selectRoute` of routing.ts finds a route, and when it takes the preferred one.
use Prim.Native.Nat.{Ordering}
use mathlib.Core.List.{Memᴰ}
use pqc_qkd_hybrid_network.Base.{
  ◌≡◌, refl, sym, ap, subst, ◌∙◌, ◌↔◌, ◌⊎◌, inl, inr, String, Bool, false, Option, none, some, List,
  [], ◌∷◌, find, find-none, find-All, All, All-lookup, All-trivial, arith, str_eq, Option-cases,
  List-cases, eq_iff,
}
use pqc_qkd_hybrid_network.Base.Sort.{sort-All_inv}
use pqc_qkd_hybrid_network.Base.Comparison.{is_le}
use pqc_qkd_hybrid_network.Routing.Graph.{Graph, SimplePath, includes}
use pqc_qkd_hybrid_network.Routing.Rank.{
  LinkView, RouteChoice, describe_route, route_key, compare_routes, rank_routes,
}
use pqc_qkd_hybrid_network.Routing.Select.{
  Selection, usable_of, paths_of, preferred_of, choose, select_among, select_route,
}
use pqc_qkd_hybrid_network.Routing.Selection.{IsUsable, usable_of-All_inv, select_among-IsRouteOf}
use pqc_qkd_hybrid_network.Routing.Choice.{down_of}

module _ (collate : String → String → Ordering) (g : Graph) (src dst : String)
    (view : String → LinkView) (down_nodes : List String) (up_src : includes down_nodes src ≡ false)
    (up_dst : includes down_nodes dst ≡ false) where
  -- With both endpoints up the choice is among the paths found.
  select_route_open :
      (preferred : Option (List String))
      → let sel = select_route collate g src dst view down_nodes preferred in
        let paths = paths_of g src dst (down_of g view down_nodes) in
        ((paths ≡ []) × (sel.chosen ≡ none)) ⊎ (sel ≡ select_among collate view preferred paths)
  unfolding select_route
  select_route_open preferred = elim (List-cases (paths_of g src dst (down_of g view down_nodes))) [
    | inl empty ↦ inl (empty, rw (up_src, up_dst, empty, select_route) refl)
    | inr (p, ps, e) ↦ inr (rw (up_src, up_dst, e, select_route) refl)
  ]

-- What holds of all ranked routes holds of the routes of all usable paths.
ranked-All {κ} :
    (collate : String → String → Ordering) (view : String → LinkView) (ps : List SimplePath)
    (Q : RouteChoice → Type κ)
    → All Q (rank_routes collate (usable_of view ps))
    → All (λ p. IsUsable view p → Q (describe_route view p)) ps
unfolding rank_routes
ranked-All collate view ps Q h =
    usable_of-All_inv view Q ps
      (sort-All_inv (λ x y. is_le (compare_routes collate x y)) Q (usable_of view ps) h)

choose-none :
    (preferred : Option (List String)) (rs : List RouteChoice)
    → choose preferred rs ≡ none
    → rs ≡ []
unfolding choose
choose-none preferred [] e = refl
choose-none preferred (r ∷ rs) e = elim (Option-cases (preferred_of preferred (r ∷ rs))) [
  | inl missing ↦ absurd (cc (rw (missing, choose) at e))
  | inr (y, found) ↦ absurd (cc (rw (found, choose) at e))
]

select_among-none :
    (collate : String → String → Ordering) (view : String → LinkView)
    (preferred : Option (List String)) (ps : List SimplePath)
    → (select_among collate view preferred ps).chosen ≡ none
    → All (λ p. ¬ IsUsable view p) ps
unfolding select_among
select_among-none collate view preferred ps e =
    ranked-All collate view ps (λ r. ⊥) (rw (choose-none preferred _ e) tt)

-- For endpoints that are not down, `selectRoute` chooses no route exactly when every path that
-- `simplePaths` finds has a link that is not usable, whether or not a route is preferred.
pub select_route-none_iff :
    (collate : String → String → Ordering) (g : Graph) (src dst : String) (view : String → LinkView)
    (down_nodes : List String) (preferred : Option (List String))
    → includes down_nodes src ≡ false
    → includes down_nodes dst ≡ false
    → ((select_route collate g src dst view down_nodes preferred).chosen ≡ none)
      ↔ All (λ p. ¬ IsUsable view p) (paths_of g src dst (down_of g view down_nodes))
select_route-none_iff collate g src dst view down_nodes preferred up_src up_dst =
    elim (select_route_open collate g src dst view down_nodes up_src up_dst preferred) [
      | inl (empty, nothing) ↦ (λ _. rw empty tt, λ _. nothing)
      | inr same ↦
          let paths = paths_of g src dst (down_of g view down_nodes) in
          let at_chosen = ap (λ (s : Selection). s.chosen) same in
          (
            λ e. select_among-none collate view preferred paths (sym at_chosen ∙ e),
            λ h. elim (Option-cases (select_among collate view preferred paths).chosen) [
              | inl nothing ↦ at_chosen ∙ nothing
              | inr (r, e) ↦
                  let (p, blocked, usable, _) =
                    select_among-IsRouteOf collate view preferred paths (λ p. ¬ IsUsable view p) r h
                      e in
                  absurd (blocked usable)
            ],
          )
    ]

preferred-found :
    (collate : String → String → Ordering) (view : String → LinkView) (nodes : List String)
    (ps : List SimplePath) (p : SimplePath)
    → Memᴰ p ps
    → IsUsable view p
    → route_key p.nodes ≡ route_key nodes
    → (r : RouteChoice) × ((select_among collate view (some nodes) ps).chosen ≡ some r)
      × (route_key r.nodes ≡ route_key nodes)
unfolding select_among choose preferred_of describe_route
preferred-found collate view nodes ps p m usable key =
    let ranked = rank_routes collate (usable_of view ps) in
    let test : RouteChoice → Bool = λ y. str_eq (route_key y.nodes) (route_key nodes) in
    elim (Option-cases (find test ranked)) [
      | inr (r, found) ↦ (
        r,
        rw found refl,
        (eq_iff _ _).0 (find-All (λ _. Unit {0}) test ranked (All-trivial ranked) found).1,
      )
      | inl missing ↦
          let others : All (λ q. IsUsable view q → test (describe_route view q) ≡ false) ps =
            ranked-All collate view ps (λ r. test r ≡ false) (find-none test ranked missing) in
          let no_match : test (describe_route view p) ≡ false =
            All-lookup (λ q. IsUsable view q → test (describe_route view q) ≡ false) ps p others m
              usable in
          absurd (ground (arith, eq_iff (route_key p.nodes) (route_key nodes)))
    ]

-- For endpoints that are not down, when some path that `simplePaths` finds has only usable links and
-- goes along the preferred nodes, `selectRoute` chooses a route along the preferred nodes.
pub select_route_preferred :
    (collate : String → String → Ordering) (g : Graph) (src dst : String) (view : String → LinkView)
    (down_nodes nodes : List String) (p : SimplePath)
    → includes down_nodes src ≡ false
    → includes down_nodes dst ≡ false
    → Memᴰ p (paths_of g src dst (down_of g view down_nodes))
    → IsUsable view p
    → route_key p.nodes ≡ route_key nodes
    → (r : RouteChoice) × ((select_route collate g src dst view down_nodes (some nodes)).chosen
        ≡ some r)
      × (route_key r.nodes ≡ route_key nodes)
select_route_preferred collate g src dst view down_nodes nodes p up_src up_dst m usable key =
    elim (select_route_open collate g src dst view down_nodes up_src up_dst (some nodes)) [
      | inl (empty, _) ↦ elim (subst (λ ps. Memᴰ p ps) empty m) [ ]
      | inr same ↦
          let (r, e, k) =
            preferred-found collate view nodes (paths_of g src dst (down_of g view down_nodes)) p m
              usable key in
          (r, ap (λ (s : Selection). s.chosen) same ∙ e, k)
    ]

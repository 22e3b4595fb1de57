-- ===== src/Lab/Rerouting.antt =====
-- What `chooseRoute` of the protocol lab (protocolLabSim.ts) keeps to when it stays on a route.
use Prim.Native.Nat.{Ordering}
use pqc_qkd_hybrid_network.Base.{
  ℕ, ◌≤◌, ◌≡◌, refl, sym, subst, ◌∙◌, inl, inr, String, not, ◌&&◌, Option, none, some, List, find,
  find-All, All, All-map, leb, arith, Bool-cases, Option-cases, some_inj,
}
use pqc_qkd_hybrid_network.Base.Sort.{sort-All}
use pqc_qkd_hybrid_network.Routing.Graph.{SimplePath}
use pqc_qkd_hybrid_network.Routing.Rank.{RouteChoice, rank_routes}
use pqc_qkd_hybrid_network.Routing.Select.{Selection, paths_of, usable_of, select_among}
use pqc_qkd_hybrid_network.Routing.Paths.{IsSimplePath}
use pqc_qkd_hybrid_network.Routing.Selection.{IsRouteOf, usable_of-All, select_route_cases}
use pqc_qkd_hybrid_network.Routing.Choice.{
  down_of, paths_of-IsSimplePath, IsSafeRoute, IsRouteOf-IsSafeRoute, select_route_safe,
}
use pqc_qkd_hybrid_network.Lab.Choose.{goes_along, is_preferred, stick, select_for, choose_route}
use pqc_qkd_hybrid_network.Lab.Routes.{Lab, graph_of, view_of}

-- What `chooseRoute` takes is the new route or a ranked one that is not longer.
stick_cases :
    (preferred : Option (List String)) (prev : Option RouteChoice) (ranked : List RouteChoice)
    (chosen : Option RouteChoice) (r : RouteChoice) (P : RouteChoice → Type 0)
    → stick preferred prev ranked chosen ≡ some r
    → ((c : RouteChoice) → chosen ≡ some c → P c × All P ranked)
    → P r × ((c : RouteChoice) × (chosen ≡ some c) × (r.hops ≤ c.hops))
unfolding stick
stick_cases preferred prev ranked none r P e h = absurd (cc e)
stick_cases preferred none ranked (some c) r P e h =
    subst (λ x. P x × ((d : RouteChoice) × (some c ≡ some d) × (x.hops ≤ d.hops))) (some_inj e)
      ((h c refl).0, (c, refl, omega arith))
stick_cases preferred (some prev) ranked (some c) r P e h =
    elim (Option-cases (find (goes_along prev.nodes) ranked)) [
      | inl gone ↦
          subst (λ x. P x × ((d : RouteChoice) × (some c ≡ some d) × (x.hops ≤ d.hops)))
            (some_inj (rw (gone, stick) at e)) ((h c refl).0, (c, refl, omega arith))
      | inr (still, found) ↦
          elim (Bool-cases (leb still.hops c.hops && not (is_preferred preferred c))) [
            | inl stays ↦
                subst (λ x. P x × ((d : RouteChoice) × (some c ≡ some d) × (x.hops ≤ d.hops)))
                  (some_inj (rw (found, stays, stick) at e))
                  (
                    (find-All P (goes_along prev.nodes) ranked (h c refl).1 found).0,
                    (c, refl, ground arith),
                  )
            | inr moves ↦
                subst (λ x. P x × ((d : RouteChoice) × (some c ≡ some d) × (x.hops ≤ d.hops)))
                  (some_inj (rw (found, moves, stick) at e)) ((h c refl).0, (c, refl, omega arith))
          ]
    ]

module _ (collate : String → String → Ordering) (lab : Lab) (need : ℕ) where
  abbrev IsSafe : RouteChoice → Type 0
  IsSafe =
      IsSafeRoute (graph_of lab) lab.demand_from lab.demand_to (view_of lab need) lab.down_nodes

  ranked-IsSafe :
      (c : RouteChoice)
      → (select_for collate lab need).chosen ≡ some c
      → All IsSafe (select_for collate lab need).ranked
  unfolding select_for select_among rank_routes
  ranked-IsSafe c e =
      let g = graph_of lab in
      let view = view_of lab need in
      let src = lab.demand_from in
      let dst = lab.demand_to in
      elim (select_route_cases collate g src dst view lab.down_nodes lab.preferred) [
        | inl nothing ↦ absurd (cc (sym nothing ∙ e))
        | inr (_, _, same) ↦
            let ps = paths_of g src dst (down_of g view lab.down_nodes) in
            let P : SimplePath → Type 0 = IsSimplePath g (down_of g view lab.down_nodes) src dst in
            subst (λ (s : Selection). All IsSafe s.ranked) (sym same)
              (All-map _ (IsRouteOf-IsSafeRoute g src dst view lab.down_nodes) _ (
                sort-All _ (IsRouteOf view P) (usable_of view ps) (
                  usable_of-All view P ps
                    (paths_of-IsSimplePath g src dst (down_of g view lab.down_nodes)))))
      ]

  -- The route that `chooseRoute` takes, new or kept, is a safe route for the demand, over links that can
  -- carry it now, and has no more hops than the one that `selectRoute` chooses.
  pub choose_route-IsSafe :
      (r : RouteChoice)
      → (choose_route collate lab need).route ≡ some r
      → IsSafe r
        × ((c : RouteChoice) × ((select_for collate lab need).chosen ≡ some c) × (r.hops ≤ c.hops))
  unfolding choose_route select_for
  choose_route-IsSafe r e =
      stick_cases lab.preferred lab.route (select_for collate lab need).ranked
        (select_for collate lab need).chosen r IsSafe e
        (λ c f. (
          (select_route_safe collate (graph_of lab) lab.demand_from lab.demand_to (view_of lab need)
              lab.down_nodes lab.preferred c f).0,
          ranked-IsSafe c f,
        ))

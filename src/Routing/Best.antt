-- ===== src/Routing/Best.antt =====
-- The route that `selectRoute` of routing.ts returns is the best one, in an order that is stated here on
-- its own.
use Prim.Native.Nat.{compare, Ordering}
use pqc_qkd_hybrid_network.Base.Int.{ℤ, ◌≤ℤ◌}
use pqc_qkd_hybrid_network.Base.{
  ◌<◌, ◌≢◌, ◌⊎◌, refl, ◌≡◌, sym, ap, subst, some_inj, ◌∙◌, inl, inr, String, Bool, true, Option,
  none, some, List, [], ◌∷◌, All, arith,
}
use pqc_qkd_hybrid_network.Base.Sort.{IsSorted, sort-All_inv, sort-IsSorted, sort}
use pqc_qkd_hybrid_network.Base.Comparison.{
  is_le, or_next, compare_ℤ, IsComparison, IsComparison-IsPreorder,
}
use pqc_qkd_hybrid_network.Routing.Graph.{Graph, SimplePath}
use pqc_qkd_hybrid_network.Routing.Rank.{
  LinkView, RouteChoice, describe_route, compare_routes, rank_routes, desc, join,
}
use pqc_qkd_hybrid_network.Routing.Select.{
  Selection, first_of_list, usable_of, paths_of, preferred_of, choose, select_among, select_route,
}
use pqc_qkd_hybrid_network.Routing.Order.{compare_routes-IsComparison}
use pqc_qkd_hybrid_network.Routing.Selection.{IsUsable, usable_of-All_inv, select_route_cases}
use pqc_qkd_hybrid_network.Routing.Choice.{down_of}

-- A bottleneck is wider than another: a known one than an unknown one, and the larger of two known ones.
abbrev pub IsWider : Option ℤ → Option ℤ → Type 0
IsWider (some a) (some b) = ¬ (a ≤ℤ b)
IsWider (some a) none = Unit {0}
IsWider none b = ⊥

-- As wide: both are unknown, or each is at most the other.
abbrev pub IsAsWide : Option ℤ → Option ℤ → Type 0
IsAsWide (some a) (some b) = (a ≤ℤ b) × (b ≤ℤ a)
IsAsWide none none = Unit {0}
IsAsWide _ _ = ⊥

-- A route that is no worse than another: it has fewer hops; or as many and a wider bottleneck in bits;
-- or that as wide too and a wider bottleneck in rate; or all of these alike and its link ids not
-- after those of the other in the collation.
abbrev pub IsNoWorse : (String → String → Ordering) → RouteChoice → RouteChoice → Type 0
IsNoWorse collate r q =
    (r.hops < q.hops)
    ⊎ (r.hops ≡ q.hops)
      × (IsWider r.bottleneck_bits q.bottleneck_bits
          ⊎ IsAsWide r.bottleneck_bits q.bottleneck_bits
            × (IsWider r.bottleneck_bps q.bottleneck_bps
                ⊎ IsAsWide r.bottleneck_bps q.bottleneck_bps
                  × (collate (join "," r.link_ids) (join "," q.link_ids) ≢ Ordering.gt)))

-- What a comparison that does not go after finds in its first part.
or_next_cases :
    (o next : Ordering)
    → is_le (or_next o next) ≡ true
    → (o ≡ Ordering.lt) ⊎ (o ≡ Ordering.eq) × (is_le next ≡ true)
or_next_cases Ordering.lt next h = inl refl
or_next_cases Ordering.eq next h = inr (refl, h)
or_next_cases Ordering.gt next h = absurd (cc h)

desc-IsWider : (a b : Option ℤ) → desc a b ≡ Ordering.lt → IsWider a b
unfolding desc compare_ℤ
desc-IsWider none none e = absurd (cc e)
desc-IsWider none (some b) e = absurd (cc e)
desc-IsWider (some a) none e = tt
desc-IsWider (some a) (some b) e = ground arith

desc-IsAsWide : (a b : Option ℤ) → desc a b ≡ Ordering.eq → IsAsWide a b
unfolding desc compare_ℤ
desc-IsAsWide none none e = tt
desc-IsAsWide none (some b) e = absurd (cc e)
desc-IsAsWide (some a) none e = absurd (cc e)
desc-IsAsWide (some a) (some b) e = ground arith

is_le-not_gt : (o : Ordering) → is_le o ≡ true → o ≢ Ordering.gt
is_le-not_gt o h e = cc (sym h ∙ ap is_le e)

-- What `compareRoutes` puts first or at the same place is no worse.
compare_routes-IsNoWorse :
    (collate : String → String → Ordering) (r q : RouteChoice)
    → is_le (compare_routes collate r q) ≡ true
    → IsNoWorse collate r q
unfolding compare_routes
compare_routes-IsNoWorse collate r q h = elim (or_next_cases (compare r.hops q.hops) _ h) [
  | inl fewer ↦ inl (ground arith)
  | inr (hops, h1) ↦
      let same : r.hops ≡ q.hops = ground arith in
      elim (or_next_cases (desc r.bottleneck_bits q.bottleneck_bits) _ h1) [
        | inl wider ↦ inr (same, inl (desc-IsWider _ _ wider))
        | inr (bits, h2) ↦ elim (or_next_cases (desc r.bottleneck_bps q.bottleneck_bps) _ h2) [
          | inl wider ↦ inr (same, inr (desc-IsAsWide _ _ bits, inl (desc-IsWider _ _ wider)))
          | inr (bps, h3) ↦
              inr
                (same, inr (desc-IsAsWide _ _ bits, inr (desc-IsAsWide _ _ bps, is_le-not_gt _ h3)))
        ]
      ]
]

-- The head of a sorted list goes before all of it.
first_of_list-goes :
    (collate : String → String → Ordering) (rs : List RouteChoice) {r : RouteChoice}
    → IsComparison collate
    → IsSorted (λ x y. is_le (compare_routes collate x y)) rs
    → first_of_list rs ≡ some r
    → All (λ y. is_le (compare_routes collate r y) ≡ true) rs
first_of_list-goes collate [] h s e = tt
first_of_list-goes collate (x ∷ xs) {r} h s e =
    let c = compare_routes-IsComparison collate h in
    subst (λ q. All (λ y. is_le (compare_routes collate q y) ≡ true) (x ∷ xs)) (some_inj e)
      (ground (arith, c.flips x x), s.0)

-- In the order of `compareRoutes`.
select_route_least :
    (collate : String → String → Ordering) (g : Graph) (src dst : String) (view : String → LinkView)
    (down_nodes : List String) (r : RouteChoice)
    → IsComparison collate
    → (select_route collate g src dst view down_nodes none).chosen ≡ some r
    → All
        (λ p. IsUsable view p → is_le (compare_routes collate r (describe_route view p)) ≡ true)
        (paths_of g src dst (down_of g view down_nodes))
unfolding select_among rank_routes choose preferred_of
select_route_least collate g src dst view down_nodes r h e =
    elim (select_route_cases collate g src dst view down_nodes none) [
      | inl nothing ↦ absurd (cc (sym nothing ∙ e))
      | inr (up, up', same) ↦
          let ps = paths_of g src dst (down_of g view down_nodes) in
          let goes : RouteChoice → RouteChoice → Bool = λ x y. is_le (compare_routes collate x y) in
          let c =
            IsComparison-IsPreorder (compare_routes collate)
              (compare_routes-IsComparison collate h) in
          usable_of-All_inv view (λ y. goes r y ≡ true) ps
            (sort-All_inv goes (λ y. goes r y ≡ true) (usable_of view ps)
              (first_of_list-goes collate (sort goes (usable_of view ps)) h
                (sort-IsSorted goes c (usable_of view ps))
                (sym (ap (λ (s : Selection). s.chosen) same) ∙ e)))
    ]

-- With no preferred route, and a collation that is a total preorder, the chosen route is no worse than
-- that of any path which `simplePaths` finds and whose links are all usable: it has fewer hops, or as
-- many and a wider bottleneck in bits, then in rate, or ids of links that are not later in the
-- collation.
pub select_route_best :
    (collate : String → String → Ordering) (g : Graph) (src dst : String) (view : String → LinkView)
    (down_nodes : List String) (r : RouteChoice)
    → IsComparison collate
    → (select_route collate g src dst view down_nodes none).chosen ≡ some r
    → All
        (λ p. IsUsable view p → IsNoWorse collate r (describe_route view p))
        (paths_of g src dst (down_of g view down_nodes))
select_route_best collate g src dst view down_nodes r h e =
    go (paths_of g src dst (down_of g view down_nodes))
      (select_route_least collate g src dst view down_nodes r h e)
  where
    go :
        (ps : List SimplePath)
        → All
            (λ p. IsUsable view p → is_le (compare_routes collate r (describe_route view p)) ≡ true)
            ps
        → All (λ p. IsUsable view p → IsNoWorse collate r (describe_route view p)) ps
    go [] all = tt
    go (p ∷ ps) (first, all) = (λ u. compare_routes-IsNoWorse collate r _ (first u), go ps all)

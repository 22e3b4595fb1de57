-- ===== src/Routing/Selection.antt =====
-- What `selectRoute` of routing.ts chooses.
use Prim.Native.Nat.{Ordering}
use pqc_qkd_hybrid_network.Base.{
  ◌≡◌, refl, sym, subst, some_inj, ◌∙◌, ◌⊎◌, inl, inr, String, true, false, not, Option, none, some,
  List, [], ◌∷◌, All, All-map, find-All, find-none, find-eq-none, arith, str_eq, Bool-cases,
  Option-cases, List-cases,
}
use pqc_qkd_hybrid_network.Base.Sort.{sort-All}
use pqc_qkd_hybrid_network.Routing.Graph.{Graph, Down, SimplePath, includes}
use pqc_qkd_hybrid_network.Routing.Rank.{
  LinkView, RouteChoice, describe_route, route_key, rank_routes,
}
use pqc_qkd_hybrid_network.Routing.Select.{
  first_of_list, down_links, blocked_by, usable_of, paths_of, preferred_of, choose, select_among,
  select_route,
}

-- Every link of the path can carry the request.
abbrev pub IsUsable : (String → LinkView) → SimplePath → Type 0
IsUsable view p = All (λ id. (view id).usable ≡ true) p.link_ids

blocked_by-none :
    (view : String → LinkView) (p : SimplePath) → blocked_by view p ≡ none → IsUsable view p
unfolding blocked_by
blocked_by-none view p e =
    All-map _ (λ id h. ground arith) p.link_ids
      (find-none (λ id. not (view id).usable) p.link_ids e)

blocked_by-usable :
    (view : String → LinkView) (p : SimplePath) → IsUsable view p → blocked_by view p ≡ none
unfolding blocked_by
blocked_by-usable view p h =
    find-eq-none (λ id. not (view id).usable) p.link_ids
      (All-map _ (λ id h. ground arith) p.link_ids h)

-- A usable route is that of a path all of whose links are usable.
abbrev pub IsRouteOf : (String → LinkView) → (SimplePath → Type 0) → RouteChoice → Type 0
IsRouteOf view P r = (p : SimplePath) × P p × IsUsable view p × (r ≡ describe_route view p)

pub usable_of-All :
    (view : String → LinkView) (P : SimplePath → Type 0) (ps : List SimplePath)
    → All P ps
    → All (IsRouteOf view P) (usable_of view ps)
unfolding usable_of
usable_of-All view P [] h = tt
usable_of-All view P (p ∷ ps) h = elim (Option-cases (blocked_by view p)) [
  | inl clear ↦
      rw (clear, usable_of)
        ((p, h.0, blocked_by-none view p clear, refl), usable_of-All view P ps h.1)
  | inr (id, e) ↦ rw (e, usable_of) (usable_of-All view P ps h.1)
]

pub usable_of-All_inv {κ} :
    (view : String → LinkView) (Q : RouteChoice → Type κ) (ps : List SimplePath)
    → All Q (usable_of view ps)
    → All (λ p. IsUsable view p → Q (describe_route view p)) ps
unfolding usable_of
usable_of-All_inv view Q [] h = tt
usable_of-All_inv view Q (p ∷ ps) h = elim (Option-cases (blocked_by view p)) [
  | inl clear ↦ let h' = rw (clear, usable_of) at h in (λ u. h'.0, usable_of-All_inv view Q ps h'.1)
  | inr (id, e) ↦ (
    λ u. absurd (cc (sym e ∙ blocked_by-usable view p u)),
    usable_of-All_inv view Q ps (rw (e, usable_of) at h),
  )
]

preferred_of-All {κ} :
    (Q : RouteChoice → Type κ) (preferred : Option (List String)) (rs : List RouteChoice)
    {r : RouteChoice}
    → All Q rs
    → preferred_of preferred rs ≡ some r
    → Q r
unfolding preferred_of
preferred_of-All Q none rs h e = absurd (cc e)
preferred_of-All Q (some pref) rs h e =
    (find-All Q (λ y. str_eq (route_key y.nodes) (route_key pref)) rs h e).0

first_of_list-All {κ} :
    (Q : RouteChoice → Type κ) (rs : List RouteChoice) {r : RouteChoice}
    → All Q rs
    → first_of_list rs ≡ some r
    → Q r
first_of_list-All Q [] h e = absurd (cc e)
first_of_list-All Q (x ∷ xs) h e = subst Q (some_inj e) h.0

pub choose-All {κ} :
    (Q : RouteChoice → Type κ) (preferred : Option (List String)) (rs : List RouteChoice)
    {r : RouteChoice}
    → All Q rs
    → choose preferred rs ≡ some r
    → Q r
unfolding choose
choose-All Q preferred rs h e = elim (Option-cases (preferred_of preferred rs)) [
  | inl missing ↦ first_of_list-All Q rs h (rw (missing, choose) at e)
  | inr (y, found) ↦
      subst Q (some_inj (rw (found, choose) at e)) (preferred_of-All Q preferred rs h found)
]

pub select_route_cases :
    (collate : String → String → Ordering) (g : Graph) (src dst : String) (view : String → LinkView)
    (down_nodes : List String) (preferred : Option (List String))
    → let down : Down = record { nodes = down_nodes; links = down_links view g.links } in
      let sel = select_route collate g src dst view down_nodes preferred in
      (sel.chosen ≡ none)
      ⊎ ((includes down_nodes src ≡ false)
          × (includes down_nodes dst ≡ false)
          × (sel ≡ select_among collate view preferred (paths_of g src dst down)))
unfolding select_route
select_route_cases collate g src dst view down_nodes preferred =
    elim (Bool-cases (includes down_nodes src)) [
      | inl down ↦ inl (rw down refl)
      | inr up ↦ elim (Bool-cases (includes down_nodes dst)) [
        | inl down ↦ inl (rw (up, down) refl)
        | inr up' ↦
            elim (List-cases (
              paths_of g src dst
                (record { nodes = down_nodes; links = down_links view g.links }))) [
                  | inl empty ↦ inl (rw (up, up', empty, select_route) refl)
                  | inr (p, ps, e) ↦ inr (up, up', rw (up, up', e, select_route) refl)
                ]
      ]
    ]

-- The route chosen among paths with a property is that of such a path, all of whose links are usable.
pub select_among-IsRouteOf :
    (collate : String → String → Ordering) (view : String → LinkView)
    (preferred : Option (List String)) (ps : List SimplePath) (P : SimplePath → Type 0)
    (r : RouteChoice)
    → All P ps
    → (select_among collate view preferred ps).chosen ≡ some r
    → IsRouteOf view P r
unfolding select_among rank_routes
select_among-IsRouteOf collate view preferred ps P r h e =
    choose-All (IsRouteOf view P) preferred (rank_routes collate (usable_of view ps))
      (sort-All _ (IsRouteOf view P) (usable_of view ps) (usable_of-All view P ps h)) e

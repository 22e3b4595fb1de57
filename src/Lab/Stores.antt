-- ===== src/Lab/Stores.antt =====
-- A run with stores of the protocol lab (protocolLabSim.ts) never draws a store below its threshold.
use mathlib.Core.Option
use pqc_qkd_hybrid_network.Base.{
  ℕ, ◌≡◌, refl, sym, ap, subst, ◌∙◌, inl, inr, String, true, false, some, List, [], ◌∷◌, str_eq,
  eq_iff, leb→le, All, All-map, arith, Bool-cases, Option-cases, some_inj,
}
use pqc_qkd_hybrid_network.Base.Int.{ℤ, pos, sub_ℤ, leb_ℤ, ◌≤ℤ◌}
use pqc_qkd_hybrid_network.Routing.Graph.{includes}
use pqc_qkd_hybrid_network.Routing.Rank.{RouteChoice, describe_route}
use pqc_qkd_hybrid_network.Routing.Paths.{AreDistinct}
use pqc_qkd_hybrid_network.Routing.Distinct.{IsNamed, IsSimplePath-AreDistinct}
use pqc_qkd_hybrid_network.Routing.Choice.{IsSafeRoute}
use pqc_qkd_hybrid_network.Lab.Links.{stores, LinkState, change_link}
use pqc_qkd_hybrid_network.Lab.Routes.{
  Lab, find_link, view_store, view_link, view_of, routable, graph_of,
}
use pqc_qkd_hybrid_network.Lab.Modes.{draw_bits, draw_stores}
use pqc_qkd_hybrid_network.Lab.Conserved.{change_link_other}

-- A store is not below its threshold.
abbrev pub IsAbove : LinkState → Type 0
IsAbove l = (b t : ℤ) → l.stored_bits ≡ some b → l.threshold_bits ≡ some t → t ≤ℤ b

-- A store covers a transfer above its threshold.
abbrev pub CoversNeed : ℕ → LinkState → Type 0
CoversNeed need l =
    (b : ℤ) × (t : ℤ) × (l.stored_bits ≡ some b)
    × (l.threshold_bits ≡ some t)
    × (pos need ≤ℤ sub_ℤ b t)

abbrev pub HasCover : ℕ → List LinkState → String → Type 0
HasCover need links id = (l : LinkState) × (find_link id links ≡ some l) × CoversNeed need l

view_store_covers :
    (need : ℕ) (l : LinkState) → (view_store (pos need) l).usable ≡ true → CoversNeed need l
unfolding view_store
view_store_covers need l e = elim (Option-cases l.stored_bits) [
  | inl none_stored ↦ let z : false ≡ true = rw (none_stored, view_store) at e in absurd (cc z)
  | inr (b, stored) ↦ elim (Option-cases l.threshold_bits) [
    | inl no_threshold ↦
        let z : false ≡ true = rw (stored, no_threshold, view_store) at e in absurd (cc z)
    | inr (t, known) ↦ elim (Bool-cases (leb_ℤ (pos need) (sub_ℤ b t))) [
      | inl covers ↦ (b, t, stored, known, leb→le _ _ covers)
      | inr short ↦
          let z : false ≡ true = rw (stored, known, short, view_store) at e in absurd (cc z)
    ]
  ]
]

view_link_covers :
    (lab : Lab) (need : ℕ) (l : LinkState)
    → lab.accounting ≡ stores
    → (view_link lab need l).usable ≡ true
    → CoversNeed need l
unfolding view_link
view_link_covers lab need l counts e = elim (Bool-cases l.down) [
  | inl down ↦ let z : false ≡ true = rw (down, view_link) at e in absurd (cc z)
  | inr up ↦ view_store_covers need l (rw (up, counts, view_link) at e)
]

view_of_covers :
    (lab : Lab) (need : ℕ) (id : String)
    → lab.accounting ≡ stores
    → (view_of lab need id).usable ≡ true
    → HasCover need lab.links id
unfolding view_of
view_of_covers lab need id counts e = elim (Option-cases (find_link id lab.links)) [
  | inl gone ↦ let z : false ≡ true = rw (gone, view_of) at e in absurd (cc z)
  | inr (l, found) ↦ (l, found, view_link_covers lab need l counts (rw (found, view_of) at e))
]

draw_bits-IsAbove : (need : ℕ) (l : LinkState) → CoversNeed need l → IsAbove (draw_bits need l)
draw_bits-IsAbove need l (b, t, stored, known, covers) b' t' e f =
    let drawn : sub_ℤ b (pos need) ≡ b' =
      ap (λ o. sub_ℤ (Option.get_or o (pos 0)) (pos need)) (sym stored) ∙ some_inj e in
    let same : t ≡ t' = some_inj (sym known ∙ f) in
    subst (λ x. t' ≤ℤ x) drawn (subst (λ x. x ≤ℤ sub_ℤ b (pos need)) same (stays b t covers))
  where
    stays : (b t : ℤ) → pos need ≤ℤ sub_ℤ b t → t ≤ℤ sub_ℤ b (pos need)
    stays b t h = ground arith

change_link-IsAbove :
    (need : ℕ) (links : List LinkState) (id : String)
    → HasCover need links id
    → All IsAbove links
    → All IsAbove (change_link id (draw_bits need) links)
unfolding change_link
change_link-IsAbove need [] id c a = tt
change_link-IsAbove need (l ∷ ls) id (m, found, c) a = elim (Bool-cases (str_eq l.id id)) [
  | inl here ↦
      let same : some l ≡ some m = rw here at found in
      rw here (draw_bits-IsAbove need l (subst (CoversNeed need) (sym (some_inj same)) c), a.1)
  | inr away ↦ rw away (a.0, change_link-IsAbove need ls id (m, rw away at found, c) a.1)
]

still_cover :
    (need : ℕ) (links : List LinkState) (id : String) (js : List String)
    → includes js id ≡ false
    → All (HasCover need links) js
    → All (HasCover need (change_link id (draw_bits need) links)) js
unfolding includes
still_cover need links id [] ne a = tt
still_cover need links id (j ∷ js) ne ((l, found, c), a) = (
  (
    l,
    change_link_other (draw_bits need) links id j (λ x. refl)
          (ground (arith, eq_iff id j, eq_iff j id))
        ∙ found,
    c,
  ),
  still_cover need links id js (ground arith) a,
)

pub draw_stores-IsAbove :
    (need : ℕ) (ids : List String) (links : List LinkState)
    → AreDistinct ids
    → All (HasCover need links) ids
    → All IsAbove links
    → All IsAbove (draw_stores need ids links)
unfolding draw_stores
draw_stores-IsAbove need [] links d c a = a
draw_stores-IsAbove need (id ∷ ids) links d c a =
    draw_stores-IsAbove need ids (change_link id (draw_bits need) links) d.1
      (still_cover need links id ids d.0 c.1) (change_link-IsAbove need links id c.0 a)

-- What a safe route of a run with stores draws leaves every store above its threshold.
pub safe_draw-IsAbove :
    (lab : Lab) (need : ℕ) (r : RouteChoice)
    → lab.accounting ≡ stores
    → IsNamed (routable lab.links)
    → IsSafeRoute (graph_of lab) lab.demand_from lab.demand_to (view_of lab need) lab.down_nodes r
    → All IsAbove lab.links
    → All IsAbove (draw_stores need r.link_ids lab.links)
unfolding describe_route
safe_draw-IsAbove lab need r counts named safe a =
    subst (λ (x : RouteChoice). All IsAbove (draw_stores need x.link_ids lab.links))
      (sym safe.described)
      (draw_stores-IsAbove need safe.path.link_ids lab.links
        (IsSimplePath-AreDistinct (graph_of lab) _ lab.demand_from lab.demand_to safe.path named
          safe.simple)
        (All-map _ (λ id. view_of_covers lab need id counts) safe.path.link_ids safe.usable) a)

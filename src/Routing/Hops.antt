-- ===== src/Routing/Hops.antt =====
-- The edges of the adjacency map of routing.ts are exactly the hops over links that are up.
use mathlib.Core.List.{Memᴰ}
use pqc_qkd_hybrid_network.Base.{
  ◌≡◌, refl, sym, ◌∙◌, subst, ◌⊎◌, inl, inr, String, false, List, [], ◌∷◌, str_eq, if◌then◌else◌,
  Bool-cases, eq_iff,
}
use pqc_qkd_hybrid_network.Base.Dict.{lookup, insert, lookup-insert_self}
use pqc_qkd_hybrid_network.Routing.Graph.{
  Link, Graph, Down, Edge, Adjacency, is_down, add_nodes, push_edge, add_links, adjacency, edges_at,
}
use pqc_qkd_hybrid_network.Routing.Adjacency.{
  IsKey, edges_at_known, edges_at-insert_ne, mem_push, mem_push_old, mem_push_new, IsKey-insert,
  IsKey-push,
}

-- The link joins the two nodes, in either direction.
abbrev pub Joins : Link → String → String → Type 0
Joins l at to = (l.a ≡ at) × (l.b ≡ to) ⊎ (l.b ≡ at) × (l.a ≡ to)

-- A listed link that is not down, with its ends, joins the node to the edge's end.
pub record IsHop (down : Down) (links : List Link) (at : String) (e : Edge) : Type 0 where
  pub link : Link
  pub listed : Memᴰ link links
  pub up : is_down down link ≡ false
  pub named : e ≡ record { to = e.to; id = link.id }
  pub joins : Joins link at e.to

IsHop-cons :
    (down : Down) (l : Link) (links : List Link) (at : String) (e : Edge)
    → IsHop down links at e
    → IsHop down (l ∷ links) at e
IsHop-cons down l links at e h = record {
  link = h.link;
  listed = Memᴰ.tail h.listed;
  up = h.up;
  named = h.named;
  joins = h.joins;
}

-- An edge of a map that a link that is up was pushed to.
mem_push_both :
    (down : Down) (l : Link) (links : List Link) (adj : Adjacency) (at : String) (e : Edge)
    → is_down down l ≡ false
    → Memᴰ e (
        edges_at
          (push_edge l.b
            (record { to = l.a; id = l.id })
            (push_edge l.a (record { to = l.b; id = l.id }) adj))
          at)
    → Memᴰ e (edges_at adj at) ⊎ IsHop down (l ∷ links) at e
mem_push_both down l links adj at e up m =
    elim (mem_push l.b at (record { to = l.a; id = l.id }) e
      (push_edge l.a (record { to = l.b; id = l.id }) adj) m) [
        | inr (eq, here) ↦ inr (record {
          link = l;
          listed = Memᴰ.head refl;
          up = up;
          named = rw eq refl;
          joins = inr (here, rw eq refl);
        })
        | inl m' ↦ elim (mem_push l.a at (record { to = l.b; id = l.id }) e adj m') [
          | inl old ↦ inl old
          | inr (eq, here) ↦ inr (record {
            link = l;
            listed = Memᴰ.head refl;
            up = up;
            named = rw eq refl;
            joins = inl (here, rw eq refl);
          })
        ]
      ]

add_links-IsHop :
    (down : Down) (links : List Link) (adj : Adjacency) (at : String) (e : Edge)
    → Memᴰ e (edges_at (add_links down links adj) at)
    → Memᴰ e (edges_at adj at) ⊎ IsHop down links at e
unfolding add_links
add_links-IsHop down [] adj at e m = inl m
add_links-IsHop down (l ∷ ls) adj at e m = elim (add_links-IsHop down ls _ at e m) [
  | inr later ↦ inr (IsHop-cons down l ls at e later)
  | inl here ↦ elim (Bool-cases (is_down down l)) [
    | inl dead ↦ inl (rw dead at here)
    | inr up ↦ mem_push_both down l ls adj at e up (rw up at here)
  ]
]

add_links-mem :
    (down : Down) (links : List Link) (adj : Adjacency) (at : String) (e : Edge)
    → Memᴰ e (edges_at adj at)
    → Memᴰ e (edges_at (add_links down links adj) at)
unfolding add_links
add_links-mem down [] adj at e m = m
add_links-mem down (l ∷ ls) adj at e m =
    add_links-mem down ls _ at e (elim (Bool-cases (is_down down l)) [
      | inl dead ↦ rw dead m
      | inr up ↦ rw up (mem_push_old l.b at _ e _ (mem_push_old l.a at _ e adj m))
    ])

IsKey-add_link :
    (down : Down) (l : Link) (adj : Adjacency) (k : String)
    → IsKey k adj
    → IsKey k (
        if is_down down l
        then adj
        else push_edge l.b
            (record { to = l.a; id = l.id })
            (push_edge l.a (record { to = l.b; id = l.id }) adj))
IsKey-add_link down l adj k h = elim (Bool-cases (is_down down l)) [
  | inl dead ↦ rw dead h
  | inr up ↦ rw up (IsKey-push l.b k _ _ (IsKey-push l.a k _ adj h))
]

mem_push_hop :
    (l : Link) (adj : Adjacency) (at : String) (e : Edge)
    → e ≡ record { to = e.to; id = l.id }
    → Joins l at e.to
    → IsKey at adj
    → Memᴰ e (
        edges_at
          (push_edge l.b
            (record { to = l.a; id = l.id })
            (push_edge l.a (record { to = l.b; id = l.id }) adj))
          at)
mem_push_hop l adj at e named (inl (here, there)) key =
    let f : Edge = record { to = l.b; id = l.id } in
    let fe : f ≡ e = rw there (sym named) in
    mem_push_old l.b at (record { to = l.a; id = l.id }) e (push_edge l.a f adj)
      (subst (λ i. Memᴰ e (edges_at (push_edge l.a f adj) i)) here
        (subst (λ u. Memᴰ u (edges_at (push_edge l.a f adj) l.a)) fe
          (mem_push_new l.a f adj (subst (λ i. IsKey i adj) (sym here) key))))
mem_push_hop l adj at e named (inr (here, there)) key =
    let f : Edge = record { to = l.b; id = l.id } in
    let g : Edge = record { to = l.a; id = l.id } in
    let ge : g ≡ e = rw there (sym named) in
    let key' : IsKey l.b (push_edge l.a f adj) =
      IsKey-push l.a l.b f adj (subst (λ i. IsKey i adj) (sym here) key) in
    subst (λ i. Memᴰ e (edges_at (push_edge l.b g (push_edge l.a f adj)) i)) here
      (subst (λ u. Memᴰ u (edges_at (push_edge l.b g (push_edge l.a f adj)) l.b)) ge
        (mem_push_new l.b g (push_edge l.a f adj) key'))

-- A hop from a key of the map is among its edges in the end.
IsHop-mem :
    (down : Down) (links : List Link) (adj : Adjacency) (at : String) (e : Edge) (l : Link)
    → Memᴰ l links
    → is_down down l ≡ false
    → e ≡ record { to = e.to; id = l.id }
    → Joins l at e.to
    → IsKey at adj
    → Memᴰ e (edges_at (add_links down links adj) at)
unfolding add_links
IsHop-mem down [] adj at e l m up named joins key = elim m [ ]
IsHop-mem down (x ∷ ls) adj at e l (Memᴰ.tail m) up named joins key =
    IsHop-mem down ls _ at e l m up named joins (IsKey-add_link down x adj at key)
IsHop-mem down (x ∷ ls) adj at e l (Memᴰ.head same) up named joins key =
    add_links-mem down ls _ at e (
      subst
        (λ (y : Link). Memᴰ e (
          edges_at
            (if is_down down y
              then adj
              else push_edge y.b (record { to = y.a; id = y.id })
                  (push_edge y.a (record { to = y.b; id = y.id }) adj))
            at))
        same (rw up (mem_push_hop l adj at e named joins key)))

-- The map of the nodes alone has no edge, and the nodes for keys.
add_nodes-edges :
    (ns : List String) (adj : Adjacency) (at : String)
    → ((k : String) → edges_at adj k ≡ [])
    → edges_at (add_nodes ns adj) at ≡ []
unfolding add_nodes
add_nodes-edges [] adj at h = h at
add_nodes-edges (n ∷ ns) adj at h = add_nodes-edges ns (insert n [] adj) at (λ k.
    elim (Bool-cases (str_eq n k)) [
      | inl hit ↦
          subst (λ i. edges_at (insert n [] adj) i ≡ []) ((eq_iff n k).0 hit)
            (edges_at_known (insert n [] adj) n [] (lookup-insert_self n [] adj))
      | inr miss ↦ edges_at-insert_ne n k [] adj miss ∙ h k
    ])

add_nodes-IsKey_old :
    (ns : List String) (adj : Adjacency) (k : String) → IsKey k adj → IsKey k (add_nodes ns adj)
unfolding add_nodes
add_nodes-IsKey_old [] adj k h = h
add_nodes-IsKey_old (n ∷ ns) adj k h =
    add_nodes-IsKey_old ns (insert n [] adj) k (IsKey-insert n k [] adj h)

add_nodes-IsKey :
    (ns : List String) (adj : Adjacency) (k : String) → Memᴰ k ns → IsKey k (add_nodes ns adj)
unfolding add_nodes
add_nodes-IsKey [] adj k m = elim m [ ]
add_nodes-IsKey (n ∷ ns) adj k (Memᴰ.head e) =
    subst (λ i. IsKey i (add_nodes ns (insert n [] adj))) (sym e)
      (add_nodes-IsKey_old ns (insert n [] adj) n ([], lookup-insert_self n [] adj))
add_nodes-IsKey (n ∷ ns) adj k (Memᴰ.tail m) = add_nodes-IsKey ns (insert n [] adj) k m

-- Every edge of the adjacency map is a hop over a link that is up,
pub adjacency-IsHop :
    (g : Graph) (down : Down) (at : String) (e : Edge)
    → Memᴰ e (edges_at (adjacency g down) at)
    → IsHop down g.links at e
unfolding adjacency edges_at
adjacency-IsHop g down at e m = elim (add_links-IsHop down g.links (add_nodes g.nodes []) at e m) [
  | inr hop ↦ hop
  | inl old ↦
      elim (subst (λ es. Memᴰ e es) (add_nodes-edges g.nodes [] at (λ k. unfold lookup in refl))
        old) [ ]
]

-- and every such hop from a node of the graph is an edge.
pub adjacency-mem :
    (g : Graph) (down : Down) (at : String) (e : Edge)
    → Memᴰ at g.nodes
    → IsHop down g.links at e
    → Memᴰ e (edges_at (adjacency g down) at)
unfolding adjacency
adjacency-mem g down at e node h =
    IsHop-mem down g.links (add_nodes g.nodes []) at e h.link h.listed h.up h.named h.joins
      (add_nodes-IsKey g.nodes [] at node)

-- ===== src/Routing/Adjacency.antt =====
-- The adjacency map that `simplePaths` of routing.ts builds: its edges are the links that are up, in
-- both directions, at the nodes of the graph.
use mathlib.Core.List.{Memᴰ}
use pqc_qkd_hybrid_network.Base.{
  ◌≡◌, refl, sym, subst, ◌⊎◌, inl, inr, String, false, none, some, List, [], ◌∷◌, ◌++◌, str_eq,
  Bool-cases, Option-cases, eq_iff,
}
use pqc_qkd_hybrid_network.Base.Dict.{lookup, insert, lookup-insert, lookup-insert_self}
use pqc_qkd_hybrid_network.Routing.Graph.{Edge, Adjacency, push_edge, edges_at}

mem_append {ℓ} :
    {A : Type ℓ} {a : A} (xs : List A) {ys : List A} → Memᴰ a (xs ++ ys) → Memᴰ a xs ⊎ Memᴰ a ys
mem_append [] m = inr m
mem_append (x ∷ xs) (Memᴰ.head e) = inl (Memᴰ.head e)
mem_append (x ∷ xs) (Memᴰ.tail m) = elim (mem_append xs m) [
  | inl l ↦ inl (Memᴰ.tail l)
  | inr r ↦ inr r
]

pub mem_append_left {ℓ} :
    {A : Type ℓ} {a : A} {xs : List A} (ys : List A) → Memᴰ a xs → Memᴰ a (xs ++ ys)
mem_append_left ys (Memᴰ.head e) = Memᴰ.head e
mem_append_left ys (Memᴰ.tail m) = Memᴰ.tail (mem_append_left ys m)

pub mem_append_right {ℓ} :
    {A : Type ℓ} {a : A} (xs : List A) {ys : List A} → Memᴰ a ys → Memᴰ a (xs ++ ys)
mem_append_right [] m = m
mem_append_right (x ∷ xs) m = Memᴰ.tail (mem_append_right xs m)

-- The node is a key of the map.
abbrev pub IsKey : String → Adjacency → Type 0
IsKey k adj = (es : List Edge) × (lookup k adj ≡ some es)

pub edges_at_known :
    (adj : Adjacency) (k : String) (es : List Edge) → lookup k adj ≡ some es → edges_at adj k ≡ es
unfolding edges_at
edges_at_known adj k es e = rw (e, edges_at)

pub edges_at-insert_ne :
    (k j : String) (es : List Edge) (adj : Adjacency)
    → str_eq k j ≡ false
    → edges_at (insert k es adj) j ≡ edges_at adj j
unfolding edges_at
edges_at-insert_ne k j es adj e = rw (lookup-insert adj k j es, edges_at) (rw e refl)

push_edge_known :
    (k : String) (e : Edge) (adj : Adjacency) (es : List Edge)
    → lookup k adj ≡ some es
    → push_edge k e adj ≡ insert k (es ++ e ∷ []) adj
unfolding push_edge
push_edge_known k e adj es h = rw (h, push_edge)

push_edge_missing :
    (k : String) (e : Edge) (adj : Adjacency) → lookup k adj ≡ none → push_edge k e adj ≡ adj
unfolding push_edge
push_edge_missing k e adj h = rw (h, push_edge)

-- The edges at a node after a push: those before it, and the new one at its node.
pub mem_push :
    (k j : String) (e f : Edge) (adj : Adjacency)
    → Memᴰ f (edges_at (push_edge k e adj) j)
    → Memᴰ f (edges_at adj j) ⊎ (f ≡ e) × (k ≡ j)
mem_push k j e f adj m = elim (Option-cases (lookup k adj)) [
  | inl out ↦ inl (rw (push_edge_missing k e adj out) at m)
  | inr (es, there) ↦
      let m' = rw (push_edge_known k e adj es there) at m in
      elim (Bool-cases (str_eq k j)) [
        | inr apart ↦ inl (rw (edges_at-insert_ne k j (es ++ e ∷ []) adj apart) at m')
        | inl hit ↦
            let kj : k ≡ j = (eq_iff k j).0 hit in
            let at_k : Memᴰ f (edges_at (insert k (es ++ e ∷ []) adj) k) =
              subst (λ i. Memᴰ f (edges_at (insert k (es ++ e ∷ []) adj) i)) (sym kj) m' in
            elim (mem_append es (
              rw
                (edges_at_known (insert k (es ++ e ∷ []) adj) k (es ++ e ∷ [])
                  (lookup-insert_self k (es ++ e ∷ []) adj))
                at at_k)) [
                  | inl old ↦ inl (
                      subst (λ i. Memᴰ f (edges_at adj i)) kj
                        (rw (edges_at_known adj k es there) old))
                  | inr (Memᴰ.head same) ↦ inr (same, kj)
                  | inr (Memᴰ.tail none_left) ↦ elim none_left [ ]
                ]
      ]
]

pub mem_push_old :
    (k j : String) (e f : Edge) (adj : Adjacency)
    → Memᴰ f (edges_at adj j)
    → Memᴰ f (edges_at (push_edge k e adj) j)
mem_push_old k j e f adj m = elim (Option-cases (lookup k adj)) [
  | inl out ↦ rw (push_edge_missing k e adj out) m
  | inr (es, there) ↦ rw (push_edge_known k e adj es there) (elim (Bool-cases (str_eq k j)) [
    | inr apart ↦ rw (edges_at-insert_ne k j (es ++ e ∷ []) adj apart) m
    | inl hit ↦
        let kj : k ≡ j = (eq_iff k j).0 hit in
        let m' : Memᴰ f es =
          rw (edges_at_known adj k es there) at (subst (λ i. Memᴰ f (edges_at adj i)) (sym kj) m) in
        subst (λ i. Memᴰ f (edges_at (insert k (es ++ e ∷ []) adj) i)) kj
          (rw
            (edges_at_known (insert k (es ++ e ∷ []) adj) k (es ++ e ∷ [])
              (lookup-insert_self k (es ++ e ∷ []) adj))
            (mem_append_left (e ∷ []) m'))
  ])
]

pub mem_push_new :
    (k : String) (e : Edge) (adj : Adjacency)
    → IsKey k adj
    → Memᴰ e (edges_at (push_edge k e adj) k)
mem_push_new k e adj (es, there) =
    rw
      (
        push_edge_known k e adj es there,
        edges_at_known (insert k (es ++ e ∷ []) adj) k (es ++ e ∷ [])
            (lookup-insert_self k (es ++ e ∷ []) adj),
      )
      (mem_append_right es (Memᴰ.head refl))

pub IsKey-insert :
    (k j : String) (es : List Edge) (adj : Adjacency) → IsKey j adj → IsKey j (insert k es adj)
IsKey-insert k j es adj (fs, there) = elim (Bool-cases (str_eq k j)) [
  | inl hit ↦ (es, rw (lookup-insert adj k j es) (rw hit refl))
  | inr miss ↦ (fs, rw (lookup-insert adj k j es) (rw miss there))
]

pub IsKey-push :
    (k j : String) (e : Edge) (adj : Adjacency) → IsKey j adj → IsKey j (push_edge k e adj)
IsKey-push k j e adj h = elim (Option-cases (lookup k adj)) [
  | inl out ↦ rw (push_edge_missing k e adj out) h
  | inr (es, there) ↦ rw (push_edge_known k e adj es there) (IsKey-insert k j (es ++ e ∷ []) adj h)
]

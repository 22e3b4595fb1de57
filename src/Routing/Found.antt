-- ===== src/Routing/Found.antt =====
-- What `walk` of routing.ts finds from a node: paths that go on along edges to nodes not visited yet
-- and stop at the destination, and, below the safety bound, all of them.
use mathlib.Core.List.{Memᴰ, append_assoc, append-nil}
use pqc_qkd_hybrid_network.Base.{
  ℕ, zero, suc, ◌≡◌, refl, sym, ap, some_inj, ◌∙◌, ◌≢◌, inl, inr, String, true, false, Option, none,
  some, List, [], ◌∷◌, ◌++◌, length, arith, leb, str_eq, Bool-cases, Option-cases, eq_iff, All,
  All-append, All-map,
}
use pqc_qkd_hybrid_network.Routing.Graph.{
  SimplePath, Edge, Adjacency, includes, edges_at, Walk, walk_edges, walk,
}

-- From a node, with the nodes visited so far, on along the nodes and links to the destination.
abbrev pub Trail : Adjacency → String → List String → String → List String → List String → Type 0
Trail adj dst visited at [] [] = (at ≡ dst)
Trail adj dst visited at (n ∷ ns) (i ∷ is) =
    (at ≢ dst)
    × Memᴰ (record { to = n; id = i }) (edges_at adj at)
    × (includes visited n ≡ false)
    × Trail adj dst (visited ++ n ∷ []) n ns is
Trail adj dst visited at [] (i ∷ is) = ⊥
Trail adj dst visited at (n ∷ ns) [] = ⊥

abbrev path_of : List String → List String → SimplePath
path_of nodes ids = record { nodes = nodes; link_ids = ids }

-- The path continues what was walked so far by a trail.
abbrev pub Continues : Adjacency → String → List String → List String → String → SimplePath → Type 0
Continues adj dst nodes ids at p =
    (ns : List String) × (is : List String) × (p
      ≡ record { nodes = nodes ++ ns; link_ids = ids ++ is })
    × Trail adj dst nodes at ns is

-- What a walk adds to the paths found before.
abbrev pub Adds {ℓ} : (SimplePath → Type ℓ) → List SimplePath → Option (List SimplePath) → Type ℓ
Adds P out r =
    (out' : List SimplePath)
    → r ≡ some out'
    → (new : List SimplePath) × (out' ≡ out ++ new) × All P new

-- A path that goes on from the edge's end goes on from the node itself.
Continues-edge :
    (adj : Adjacency) (dst : String) (nodes ids : List String) (at : String) (e : Edge)
    → at ≢ dst
    → Memᴰ e (edges_at adj at)
    → includes nodes e.to ≡ false
    → (p : SimplePath) → Continues adj dst (nodes ++ e.to ∷ []) (ids ++ e.id ∷ []) e.to p
    → Continues adj dst nodes ids at p
Continues-edge adj dst nodes ids at e ne m new p (ns, is, eq, t) = (
  e.to ∷ ns,
  e.id ∷ is,
  eq ∙ rw (append_assoc nodes (e.to ∷ []) ns, append_assoc ids (e.id ∷ []) is) refl,
  (ne, m, new, t),
)

module _ (go : Walk) (e : Edge) (es : List Edge) (nodes ids : List String)
    (out : List SimplePath) where
  pub walk_edges_skip :
      includes nodes e.to ≡ true
      → walk_edges go (e ∷ es) nodes ids out ≡ walk_edges go es nodes ids out
  unfolding walk_edges
  walk_edges_skip old = rw (old, walk_edges)

  pub walk_edges_take :
      {mid : List SimplePath}
      → includes nodes e.to ≡ false
      → go e.to (nodes ++ e.to ∷ []) (ids ++ e.id ∷ []) out ≡ some mid
      → walk_edges go (e ∷ es) nodes ids out ≡ walk_edges go es nodes ids mid
  unfolding walk_edges
  walk_edges_take new found = rw (new, walk_edges) (rw (found, walk_edges))

  pub walk_edges_stuck :
      includes nodes e.to ≡ false
      → go e.to (nodes ++ e.to ∷ []) (ids ++ e.id ∷ []) out ≡ none
      → walk_edges go (e ∷ es) nodes ids out ≡ none
  unfolding walk_edges
  walk_edges_stuck new found = rw (new, walk_edges) (rw (found, walk_edges))

module _ (adj : Adjacency) (dst : String) (fuel : ℕ) (at : String) (nodes ids : List String)
    (out : List SimplePath) where
  pub walk_full : leb 64 (length out) ≡ true → walk adj dst (suc fuel) at nodes ids out ≡ some out
  unfolding walk
  walk_full full = rw full

  pub walk_here :
      leb 64 (length out) ≡ false
      → str_eq at dst ≡ true
      → walk adj dst (suc fuel) at nodes ids out
        ≡ some (out ++ record { nodes = nodes; link_ids = ids } ∷ [])
  unfolding walk
  walk_here room here = rw room (rw here)

  pub walk_on :
      leb 64 (length out) ≡ false
      → str_eq at dst ≡ false
      → walk adj dst (suc fuel) at nodes ids out
        ≡ walk_edges (walk adj dst fuel) (edges_at adj at) nodes ids out
  unfolding walk
  walk_on room on = rw room (rw on)

pub walk_edges-Adds :
    (adj : Adjacency) (dst : String) (nodes ids : List String) (at : String) (go : Walk)
    (es : List Edge) (out : List SimplePath)
    → at ≢ dst
    → ((e : Edge) → Memᴰ e es → Memᴰ e (edges_at adj at))
    → ((e : Edge) (out' : List SimplePath)
        → Adds
            (Continues adj dst (nodes ++ e.to ∷ []) (ids ++ e.id ∷ []) e.to)
            out'
            (go e.to (nodes ++ e.to ∷ []) (ids ++ e.id ∷ []) out'))
    → Adds (Continues adj dst nodes ids at) out (walk_edges go es nodes ids out)
unfolding walk_edges
walk_edges-Adds adj dst nodes ids at go [] out ne sub h out' e =
    ([], some_inj (sym e) ∙ sym (append-nil out), tt)
walk_edges-Adds adj dst nodes ids at go (e ∷ es) out ne sub h out' r =
    let later = walk_edges-Adds adj dst nodes ids at go es in
    let sub' = λ (f : Edge) (m : Memᴰ f es). sub f (Memᴰ.tail m) in
    elim (Bool-cases (includes nodes e.to)) [
      | inl old ↦ later out ne sub' h out' (sym (walk_edges_skip go e es nodes ids out old) ∙ r)
      | inr new ↦ elim (Option-cases (go e.to (nodes ++ e.to ∷ []) (ids ++ e.id ∷ []) out)) [
        | inl stuck ↦ absurd (cc (walk_edges_stuck go e es nodes ids out new stuck))
        | inr (mid, found) ↦
            let (here, eq, ok) = h e out mid found in
            let (rest, eq', ok') =
              later mid ne sub' h out'
                (sym (walk_edges_take go e es nodes ids out new found) ∙ r) in
            (
              here ++ rest,
              eq' ∙ ap (λ (z : List SimplePath). z ++ rest) eq ∙ append_assoc out here rest,
              All-append (Continues adj dst nodes ids at) here rest
                  (All-map _ (Continues-edge adj dst nodes ids at e ne (sub e (Memᴰ.head refl)) new)
                    here ok)
                  ok',
            )
      ]
    ]

pub walk-Adds :
    (adj : Adjacency) (dst : String) (fuel : ℕ) (at : String) (nodes ids : List String)
    (out : List SimplePath)
    → Adds (Continues adj dst nodes ids at) out (walk adj dst fuel at nodes ids out)
unfolding walk
walk-Adds adj dst zero at nodes ids out out' e = absurd (cc e)
walk-Adds adj dst (suc fuel) at nodes ids out out' e = elim (Bool-cases (leb 64 (length out))) [
  | inl full ↦ (
    [],
    some_inj (sym e ∙ walk_full adj dst fuel at nodes ids out full) ∙ sym (append-nil out),
    tt,
  )
  | inr room ↦ elim (Bool-cases (str_eq at dst)) [
    | inl here ↦ (
      record { nodes = nodes; link_ids = ids } ∷ [],
      some_inj (sym e ∙ walk_here adj dst fuel at nodes ids out room here),
      (([], [], rw (append-nil nodes, append-nil ids) refl, (eq_iff at dst).0 here), tt),
    )
    | inr on ↦
        walk_edges-Adds adj dst nodes ids at (walk adj dst fuel) (edges_at adj at) out
          (λ p. ground (arith, eq_iff at dst)) (λ f m. m)
          (λ f out1. walk-Adds adj dst fuel f.to (nodes ++ f.to ∷ []) (ids ++ f.id ∷ []) out1) out'
          (sym (walk_on adj dst fuel at nodes ids out room on) ∙ e)
  ]
]

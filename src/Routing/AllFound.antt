-- ===== src/Routing/AllFound.antt =====
-- Below the safety bound `walk` of routing.ts finds every path that continues it.
use mathlib.Core.List.{Memᴰ, append_assoc, append-nil}
use pqc_qkd_hybrid_network.Base.{
  ℕ, zero, suc, ◌≡◌, refl, sym, ap, subst, some_inj, ◌∙◌, ◌≢◌, ◌<◌, inl, inr, String, true, false,
  Option, some, List, [], ◌∷◌, ◌++◌, length, length-append, arith, leb, leb→le, str_eq, Bool-cases,
  Option-cases, eq_iff,
}
use pqc_qkd_hybrid_network.Routing.Graph.{
  SimplePath, Edge, Adjacency, includes, edges_at, Walk, walk_edges, walk,
}
use pqc_qkd_hybrid_network.Routing.Adjacency.{mem_append_left, mem_append_right}
use pqc_qkd_hybrid_network.Routing.Found.{
  Trail, Continues, Adds, walk_edges_skip, walk_edges_take, walk_edges_stuck, walk_full, walk_here,
  walk_on, walk_edges-Adds, walk-Adds,
}

mem_last {ℓ} : {A : Type ℓ} (a : A) (xs : List A) → Memᴰ a (xs ++ a ∷ [])
mem_last a xs = mem_append_right xs (Memᴰ.head refl)

-- Below the safety bound the result has every path that continues the walk.
abbrev pub IsComplete :
    Adjacency → String → String → List String → List String → Option (List SimplePath) → Type 0
IsComplete adj dst at nodes ids r =
    (out' : List SimplePath)
    → r ≡ some out'
    → length out' < 64
    → (ns is : List String) → Trail adj dst nodes at ns is
    → Memᴰ {A = SimplePath} (record { nodes = nodes ++ ns; link_ids = ids ++ is }) out'

module _ (adj : Adjacency) (dst : String) (nodes ids : List String) (at : String) (go : Walk)
    (ne : at ≢ dst)
    (adds : (e : Edge) (out' : List SimplePath)
      → Adds
          (Continues adj dst (nodes ++ e.to ∷ []) (ids ++ e.id ∷ []) e.to)
          out'
          (go e.to (nodes ++ e.to ∷ []) (ids ++ e.id ∷ []) out'))
    (h : (e : Edge) (out' : List SimplePath)
      → IsComplete adj dst e.to
          (nodes ++ e.to ∷ [])
          (ids ++ e.id ∷ [])
          (go e.to (nodes ++ e.to ∷ []) (ids ++ e.id ∷ []) out')) where
  -- The trails along one edge to a new node are found.
  abbrev FindsEdge : List SimplePath → Edge → Type 0
  FindsEdge out' f =
      (ns is : List String)
      → includes nodes f.to ≡ false
      → Trail adj dst (nodes ++ f.to ∷ []) f.to ns is
      → Memᴰ {A = SimplePath}
          (record { nodes = (nodes ++ f.to ∷ []) ++ ns; link_ids = (ids ++ f.id ∷ []) ++ is }) out'

  -- Those along the edge that is looked at first.
  walk_edges-first :
      (e : Edge) (es : List Edge) (out : List SimplePath)
      → ((f : Edge) → Memᴰ f es → Memᴰ f (edges_at adj at))
      → (out' : List SimplePath) → walk_edges go (e ∷ es) nodes ids out ≡ some out'
      → length out' < 64
      → FindsEdge out' e
  walk_edges-first e es out sub out' r lt ns is new t =
      elim (Option-cases (go e.to (nodes ++ e.to ∷ []) (ids ++ e.id ∷ []) out)) [
        | inl stuck ↦ absurd (cc (walk_edges_stuck go e es nodes ids out new stuck))
        | inr (mid, found) ↦
            let (rest, eq, _) =
              walk_edges-Adds adj dst nodes ids at go es mid ne sub adds out'
                (sym (walk_edges_take go e es nodes ids out new found) ∙ r) in
            rw eq (
              mem_append_left rest
                (h e out mid found (omega (arith, ap length eq, length-append mid rest)) ns is t))
      ]

  walk_edges-IsComplete :
      (es : List Edge) (out : List SimplePath)
      → ((f : Edge) → Memᴰ f es → Memᴰ f (edges_at adj at))
      → (out' : List SimplePath) → walk_edges go es nodes ids out ≡ some out'
      → length out' < 64
      → (f : Edge) → Memᴰ f es
      → FindsEdge out' f
  walk_edges-IsComplete [] out sub out' r lt f m = elim m [ ]
  walk_edges-IsComplete (e ∷ es) out sub out' r lt f (Memᴰ.head eq) =
      subst (FindsEdge out') (sym eq)
        (walk_edges-first e es out (λ g m. sub g (Memᴰ.tail m)) out' r lt)
  walk_edges-IsComplete (e ∷ es) out sub out' r lt f (Memᴰ.tail m) =
      let sub' = λ (g : Edge) (n : Memᴰ g es). sub g (Memᴰ.tail n) in
      elim (Bool-cases (includes nodes e.to)) [
        | inl old ↦
            walk_edges-IsComplete es out sub' out'
              (sym (walk_edges_skip go e es nodes ids out old) ∙ r) lt f m
        | inr new ↦ elim (Option-cases (go e.to (nodes ++ e.to ∷ []) (ids ++ e.id ∷ []) out)) [
          | inl stuck ↦ absurd (cc (walk_edges_stuck go e es nodes ids out new stuck))
          | inr (mid, found) ↦
              walk_edges-IsComplete es mid sub' out'
                (sym (walk_edges_take go e es nodes ids out new found) ∙ r) lt f m
        ]
      ]

-- At the destination the only trail is the empty one.
arrived :
    (adj : Adjacency) (dst at : String) (nodes ids : List String) (out : List SimplePath)
    (ns is : List String)
    → at ≡ dst
    → Trail adj dst nodes at ns is
    → Memᴰ {A = SimplePath}
        (record { nodes = nodes ++ ns; link_ids = ids ++ is })
        (out ++ record { nodes = nodes; link_ids = ids } ∷ [])
arrived adj dst at nodes ids out [] [] e t =
    rw (append-nil nodes, append-nil ids) (mem_last (record { nodes = nodes; link_ids = ids }) out)
arrived adj dst at nodes ids out (n ∷ ns) (i ∷ is) e t = absurd (t.0 e)
arrived adj dst at nodes ids out [] (i ∷ is) e t = absurd t
arrived adj dst at nodes ids out (n ∷ ns) [] e t = absurd t

-- Elsewhere a trail goes along an edge.
departs :
    (adj : Adjacency) (dst at : String) (nodes ids : List String) (out' : List SimplePath)
    (ns is : List String)
    → at ≢ dst
    → ((f : Edge) (ms js : List String)
        → Memᴰ f (edges_at adj at)
        → includes nodes f.to ≡ false
        → Trail adj dst (nodes ++ f.to ∷ []) f.to ms js
        → Memᴰ {A = SimplePath}
            (record { nodes = (nodes ++ f.to ∷ []) ++ ms; link_ids = (ids ++ f.id ∷ []) ++ js })
            out')
    → Trail adj dst nodes at ns is
    → Memᴰ {A = SimplePath} (record { nodes = nodes ++ ns; link_ids = ids ++ is }) out'
departs adj dst at nodes ids out' [] [] ne h t = absurd (ne t)
departs adj dst at nodes ids out' (n ∷ ns) (i ∷ is) ne h (_, m, new, t) =
    let p = h (record { to = n; id = i }) ns is m new t in
    rw (append_assoc nodes (n ∷ []) ns, append_assoc ids (i ∷ []) is) at p
departs adj dst at nodes ids out' [] (i ∷ is) ne h t = absurd t
departs adj dst at nodes ids out' (n ∷ ns) [] ne h t = absurd t

not_full :
    (out out' : List SimplePath) → leb 64 (length out) ≡ true → out' ≡ out → ¬ (length out' < 64)
not_full out out' full e lt = omega (arith, ap length e, leb→le 64 (length out) full)

pub walk-IsComplete :
    (adj : Adjacency) (dst : String) (fuel : ℕ) (at : String) (nodes ids : List String)
    (out : List SimplePath)
    → IsComplete adj dst at nodes ids (walk adj dst fuel at nodes ids out)
unfolding walk
walk-IsComplete adj dst zero at nodes ids out out' e lt ns is t = absurd (cc e)
walk-IsComplete adj dst (suc fuel) at nodes ids out out' e lt ns is t =
    elim (Bool-cases (leb 64 (length out))) [
      | inl full ↦ absurd (
          not_full out out' full (some_inj (sym e ∙ walk_full adj dst fuel at nodes ids out full))
            lt)
      | inr room ↦ elim (Bool-cases (str_eq at dst)) [
        | inl here ↦
            rw (some_inj (sym e ∙ walk_here adj dst fuel at nodes ids out room here))
              (arrived adj dst at nodes ids out ns is ((eq_iff at dst).0 here) t)
        | inr on ↦
            let ne : at ≢ dst = λ p. ground (arith, eq_iff at dst) in
            departs adj dst at nodes ids out' ns is ne
              (λ f ms js m new u.
                walk_edges-IsComplete adj dst nodes ids at (walk adj dst fuel) ne
                  (λ g out1.
                    walk-Adds adj dst fuel g.to (nodes ++ g.to ∷ []) (ids ++ g.id ∷ []) out1)
                  (λ g out1.
                    walk-IsComplete adj dst fuel g.to (nodes ++ g.to ∷ []) (ids ++ g.id ∷ []) out1)
                  (edges_at adj at) out (λ g m1. m1) out'
                  (sym (walk_on adj dst fuel at nodes ids out room on) ∙ e) lt f m ms js new u)
              t
      ]
    ]

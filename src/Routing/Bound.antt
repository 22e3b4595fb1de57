-- ===== src/Routing/Bound.antt =====
-- The safety bound of `walk` of routing.ts.
use pqc_qkd_hybrid_network.Base.{
  ℕ, zero, suc, ◌≡◌, sym, ap, some_inj, ◌∙◌, ◌≤◌, inl, inr, String, some, List, [], ◌∷◌, ◌++◌,
  length, length-append, arith, leb, str_eq, Bool-cases, Option-cases,
}
use pqc_qkd_hybrid_network.Routing.Graph.{
  SimplePath, Edge, Adjacency, includes, edges_at, Walk, walk_edges, walk,
}
use pqc_qkd_hybrid_network.Routing.Found.{
  walk_edges_skip, walk_edges_take, walk_edges_stuck, walk_full, walk_here, walk_on,
}

-- The safety bound: a walk that starts below it never passes it.
walk_edges-bound :
    (go : Walk) (es : List Edge) (nodes ids : List String) (out : List SimplePath)
    → ((e : Edge) (out1 out2 : List SimplePath)
        → go e.to (nodes ++ e.to ∷ []) (ids ++ e.id ∷ []) out1 ≡ some out2
        → length out1 ≤ 64
        → length out2 ≤ 64)
    → (out' : List SimplePath) → walk_edges go es nodes ids out ≡ some out'
    → length out ≤ 64
    → length out' ≤ 64
unfolding walk_edges
walk_edges-bound go [] nodes ids out h out' r le = omega (arith, ap length (some_inj r))
walk_edges-bound go (e ∷ es) nodes ids out h out' r le = elim (Bool-cases (includes nodes e.to)) [
  | inl old ↦
      walk_edges-bound go es nodes ids out h out'
        (sym (walk_edges_skip go e es nodes ids out old) ∙ r) le
  | inr new ↦ elim (Option-cases (go e.to (nodes ++ e.to ∷ []) (ids ++ e.id ∷ []) out)) [
    | inl stuck ↦ absurd (cc (walk_edges_stuck go e es nodes ids out new stuck))
    | inr (mid, found) ↦
        walk_edges-bound go es nodes ids mid h out'
          (sym (walk_edges_take go e es nodes ids out new found) ∙ r) (h e out mid found le)
  ]
]

pub walk-bound :
    (adj : Adjacency) (dst : String) (fuel : ℕ) (at : String) (nodes ids : List String)
    (out out' : List SimplePath)
    → walk adj dst fuel at nodes ids out ≡ some out'
    → length out ≤ 64
    → length out' ≤ 64
unfolding walk
walk-bound adj dst zero at nodes ids out out' e le = absurd (cc e)
walk-bound adj dst (suc fuel) at nodes ids out out' e le = elim (Bool-cases (leb 64 (length out))) [
  | inl full ↦
      omega (arith, ap length (some_inj (sym e ∙ walk_full adj dst fuel at nodes ids out full)))
  | inr room ↦ elim (Bool-cases (str_eq at dst)) [
    | inl here ↦ ground (
      arith,
      ap length (some_inj (sym e ∙ walk_here adj dst fuel at nodes ids out room here)),
      length-append out (record { nodes = nodes; link_ids = ids } ∷ []),
    )
    | inr on ↦
        walk_edges-bound (walk adj dst fuel) (edges_at adj at) nodes ids out
          (λ g out1 out2 found le1.
            walk-bound adj dst fuel g.to (nodes ++ g.to ∷ []) (ids ++ g.id ∷ []) out1 out2 found
              le1)
          out' (sym (walk_on adj dst fuel at nodes ids out room on) ∙ e) le
  ]
]

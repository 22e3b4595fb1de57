-- ===== src/Routing/Complete.antt =====
-- Below its safety bound `simplePaths` of routing.ts returns every simple path.
use mathlib.Core.List.{Memᴰ, append_assoc}
use pqc_qkd_hybrid_network.Base.{
  suc, ◌≡◌, refl, sym, subst, ◌∙◌, ◌≢◌, ◌<◌, inl, inr, String, true, false, ◌||◌, some, List, [],
  ◌∷◌, ◌++◌, length, arith, str_eq, Bool-cases, eq_iff,
}
use pqc_qkd_hybrid_network.Routing.Graph.{
  Link, Graph, Down, SimplePath, Edge, includes, adjacency, simple_paths,
}
use pqc_qkd_hybrid_network.Routing.Hops.{IsHop, adjacency-mem}
use pqc_qkd_hybrid_network.Routing.Total.{includes-snoc}
use pqc_qkd_hybrid_network.Routing.Found.{Trail}
use pqc_qkd_hybrid_network.Routing.AllFound.{walk-IsComplete}
use pqc_qkd_hybrid_network.Routing.Paths.{IsChain, AreDistinct, IsSimplePath, IsClosed, searched}

-- In a chain of one hop or more the destination is among the further nodes.
chain-includes :
    (down : Down) (links : List Link) (dst at n : String) (ns is : List String)
    → IsChain down links dst at (n ∷ ns) is
    → includes (n ∷ ns) dst ≡ true
unfolding includes
chain-includes down links dst at n ns [] c = absurd c
chain-includes down links dst at n [] (i ∷ []) c = ground (arith, eq_iff n dst)
chain-includes down links dst at n [] (i ∷ j ∷ is) c = absurd c.1
chain-includes down links dst at n (m ∷ ns) (i ∷ is) c =
    ground (arith, chain-includes down links dst n m ns is c.1)

includes-append :
    (xs ys : List String) (k : String) → includes (xs ++ ys) k ≡ (includes xs k || includes ys k)
unfolding includes
includes-append [] ys k = refl
includes-append (x ∷ xs) ys k = ground (arith, includes-append xs ys k)

-- What stands in the two halves of a list without repetition is different.
distinct_apart :
    (xs ys : List String) (x y : String)
    → AreDistinct (xs ++ ys)
    → includes xs x ≡ true
    → includes ys y ≡ true
    → x ≢ y
unfolding includes
distinct_apart [] ys x y d hx hy e = cc
distinct_apart (z ∷ zs) ys x y d hx hy e = elim (Bool-cases (str_eq z x)) [
  | inl here ↦
      let zy : z ≡ y = (eq_iff z x).0 here ∙ e in
      let twice : includes ys z ≡ true = subst (λ k. includes ys k ≡ true) (sym zy) hy in
      ground (arith, includes-append zs ys z)
  | inr later ↦ distinct_apart zs ys x y d.1 (ground arith) hy e
]

-- The node that follows a prefix is not in it.
distinct_new :
    (xs ys : List String) (y : String) → AreDistinct (xs ++ y ∷ ys) → includes xs y ≡ false
unfolding includes
distinct_new xs ys y d = elim (Bool-cases (includes xs y)) [
  | inr new ↦ new
  | inl old ↦ absurd (distinct_apart xs (y ∷ ys) y y d old (ground (arith, eq_iff y y)) refl)
]

includes_last : (xs : List String) (x : String) → includes (xs ++ x ∷ []) x ≡ true
includes_last xs x = ground (arith, includes-snoc xs x x, eq_iff x x)

module _ (g : Graph) (down : Down) (dst : String) (closed : IsClosed g) where
  -- The ends of a hop are nodes.
  hop-nodes :
      (at : String) (e : Edge) → IsHop down g.links at e → Memᴰ at g.nodes × Memᴰ e.to g.nodes
  hop-nodes at e h =
      let (a, b) = closed h.link h.listed in
      elim h.joins [
        | inl (p, q) ↦ (subst (λ k. Memᴰ k g.nodes) p a, subst (λ k. Memᴰ k g.nodes) q b)
        | inr (p, q) ↦ (subst (λ k. Memᴰ k g.nodes) p b, subst (λ k. Memᴰ k g.nodes) q a)
      ]

  IsChain-Trail :
      (visited : List String) (at : String) (ns is : List String)
      → includes visited at ≡ true
      → AreDistinct (visited ++ ns)
      → IsChain down g.links dst at ns is
      → Trail (adjacency g down) dst visited at ns is
  IsChain-Trail visited at [] [] v d c = c
  IsChain-Trail visited at (n ∷ ns) (i ∷ is) v d c = (
    distinct_apart visited (n ∷ ns) at dst d v (chain-includes down g.links dst at n ns (i ∷ is) c),
    adjacency-mem g down at (record { to = n; id = i }) (hop-nodes at _ c.0).0 c.0,
    distinct_new visited ns n d,
    IsChain-Trail (visited ++ n ∷ []) n ns is (includes_last visited n)
        (rw (append_assoc visited (n ∷ []) ns) d) c.1,
  )
  IsChain-Trail visited at [] (i ∷ is) v d c = c
  IsChain-Trail visited at (n ∷ ns) [] v d c = c

-- For a graph whose links end at its nodes, with a source and a destination that differ and are not
-- down: when `simplePaths` returns fewer than 64 paths, these are all the simple paths from the source
-- to the destination over links that are up.
pub simple_paths_complete :
    (g : Graph) (src dst : String) (down : Down) (out : List SimplePath) (p : SimplePath)
    → IsClosed g
    → includes down.nodes src ≡ false
    → includes down.nodes dst ≡ false
    → src ≢ dst
    → simple_paths g src dst down ≡ some out
    → length out < 64
    → IsSimplePath g down src dst p
    → Memᴰ p out
unfolding simple_paths
simple_paths_complete g src dst down out p closed up_src up_dst ne e lt s =
    let r : searched g src dst down ≡ some out = ground (arith, eq_iff src dst) in
    let m =
      walk-IsComplete (adjacency g down) dst (suc (suc (length (adjacency g down)))) src (src ∷ [])
        [] [] out r lt s.rest p.link_ids
        (IsChain-Trail g down dst closed (src ∷ []) src s.rest p.link_ids (includes_last [] src)
          s.distinct s.chain) in
    subst (λ ns. Memᴰ {A = SimplePath} (record { nodes = ns; link_ids = p.link_ids }) out)
      (sym s.starts) m

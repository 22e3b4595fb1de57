-- ===== src/Routing/Paths.antt =====
-- `simplePaths` of routing.ts against an independent description of a simple path.
use mathlib.Core.List.{Memᴰ, append_assoc, append-nil}
use pqc_qkd_hybrid_network.Base.{
  suc, ◌≡◌, refl, sym, subst, some_inj, ◌∙◌, ◌≤◌, ◌⊎◌, inl, inr, String, false, ◌||◌, Option, some,
  List, [], ◌∷◌, ◌++◌, length, All, All-map, arith, str_eq, Bool-cases, eq_iff,
}
use pqc_qkd_hybrid_network.Routing.Graph.{
  Link, Graph, Down, SimplePath, includes, adjacency, walk, simple_paths,
}
use pqc_qkd_hybrid_network.Routing.Hops.{IsHop, adjacency-IsHop}
use pqc_qkd_hybrid_network.Routing.Total.{includes-snoc}
use pqc_qkd_hybrid_network.Routing.Found.{Trail, Continues, walk-Adds}
use pqc_qkd_hybrid_network.Routing.Bound.{walk-bound}

-- From a node along the further nodes and the links to the destination.
abbrev pub IsChain : Down → List Link → String → String → List String → List String → Type 0
IsChain down links dst at [] [] = (at ≡ dst)
IsChain down links dst at (n ∷ ns) (i ∷ is) =
    IsHop down links at (record { to = n; id = i }) × IsChain down links dst n ns is
IsChain down links dst at [] (i ∷ is) = ⊥
IsChain down links dst at (n ∷ ns) [] = ⊥

abbrev pub AreDistinct : List String → Type 0
AreDistinct [] = Unit {0}
AreDistinct (x ∷ xs) = (includes xs x ≡ false) × AreDistinct xs

-- A path from source to destination over links that are up, that visits no node twice.
pub record IsSimplePath (g : Graph) (down : Down) (src dst : String) (p : SimplePath) : Type 0 where
  pub rest : List String
  pub starts : p.nodes ≡ src ∷ rest
  pub chain : IsChain down g.links dst src rest p.link_ids
  pub distinct : AreDistinct (src ∷ rest)

-- Every end of a link is a node.
abbrev pub IsClosed : Graph → Type 0
IsClosed g = (l : Link) → Memᴰ l g.links → Memᴰ l.a g.nodes × Memᴰ l.b g.nodes

AreDistinct-snoc :
    (xs : List String) (x : String)
    → AreDistinct xs
    → includes xs x ≡ false
    → AreDistinct (xs ++ x ∷ [])
unfolding includes
AreDistinct-snoc [] x d h = (refl, tt)
AreDistinct-snoc (y ∷ ys) x d h = (
  ground (arith, includes-snoc ys x y, eq_iff x y, eq_iff y x),
  AreDistinct-snoc ys x d.1 (ground arith),
)

module _ (g : Graph) (down : Down) (dst : String) where
  Trail-IsChain :
      (visited : List String) (at : String) (ns is : List String)
      → Trail (adjacency g down) dst visited at ns is
      → IsChain down g.links dst at ns is
  Trail-IsChain visited at [] [] t = t
  Trail-IsChain visited at (n ∷ ns) (i ∷ is) (_, m, _, t) = (
    adjacency-IsHop g down at (record { to = n; id = i }) m,
    Trail-IsChain (visited ++ n ∷ []) n ns is t,
  )
  Trail-IsChain visited at [] (i ∷ is) t = t
  Trail-IsChain visited at (n ∷ ns) [] t = t

  Trail-AreDistinct :
      (visited : List String) (at : String) (ns is : List String)
      → AreDistinct visited
      → Trail (adjacency g down) dst visited at ns is
      → AreDistinct (visited ++ ns)
  Trail-AreDistinct visited at [] [] d t = rw (append-nil visited) d
  Trail-AreDistinct visited at (n ∷ ns) (i ∷ is) d (_, _, new, t) =
      rw (append_assoc visited (n ∷ []) ns) at
        (Trail-AreDistinct (visited ++ n ∷ []) n ns is (AreDistinct-snoc visited n d new) t)
  Trail-AreDistinct visited at [] (i ∷ is) d t = absurd t
  Trail-AreDistinct visited at (n ∷ ns) [] d t = absurd t

  Continues-IsSimplePath :
      (src : String) (p : SimplePath)
      → Continues (adjacency g down) dst (src ∷ []) [] src p
      → IsSimplePath g down src dst p
  Continues-IsSimplePath src p (ns, is, e, t) =
      subst (IsSimplePath g down src dst) (sym e) (record {
        rest = ns;
        starts = refl;
        chain = Trail-IsChain (src ∷ []) src ns is t;
        distinct = Trail-AreDistinct (src ∷ []) src ns is (unfold includes in (refl, tt)) t;
      })

-- What `simplePaths` runs, where it runs the walk.
abbrev pub searched : Graph → String → String → Down → Option (List SimplePath)
searched g src dst down =
    walk (adjacency g down) dst (suc (suc (length (adjacency g down)))) src (src ∷ []) [] []

simple_paths_cases :
    (g : Graph) (src dst : String) (down : Down)
    → (simple_paths g src dst down ≡ some [])
      ⊎ (simple_paths g src dst down ≡ searched g src dst down)
unfolding simple_paths
simple_paths_cases g src dst down =
    elim (Bool-cases (includes down.nodes src || (includes down.nodes dst || str_eq src dst))) [
      | inl no_search ↦ inl (rw no_search)
      | inr search_it ↦ inr (rw search_it)
    ]

-- `simplePaths` returns at most 64 paths, and each is a path from the source to the destination that
-- goes over listed links which are not down, nor have an end that is down, and visits no node twice.
pub simple_paths_sound :
    (g : Graph) (src dst : String) (down : Down) (out : List SimplePath)
    → simple_paths g src dst down ≡ some out
    → (length out ≤ 64) × All (IsSimplePath g down src dst) out
simple_paths_sound g src dst down out e = elim (simple_paths_cases g src dst down) [
  | inl nothing ↦ rw (some_inj (sym e ∙ nothing)) (omega arith, tt)
  | inr same ↦
      let r = sym same ∙ e in
      let (new, eq, ok) = walk-Adds (adjacency g down) dst _ src (src ∷ []) [] [] out r in
      (
        walk-bound (adjacency g down) dst _ src (src ∷ []) [] [] out r (omega arith),
        rw eq (All-map _ (Continues-IsSimplePath g down dst src) new ok),
      )
]

-- ===== src/Routing/Total.antt =====
-- `simplePaths` of routing.ts ends: the recursion never runs out of fuel.
use pqc_qkd_hybrid_network.Base.{
  ℕ, zero, suc, ◌+◌, ◌≡◌, refl, ◌≤◌, ◌<◌, ◌⊎◌, inl, inr, String, false, ◌||◌, Option, none, some,
  List, [], ◌∷◌, ◌++◌, length, arith, leb, str_eq, if◌then◌else◌, Bool-cases, Option-cases, eq_iff,
}
use pqc_qkd_hybrid_network.Base.Dict.{lookup}
use pqc_qkd_hybrid_network.Routing.Graph.{
  Graph, Down, SimplePath, Edge, Adjacency, includes, edges_at, Walk, walk_edges, walk, adjacency,
  simple_paths,
}

-- How many keys of the map are not among the visited nodes.
unvisited : List String → Adjacency → ℕ
unvisited visited [] = 0
unvisited visited ((k, es) ∷ adj) =
    if includes visited k then unvisited visited adj else suc (unvisited visited adj)

unvisited-le-length : (visited : List String) (adj : Adjacency) → unvisited visited adj ≤ length adj
unfolding unvisited
unvisited-le-length visited [] = omega arith
unvisited-le-length visited ((k, es) ∷ adj) = ground (arith, unvisited-le-length visited adj)

pub includes-snoc :
    (xs : List String) (x y : String) → includes (xs ++ x ∷ []) y ≡ (includes xs y || str_eq x y)
unfolding includes
includes-snoc [] x y = ground arith
includes-snoc (z ∷ zs) x y = ground (arith, includes-snoc zs x y)

unvisited_mono :
    (visited : List String) (x : String) (adj : Adjacency)
    → unvisited (visited ++ x ∷ []) adj ≤ unvisited visited adj
unfolding unvisited
unvisited_mono visited x [] = omega arith
unvisited_mono visited x ((k, es) ∷ adj) =
    ground (arith, unvisited_mono visited x adj, includes-snoc visited x k)

-- Visiting a key lowers the count.
unvisited_visit :
    (visited : List String) (x : String) (adj : Adjacency) (es : List Edge)
    → lookup x adj ≡ some es
    → includes visited x ≡ false
    → unvisited (visited ++ x ∷ []) adj < unvisited visited adj
unfolding unvisited lookup
unvisited_visit visited x [] es e new = cc
unvisited_visit visited x ((k, fs) ∷ adj) es e new = ground (
  arith,
  unvisited_visit visited x adj es,
  unvisited_mono visited x adj,
  includes-snoc visited x k,
  eq_iff k x,
)

-- The fuel that a walk at a node needs.
abbrev IsFuelled : Adjacency → ℕ → String → List String → Type 0
IsFuelled adj fuel at nodes = (unvisited nodes adj + 1 < fuel) ⊎ (lookup at adj ≡ none) × (0 < fuel)

abbrev IsTotal : Option (List SimplePath) → Type 0
IsTotal r = (out : List SimplePath) × (r ≡ some out)

walk_edges-IsTotal :
    (go : Walk) (es : List Edge) (nodes ids : List String) (out : List SimplePath)
    → ((e : Edge) (out' : List SimplePath)
        → includes nodes e.to ≡ false
        → IsTotal (go e.to (nodes ++ e.to ∷ []) (ids ++ e.id ∷ []) out'))
    → IsTotal (walk_edges go es nodes ids out)
unfolding walk_edges
walk_edges-IsTotal go [] nodes ids out h = (out, refl)
walk_edges-IsTotal go (e ∷ es) nodes ids out h = elim (Bool-cases (includes nodes e.to)) [
  | inl old ↦ rw (old, walk_edges) (walk_edges-IsTotal go es nodes ids out h)
  | inr new ↦
      let (out', found) = h e out new in
      rw (new, walk_edges) (rw (found, walk_edges) (walk_edges-IsTotal go es nodes ids out' h))
]

IsFuelled-child :
    (adj : Adjacency) (fuel : ℕ) (nodes : List String) (x : String)
    → includes nodes x ≡ false
    → unvisited nodes adj + 1 < suc fuel
    → IsFuelled adj fuel x (nodes ++ x ∷ [])
IsFuelled-child adj fuel nodes x new h = elim (Option-cases (lookup x adj)) [
  | inl out ↦ inr (out, omega arith)
  | inr (es, there) ↦ inl (omega (arith, unvisited_visit nodes x adj es there new))
]

walk-IsTotal :
    (adj : Adjacency) (dst : String) (fuel : ℕ) (at : String) (nodes ids : List String)
    (out : List SimplePath)
    → IsFuelled adj fuel at nodes
    → IsTotal (walk adj dst fuel at nodes ids out)
unfolding walk walk_edges edges_at
walk-IsTotal adj dst zero at nodes ids out (inl h) = absurd (omega arith)
walk-IsTotal adj dst zero at nodes ids out (inr h) = absurd (omega arith)
walk-IsTotal adj dst (suc fuel) at nodes ids out h = elim (Bool-cases (leb 64 (length out))) [
  | inl full ↦ rw full (out, refl)
  | inr room ↦ rw room (elim (Bool-cases (str_eq at dst)) [
    | inl here ↦ rw here (_, refl)
    | inr on ↦ rw on (elim h [
      | inl deep ↦
          walk_edges-IsTotal (walk adj dst fuel) (edges_at adj at) nodes ids out (λ e out' new.
            walk-IsTotal adj dst fuel e.to (nodes ++ e.to ∷ []) (ids ++ e.id ∷ []) out'
              (IsFuelled-child adj fuel nodes e.to new deep))
      | inr (isolated, _) ↦ rw (isolated, edges_at) (out, refl)
    ])
  ])
]

-- `simplePaths` always returns a list of paths.
pub simple_paths_total :
    (g : Graph) (src dst : String) (down : Down)
    → (out : List SimplePath) × (simple_paths g src dst down ≡ some out)
unfolding simple_paths
simple_paths_total g src dst down =
    elim (Bool-cases (includes down.nodes src || (includes down.nodes dst || str_eq src dst))) [
      | inl none_at_all ↦ rw none_at_all ([], refl)
      | inr go ↦ rw go (
          walk-IsTotal (adjacency g down) dst (suc (suc (length (adjacency g down)))) src (src ∷ [])
            [] [] (inl (omega (arith, unvisited-le-length (src ∷ []) (adjacency g down)))))
    ]

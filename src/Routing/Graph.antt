-- ===== src/Routing/Graph.antt =====
-- The graph and `simplePaths` of services/webui-frontend/src/lib/sim/protocolLab/routing.ts. A
-- `ReadonlySet` of ids is a list of them.
use pqc_qkd_hybrid_network.Base.{
  ℕ, zero, suc, String, Bool, true, false, ◌||◌, Option, none, some, List, [], ◌∷◌, ◌++◌, length,
  leb, str_eq, if◌then◌else◌,
}
use pqc_qkd_hybrid_network.Base.Dict.{lookup, insert}

pub record Link : Type 0 where
  pub id : String
  pub a : String
  pub b : String

pub record Graph : Type 0 where
  pub nodes : List String
  pub links : List Link

pub record Down : Type 0 where
  pub nodes : List String
  pub links : List String

pub record SimplePath : Type 0 where
  pub nodes : List String
  pub link_ids : List String

pub record Edge : Type 0 where
  pub to : String
  pub id : String

abbrev pub Adjacency : Type 0
Adjacency = List (String × List Edge)

abbrev pub max_simple_paths : ℕ
max_simple_paths = 64

-- `xs.includes(x)`
unfoldable pub includes : List String → String → Bool
includes [] x = false
includes (y ∷ ys) x = str_eq y x || includes ys x

-- `for (const n of g.nodes) adj.set(n, [])`
unfoldable pub add_nodes : List String → Adjacency → Adjacency
add_nodes [] adj = adj
add_nodes (n ∷ ns) adj = add_nodes ns (insert n [] adj)

-- `adj.get(k)?.push(e)`
unfoldable pub push_edge : String → Edge → Adjacency → Adjacency
push_edge k e adj = elim (lookup k adj) [ none ↦ adj | some es ↦ insert k (es ++ e ∷ []) adj ]

-- The link or one of its ends is down.
unfoldable pub is_down : Down → Link → Bool
unfolding includes
is_down down l = includes down.links l.id || (includes down.nodes l.a || includes down.nodes l.b)

unfoldable pub add_links : Down → List Link → Adjacency → Adjacency
unfolding push_edge is_down
add_links down [] adj = adj
add_links down (l ∷ ls) adj = add_links down ls (
    if is_down down l
    then adj
    else push_edge l.b (record { to = l.a; id = l.id })
        (push_edge l.a (record { to = l.b; id = l.id }) adj))

unfoldable pub adjacency : Graph → Down → Adjacency
unfolding add_nodes add_links
adjacency g down = add_links down g.links (add_nodes g.nodes [])

-- `adj.get(at) ?? []`
unfoldable pub edges_at : Adjacency → String → List Edge
edges_at adj at = elim (lookup at adj) [ none ↦ [] | some es ↦ es ]

-- What `walk` does at a node: from the node, the nodes and link ids walked so far and the paths
-- found, to the paths found after it. `none` is a walk out of fuel.
abbrev pub Walk : Type 0
Walk = String → List String → List String → List SimplePath → Option (List SimplePath)

-- The loop of `walk` over the edges of a node.
unfoldable pub walk_edges :
    Walk → List Edge → List String → List String → List SimplePath → Option (List SimplePath)
unfolding includes
walk_edges go [] nodes ids out = some out
walk_edges go (e ∷ es) nodes ids out = elim (includes nodes e.to) [
  | true ↦ walk_edges go es nodes ids out
  | false ↦ elim (go e.to (nodes ++ e.to ∷ []) (ids ++ e.id ∷ []) out) [
    | none ↦ none
    | some out' ↦ walk_edges go es nodes ids out'
  ]
]

unfoldable pub walk : Adjacency → String → ℕ → Walk
unfolding walk_edges edges_at
walk adj dst zero at nodes ids out = none
walk adj dst (suc fuel) at nodes ids out =
    let deeper = walk_edges (walk adj dst fuel) (edges_at adj at) nodes ids out in
    if leb max_simple_paths (length out)
    then some out
    else if str_eq at dst
    then some (out ++ record { nodes = nodes; link_ids = ids } ∷ [])
    else deeper

-- Fuel: a path visits each node of the map once, and at most one node outside it.
unfoldable pub simple_paths : Graph → String → String → Down → Option (List SimplePath)
unfolding adjacency walk includes
simple_paths g src dst down =
    let adj = adjacency g down in
    let found = walk adj dst (suc (suc (length adj))) src (src ∷ []) [] [] in
    if includes down.nodes src || (includes down.nodes dst || str_eq src dst)
    then some []
    else found

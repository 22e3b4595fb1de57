-- ===== src/Routing/Choice.antt =====
-- The route that `selectRoute` of routing.ts returns is safe.
use Prim.Native.Nat.{Ordering}
use mathlib.Core.List.{Memᴰ}
use pqc_qkd_hybrid_network.Base.{
  ◌≡◌, sym, ap, subst, ◌∙◌, inl, inr, String, true, false, Option, some, List, [], ◌∷◌, All, arith,
  Bool-cases, eq_iff,
}
use pqc_qkd_hybrid_network.Routing.Graph.{Link, Graph, Down, SimplePath, Edge, includes, is_down}
use pqc_qkd_hybrid_network.Routing.Rank.{LinkView, RouteChoice, describe_route}
use pqc_qkd_hybrid_network.Routing.Select.{Selection, down_links, paths_of, select_route}
use pqc_qkd_hybrid_network.Routing.Total.{simple_paths_total}
use pqc_qkd_hybrid_network.Routing.Paths.{IsChain, IsSimplePath, simple_paths_sound}
use pqc_qkd_hybrid_network.Routing.Selection.{
  IsUsable, IsRouteOf, select_route_cases, select_among-IsRouteOf,
}

-- What the page's view of the links gives `simplePaths` to avoid.
abbrev pub down_of : Graph → (String → LinkView) → List String → Down
down_of g view down_nodes = record { nodes = down_nodes; links = down_links view g.links }

pub paths_of-IsSimplePath :
    (g : Graph) (src dst : String) (down : Down)
    → All (IsSimplePath g down src dst) (paths_of g src dst down)
unfolding paths_of
paths_of-IsSimplePath g src dst down =
    let (out, e) = simple_paths_total g src dst down in
    rw (e, paths_of) (simple_paths_sound g src dst down out e).1

down_links-up :
    (view : String → LinkView) (links : List Link) (l : Link)
    → Memᴰ l links
    → includes (down_links view links) l.id ≡ false
    → (view l.id).up ≡ true
unfolding down_links includes
down_links-up view [] l m h = elim m [ ]
down_links-up view (x ∷ xs) l (Memᴰ.head e) h = elim (Bool-cases (view l.id).up) [
  | inl up ↦ up
  | inr down ↦
      let down' : (view x.id).up ≡ false = subst (λ (y : Link). (view y.id).up ≡ false) e down in
      let h' : includes (down_links view (x ∷ xs)) x.id ≡ false =
        subst (λ (y : Link). includes (down_links view (x ∷ xs)) y.id ≡ false) e h in
      absurd (ground (arith, eq_iff x.id x.id))
]
down_links-up view (x ∷ xs) l (Memᴰ.tail m) h = elim (Bool-cases (view x.id).up) [
  | inl up ↦ down_links-up view xs l m (ground arith)
  | inr down ↦ down_links-up view xs l m (ground arith)
]

-- Each link of a chain is up in the view.
IsChain-up :
    (g : Graph) (view : String → LinkView) (down_nodes : List String) (dst at : String)
    (ns is : List String)
    → IsChain (down_of g view down_nodes) g.links dst at ns is
    → All (λ id. (view id).up ≡ true) is
unfolding is_down
IsChain-up g view down_nodes dst at [] [] c = tt
IsChain-up g view down_nodes dst at (n ∷ ns) (i ∷ is) (hop, c) = (
  subst (λ id. (view id).up ≡ true) (sym (ap (λ (e : Edge). e.id) hop.named))
      (down_links-up view g.links hop.link hop.listed (ground (arith, hop.up))),
  IsChain-up g view down_nodes dst n ns is c,
)
IsChain-up g view down_nodes dst at [] (i ∷ is) c = absurd c
IsChain-up g view down_nodes dst at (n ∷ ns) [] c = absurd c

-- A route that a request can go over: a simple path of the graph that avoids the nodes and links that
-- are down, with every link up and usable, and with the hop count and relays of its links.
pub record IsSafeRoute (g : Graph) (src dst : String) (view : String → LinkView)
    (down_nodes : List String) (r : RouteChoice) : Type 0 where
  pub path : SimplePath
  pub simple : IsSimplePath g (down_of g view down_nodes) src dst path
  pub usable : IsUsable view path
  pub up : All (λ id. (view id).up ≡ true) path.link_ids
  pub described : r ≡ describe_route view path

pub IsRouteOf-IsSafeRoute :
    (g : Graph) (src dst : String) (view : String → LinkView) (down_nodes : List String)
    (r : RouteChoice)
    → IsRouteOf view (IsSimplePath g (down_of g view down_nodes) src dst) r
    → IsSafeRoute g src dst view down_nodes r
IsRouteOf-IsSafeRoute g src dst view down_nodes r (p, s, u, e) = record {
  path = p;
  simple = s;
  usable = u;
  up = IsChain-up g view down_nodes dst src s.rest p.link_ids s.chain;
  described = e;
}

-- Whatever `selectRoute` chooses, with or without a preferred route, is a safe route from the source to
-- the destination, and neither of these is down.
pub select_route_safe :
    (collate : String → String → Ordering) (g : Graph) (src dst : String) (view : String → LinkView)
    (down_nodes : List String) (preferred : Option (List String)) (r : RouteChoice)
    → (select_route collate g src dst view down_nodes preferred).chosen ≡ some r
    → IsSafeRoute g src dst view down_nodes r
      × (includes down_nodes src ≡ false)
      × (includes down_nodes dst ≡ false)
select_route_safe collate g src dst view down_nodes preferred r e =
    elim (select_route_cases collate g src dst view down_nodes preferred) [
      | inl nothing ↦ absurd (cc (sym nothing ∙ e))
      | inr (up, up', same) ↦ (
        IsRouteOf-IsSafeRoute g src dst view down_nodes r (
            select_among-IsRouteOf collate view preferred
              (paths_of g src dst (down_of g view down_nodes))
              (IsSimplePath g (down_of g view down_nodes) src dst) r
              (paths_of-IsSimplePath g src dst (down_of g view down_nodes))
              (sym (ap (λ (s : Selection). s.chosen) same) ∙ e)),
        up,
        up',
      )
    ]

-- ===== src/Lab/Choose.antt =====
-- `chooseRoute` of the protocol lab (services/webui-frontend/src/lib/sim/protocolLabSim.ts): staying on
-- a route, and the list of reroutes.
use Prim.Native.Nat.{Ordering}
use pqc_qkd_hybrid_network.Base.{
  ℕ, ◌*◌, String, Bool, true, false, not, ◌||◌, ◌&&◌, Option, none, some, List, [], ◌∷◌, length,
  find, str_eq, leb, ltb, ◌==◌, if◌then◌else◌,
}
use pqc_qkd_hybrid_network.Routing.Rank.{RouteChoice, route_key}
use pqc_qkd_hybrid_network.Routing.Select.{Selection, select_route}
use pqc_qkd_hybrid_network.Lab.Links.{by_link, node_down, outage, qber_alarm, LinkState}
use pqc_qkd_hybrid_network.Lab.Records.{
  Reroute, RerouteReason, started, below_threshold, link_failed, node_failed, alarm, recovered,
  no_route_left, history_limit, push_limited,
}
use pqc_qkd_hybrid_network.Lab.Routes.{find_link, Lab, view_of, graph_of}

-- `routeKey(a.nodes) === routeKey(b)`
abbrev pub goes_along : List String → RouteChoice → Bool
goes_along nodes r = str_eq (route_key r.nodes) (route_key nodes)

abbrev pub is_preferred : Option (List String) → RouteChoice → Bool
is_preferred none r = false
is_preferred (some nodes) r = goes_along nodes r

-- The route that is kept: the previous one while it is still ranked, the new one is not shorter and
-- not the preferred one.
unfoldable pub stick :
    Option (List String)
    → Option RouteChoice
    → List RouteChoice
    → Option RouteChoice
    → Option RouteChoice
unfolding route_key
stick preferred prev ranked none = none
stick preferred none ranked (some new) = some new
stick preferred (some prev) ranked (some new) = elim (find (goes_along prev.nodes) ranked) [
  | none ↦ some new
  | some still ↦
      if leb still.hops new.hops && not (is_preferred preferred new) then some still else some new
]

-- The keys of the routes before and after, if there are any.
abbrev pub key_of : Option RouteChoice → Option String
key_of none = none
key_of (some r) = some (route_key r.nodes)

abbrev pub nodes_of : Option RouteChoice → Option (List String)
nodes_of none = none
nodes_of (some r) = some r.nodes

-- `was === now`
abbrev pub same_key : Option String → Option String → Bool
same_key none none = true
same_key none (some b) = false
same_key (some a) none = false
same_key (some a) (some b) = str_eq a b

-- `reasonFor`
abbrev pub reason_for : LinkState → RerouteReason
reason_for l = elim l.down_reason [
  | none ↦ link_failed
  | some why ↦ elim why [
    | node_down ↦ node_failed
    | by_link cause ↦ elim cause [ outage ↦ link_failed | qber_alarm ↦ alarm ]
  ]
]

-- The first link of the route that is down.
unfoldable pub broken_of : List LinkState → List String → Option LinkState
broken_of ls [] = none
broken_of ls (id ∷ ids) =
    let rest = broken_of ls ids in
    elim (find_link id ls) [ none ↦ rest | some l ↦ if l.down then some l else rest ]

-- Why the route changes, from the previous one to the new one.
unfoldable pub reason_of :
    Option (List String) → List LinkState → Option RouteChoice → Option RouteChoice → RerouteReason
unfolding broken_of
reason_of preferred ls prev none = no_route_left
reason_of preferred ls none (some new) = recovered
reason_of preferred ls (some prev) (some new) = elim (broken_of ls prev.link_ids) [
  | some l ↦ reason_for l
  | none ↦
      if ltb new.hops prev.hops || is_preferred preferred new then recovered else below_threshold
]

-- What is added to the list of reroutes. The first entry is added without the check of its limit.
unfoldable pub note_reroute :
    Lab → Option RouteChoice → Option RouteChoice → List Reroute → List Reroute
unfolding reason_of
note_reroute lab prev new reroutes =
    if length reroutes == 0 && not (same_key (key_of new) none)
    then record { t_s = lab.tick_n * lab.tick_s; from = none; to = nodes_of new; reason = started }
      ∷ []
    else if same_key (key_of prev) (key_of new)
    then reroutes
    else push_limited history_limit reroutes (record {
      t_s = lab.tick_n * lab.tick_s;
      from = nodes_of prev;
      to = nodes_of new;
      reason = reason_of lab.preferred lab.links prev new;
    })

module _ (collate : String → String → Ordering) where
  unfoldable pub select_for : Lab → ℕ → Selection
  unfolding select_route
  select_for lab need =
      select_route collate (graph_of lab) lab.demand_from lab.demand_to (view_of lab need)
        lab.down_nodes lab.preferred

  unfoldable pub choose_route : Lab → ℕ → Lab
  unfolding select_for stick note_reroute
  choose_route lab need =
      let sel = select_for lab need in
      let new = stick lab.preferred lab.route sel.ranked sel.chosen in
      record lab {
        route = new;
        route_none = sel.no_route;
        alternatives = sel.ranked;
        rejected = sel.rejected;
        reroutes = note_reroute lab lab.route new lab.reroutes;
      }

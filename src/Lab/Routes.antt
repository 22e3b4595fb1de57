-- ===== src/Lab/Routes.antt =====
-- The graph, the view of the links and `chooseRoute` of the protocol lab
-- (services/webui-frontend/src/lib/sim/protocolLabSim.ts).
use mathlib.Core.Option
use pqc_qkd_hybrid_network.Base.{
  ℕ, ◌*◌, String, true, false, not, ◌&&◌, Option, none, some, List, [], ◌∷◌, find, str_eq, ◌==◌,
  if◌then◌else◌,
}
use pqc_qkd_hybrid_network.Base.Int.{ℤ, pos, leb_ℤ, sub_ℤ}
use pqc_qkd_hybrid_network.Routing.Graph.{Link, Graph}
use pqc_qkd_hybrid_network.Routing.Rank.{LinkView, RouteChoice}
use pqc_qkd_hybrid_network.Routing.Select.{NoRoute, Rejected}
use pqc_qkd_hybrid_network.Lab.Links.{
  Accounting, keys, stores, service_buffer, route_only, DownReason, by_link, node_down, outage,
  qber_alarm, LinkState,
}
use pqc_qkd_hybrid_network.Lab.Generate.{is_qkd}
use pqc_qkd_hybrid_network.Lab.Records.{Reroute}

-- The fields of the simulator that the choice of a route reads or changes. `nodes` are the nodes of
-- the preset and `preferred` the nodes of the scenario's preferred route.
pub record Lab : Type 0 where
  pub accounting : Accounting
  pub key_bits : ℕ
  pub tick_s : ℕ
  pub tick_n : ℕ
  pub nodes : List String
  pub links : List LinkState
  pub down_nodes : List String
  pub demand_from : String
  pub demand_to : String
  pub preferred : Option (List String)
  pub route : Option RouteChoice
  pub route_none : Option NoRoute
  pub alternatives : List RouteChoice
  pub rejected : List Rejected
  pub reroutes : List Reroute

-- The links that can be routed over.
unfoldable pub routable : List LinkState → List Link
routable [] = []
routable (l ∷ ls) =
    if is_qkd l.kind && not l.not_in_run
    then record { id = l.id; a = l.a; b = l.b } ∷ routable ls
    else routable ls

abbrev pub graph_of : Lab → Graph
graph_of lab = record { nodes = lab.nodes; links = routable lab.links }

abbrev pub down_text : Option DownReason → String
down_text none = "down"
down_text (some (by_link outage)) = "outage"
down_text (some (by_link qber_alarm)) = "qber-alarm"
down_text (some node_down) = "node-down"

abbrev pub rate_of : LinkState → Option ℤ
rate_of l = Option.map pos l.gen_bps

-- A link that is up: usable, or not for a reason.
abbrev pub offers : LinkState → Option ℤ → LinkView
offers l bits = record {
  up = true;
  usable = true;
  why = none;
  available_bits = bits;
  rate_bps = rate_of l;
}

abbrev pub blocks : LinkState → String → Option ℤ → LinkView
blocks l why bits = record (offers l bits) { usable = false; why = some why }

abbrev pub stopped : LinkState → LinkView
stopped l = record (blocks l (down_text l.down_reason) none) { up = false }

-- A link's store in bits above its threshold.
unfoldable pub view_store : ℤ → LinkState → LinkView
view_store need l = elim l.stored_bits [
  | none ↦ blocks l "no store in the cited run" none
  | some stored ↦ elim l.threshold_bits [
    | none ↦ blocks l "no store in the cited run" none
    | some threshold ↦
        let avail = sub_ℤ stored threshold in
        if leb_ℤ need avail
        then offers l (some avail)
        else blocks l "store at its minimum threshold" (some avail)
  ]
]

-- A link whose rate has to cover the transfer within a tick; rates are in thousandths.
unfoldable pub view_rate : ℕ → ℤ → LinkState → LinkView
view_rate tick_s need_thousandths l = elim l.gen_bps [
  | none ↦ blocks l "no reported rate" none
  | some gen ↦
      if leb_ℤ need_thousandths (pos (gen * tick_s))
      then offers l none
      else blocks l "reported rate cannot cover the refill in one tick" none
]

-- A link that counts keys: a candidate even while it holds none, if it can generate.
unfoldable pub view_keys : ℕ → LinkState → LinkView
view_keys key_bits l = elim l.gen_bps [
  | some gen ↦ offers l (some (pos (Option.get_or l.stored_keys 0 * key_bits)))
  | none ↦
      if Option.get_or l.stored_keys 0 == 0
      then blocks l "no reported rate" (some (pos 0))
      else offers l (some (pos (Option.get_or l.stored_keys 0 * key_bits)))
]

unfoldable pub view_link : Lab → ℕ → LinkState → LinkView
unfolding view_store view_rate view_keys
view_link lab need l = if l.down then stopped l else elim lab.accounting [
  | route_only ↦ offers l none
  | stores ↦ view_store (pos need) l
  | service_buffer ↦ view_rate lab.tick_s (pos (need * 1000)) l
  | keys ↦ view_keys lab.key_bits l
]

abbrev pub find_link : String → List LinkState → Option LinkState
find_link id ls = find (λ l. str_eq l.id id) ls

-- `view(needBits)`. A view of a link that is not there, at which the source throws, is asked of no
-- link of the graph; it is down here.
unfoldable pub view_of : Lab → ℕ → String → LinkView
unfolding view_link
view_of lab need id = elim (find_link id lab.links) [
  | some l ↦ view_link lab need l
  | none ↦ record { up = false; usable = false; why = none; available_bits = none; rate_bps = none }
]

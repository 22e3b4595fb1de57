-- ===== src/Lab/Links.antt =====
-- The links of the protocol lab (services/webui-frontend/src/lib/sim/protocolLabSim.ts) and the
-- failures that the operator injects and clears.
use mathlib.Core.Option
use pqc_qkd_hybrid_network.Base.{
  ℕ, String, Bool, true, false, not, ◌&&◌, ◌||◌, Option, none, some, List, [], ◌∷◌, ◌++◌, map,
  str_eq, if◌then◌else◌,
}
use pqc_qkd_hybrid_network.Base.Int.{ℤ}
use pqc_qkd_hybrid_network.Routing.Graph.{includes}

pub data Accounting : Type 0 where
  keys stores service_buffer route_only : Accounting

-- Whether an accounting mode counts discrete key requests at all.
abbrev pub counts_requests : Accounting → Bool
counts_requests keys = true
counts_requests service_buffer = true
counts_requests _ = false

pub data LinkKind : Type 0 where
  qkd_link keystore_link : LinkKind

pub data LinkReason : Type 0 where
  outage qber_alarm : LinkReason

pub data DownReason : Type 0 where
  by_link : LinkReason → DownReason
  node_down : DownReason

-- Generation rates are in thousandths of a bit per second. `genNote`, a label, is left out.
pub record LinkState : Type 0 where
  pub id : String
  pub a : String
  pub b : String
  pub kind : LinkKind
  pub down : Bool
  pub down_reason : Option DownReason
  pub not_in_run : Bool
  pub gen_bps : Option ℕ
  pub stored_keys : Option ℕ
  pub fill_to_keys : Option ℕ
  pub max_keys : Option ℕ
  pub stored_bits : Option ℤ
  pub threshold_bits : Option ℤ

-- A target of a link carries its reason, with which a missing one is an outage.
pub data FailureTarget : Type 0 where
  at_link : String → Option LinkReason → FailureTarget
  at_node : String → FailureTarget

-- The fields that a failure changes.
pub record Network : Type 0 where
  pub links : List LinkState
  pub down_nodes : List String

-- `l.a === id || l.b === id`
abbrev pub touches : String → LinkState → Bool
touches id l = str_eq l.a id || str_eq l.b id

-- `links.find(x => x.id === id)` and a change of the link that is found.
unfoldable pub change_link : String → (LinkState → LinkState) → List LinkState → List LinkState
change_link id f [] = []
change_link id f (l ∷ ls) = if str_eq l.id id then f l ∷ ls else l ∷ change_link id f ls

-- `set.add(id)` and `set.delete(id)`
unfoldable pub add_node : String → List String → List String
unfolding includes
add_node id ns = if includes ns id then ns else ns ++ id ∷ []

unfoldable pub delete_node : String → List String → List String
delete_node id [] = []
delete_node id (n ∷ ns) = if str_eq n id then delete_node id ns else n ∷ delete_node id ns

abbrev pub fail_link : DownReason → LinkState → LinkState
fail_link why l = record l { down = true; down_reason = some why }

-- The loop of `injectFailure` over the links of a node.
abbrev pub fail_at : String → LinkState → LinkState
fail_at id l = if touches id l then fail_link node_down l else l

-- The failure itself of `injectFailure`, before it chooses a route again.
unfoldable pub inject : FailureTarget → Network → Network
unfolding change_link add_node
inject (at_link id why) n = record n {
  links = change_link id (fail_link (by_link (Option.get_or why outage))) n.links;
}
inject (at_node id) n = record n {
  down_nodes = add_node id n.down_nodes;
  links = map (fail_at id) n.links;
}

-- A link whose own failure is cleared stays down with a node of its own.
unfoldable pub repair_link : List String → LinkState → LinkState
unfolding includes
repair_link down_nodes l =
    let still = includes down_nodes l.a || includes down_nodes l.b in
    record l { down = still; down_reason = if still then some node_down else none }

abbrev pub is_node_down : Option DownReason → Bool
is_node_down (some node_down) = true
is_node_down _ = false

-- `down_reason !== null`
abbrev pub has_reason : Option DownReason → Bool
has_reason none = false
has_reason (some why) = true

abbrev pub restore_link : LinkState → LinkState
restore_link l = record l { down = false; down_reason = none }

-- The loop of `clearFailure` over the links of a node, with the nodes that are left down.
unfoldable pub repair_at : String → List String → LinkState → LinkState
unfolding includes
repair_at id down_nodes l =
    if touches id l
      && (is_node_down l.down_reason
          && (not (includes down_nodes l.a) && not (includes down_nodes l.b)))
    then restore_link l
    else l

-- The repair itself of `clearFailure`: of everything, of a link, of a node.
unfoldable pub clear : Option FailureTarget → Network → Network
unfolding change_link delete_node repair_link repair_at
clear none n = record { links = map restore_link n.links; down_nodes = [] }
clear (some (at_link id why)) n = record n {
  links = change_link id (repair_link n.down_nodes) n.links;
}
clear (some (at_node id)) n =
    let left = delete_node id n.down_nodes in
    record { links = map (repair_at id left) n.links; down_nodes = left }

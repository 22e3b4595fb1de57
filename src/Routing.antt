-- ===== src/Routing.antt =====
-- services/webui-frontend/src/lib/sim/protocolLab/routing.ts: the enumeration of simple paths, the
-- ranking of routes, the selection, and what is proved of them.
pub mod Graph
pub mod Rank
pub mod Select
pub mod Bottleneck
pub mod Total
pub mod Adjacency
pub mod Hops
pub mod Found
pub mod AllFound
pub mod Bound
pub mod Paths
pub mod Complete
pub mod Order
pub mod Selection
pub mod Choice
pub mod Best
pub mod Availability
pub mod Distinct
mod Tests

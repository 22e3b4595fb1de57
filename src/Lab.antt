-- ===== src/Lab.antt =====
-- services/webui-frontend/src/lib/sim/protocolLabSim.ts: the class
-- `ProtocolLabSim`: the links with their failures, the keys that they generate, the choice of a route,
-- the relay of a key, the stream of keys, the modes of a tick, the controls and the snapshot.
pub mod Links
pub mod Failures
pub mod Relay
pub mod Generate
pub mod Records
pub mod Routes
pub mod Choose
pub mod Rerouting
pub mod Wording
pub mod State
pub mod Stream
pub mod Consume
pub mod Scenario
pub mod Tick
pub mod Modes
pub mod Advance
pub mod Load
pub mod Control
pub mod Traces
pub mod Pipeline
pub mod Parts
pub mod ModeTraces
pub mod Sound
pub mod Advanced
pub mod Handled
pub mod Refused
pub mod Refilled
pub mod Conserved
pub mod Relayed
pub mod Served
pub mod Counted
pub mod Lively
pub mod Stores
pub mod StoresTick
pub mod Buffered
pub mod Avoids
pub mod Snapshot
mod Tests
mod SimTests

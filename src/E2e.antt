-- ===== src/E2e.antt =====
-- services/webui-frontend/src/lib/sim/e2eSim.ts with the parts of crypto.ts and pacing.ts that it
-- calls: the state, the work of each step, the operations, and what is proved of them.
pub mod State
pub mod Crypto
pub mod Fields
pub mod Work
pub mod Sim
pub mod Events
pub mod Cases
pub mod Bounds
pub mod Kept
pub mod Fatality
pub mod Wiped
pub mod Sealing
pub mod Runs
pub mod Settled
pub mod Latched
pub mod Stranded
mod Tests

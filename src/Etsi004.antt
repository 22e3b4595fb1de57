-- ===== src/Etsi004.antt =====
-- services/webui-frontend/src/lib/sim/protocolLab/etsi004.ts: the status table, the types of a
-- stream, the key manager's methods, and what is proved of them.
pub mod Spec
pub mod Stream
pub mod Open
pub mod Read
pub mod Km
pub mod Next
pub mod Run
pub mod Success
pub mod Moves
pub mod Invariant
pub mod Once
pub mod Closing
pub mod HalfClosed
pub mod Supply
pub mod Offer
mod Tests

-- ===== src/Paper.antt =====
-- The five-phase flow of the paper, services/webui-frontend/src/lib/sim/paperSim.ts, the class
-- `PaperSim`: its types and constants, its work, its methods and runs of them, and what is proved of
-- them.
pub mod State
pub mod Csv
pub mod Fields
pub mod Work
pub mod Control
mod Orderly
mod Done
mod Moved
mod Stamps
mod Kept
mod Safe
mod Returns
mod Position
mod Turns
mod Cycle
mod Separate
mod Recorded
mod History
mod Tests

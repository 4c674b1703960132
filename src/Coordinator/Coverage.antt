-- ===== src/Coordinator/Coverage.antt =====
-- Slot coverage: an item that is assigned to a beacon or running on it stands in that beacon's
-- `CurrentWorkItems`. `Moves` has the changes of one item or one beacon, the others the operations
-- of source/services/Ultravisor-Beacon-Coordinator.cjs.
mod Moves
mod Push
mod Steps
mod Claims
mod Members
mod Arrivals
mod Timer
mod Runs
pub use Moves.*
pub use Push.*
pub use Steps.*
pub use Claims.*
pub use Members.*
pub use Arrivals.*
pub use Timer.*
pub use Runs.*

-- ===== src/Scheduler.antt =====
-- The beacon scheduler (source/services/Ultravisor-Beacon-Scheduler.cjs): the dispatch tick, stall
-- detection and recovery, health labels, buckets, cancellation and reordering, over the
-- coordinator's maps.
pub mod Order
pub mod Pick
pub mod Dispatch
pub mod Buckets
pub mod Health
pub mod Requests
pub mod Picking
pub mod Slots
pub mod Ticks
pub mod Tallies
pub mod Moves

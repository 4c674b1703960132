-- ===== src/Journal.antt =====
-- The write-ahead journal of the work queue (source/services/persistence/Ultravisor-Beacon-QueueJournal.cjs)
-- and its restoration (`restoreFromJournal`, source/services/Ultravisor-Beacon-Coordinator.cjs).
pub mod Entries
pub mod Files
pub mod Pointwise
pub mod Twice
pub mod Crash
pub mod Restart

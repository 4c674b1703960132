-- ===== src/Persist.antt =====
-- The bridge between the queue and where its history is kept
-- (source/services/Ultravisor-QueuePersistenceBridge.cjs).
pub mod Bridge
pub mod Reassign
pub mod Bootstrap
pub mod Endpoints
pub mod Sound
pub mod Flush
pub mod Backlog
pub mod Catchup
pub mod Complete

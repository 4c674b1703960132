-- ===== src/Engine.antt =====
-- The graph executor (source/services/Ultravisor-ExecutionEngine.cjs) with the parts of
-- source/services/Ultravisor-ExecutionManifest.cjs and source/services/Ultravisor-OutputStore.cjs
-- that keep a run's records.
pub mod Names
pub mod Graph
pub mod Context
pub mod Execute
pub mod Rollup
pub mod Runs
pub mod Resume
pub mod Checkpoint
pub mod Weights
pub mod Termination
pub mod Frame
pub mod Kept
pub mod Outcome
pub mod Failure
pub mod Connections
pub mod Reach
pub mod Reached
pub mod Totality
pub mod Settled
pub mod Invariant
pub mod Steps
pub mod Failed
pub mod Retries

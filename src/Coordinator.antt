-- ===== src/Coordinator.antt =====
-- The beacon coordinator (source/services/Ultravisor-Beacon-Coordinator.cjs): registration, the work
-- queue, push and poll delivery, completion, failure with retries, stalls and the timeout pass.
-- The children hold the state, the operations and the proofs.
pub mod State
pub mod Routing
pub mod Registry
pub mod Enqueue
pub mod Poll
pub mod Finish
pub mod Timeouts
pub mod Requests
pub mod Step
pub mod Coverage
pub mod Retry
pub mod Polling
pub mod Passes
pub mod Intake

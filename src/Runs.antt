-- ===== src/Runs.antt =====
-- The runs that clients start, with their idempotency keys.
pub mod Manager
pub mod Replays
pub mod Ended

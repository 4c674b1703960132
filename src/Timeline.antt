-- ===== src/Timeline.antt =====
-- The timeline: what is kept of the events that pass, and what is predicted.
pub mod Store
pub mod Aggregator
pub mod Projector
pub mod Kept
pub mod History
pub mod Ranges

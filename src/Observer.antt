-- ===== src/Observer.antt =====
-- The observer's classification of beacons, work items and operations
-- (source/services/observer/ObserverPolicy.cjs).
pub mod Policy
pub mod Upcoming
pub mod Waiting
pub mod Agreement

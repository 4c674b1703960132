-- ===== src/Tests.antt =====
-- The theorems at concrete coordinators.
mod Samples
mod Queueing
mod Scheduling
mod Graphs
mod Running
mod Restoring
mod Resolving
mod Admitting
mod Polls
mod Observing
mod Installing
mod Timelines
mod Starting
mod Resyncing
mod Flushing

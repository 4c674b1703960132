-- ===== src/LongPoll.antt =====
-- Long polls (source/services/Ultravisor-LongPollManager.cjs) and the requests of the API server that
-- wait on them (`_handleLongPollRequest`, source/web_server/Ultravisor-API-Server.cjs).
pub mod Waiters
pub mod Drains
pub mod Answers
pub mod Steps
pub mod Runs
pub mod Rearm
pub mod Cap

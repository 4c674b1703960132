-- ===== src/Resync.antt =====
-- The queue's event stream and its resynchronization
-- (source/web_server/Ultravisor-API-Server.cjs).
pub mod Ring
pub mod After
pub mod Client
pub mod Emits
pub mod Reconnect
pub mod Follow

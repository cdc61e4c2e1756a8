-- ===== src/Host.antt =====
-- src/host: the client of an adb server.
pub mod Proto
pub mod Client
pub mod Channel

-- ===== src/Services/Sync.antt =====
-- The `sync:` service (src/services/sync).
pub mod Codec
pub mod Client

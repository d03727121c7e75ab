-- ===== src/Storage.antt =====
-- Persistence (src/cks_runtime/storage).
pub mod Memory
pub mod Sqlite
pub mod PatchCodec
pub mod Stamp

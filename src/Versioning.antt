-- ===== src/Versioning.antt =====
-- Versions of a session and the clocks that order them (src/cks_runtime/versioning).
pub mod VersionVector
pub mod Version
pub mod Manager
mod Tests

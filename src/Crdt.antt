-- ===== src/Crdt.antt =====
-- The conflict-free replicated layer (src/cks_runtime/crdt).
pub mod VersionVector
pub mod Causality
pub mod Register
pub mod Store
pub mod MerkleTree
pub mod SqliteStore
pub mod Forks
pub mod Quarantine
mod Tests

-- ===== src/Gossip.antt =====
-- Replication between peers (src/cks_runtime/gossip).
pub mod Filter
pub mod SeqNo
pub mod Scheduling
pub mod Adapter
pub mod Genesis
pub mod Objects
pub mod Applying
pub mod Envelope
pub mod Server
mod Tests

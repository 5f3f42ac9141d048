-- ===== src/Raft.antt =====
-- The durable Raft replicator (internal/metadata_replicator/durable_raft) and its stores.
pub mod Types
pub mod AtomicFile
pub mod LogStore
pub mod Envelope
pub mod Stores
pub mod Node
pub mod Apply
pub mod Election
pub mod Append
pub mod Snapshot
pub mod Replication
pub mod Safety
pub mod Tests

-- ===== src/Metadata.antt =====
-- The bbolt metadata service (internal/metadata_service/bolt) and the operations it applies.
pub mod Bytes
pub mod Keys
pub mod Types
pub mod Bolt
pub mod State
pub mod Apply
pub mod Read
pub mod Service
pub mod Replication
pub mod Startup
pub mod Tree
pub mod Consistency
pub mod Renames
pub mod Updates
pub mod Runs
pub mod Listing
pub mod Index
pub mod Names
pub mod Creation
pub mod Removal
pub mod Move
pub mod Paging
pub mod Chunks
pub mod ChunkRoundTrip
pub mod Writes
pub mod Calls
pub mod Store
pub mod Samples
pub mod Tests

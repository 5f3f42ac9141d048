-- ===== src/Lib.antt =====
-- Sandstore: the logic of a distributed file store.
--
-- A node keeps the metadata of a file system in a state machine that the durable Raft replicator
-- (internal/metadata_replicator/durable_raft) drives: a leader appends commands to its log store,
-- sends them to its peers, commits what a majority holds, and gives committed commands to the
-- state machine. Snapshots of the state machine let the log be compacted. The bytes of files are
-- kept by the chunk service (internal/chunk_service/local_disc), which writes a chunk in two
-- phases. The state machine is the metadata service (internal/metadata_service/bolt): inodes,
-- names, chunk lists and write intents in a bbolt database, which a command of the log changes in
-- one transaction.
--
-- Where each part is modelled:
--   Base: Boolean tests, equality, lists and dictionaries over the native numbers.
--   Raft/Types: log entries and errors.
--   Raft/AtomicFile: `writeFileAtomically` of durable_raft/stores.go, one outcome per system call.
--   Raft/Envelope: the checksummed envelopes of stores.go, over any JSON and checksum functions.
--   Raft/LogStore: `FileLogStore` of stores.go. Its map is a dictionary, its file a slot.
--   Raft/Stores: `FileStableStore` and `FileSnapshotStore` of stores.go.
--   Raft/Node: the state of `DurableRaftReplicator` of durable_raft/replicator.go, stepping down and
--     the writes of the term and the vote.
--   Raft/Election: votes, elections and the batches of a leader.
--   Raft/Append: `HandleAppendEntries`.
--   Raft/Apply: `applyLogsLocked` and `advanceCommitIndexLocked`.
--   Raft/Snapshot: `HandleInstallSnapshot`, `checkCompaction` and `Start`.
--   Raft/Replication: what a leader sends, and what it does with the replies.
--   Raft/Safety: a step relation over all handlers, crashes and starts, and what no run breaks.
--   Chunk: `LocalDiscChunkService`. Chunk/Paths is about file names, Chunk/Index is about its
--     index, Chunk/Finish and Chunk/RoundTrip about contents, Chunk/Recovery about a start after
--     a crash, Chunk/Finals about what each operation leaves alone.
--   Metadata/Bytes, Keys: byte strings and the keys of the buckets. Metadata/Types: inodes and
--     operations.
--   Metadata/Bolt: what is used of bbolt, as an interface with its laws; Metadata/Store fills it.
--   Metadata/State: the buckets and the helpers of bolt_metadata_service.go. Metadata/Apply: the
--     commands of the log (`ApplyTransaction`). Metadata/Read: the reads. Metadata/Service: the
--     calls that replicate an operation, Metadata/Replication what the replicator may do
--     meanwhile. Metadata/Startup: `Recover` and the writes that bypass the log.
--   Metadata/Tree, Consistency, Renames, Updates, Runs: what holds between inodes and names in
--     every run. Metadata/Names, Creation, Removal, Move: names against operations.
--     Metadata/Listing, Paging: directory listings. Metadata/Chunks, ChunkRoundTrip, Writes:
--     chunk lists and intents. Metadata/Index: the consistent index. Metadata/Calls: `Create` and
--     `Rmdir` as a whole.
--   Write/DataPlane: `RaftDataPlaneOrchestrator` of internal/orchestrators/raft_data_plane.go
--     over the chunk services of the nodes. Write/ControlPlane: the file writes and reads of
--     control_plane.go and the transaction handle of raft_tx_coordinator.go over the metadata
--     service. Write/Handlers: the calls that both pass on. Write/Payload, Delivery, Intents,
--     Files: what a write contains, where it is prepared, and what its commit leaves.
--   Client/Router, Requests: `HyperconvergedRouter` and `StandardRequestManager` of
--     clients/library. Client/AtMostOnce: how often a request is sent. Client/Server, Refusals:
--     `respond` of internal/server/hyperconverged, and what the client makes of its errors.
--   Placement: `SortedPlacementStrategy` and `StaticEndpointResolver` of internal/orchestrators.
--   Raft/Tests, Chunk/Tests, Placement/Tests, Metadata/Samples, Metadata/Tests, Write/Tests,
--     Client/Tests: sample nodes and files.
--
-- Conventions. A handler runs under the mutex of the replicator, so it is a function on the
-- state. The clock, the outcome of each file operation, the view of the cluster and the replies
-- of peers are arguments, and theorems quantify over them. Indices and terms are numbers in the
-- range where `int64` and `uint64` agree. A function's early returns are clauses or tests in the
-- order of the source. A failed write returns the state that the source leaves, with what it
-- changed before. Link counts, sizes and times are numbers that do not wrap around.
--
-- Fuel. A request has three attempts. The loop of `applyLogsLocked` runs on the distance from the
-- applied to the commit index, which each round shortens by one. The loop of
-- `advanceCommitIndexLocked` goes down the log index. The loop that collects entries runs on the
-- number of indices left.
--
-- Not modelled: timers and the event loop, `json` and `crc32` (parameters of Raft/Envelope), the
-- network, log lines and metrics. SHA-256 and the metadata service are parameters of Chunk. Of
-- the metadata service, opening and closing the database file and its snapshots have no model, a
-- value of a bucket or of the log stands for its `gob` or `json` encoding (but `newChunkList`
-- loses an empty list on the way), contexts are live, and the flag `commits` covers every write
-- of a transaction that bbolt may refuse. The loop that deletes a chunk list is taken to meet the
-- keys that were there before it. The loop of `ExecuteWrite` asks the targets one after the
-- other, since each request only changes its node. A caller of `Replicate` meets any commands of
-- others before and after its own (Metadata/Replication); that the log carries each of them to
-- the state machine once and in order is Raft/Apply. Of the servers only `respond` is modelled.
-- The files and caches of the client library have no model.
pub mod Base
pub mod Raft
pub mod Chunk
pub mod Placement
pub mod Metadata
pub mod Write
pub mod Client

-- ===== src/Write/ControlPlane.antt =====
-- The writes and reads of files by `controlPlaneOrchestrator` (internal/orchestrators/control_plane.go)
-- and the transaction handle of internal/orchestrators/raft_tx_coordinator.go, over the metadata
-- service. New identifiers, the placement, the clock and the replicator are arguments.
use sandstore.Base.{
  ℕ, ◌+◌, ◌-◌, ◌/◌, ℤ, pos, negsuc, Bool, true, false, Option, none, some, List, [], ◌∷◌, ◌++◌, ltb,
  leb, if◌then◌else◌, ◌==◌, nat_eq,
}
use sandstore.Metadata.Bytes.{Bytes}
use sandstore.Metadata.Types.{
  Location, ChunkDescriptor, Inode, MetadataOperation, op_update_inode, ChunkIntentOperation,
  committed, RaftCommandEnvelope, chunk_intent, MetaError, ok, err,
}
use sandstore.Metadata.Bolt.{Bolt}
use sandstore.Metadata.State.{Metadata, is_directory}
use sandstore.Metadata.Service.{blank, as_sent}
use sandstore.Metadata.Read.{get_inode}

pub data FileError : Type 0 where
  invalid_length cross_chunk_write is_a_directory not_placed consensus_failed : FileError
  metadata_failed : MetaError → FileError

pub record WriteContext : Type 0 where
  pub txn_id : Bytes
  pub chunk_id : Bytes
  pub target_nodes : List Location
  pub is_new_chunk : Bool

-- An empty one stands for nothing to read.
pub record ReadContext : Type 0 where
  pub chunk_id : Bytes
  pub target_nodes : List Location

abbrev pub empty_context : ReadContext
empty_context = record { chunk_id = []; target_nodes = [] }

-- What a handler answers.
pub data Answer (A : Type 0) : Type 0 where
  answered : A → Answer A
  fault : FileError → Answer A

-- A commit or an abort that is sent to a participant; it may not arrive.
pub record Notice : Type 0 where
  pub endpoint : Bytes
  pub txn_id : Bytes
  pub chunk_id : Bytes

unfoldable pub is_within_chunk_boundary : ℕ → ℕ → ℤ → Bool
is_within_chunk_boundary chunk_size offset (negsuc _) = true
is_within_chunk_boundary chunk_size offset (pos count) =
    if count == 0 then true else offset / chunk_size == (offset + count - 1) / chunk_size

-- `list[index]`, where the index is in range.
unfoldable pub chunk_at : ℕ → List ChunkDescriptor → Option ChunkDescriptor
chunk_at index [] = none
chunk_at ℕ.zero (chunk ∷ chunks) = some chunk
chunk_at (ℕ.suc index) (chunk ∷ chunks) = chunk_at index chunks

unfoldable pub extract_participant_ids : List Location → List Bytes
extract_participant_ids [] = []
extract_participant_ids (participant ∷ participants) =
    participant.logical_node_alias ∷ extract_participant_ids participants

-- The loops of `broadcastCommitAsync` and `broadcastAbortAsync`.
unfoldable pub broadcast : Bytes → Bytes → List Location → List Notice
broadcast txn_id chunk_id [] = []
broadcast txn_id chunk_id (participant ∷ participants) =
    record { endpoint = participant.physical_endpoint; txn_id = txn_id; chunk_id = chunk_id }
    ∷ broadcast txn_id chunk_id participants

-- The chunk and the targets of a write into a file.
unfoldable pub write_target :
    Bytes → Bytes → Option (List Location) → Option ChunkDescriptor → Answer WriteContext
write_target txn_id new_chunk_id placed (some chunk) = answered (record {
  txn_id = txn_id;
  chunk_id = chunk.chunk_id;
  target_nodes = chunk.locations;
  is_new_chunk = false;
})
write_target txn_id new_chunk_id none none = fault not_placed
write_target txn_id new_chunk_id (some targets) none = answered (record {
  txn_id = txn_id;
  chunk_id = new_chunk_id;
  target_nodes = targets;
  is_new_chunk = true;
})

abbrev pub is_negative : ℤ → Bool
is_negative (pos _) = false
is_negative (negsuc _) = true

-- The chunks of the file after a commit.
unfoldable pub committed_chunks :
    Bool → Bytes → List Location → List ChunkDescriptor → List ChunkDescriptor
committed_chunks false chunk_id targets chunks = chunks
committed_chunks true chunk_id targets chunks =
    chunks ++ record { chunk_id = chunk_id; locations = targets } ∷ []

-- The update of the inode that a commit carries along.
unfoldable pub file_update : ℕ → ℕ → Bool → Bytes → List Location → Inode → MetadataOperation
file_update now new_eof is_new_chunk chunk_id targets inode = record (blank op_update_inode) {
  inode_id = inode.inode_id;
  new_size = some (if ltb inode.file_size new_eof then new_eof else inode.file_size);
  new_chunk_list = some (committed_chunks is_new_chunk chunk_id targets inode.chunk_list);
  set_mtime = some now;
  timestamp = now;
}

abbrev pub committed_intent : ℕ → Bytes → Bytes → List Location → ChunkIntentOperation
committed_intent now txn_id chunk_id participants = record {
  txn_id = txn_id;
  chunk_id = chunk_id;
  node_ids = extract_participant_ids participants;
  state = committed;
  timestamp = now;
}

-- The update as `Commit` sends it, in JSON.
abbrev pub sent_update : Option MetadataOperation → Option MetadataOperation
sent_update none = none
sent_update (some op) = some (as_sent op)

-- `RaftTxHandle.Abort`
unfoldable pub tx_abort : Bytes → Bytes → List Location → List Notice
tx_abort txn_id chunk_id participants = broadcast txn_id chunk_id participants

module _ (b : Bolt) where
  abbrev pub Replicator : Type 0
  Replicator = Option RaftCommandEnvelope → Metadata b → Option MetaError × Metadata b

  -- The answer of `Commit`, with the notices that it sends.
  abbrev pub commit_answer :
      List Notice → Option MetaError × Metadata b → Answer (List Notice) × Metadata b
  commit_answer notices (some e, db) = (fault consensus_failed, db)
  commit_answer notices (none, db) = (answered notices, db)

  -- `RaftTxHandle.Commit`
  unfoldable pub tx_commit :
      Replicator
      → ℕ
      → Bytes
      → Bytes
      → Option MetadataOperation
      → List Location
      → Metadata b
      → Answer (List Notice) × Metadata b
  tx_commit replicate now txn_id chunk_id meta_update participants db =
      commit_answer (broadcast txn_id chunk_id participants) (
        replicate
          (some (
            chunk_intent (some (committed_intent now txn_id chunk_id participants))
              (sent_update meta_update)))
          db)

  -- `PrepareFileWrite`
  unfoldable pub prepare_file_write :
      ℕ → Bytes → Bytes → Option (List Location) → Bytes → ℕ → ℤ → Metadata b → Answer WriteContext
  prepare_file_write chunk_size txn_id new_chunk_id placed inode_id offset count db =
      if is_negative count
      then fault invalid_length
      else if is_within_chunk_boundary chunk_size offset count
      then elim (get_inode b inode_id db) [
        | err e ↦ fault (metadata_failed e)
        | ok inode ↦
            if is_directory inode.inode_type
            then fault is_a_directory
            else write_target txn_id new_chunk_id placed
                (chunk_at (offset / chunk_size) inode.chunk_list)
      ]
      else fault cross_chunk_write

  -- `CommitFileWrite`. The clock is read for the update, and later for the intent.
  unfoldable pub commit_file_write :
      Replicator
      → ℕ
      → ℕ
      → Bytes
      → Bytes
      → Bytes
      → ℕ
      → Bool
      → List Location
      → Metadata b
      → Answer (List Notice) × Metadata b
  commit_file_write replicate now intent_now txn_id inode_id chunk_id new_eof is_new_chunk targets
        db =
      elim (get_inode b inode_id db) [
        | err e ↦ (fault (metadata_failed e), db)
        | ok inode ↦
            tx_commit replicate intent_now txn_id chunk_id
              (some (file_update now new_eof is_new_chunk chunk_id targets inode)) targets db
      ]

  -- `PrepareFileRead`
  unfoldable pub prepare_file_read : ℕ → Bytes → ℕ → Metadata b → Answer ReadContext
  prepare_file_read chunk_size inode_id offset db = elim (get_inode b inode_id db) [
    | err e ↦ fault (metadata_failed e)
    | ok inode ↦
        if leb inode.file_size offset
        then answered empty_context
        else elim (chunk_at (offset / chunk_size) inode.chunk_list) [
          | none ↦ answered empty_context
          | some chunk ↦
              answered (record { chunk_id = chunk.chunk_id; target_nodes = chunk.locations })
        ]
  ]

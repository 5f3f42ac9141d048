-- ===== src/Metadata/Startup.antt =====
-- The writes of internal/metadata_service/bolt/bolt_metadata_service.go that do not go through the log:
-- placements, intents and `Recover`.
use sandstore.Base.{ℕ, zero, suc, ◌*◌, ◌^◌, Bool, Option, none, some, List, [], ◌∷◌, nat_eq, pos}
use sandstore.Metadata.Bytes.{Bytes, bytes_eq, put_little_endian}
use sandstore.Metadata.Keys.{encode_inode_key}
use sandstore.Metadata.Types.{
  directory, Inode, ChunkIntentOperation, IntentState, Superblock, MetaError, Result, ok, err,
  ◌>>=◌,
}
use sandstore.Metadata.Bolt.{Bolt}
use sandstore.Metadata.State.{Metadata, storable_inode, decode_index, update}

-- "00000000-0000-0000-0000-000000000000": the lengths of the parts between the dashes.
abbrev pub zeros : ℕ → Bytes → Bytes
zeros zero behind = behind
zeros (suc count) behind = b'0' ∷ zeros count behind

abbrev pub nil_uuid : Bytes
nil_uuid = zeros 8 (b'-' ∷ zeros 4 (b'-' ∷ zeros 4 (b'-' ∷ zeros 4 (b'-' ∷ zeros 12 []))))

module _ (b : Bolt) where
  open b use {get, put}

  unfoldable pub update_chunk_placement :
      Bool → Bytes → List Bytes → Metadata b → Option MetaError × Metadata b
  update_chunk_placement commits chunk_id node_ids db =
      update b commits
        (ok (record db { chunk_placements = put chunk_id node_ids db.chunk_placements })) db

  -- The intent that is there with another state, or a new one.
  unfoldable pub intent_with :
      ℕ → Bytes → IntentState → Option ChunkIntentOperation → ChunkIntentOperation
  intent_with now txn_id state none = record {
    txn_id = txn_id;
    chunk_id = [];
    node_ids = [];
    state = state;
    timestamp = now;
  }
  intent_with now txn_id state (some existing) = record existing { state = state; timestamp = now }

  unfoldable pub set_intent_state :
      Bool → ℕ → Bytes → IntentState → Metadata b → Option MetaError × Metadata b
  set_intent_state commits now txn_id state db =
      update b commits
        (ok (record db {
          chunk_intents =
              put txn_id (intent_with now txn_id state (get txn_id db.chunk_intents))
                db.chunk_intents;
        }))
        db

  abbrev pub root_inode_id : Bytes
  root_inode_id = b'0' ∷ []

  abbrev pub root_inode : ℕ → Inode
  root_inode now = record {
    inode_id = root_inode_id;
    inode_type = directory;
    link_count = pos 2;
    mode = 493;
    owner_uid = 0;
    owner_gid = 0;
    access_time = now;
    modify_time = now;
    change_time = now;
    file_size = 0;
    version_number = 0;
    chunk_list = [];
  }

  abbrev pub new_superblock : ℕ → Superblock
  new_superblock now = record {
    fs_id = nil_uuid;
    root_inode_id = root_inode_id;
    chunk_size = 8 * 1024 * 1024;
    max_filename_size = 255;
    max_file_size = 2 ^ 40;
    created_at = now;
  }

  -- A new file system, with its root.
  unfoldable pub initialized : ℕ → Metadata b → Result (Metadata b)
  initialized now db = do
    root_key ← encode_inode_key root_inode_id
    ok (record db {
      superblock = some (new_superblock now);
      inodes = put root_key (storable_inode (root_inode now)) db.inodes;
      consistent_index = some (put_little_endian 8 0);
    })

  abbrev pub recovered : Option MetaError × Metadata b → Result ℕ × Metadata b
  recovered (some e, db) = (err e, db)
  recovered (none, db) = (ok 0, db)

  -- `Recover`: the index that is there, or a new file system.
  unfoldable pub recover_from : Option Bytes → Bool → ℕ → Metadata b → Result ℕ × Metadata b
  recover_from (some index_bytes) commits now db = (decode_index (some index_bytes), db)
  recover_from none commits now db = recovered (update b commits (initialized now db) db)

  unfoldable pub recover : Bool → ℕ → Metadata b → Result ℕ × Metadata b
  recover commits now db = recover_from db.consistent_index commits now db

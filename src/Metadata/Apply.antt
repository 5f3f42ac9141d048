-- ===== src/Metadata/Apply.antt =====
-- The operations that the replicated log applies, of
-- internal/metadata_service/bolt/bolt_metadata_service.go. Each is the body of its transaction: what
-- it commits, or its error.
use sandstore.Base.{
  ℕ, ◌+◌, Bool, Option, none, some, List, [], if◌then◌else◌, ltb, pos, increment, decrement,
}
use sandstore.Metadata.Bytes.{Bytes, bytes_eq, put_little_endian}
use sandstore.Metadata.Keys.{encode_inode_key, encode_dentry_key}
use sandstore.Metadata.Types.{
  Inode, ChunkDescriptor, ChunkIntentOperation, MetadataOperation, OpType, op_create, op_remove,
  op_rename, op_set_attr, op_update_inode, RaftCommandEnvelope, posix_meta, chunk_intent, MetaError,
  not_found, already_exists, missing_operation, not_decoded, Result, ok, err, ◌>>=◌, present,
}
use sandstore.Metadata.Bolt.{Bolt}
use sandstore.Metadata.State.{
  Metadata, is_directory, storable_inode, next_consistent_index, load_stored_inode, update,
  replace_chunk_list,
}

abbrev pub touched : ℕ → Inode → Inode
touched now inode = record inode { modify_time = now; change_time = now }

-- A pointer's value where it is not nil, or the old value.
abbrev pub set_or : Option ℕ → ℕ → ℕ
set_or none old = old
set_or (some new) old = new

unfoldable pub created_inode : MetadataOperation → Inode
created_inode op = record {
  inode_id = op.inode_id;
  inode_type = op.file_type;
  link_count = if is_directory op.file_type then pos 2 else pos 1;
  mode = op.mode;
  owner_uid = op.uid;
  owner_gid = op.gid;
  access_time = op.timestamp;
  modify_time = op.timestamp;
  change_time = op.timestamp;
  file_size = 0;
  version_number = 0;
  chunk_list = [];
}

-- The parent of a new entry, and of one that is removed.
unfoldable pub parent_with : MetadataOperation → Inode → Inode
parent_with op parent = touched op.timestamp (
    if is_directory op.file_type
    then record parent { link_count = increment parent.link_count }
    else parent)

unfoldable pub parent_without : MetadataOperation → Inode → Inode → Inode
parent_without op child parent = touched op.timestamp (
    if is_directory child.inode_type
    then record parent { link_count = decrement parent.link_count }
    else parent)

unfoldable pub changed_attr : MetadataOperation → Inode → Inode
changed_attr op inode = record inode {
  mode = set_or op.set_mode inode.mode;
  owner_uid = set_or op.set_uid inode.owner_uid;
  owner_gid = set_or op.set_gid inode.owner_gid;
  access_time = set_or op.set_atime inode.access_time;
  modify_time = set_or op.set_mtime inode.modify_time;
  change_time = op.timestamp;
}

unfoldable pub updated_inode : MetadataOperation → Inode → Inode
updated_inode op inode = record inode {
  file_size = set_or op.new_size inode.file_size;
  modify_time = set_or op.set_mtime inode.modify_time;
  version_number = inode.version_number + 1;
  change_time = op.timestamp;
}

-- The inode of a write that commits with its intent; `now` is the clock.
unfoldable pub written_inode : ℕ → MetadataOperation → Inode → Inode
written_inode now op inode =
    touched (if ltb 0 op.timestamp then op.timestamp else now)
      (record inode { file_size = set_or op.new_size inode.file_size })

module _ (b : Bolt) where
  open b use {Bucket, get, put, delete, scan}

  abbrev pub indexed : ℕ → Metadata b → Metadata b
  indexed index db = record db { consistent_index = some (put_little_endian 8 index) }

  abbrev pub store_inode : Bytes → Inode → Bucket Inode → Bucket Inode
  store_inode key inode inodes = put key (storable_inode inode) inodes

  -- The new state of a creation, and whether it is refused.
  unfoldable pub created : MetadataOperation → Bytes → Bytes → Inode → Metadata b → Metadata b
  created op parent_key child_key parent db = record db {
    inodes =
        store_inode parent_key (parent_with op parent)
          (store_inode child_key (created_inode op) db.inodes);
    dentries = put (encode_dentry_key parent_key op.name) child_key db.dentries;
  }

  unfoldable pub create_in :
      MetadataOperation → Bytes → Bytes → Inode → Metadata b → Result (Metadata b)
  create_in op parent_key child_key parent db =
      if is_directory parent.inode_type
      then elim (get (encode_dentry_key parent_key op.name) db.dentries) [
        | some _ ↦ err already_exists
        | none ↦ ok (created op parent_key child_key parent db)
      ]
      else err not_found

  unfoldable pub apply_create : MetadataOperation → ℕ → Metadata b → Result (Metadata b)
  apply_create op index db = do
    parent_key ← encode_inode_key op.parent_id
    child_key ← encode_inode_key op.inode_id
    parent ← load_stored_inode b parent_key db
    done ← create_in op parent_key child_key parent db
    ok (indexed index done)

  -- The inode of the entry that is overwritten goes.
  unfoldable pub drop_overwritten : Option Bytes → Bucket Inode → Bucket Inode
  drop_overwritten none inodes = inodes
  drop_overwritten (some overwritten_child_key) inodes = delete overwritten_child_key inodes

  unfoldable pub renamed :
      MetadataOperation → Bytes → Bytes → Inode → Inode → Bytes → Metadata b → Metadata b
  unfolding drop_overwritten
  renamed op src_parent_key dst_parent_key src_parent dst_parent child_key db =
      let without = delete (encode_dentry_key src_parent_key op.name) db.dentries in
      let dst_dentry_key = encode_dentry_key dst_parent_key op.dst_name in
      record db {
        dentries = put dst_dentry_key child_key without;
        inodes = store_inode dst_parent_key (touched op.timestamp dst_parent) (
            store_inode src_parent_key (touched op.timestamp src_parent)
              (drop_overwritten (get dst_dentry_key without) db.inodes));
      }

  unfoldable pub apply_rename : MetadataOperation → ℕ → Metadata b → Result (Metadata b)
  apply_rename op index db = do
    src_parent_key ← encode_inode_key op.parent_id
    dst_parent_key ← encode_inode_key op.dst_parent_id
    src_parent ← load_stored_inode b src_parent_key db
    dst_parent ← load_stored_inode b dst_parent_key db
    child_key ← present not_found (get (encode_dentry_key src_parent_key op.name) db.dentries)
    ok (indexed index (renamed op src_parent_key dst_parent_key src_parent dst_parent child_key db))

  unfoldable pub removed :
      MetadataOperation → Bytes → Bytes → Inode → Inode → Metadata b → Metadata b
  removed op parent_key child_key parent child db = record db {
    dentries = delete (encode_dentry_key parent_key op.name) db.dentries;
    inodes = store_inode parent_key (parent_without op child parent) (delete child_key db.inodes);
  }

  unfoldable pub apply_remove : MetadataOperation → ℕ → Metadata b → Result (Metadata b)
  apply_remove op index db = do
    parent_key ← encode_inode_key op.parent_id
    child_key ← present not_found (get (encode_dentry_key parent_key op.name) db.dentries)
    parent ← load_stored_inode b parent_key db
    child ← load_stored_inode b child_key db
    ok (indexed index (removed op parent_key child_key parent child db))

  unfoldable pub apply_set_attr : MetadataOperation → ℕ → Metadata b → Result (Metadata b)
  apply_set_attr op index db = do
    inode_key ← encode_inode_key op.inode_id
    inode ← load_stored_inode b inode_key db
    ok (
        indexed index
          (record db { inodes = store_inode inode_key (changed_attr op inode) db.inodes }))

  -- A chunk list that is not nil replaces the old one.
  unfoldable pub new_chunks : Bytes → Option (List ChunkDescriptor) → Metadata b → Metadata b
  new_chunks inode_key none db = db
  new_chunks inode_key (some chunks) db = record db {
    chunk_map = replace_chunk_list b inode_key chunks db.chunk_map;
  }

  unfoldable pub apply_update_inode : MetadataOperation → ℕ → Metadata b → Result (Metadata b)
  apply_update_inode op index db = do
    inode_key ← encode_inode_key op.inode_id
    inode ← load_stored_inode b inode_key db
    let done = record db { inodes = store_inode inode_key (updated_inode op inode) db.inodes }
    ok (indexed index (new_chunks inode_key op.new_chunk_list done))

  -- The update of the inode that a chunk intent carries along.
  unfoldable pub write_with_intent : ℕ → MetadataOperation → Metadata b → Result (Metadata b)
  write_with_intent now op db = do
    inode_key ← encode_inode_key op.inode_id
    inode ← load_stored_inode b inode_key db
    let placed = new_chunks inode_key op.new_chunk_list db
    ok (record placed { inodes = store_inode inode_key (written_inode now op inode) db.inodes })

  unfoldable pub meta_update : ℕ → Option MetadataOperation → Metadata b → Result (Metadata b)
  meta_update now none db = ok db
  meta_update now (some op) db = elim op.op_type [
    | op_update_inode ↦ write_with_intent now op db
    | _ ↦ ok db
  ]

  unfoldable pub apply_chunk_intent :
      ℕ → ChunkIntentOperation → Option MetadataOperation → ℕ → Metadata b → Result (Metadata b)
  apply_chunk_intent now intent meta index db = do
    let recorded = record db {
      chunk_intents = put intent.txn_id intent db.chunk_intents;
      chunk_placements = put intent.chunk_id intent.node_ids db.chunk_placements;
    }
    done ← meta_update now meta recorded
    ok (indexed index done)

  unfoldable pub apply_as : OpType → MetadataOperation → ℕ → Metadata b → Result (Metadata b)
  apply_as op_create = apply_create
  apply_as op_remove = apply_remove
  apply_as op_rename = apply_rename
  apply_as op_set_attr = apply_set_attr
  apply_as op_update_inode = apply_update_inode

  unfoldable pub apply_operation : MetadataOperation → ℕ → Metadata b → Result (Metadata b)
  apply_operation op index db = apply_as op.op_type op index db

  -- The command, decoded, up to its commit.
  unfoldable pub apply_envelope : ℕ → Option RaftCommandEnvelope → Metadata b → Result (Metadata b)
  apply_envelope now none db = err not_decoded
  apply_envelope now (some (posix_meta none)) db = err missing_operation
  apply_envelope now (some (posix_meta (some op))) db = do
    index ← next_consistent_index b db
    apply_operation op index db
  apply_envelope now (some (chunk_intent none meta)) db = err missing_operation
  apply_envelope now (some (chunk_intent (some intent) meta)) db = do
    index ← next_consistent_index b db
    apply_chunk_intent now intent meta index db

  unfoldable pub apply_transaction :
      Bool → ℕ → Option RaftCommandEnvelope → Metadata b → Option MetaError × Metadata b
  unfolding apply_envelope
  apply_transaction commits now envelope db = update b commits (apply_envelope now envelope db) db

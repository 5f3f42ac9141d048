-- ===== src/Metadata/Service.antt =====
-- The operations of internal/metadata_service/bolt/bolt_metadata_service.go that change the metadata.
-- `submit` is `replicateOp` with its replicator and its clock.
use sandstore.Base.{
  ℕ, ◌+◌, ◌%◌, Bool, true, false, Option, none, some, List, [], if◌then◌else◌, ◌==◌, nat_eq,
}
use sandstore.Metadata.Bytes.{Bytes, bytes_eq, uint64_size, format_uint}
use sandstore.Metadata.Types.{
  InodeType, file, directory, Inode, Attributes, ChunkDescriptor, MetadataOperation,
  RaftCommandEnvelope, posix_meta, OpType, op_create, op_remove, op_rename, op_set_attr,
  op_update_inode, MetaError, not_found, already_exists, not_empty, Result, ok, err, ◌>>=◌,
}
use sandstore.Metadata.Bolt.{Bolt}
use sandstore.Metadata.State.{Metadata}
use sandstore.Metadata.Read.{
  lookup_name, get_attributes, get_inode, require_directory, directory_is_empty,
}

-- An operation with no field set but its type.
abbrev pub blank : OpType → MetadataOperation
blank t = record {
  op_type = t;
  inode_id = [];
  parent_id = [];
  name = [];
  file_type = file;
  mode = 0;
  uid = 0;
  gid = 0;
  dst_parent_id = [];
  dst_name = [];
  set_mode = none;
  set_uid = none;
  set_gid = none;
  set_atime = none;
  set_mtime = none;
  new_size = none;
  new_chunk_list = none;
  timestamp = 0;
}

-- A list with `omitempty`: an empty one is not written, and reads as nil.
abbrev pub omit_empty : Option (List ChunkDescriptor) → Option (List ChunkDescriptor)
omit_empty (some []) = none
omit_empty chunks = chunks

-- An operation that went through JSON, as `json.Marshal` of `replicateOp` and `Commit` sends it.
abbrev pub as_sent : MetadataOperation → MetadataOperation
as_sent op = record op { new_chunk_list = omit_empty op.new_chunk_list }

-- `nextInodeID`: the counter starts at the clock.
unfoldable pub next_inode_id : ℕ → ℕ → ℕ × Bytes
next_inode_id now counter =
    let next = ((if counter == 0 then now else counter) + 1) % uint64_size in
    (next, format_uint next)

-- The error of a result, if it is one.
abbrev pub failure {ℓ} : {A : Type ℓ} → Result A → Option MetaError
failure (ok _) = none
failure (err e) = some e

-- The tests of `Create` and `Mkdir` on the name: it must be looked up in vain.
unfoldable pub require_absent : Result Bytes → Option MetaError
require_absent (ok _) = some already_exists
require_absent (err not_found) = none
require_absent (err e) = some e

abbrev pub first_error : Option MetaError → Option MetaError → Option MetaError
first_error (some e) other = some e
first_error none other = other

module _ (b : Bolt) where
  open b use {get, put}

  -- `replicateOp`
  abbrev pub Submit : Type 0
  Submit = MetadataOperation → Metadata b → Option MetaError × Metadata b

  -- `replicateOp`: `replicate` is the replicator, which may apply the command, and commands of
  -- others before and after it.
  unfoldable pub replicate_op :
      (Option RaftCommandEnvelope → Metadata b → Option MetaError × Metadata b) → ℕ → Submit
  replicate_op replicate now op db =
      replicate (some (posix_meta (some (as_sent (record op { timestamp = now }))))) db

  -- The operation is submitted if the checks found no error.
  unfoldable pub submit_checked :
      Submit → Option MetaError → MetadataOperation → Metadata b → Option MetaError × Metadata b
  submit_checked submit (some e) op db = (some e, db)
  submit_checked submit none op db = submit op db

  unfoldable pub check_create : Bytes → Bytes → Metadata b → Option MetaError
  check_create parent_inode_id name db =
      first_error (failure (get_inode b parent_inode_id db >>= require_directory))
        (require_absent (lookup_name b parent_inode_id name db))

  abbrev pub create_operation : InodeType → Bytes → Bytes → Bytes → ℕ → ℕ → ℕ → MetadataOperation
  create_operation file_type new_id parent_inode_id name mode uid gid = record (blank op_create) {
    inode_id = new_id;
    parent_id = parent_inode_id;
    name = name;
    file_type = file_type;
    mode = mode;
    uid = uid;
    gid = gid;
  }

  -- What `Create` makes of the inode that it reads back.
  abbrev pub created_or_lost : Result Inode → Result Inode
  created_or_lost (err not_found) = err already_exists
  created_or_lost r = r

  abbrev pub answer :
      (Result Inode → Result Inode)
      → Bytes
      → Option MetaError × Metadata b
      → Result Inode × Metadata b
  answer change new_id (some e, db) = (err e, db)
  answer change new_id (none, db) = (change (get_inode b new_id db), db)

  unfoldable pub create :
      Submit → Bytes → Bytes → Bytes → ℕ → ℕ → ℕ → Metadata b → Result Inode × Metadata b
  create submit new_id parent_inode_id name mode uid gid db = answer created_or_lost new_id (
      submit_checked submit (check_create parent_inode_id name db)
        (create_operation file new_id parent_inode_id name mode uid gid) db)

  unfoldable pub mkdir :
      Submit → Bytes → Bytes → Bytes → ℕ → ℕ → ℕ → Metadata b → Result Inode × Metadata b
  mkdir submit new_id parent_inode_id name mode uid gid db =
      answer (λ r. r) new_id
        (submit_checked submit (check_create parent_inode_id name db)
          (create_operation directory new_id parent_inode_id name mode uid gid) db)

  abbrev pub remove_operation : Bytes → Bytes → MetadataOperation
  remove_operation parent_inode_id name = record (blank op_remove) {
    parent_id = parent_inode_id;
    name = name;
  }

  unfoldable pub remove : Submit → Bytes → Bytes → Metadata b → Option MetaError × Metadata b
  remove submit parent_inode_id name db =
      submit_checked submit (failure (lookup_name b parent_inode_id name db))
        (remove_operation parent_inode_id name) db

  abbrev pub require_empty : Bool → Result (Unit {0})
  require_empty true = ok tt
  require_empty false = err not_empty

  unfoldable pub check_rmdir : Bytes → Bytes → Metadata b → Result (Unit {0})
  check_rmdir parent_inode_id name db = do
    child_id ← lookup_name b parent_inode_id name db
    child ← get_inode b child_id db
    dir ← require_directory child
    is_empty ← directory_is_empty b child_id db
    require_empty is_empty

  unfoldable pub rmdir : Submit → Bytes → Bytes → Metadata b → Option MetaError × Metadata b
  rmdir submit parent_inode_id name db =
      submit_checked submit (failure (check_rmdir parent_inode_id name db))
        (remove_operation parent_inode_id name) db

  unfoldable pub check_rename : Bytes → Bytes → Bytes → Metadata b → Result Inode
  check_rename src_parent_id src_name dst_parent_id db = do
    child_id ← lookup_name b src_parent_id src_name db
    dst_parent ← get_inode b dst_parent_id db
    require_directory dst_parent

  unfoldable pub rename :
      Submit → Bytes → Bytes → Bytes → Bytes → Metadata b → Option MetaError × Metadata b
  rename submit src_parent_id src_name dst_parent_id dst_name db =
      submit_checked submit (failure (check_rename src_parent_id src_name dst_parent_id db))
        (record (blank op_rename) {
          parent_id = src_parent_id;
          name = src_name;
          dst_parent_id = dst_parent_id;
          dst_name = dst_name;
        })
        db

  abbrev pub answer_attributes :
      Bytes → Option MetaError × Metadata b → Result Attributes × Metadata b
  answer_attributes inode_id (some e, db) = (err e, db)
  answer_attributes inode_id (none, db) = (get_attributes b inode_id db, db)

  unfoldable pub set_attributes :
      Submit
      → Bytes
      → Option ℕ
      → Option ℕ
      → Option ℕ
      → Option ℕ
      → Option ℕ
      → Metadata b
      → Result Attributes × Metadata b
  set_attributes submit inode_id mode uid gid atime mtime db = answer_attributes inode_id (
      submit_checked submit (failure (get_attributes b inode_id db))
        (record (blank op_set_attr) {
          inode_id = inode_id;
          set_mode = mode;
          set_uid = uid;
          set_gid = gid;
          set_atime = atime;
          set_mtime = mtime;
        })
        db)

  unfoldable pub update_inode :
      Submit
      → Bytes
      → ℕ
      → Option (List ChunkDescriptor)
      → ℕ
      → Metadata b
      → Option MetaError × Metadata b
  update_inode submit inode_id new_size new_chunk_list mtime db =
      submit_checked submit (failure (get_inode b inode_id db))
        (record (blank op_update_inode) {
          inode_id = inode_id;
          new_size = some new_size;
          new_chunk_list = new_chunk_list;
          set_mtime = some mtime;
        })
        db

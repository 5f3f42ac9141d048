-- ===== src/Metadata/Types.antt =====
-- The metadata of internal/metadata_service (types.go, ops.go), topology/contract/types.go and the
-- envelopes of internal/metadata_replicator/raft_replicator/types.go. Times are nanoseconds.
use sandstore.Base.{ℕ, ℤ, ◌≡◌, refl, Option, some, List, arith}
use sandstore.Metadata.Bytes.{Bytes}

pub data InodeType : Type 0 where
  file directory : InodeType

pub record Location : Type 0 where
  pub logical_node_alias : Bytes
  pub physical_endpoint : Bytes

pub record ChunkDescriptor : Type 0 where
  pub chunk_id : Bytes
  pub locations : List Location

-- `Children` is not used by this service.
pub record Inode : Type 0 where
  pub inode_id : Bytes
  pub inode_type : InodeType
  pub link_count : ℤ
  pub mode : ℕ
  pub owner_uid : ℕ
  pub owner_gid : ℕ
  pub access_time : ℕ
  pub modify_time : ℕ
  pub change_time : ℕ
  pub file_size : ℕ
  pub version_number : ℕ
  pub chunk_list : List ChunkDescriptor

pub record Attributes : Type 0 where
  pub inode_id : Bytes
  pub inode_type : InodeType
  pub mode : ℕ
  pub size : ℕ
  pub access_time : ℕ
  pub modify_time : ℕ
  pub change_time : ℕ
  pub uid : ℕ
  pub gid : ℕ

pub record DirEntry : Type 0 where
  pub name : Bytes
  pub inode_id : Bytes
  pub inode_type : InodeType

pub record DirEntryPlus : Type 0 where
  pub name : Bytes
  pub inode_id : Bytes
  pub inode_type : InodeType
  pub inode : Attributes

pub record Superblock : Type 0 where
  pub fs_id : Bytes
  pub root_inode_id : Bytes
  pub chunk_size : ℕ
  pub max_filename_size : ℕ
  pub max_file_size : ℕ
  pub created_at : ℕ

pub record FileSystemStats : Type 0 where
  pub total_space : ℕ
  pub used_space : ℕ
  pub total_inodes : ℕ
  pub used_inodes : ℕ
  pub block_size : ℕ

pub record FileSystemInfo : Type 0 where
  pub fs_id : Bytes
  pub max_file_size : ℕ
  pub max_filename_size : ℕ
  pub chunk_size : ℕ

pub data OpType : Type 0 where
  op_create op_remove op_rename op_set_attr op_update_inode : OpType

-- A pointer that may be nil, and a slice that may be nil, is an option.
pub record MetadataOperation : Type 0 where
  pub op_type : OpType
  pub inode_id : Bytes
  pub parent_id : Bytes
  pub name : Bytes
  pub file_type : InodeType
  pub mode : ℕ
  pub uid : ℕ
  pub gid : ℕ
  pub dst_parent_id : Bytes
  pub dst_name : Bytes
  pub set_mode : Option ℕ
  pub set_uid : Option ℕ
  pub set_gid : Option ℕ
  pub set_atime : Option ℕ
  pub set_mtime : Option ℕ
  pub new_size : Option ℕ
  pub new_chunk_list : Option (List ChunkDescriptor)
  pub timestamp : ℕ

-- The states of raft_replicator/types.go and of posix_metadata_service.go, which have the same names.
pub data IntentState : Type 0 where
  unknown prepared committed aborted : IntentState

pub record ChunkIntentOperation : Type 0 where
  pub txn_id : Bytes
  pub chunk_id : Bytes
  pub node_ids : List Bytes
  pub state : IntentState
  pub timestamp : ℕ

-- `RaftCommandEnvelope`, by its payload's type. A nil operation is `none`.
pub data RaftCommandEnvelope : Type 0 where
  posix_meta : Option MetadataOperation → RaftCommandEnvelope
  chunk_intent : Option ChunkIntentOperation → Option MetadataOperation → RaftCommandEnvelope

pub data MetaError : Type 0 where
  not_found not_dir already_exists not_empty permission_denied : MetaError
  bad_inode_id bad_index missing_child missing_operation not_decoded write_failed : MetaError
  not_replicated bad_chunk_key : MetaError

pub data Result {ℓ} (A : Type ℓ) : Type ℓ where
  ok : A → Result A
  err : MetaError → Result A

infixl 5 ◌>>=◌
abbrev pub ◌>>=◌ {ℓ κ} : {A : Type ℓ} {B : Type κ} → Result A → (A → Result B) → Result B
ok a >>= f = f a
err e >>= f = err e

-- `if o == nil { return e }`
abbrev pub present {ℓ} : {A : Type ℓ} → MetaError → Option A → Result A
present e Option.none = err e
present e (Option.some a) = ok a

-- A chain that ends well went well at each step.
pub bind-ok {ℓ κ} :
    {A : Type ℓ} {B : Type κ} (r : Result A) (f : A → Result B) (c : B)
    → (r >>= f) ≡ ok c
    → (a : A) × ((r ≡ ok a) × (f a ≡ ok c))
bind-ok (ok a) f c h = (a, (refl, h))
bind-ok (err e) f c h = absurd (ground arith)

pub present-ok {ℓ} :
    {A : Type ℓ} (e : MetaError) (o : Option A) (a : A) → present e o ≡ ok a → o ≡ some a
present-ok e Option.none a h = absurd (ground arith)
present-ok e (Option.some x) a h = ground arith

pub ok-injective {ℓ} : {A : Type ℓ} (a c : A) → Result.ok a ≡ ok c → a ≡ c
ok-injective a c h = ground arith

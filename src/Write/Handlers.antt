-- ===== src/Write/Handlers.antt =====
-- What the orchestrators pass on: the operations on names of internal/orchestrators/control_plane.go to
-- the metadata service, and the handlers of internal/orchestrators/raft_data_plane.go to the chunk
-- service.
use sandstore.Base.{ℕ, String, Bool, Option, List}
use sandstore.Chunk.{
  Bytes as Content, IntentState, ChunkError, ChunkService, PrepareCalls, ReadCalls, ReadResult,
  prepare_chunk, commit_chunk, abort_chunk, read_chunk, delete_chunk_local,
}
use sandstore.Metadata.Bytes.{Bytes}
use sandstore.Metadata.Types.{
  Location, Inode, Attributes, DirEntry, DirEntryPlus, FileSystemStats, FileSystemInfo, MetaError,
  Result,
}
use sandstore.Metadata.Bolt.{Bolt}
use sandstore.Metadata.State.{Metadata}
use sandstore.Metadata.Read
use sandstore.Metadata.Service
use sandstore.Write.ControlPlane.{Notice, tx_abort}

module _ (checksum : Content → String) where
  unfoldable pub handle_prepare_chunk :
      PrepareCalls
      → ℕ
      → String
      → String
      → Content
      → String
      → ChunkService
      → Option ChunkError × ChunkService
  handle_prepare_chunk calls now txn_id chunk_id new_data expected cs =
      prepare_chunk checksum calls now txn_id chunk_id new_data expected cs

unfoldable pub handle_commit_chunk :
    Bool → String → String → ChunkService → Option ChunkError × ChunkService
handle_commit_chunk renames txn_id chunk_id cs = commit_chunk renames txn_id chunk_id cs

unfoldable pub handle_abort_chunk :
    Bool → String → String → ChunkService → Option ChunkError × ChunkService
handle_abort_chunk removes txn_id chunk_id cs = abort_chunk removes txn_id chunk_id cs

unfoldable pub handle_read_chunk :
    ReadCalls
    → ℕ
    → Option (String → Option IntentState)
    → String
    → ChunkService
    → ReadResult × ChunkService
handle_read_chunk calls now intents chunk_id cs = read_chunk calls now intents chunk_id cs

unfoldable pub handle_delete_chunk : Bool → String → ChunkService → Option ChunkError × ChunkService
handle_delete_chunk removes chunk_id cs = delete_chunk_local removes chunk_id cs

-- `AbortFileWrite`
unfoldable pub abort_file_write : Bytes → Bytes → List Location → List Notice
abort_file_write txn_id chunk_id targets = tx_abort txn_id chunk_id targets

module _ (b : Bolt) where
  unfoldable pub get_attr : Bytes → Metadata b → Result Attributes
  get_attr inode_id db = Read.get_attributes b inode_id db

  unfoldable pub set_attr :
      Service.Submit b
      → Bytes
      → Option ℕ
      → Option ℕ
      → Option ℕ
      → Option ℕ
      → Option ℕ
      → Metadata b
      → Result Attributes × Metadata b
  set_attr submit inode_id mode uid gid atime mtime db =
      Service.set_attributes b submit inode_id mode uid gid atime mtime db

  unfoldable pub lookup_path : Bytes → Metadata b → Result Bytes
  lookup_path path db = Read.lookup_path b path db

  unfoldable pub lookup_entry : Bytes → Bytes → Metadata b → Result Bytes
  lookup_entry parent_inode_id name db = Read.lookup_name b parent_inode_id name db

  unfoldable pub access : Bytes → ℕ → ℕ → ℕ → Metadata b → Result (Unit {0})
  access inode_id uid gid access_mask db = Read.access b inode_id uid gid access_mask db

  unfoldable pub create :
      Service.Submit b → Bytes → Bytes → Bytes → ℕ → ℕ → ℕ → Metadata b → Result Inode × Metadata b
  create submit new_id parent_inode_id name mode uid gid db =
      Service.create b submit new_id parent_inode_id name mode uid gid db

  unfoldable pub mkdir :
      Service.Submit b → Bytes → Bytes → Bytes → ℕ → ℕ → ℕ → Metadata b → Result Inode × Metadata b
  mkdir submit new_id parent_inode_id name mode uid gid db =
      Service.mkdir b submit new_id parent_inode_id name mode uid gid db

  unfoldable pub remove :
      Service.Submit b → Bytes → Bytes → Metadata b → Option MetaError × Metadata b
  remove submit parent_inode_id name db = Service.remove b submit parent_inode_id name db

  unfoldable pub rmdir :
      Service.Submit b → Bytes → Bytes → Metadata b → Option MetaError × Metadata b
  rmdir submit parent_inode_id name db = Service.rmdir b submit parent_inode_id name db

  unfoldable pub rename :
      Service.Submit b → Bytes → Bytes → Bytes → Bytes → Metadata b → Option MetaError × Metadata b
  rename submit src_parent_id src_name dst_parent_id dst_name db =
      Service.rename b submit src_parent_id src_name dst_parent_id dst_name db

  unfoldable pub read_dir : Bytes → ℕ → ℕ → Metadata b → Result (List DirEntry × ℕ × Bool)
  read_dir inode_id cookie max_entries db = Read.read_dir b inode_id cookie max_entries db

  unfoldable pub read_dir_plus : Bytes → ℕ → ℕ → Metadata b → Result (List DirEntryPlus × ℕ × Bool)
  read_dir_plus inode_id cookie max_entries db = Read.read_dir_plus b inode_id cookie max_entries db

  unfoldable pub get_fs_stat : Metadata b → Result FileSystemStats
  get_fs_stat db = Read.get_fs_stat b db

  unfoldable pub get_fs_info : Metadata b → Result FileSystemInfo
  get_fs_info db = Read.get_fs_info b db

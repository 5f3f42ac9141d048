-- ===== src/Metadata/State.antt =====
-- The buckets of the bbolt database, and the helpers that read and write them, of
-- internal/metadata_service/bolt/bolt_metadata_service.go. The bucket of the superblock and that of
-- the state hold one key each.
use sandstore.Base.{
  ℕ, zero, suc, ◌+◌, ◌%◌, Bool, true, false, Option, none, some, List, [], ◌∷◌, if◌then◌else◌, ◌==◌,
  nat_eq, length,
}
use sandstore.Metadata.Bytes.{Bytes, bytes_eq, little_endian, big_endian_from, uint64_size}
use sandstore.Metadata.Keys.{encode_chunk_map_key, drop}
use sandstore.Metadata.Types.{
  InodeType, file, directory, Inode, ChunkDescriptor, Superblock, ChunkIntentOperation, MetaError,
  not_found, bad_index, bad_chunk_key, write_failed, Result, ok, err, ◌>>=◌, present,
}
use sandstore.Metadata.Bolt.{Bolt}

pub record Metadata (b : Bolt) : Type 0 where
  pub inodes : b.Bucket Inode
  pub dentries : b.Bucket Bytes
  pub chunk_map : b.Bucket ChunkDescriptor
  pub chunk_placements : b.Bucket (List Bytes)
  pub chunk_intents : b.Bucket ChunkIntentOperation
  pub superblock : Option Superblock
  pub consistent_index : Option Bytes

abbrev pub is_directory : InodeType → Bool
is_directory directory = true
is_directory file = false

-- `storableInode`: the chunk list has a bucket of its own.
abbrev pub storable_inode : Inode → Inode
storable_inode inode = record inode { chunk_list = [] }

unfoldable pub decode_index : Option Bytes → Result ℕ
decode_index none = ok 0
decode_index (some index_bytes) =
    if length index_bytes == 8 then ok (little_endian index_bytes) else err bad_index

abbrev pub empty_chunk : ChunkDescriptor
empty_chunk = record { chunk_id = []; locations = [] }

-- `for len(list) <= index { list = append(list, empty) }; list[index] = chunk`
unfoldable pub set_chunk : ℕ → ChunkDescriptor → List ChunkDescriptor → List ChunkDescriptor
set_chunk zero chunk [] = chunk ∷ []
set_chunk zero chunk (_ ∷ chunks) = chunk ∷ chunks
set_chunk (suc index) chunk [] = empty_chunk ∷ set_chunk index chunk []
set_chunk (suc index) chunk (c ∷ chunks) = c ∷ set_chunk index chunk chunks

-- The loop of `loadChunkList` over the keys of an inode.
unfoldable pub collect_chunks :
    ℕ → List (Bytes × ChunkDescriptor) → List ChunkDescriptor → Result (List ChunkDescriptor)
collect_chunks key_size [] chunks = ok chunks
collect_chunks key_size ((key, chunk) ∷ rest) chunks =
    let more =
      collect_chunks key_size rest
        (set_chunk (big_endian_from 0 (drop key_size key)) chunk chunks) in
    if length key == key_size + 8 then more else err bad_chunk_key

module _ (b : Bolt) where
  open b use {Bucket, get, put, delete, scan}

  unfoldable pub next_consistent_index : Metadata b → Result ℕ
  next_consistent_index db =
      decode_index db.consistent_index >>= λ current. ok ((current + 1) % uint64_size)

  unfoldable pub load_stored_inode : Bytes → Metadata b → Result Inode
  load_stored_inode inode_key db = present not_found (get inode_key db.inodes)

  unfoldable pub load_superblock : Metadata b → Result Superblock
  load_superblock db = present not_found db.superblock

  -- `db.Update`: an error of the function or of a write rolls everything back.
  unfoldable pub update : Bool → Result (Metadata b) → Metadata b → Option MetaError × Metadata b
  update commits (err e) db = (some e, db)
  update commits (ok db') db = if commits then (none, db') else (some write_failed, db)

  -- The keys of a scan are deleted.
  unfoldable pub delete_scanned :
      List (Bytes × ChunkDescriptor) → Bucket ChunkDescriptor → Bucket ChunkDescriptor
  delete_scanned [] chunk_map = chunk_map
  delete_scanned ((key, _) ∷ rest) chunk_map = delete_scanned rest (delete key chunk_map)

  unfoldable pub delete_chunk_list : Bytes → Bucket ChunkDescriptor → Bucket ChunkDescriptor
  unfolding delete_scanned
  delete_chunk_list inode_key chunk_map = delete_scanned (scan inode_key chunk_map) chunk_map

  -- The loop over the new list, from an index on.
  unfoldable pub put_chunks :
      Bytes → ℕ → List ChunkDescriptor → Bucket ChunkDescriptor → Bucket ChunkDescriptor
  put_chunks inode_key index [] chunk_map = chunk_map
  put_chunks inode_key index (chunk ∷ chunks) chunk_map =
      put_chunks inode_key (index + 1) chunks
        (put (encode_chunk_map_key inode_key index) chunk chunk_map)

  unfoldable pub replace_chunk_list :
      Bytes → List ChunkDescriptor → Bucket ChunkDescriptor → Bucket ChunkDescriptor
  unfolding put_chunks delete_chunk_list
  replace_chunk_list inode_key chunks chunk_map =
      put_chunks inode_key 0 chunks (delete_chunk_list inode_key chunk_map)

  unfoldable pub load_chunk_list : Bytes → Metadata b → Result (List ChunkDescriptor)
  unfolding collect_chunks
  load_chunk_list inode_key db = collect_chunks (length inode_key) (scan inode_key db.chunk_map) []

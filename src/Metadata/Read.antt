-- ===== src/Metadata/Read.antt =====
-- The reading operations of internal/metadata_service/bolt/bolt_metadata_service.go. Contexts are
-- live, and a cookie or a number of entries that is not positive is 0.
use Prim.Native.Nat.{bit_and}
use sandstore.Base.{
  ℕ, zero, suc, ◌+◌, ◌-◌, ◌/◌, Bool, true, false, ◌&&◌, ◌||◌, none, some, List, [], ◌∷◌,
  if◌then◌else◌, ◌==◌, nat_eq, length, ltb, leb,
}
use sandstore.Metadata.Bytes.{Bytes, bytes_eq}
use sandstore.Metadata.Keys.{encode_inode_key, decode_inode_id, encode_dentry_key, drop}
use sandstore.Metadata.Types.{
  Inode, Attributes, DirEntry, DirEntryPlus, FileSystemStats, FileSystemInfo, IntentState, unknown,
  not_found, not_dir, missing_child, permission_denied, Result, ok, err, ◌>>=◌, present,
}
use sandstore.Metadata.Bolt.{Bolt}
use sandstore.Metadata.State.{
  Metadata, is_directory, load_stored_inode, load_superblock, load_chunk_list,
}

abbrev pub attributes : Inode → Attributes
attributes inode = record {
  inode_id = inode.inode_id;
  inode_type = inode.inode_type;
  mode = inode.mode;
  size = inode.file_size;
  access_time = inode.access_time;
  modify_time = inode.modify_time;
  change_time = inode.change_time;
  uid = inode.owner_uid;
  gid = inode.owner_gid;
}

abbrev pub require_directory : Inode → Result Inode
require_directory inode = if is_directory inode.inode_type then ok inode else err not_dir

module _ {ℓ} {A : Type ℓ} where
  -- `entries[cookie:end]`
  unfoldable pub slice : ℕ → ℕ → List A → List A
  slice start count [] = []
  slice (suc start) count (x ∷ xs) = slice start count xs
  slice zero zero (x ∷ xs) = []
  slice zero (suc count) (x ∷ xs) = x ∷ slice zero count xs

  -- The page from a cookie, the cookie after it, and whether the listing ends there.
  unfoldable pub page : List A → ℕ → ℕ → List A × ℕ × Bool
  page entries cookie max_entries =
      let count = length entries in
      let wanted = if max_entries == 0 then count - cookie else max_entries in
      let end = if ltb count (cookie + wanted) then count else cookie + wanted in
      if leb count cookie
      then ([], cookie, true)
      else (slice cookie (end - cookie) entries, end, end == count)

-- `strings.Trim(path, "/")` and `strings.Split(s, "/")`
unfoldable pub trim_left : Bytes → Bytes
trim_left [] = []
trim_left (c ∷ cs) = let rest = trim_left cs in if c == b'/' then rest else c ∷ cs

unfoldable pub trim_right : Bytes → Bytes
trim_right [] = []
trim_right (c ∷ cs) =
    let rest = trim_right cs in if (c == b'/') && (length rest == 0) then [] else c ∷ rest

-- The parts of what is left, behind the reversed start of the first one.
abbrev pub add_first : ℕ → List Bytes → List Bytes
add_first c [] = (c ∷ []) ∷ []
add_first c (part ∷ parts) = (c ∷ part) ∷ parts

unfoldable pub split : Bytes → List Bytes
split [] = [] ∷ []
split (c ∷ cs) = let rest = split cs in if c == b'/' then [] ∷ rest else add_first c rest

abbrev pub is_skipped : Bytes → Bool
is_skipped part = (part == []) || (part == (b'.' ∷ []))

module _ (b : Bolt) where
  open b use {Bucket, get, scan, key_n}

  unfoldable pub lookup_name : Bytes → Bytes → Metadata b → Result Bytes
  lookup_name parent_inode_id name db = do
    parent_key ← encode_inode_key parent_inode_id
    parent ← load_stored_inode b parent_key db
    dir ← require_directory parent
    child_key ← present not_found (get (encode_dentry_key parent_key name) db.dentries)
    decode_inode_id child_key

  unfoldable pub get_attributes : Bytes → Metadata b → Result Attributes
  get_attributes inode_id db = do
    inode_key ← encode_inode_key inode_id
    inode ← load_stored_inode b inode_key db
    ok (attributes inode)

  unfoldable pub get_inode : Bytes → Metadata b → Result Inode
  get_inode inode_id db = do
    inode_key ← encode_inode_key inode_id
    inode ← load_stored_inode b inode_key db
    chunks ← load_chunk_list b inode_key db
    ok (record inode { chunk_list = chunks })

  unfoldable pub get_fs_stat : Metadata b → Result FileSystemStats
  get_fs_stat db = do
    superblock ← load_superblock b db
    ok (record {
      total_space = superblock.max_file_size;
      used_space = 0;
      total_inodes = superblock.max_file_size;
      used_inodes = key_n db.inodes;
      block_size = superblock.chunk_size;
    })

  unfoldable pub get_fs_info : Metadata b → Result FileSystemInfo
  get_fs_info db = do
    superblock ← load_superblock b db
    ok (record {
      fs_id = superblock.fs_id;
      max_file_size = superblock.max_file_size;
      max_filename_size = superblock.max_filename_size;
      chunk_size = superblock.chunk_size;
    })

  -- The loop of `ReadDir` over the dentries of a directory.
  unfoldable pub collect_entries : ℕ → List (Bytes × Bytes) → Metadata b → Result (List DirEntry)
  collect_entries prefix_size [] db = ok []
  collect_entries prefix_size ((key, child_key) ∷ rest) db =
      let more = collect_entries prefix_size rest db in
      elim (get child_key db.inodes) [
        | none ↦ err missing_child
        | some child ↦ more >>= λ entries. ok (
            record {
              name = drop prefix_size key;
              inode_id = child.inode_id;
              inode_type = child.inode_type;
            }
            ∷ entries)
      ]

  unfoldable pub all_entries : Bytes → Metadata b → Result (List DirEntry)
  all_entries inode_id db = do
    parent_key ← encode_inode_key inode_id
    parent ← load_stored_inode b parent_key db
    dir ← require_directory parent
    collect_entries (length parent_key) (scan parent_key db.dentries) db

  unfoldable pub read_dir : Bytes → ℕ → ℕ → Metadata b → Result (List DirEntry × ℕ × Bool)
  unfolding all_entries
  read_dir inode_id cookie max_entries db =
      all_entries inode_id db >>= λ entries. ok (page entries cookie max_entries)

  unfoldable pub add_attributes : List DirEntry → Metadata b → Result (List DirEntryPlus)
  add_attributes [] db = ok []
  add_attributes (entry ∷ entries) db =
      let more = add_attributes entries db in
      get_attributes entry.inode_id db >>= λ attrs. more >>= λ plus. ok (
        record {
          name = entry.name;
          inode_id = entry.inode_id;
          inode_type = entry.inode_type;
          inode = attrs;
        }
        ∷ plus)

  unfoldable pub read_dir_plus : Bytes → ℕ → ℕ → Metadata b → Result (List DirEntryPlus × ℕ × Bool)
  read_dir_plus inode_id cookie max_entries db = do
    (entries, next_cookie, eof) ← read_dir inode_id cookie max_entries db
    plus ← add_attributes entries db
    ok (plus, next_cookie, eof)

  -- One part of a path.
  unfoldable pub step_into : Bytes → Bytes → Metadata b → Result Bytes
  step_into current_id part db = do
    current_key ← encode_inode_key current_id
    inode ← load_stored_inode b current_key db
    dir ← require_directory inode
    child_key ← present not_found (get (encode_dentry_key current_key part) db.dentries)
    decode_inode_id child_key

  unfoldable pub walk : Bytes → List Bytes → Metadata b → Result Bytes
  walk current_id [] db = ok current_id
  walk current_id (part ∷ parts) db = elim (is_skipped part) [
    | true ↦ walk current_id parts db
    | false ↦ step_into current_id part db >>= λ child_id. walk child_id parts db
  ]

  unfoldable pub lookup_path : Bytes → Metadata b → Result Bytes
  unfolding walk
  lookup_path path db = do
    superblock ← load_superblock b db
    walk superblock.root_inode_id
        (if path == (b'/' ∷ []) then [] else split (trim_right (trim_left path))) db

  -- The permission bits that apply to a user.
  unfoldable pub granted_bits : ℕ → ℕ → Inode → ℕ
  granted_bits uid gid inode =
      if uid == inode.owner_uid
      then bit_and (inode.mode / 64) 7
      else if gid == inode.owner_gid
      then bit_and (inode.mode / 8) 7
      else bit_and inode.mode 7

  unfoldable pub check_access : ℕ → ℕ → ℕ → Inode → Result (Unit {0})
  check_access uid gid access_mask inode =
      if uid == 0
      then ok tt
      else if bit_and (granted_bits uid gid inode) access_mask == access_mask
      then ok tt
      else err permission_denied

  unfoldable pub access : Bytes → ℕ → ℕ → ℕ → Metadata b → Result (Unit {0})
  access inode_id uid gid access_mask db =
      get_inode inode_id db >>= λ inode. check_access uid gid access_mask inode

  unfoldable pub get_chunk_placement : Bytes → Metadata b → Result (List Bytes)
  get_chunk_placement chunk_id db = present not_found (get chunk_id db.chunk_placements)

  unfoldable pub get_intent_state : Bytes → Metadata b → IntentState
  get_intent_state txn_id db = elim (get txn_id db.chunk_intents) [
    | none ↦ unknown
    | some intent ↦ intent.state
  ]

  unfoldable pub directory_is_empty : Bytes → Metadata b → Result Bool
  directory_is_empty inode_id db = do
    inode_key ← encode_inode_key inode_id
    inode ← load_stored_inode b inode_key db
    dir ← require_directory inode
    ok (length (scan inode_key db.dentries) == 0)

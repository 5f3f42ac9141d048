-- ===== src/Chunk.antt =====
-- `LocalDiscChunkService` of
-- internal/chunk_service/local_disc/local_disc_posix_chunk_service.go. A file's name is its parts:
-- the chunk's identifier for a final file, `<chunk>_<txn>.tmp` for a temporary one. `Start`
-- reads the names on disk (Chunk/Paths). SHA-256, the metadata service, the clock and the outcome
-- of each file operation are arguments.
pub mod Paths
pub mod Index
pub mod Finish
pub mod RoundTrip
pub mod Finals
pub mod Recovery
pub mod Tests
use sandstore.Base.{
  ℕ, String, ◌-◌, Bool, true, false, not, ◌&&◌, ◌||◌, Option, none, some, List, [], ◌∷◌, ltb,
  length, if◌then◌else◌, ◌==◌, nat_eq, string_eq, Dict, lookup, insert, erase,
}
use sandstore.Chunk.Paths.{File, final, temp, file_eq, file_name, parse_temp}

abbrev pub Bytes : Type 0
Bytes = List ℕ

pub data ChunkError : Type 0 where
  file_failed transaction_not_found txn_mismatch chunk_not_found : ChunkError
  no_metadata_service intent_failed aborted_or_expired locked : ChunkError

pub data IntentState : Type 0 where
  unknown prepared committed aborted : IntentState

pub record PreparedIndexEntry : Type 0 where
  pub txn_id : String
  pub chunk_id : String
  pub temp_file : File
  pub created_at : ℕ

pub record ChunkService : Type 0 where
  pub files : Dict File Bytes
  pub prepared_index : Dict String PreparedIndexEntry

-- `preparedEntryTTL`, in nanoseconds.
abbrev pub prepared_entry_ttl : ℕ
prepared_entry_ttl = 600_000_000_000

-- The outcomes of the reads and writes of `PrepareChunk`, and what a failing write leaves.
pub record PrepareCalls : Type 0 where
  pub read : Bool
  pub open_file : Bool
  pub write : Bool
  pub sync : Bool
  pub partial : Bytes

unfoldable pub add_to_prepared_index : ℕ → String → String → ChunkService → ChunkService
add_to_prepared_index now txn_id chunk_id cs = record cs {
  prepared_index =
      insert chunk_id
        (record {
          txn_id = txn_id;
          chunk_id = chunk_id;
          temp_file = temp chunk_id txn_id;
          created_at = now;
        })
        cs.prepared_index;
}

unfoldable pub remove_from_prepared_index : String → ChunkService → ChunkService
remove_from_prepared_index chunk_id cs = record cs {
  prepared_index = erase chunk_id cs.prepared_index;
}

-- What `Start` does with a file, by what it reads from the file's name.
unfoldable pub index_file : ℕ → File → Option (String × String) → ChunkService → ChunkService
index_file now file none cs = cs
index_file now file (some (chunk_id, txn_id)) cs = record cs {
  prepared_index =
      insert chunk_id
        (record { txn_id = txn_id; chunk_id = chunk_id; temp_file = file; created_at = now })
        cs.prepared_index;
}

-- The loop of `Start` over the directory.
unfoldable pub index_files : ℕ → Dict File Bytes → ChunkService → ChunkService
index_files now [] cs = cs
index_files now ((file, _) ∷ entries) cs =
    index_files now entries (index_file now file (parse_temp (file_name file)) cs)

unfoldable pub start_service : Bool → ℕ → ChunkService → Option ChunkError × ChunkService
start_service readable now cs =
    if readable then (none, index_files now cs.files cs) else (some file_failed, cs)

-- What follows the early return of `PrepareChunk`.
unfoldable pub write_temp :
    PrepareCalls → ℕ → String → String → Bytes → ChunkService → Option ChunkError × ChunkService
write_temp calls now txn_id chunk_id content cs =
    let path = temp chunk_id txn_id in
    let written = record cs { files = insert path content cs.files } in
    if not calls.open_file
    then (some file_failed, cs)
    else if not calls.write
    then (some file_failed, record cs { files = insert path calls.partial cs.files })
    else if not calls.sync
    then (some file_failed, written)
    else (none, add_to_prepared_index now txn_id chunk_id written)

module _ (checksum : Bytes → String) where
  -- The temporary file can be read and has the length and the checksum that are expected.
  unfoldable pub already_prepared : Bool → Bytes → String → Option Bytes → Bool
  already_prepared readable content expected_checksum none = false
  already_prepared readable content expected_checksum (some existing) =
      readable && ((length existing == length content) && (checksum existing == expected_checksum))

  unfoldable pub prepare_chunk :
      PrepareCalls
      → ℕ
      → String
      → String
      → Bytes
      → String
      → ChunkService
      → Option ChunkError × ChunkService
  prepare_chunk calls now txn_id chunk_id content expected_checksum cs =
      if already_prepared calls.read content expected_checksum
        (lookup (temp chunk_id txn_id) cs.files)
      then (none, add_to_prepared_index now txn_id chunk_id cs)
      else write_temp calls now txn_id chunk_id content cs

-- `os.Rename`, which fails without a source.
unfoldable pub rename : Bool → File → File → ChunkService → Option ChunkService
rename succeeds old new cs = elim (lookup old cs.files) [
  | none ↦ none
  | some content ↦
      if succeeds
      then some (record cs { files = insert new content (erase old cs.files) })
      else none
]

-- `os.Remove`, where a file that does not exist is no error.
unfoldable pub remove : Bool → File → ChunkService → Option ChunkService
remove succeeds path cs = elim (lookup path cs.files) [
  | none ↦ some cs
  | some _ ↦ if succeeds then some (record cs { files = erase path cs.files }) else none
]

unfoldable pub exists_file : File → ChunkService → Bool
exists_file path cs = elim (lookup path cs.files) [ none ↦ false | some _ ↦ true ]

-- The end of a commit or an abort: the entry goes if the file operation succeeded.
unfoldable pub forget :
    String → Option ChunkService → ChunkService → Option ChunkError × ChunkService
forget chunk_id none cs = (some file_failed, cs)
forget chunk_id (some done) cs = (none, remove_from_prepared_index chunk_id done)

unfoldable pub commit_chunk :
    Bool → String → String → ChunkService → Option ChunkError × ChunkService
commit_chunk renames txn_id chunk_id cs = elim (lookup chunk_id cs.prepared_index) [
  | none ↦ (if exists_file (final chunk_id) cs then none else some transaction_not_found, cs)
  | some entry ↦
      if entry.txn_id == txn_id
      then forget chunk_id (rename renames entry.temp_file (final chunk_id) cs) cs
      else (some txn_mismatch, cs)
]

unfoldable pub abort_chunk :
    Bool → String → String → ChunkService → Option ChunkError × ChunkService
abort_chunk removes txn_id chunk_id cs = elim (lookup chunk_id cs.prepared_index) [
  | none ↦ (none, cs)
  | some entry ↦
      if entry.txn_id == txn_id
      then forget chunk_id (remove removes entry.temp_file cs) cs
      else (some txn_mismatch, cs)
]

-- A result of `ReadChunk`.
pub data ReadResult : Type 0 where
  content : Bytes → ReadResult
  failed : ChunkError → ReadResult

unfoldable pub read_file : Bool → File → ChunkService → ReadResult
read_file readable path cs = elim (lookup path cs.files) [
  | none ↦ failed file_failed
  | some bytes ↦ if readable then content bytes else failed file_failed
]

-- The first reading of the final file, the renaming or removal, and the reading after it.
pub record ReadCalls : Type 0 where
  pub first : Bool
  pub move : Bool
  pub second : Bool

-- A read of a chunk whose transaction is committed.
unfoldable pub finish_read :
    Bool → String → Option ChunkService → ChunkService → ReadResult × ChunkService
finish_read readable chunk_id none cs = (failed file_failed, cs)
finish_read readable chunk_id (some moved) cs =
    let forgotten = remove_from_prepared_index chunk_id moved in
    (read_file readable (final chunk_id) forgotten, forgotten)

unfoldable pub expired : ℕ → ℕ → Bool
expired now created_at = ltb prepared_entry_ttl (now - created_at)

unfoldable pub drop_prepared : Bool → PreparedIndexEntry → String → ChunkService → ChunkService
drop_prepared removes entry chunk_id cs = elim (remove removes entry.temp_file cs) [
  | none ↦ remove_from_prepared_index chunk_id cs
  | some removed ↦ remove_from_prepared_index chunk_id removed
]

-- A read of a chunk that is only prepared, by the state of its transaction.
unfoldable pub read_prepared :
    ReadCalls
    → ℕ
    → IntentState
    → PreparedIndexEntry
    → String
    → ChunkService
    → ReadResult × ChunkService
read_prepared calls now committed entry chunk_id cs =
    finish_read calls.second chunk_id
      (if exists_file (final chunk_id) cs
        then some cs
        else rename calls.move entry.temp_file (final chunk_id) cs)
      cs
read_prepared calls now aborted entry chunk_id cs =
    (failed aborted_or_expired, drop_prepared calls.move entry chunk_id cs)
read_prepared calls now prepared entry chunk_id cs = (failed locked, cs)
read_prepared calls now unknown entry chunk_id cs =
    if expired now entry.created_at
    then (failed aborted_or_expired, drop_prepared calls.move entry chunk_id cs)
    else (failed locked, cs)

-- `intents` is the metadata service, if there is one, and `none` of a transaction is its error.
unfoldable pub read_unfinished :
    ReadCalls
    → ℕ
    → Option (String → Option IntentState)
    → Option PreparedIndexEntry
    → String
    → ChunkService
    → ReadResult × ChunkService
read_unfinished calls now intents none chunk_id cs = (failed chunk_not_found, cs)
read_unfinished calls now none (some entry) chunk_id cs = (failed no_metadata_service, cs)
read_unfinished calls now (some state_of) (some entry) chunk_id cs = elim (state_of entry.txn_id) [
  | none ↦ (failed intent_failed, cs)
  | some state ↦ read_prepared calls now state entry chunk_id cs
]

unfoldable pub read_chunk :
    ReadCalls
    → ℕ
    → Option (String → Option IntentState)
    → String
    → ChunkService
    → ReadResult × ChunkService
read_chunk calls now intents chunk_id cs = elim (read_file calls.first (final chunk_id) cs) [
  | content bytes ↦ (content bytes, cs)
  | failed _ ↦ read_unfinished calls now intents (lookup chunk_id cs.prepared_index) chunk_id cs
]

unfoldable pub delete_chunk_local : Bool → String → ChunkService → Option ChunkError × ChunkService
delete_chunk_local removes chunk_id cs = elim (remove removes (final chunk_id) cs) [
  | none ↦ (some file_failed, cs)
  | some removed ↦ (none, removed)
]

-- ===== src/Chunk/RoundTrip.antt =====
-- A chunk from its preparation to the reads that follow.
use sandstore.Base.{
  ℕ, String, ◌≡◌, refl, ◌∙◌, Bool, true, false, Option, none, some, arith, ◌==◌, nat_eq, string_eq,
  str_eq_iff, lookup, insert, erase, lookup-insert,
}
use sandstore.Chunk.Paths.{File, final, file_eq, same_file_iff}
use sandstore.Chunk.{
  Bytes, IntentState, committed, PreparedIndexEntry, ChunkService, PrepareCalls,
  remove_from_prepared_index, prepare_chunk, rename, forget, commit_chunk, ReadCalls, finish_read,
  read_prepared, read_unfinished, read_chunk, read_file, content, exists_file,
}
use sandstore.Chunk.Finish.{Fits, Prepared, prepare_chunk-Prepared, commit_chunk-Prepared}

read_chunk-final :
    (calls : ReadCalls) (now : ℕ) (intents : Option (String → Option IntentState))
    (chunk_id : String) (x : Bytes) (cs : ChunkService)
    → lookup (final chunk_id) cs.files ≡ some x
    → calls.first ≡ true
    → read_chunk calls now intents chunk_id cs ≡ (content x, cs)
unfolding read_chunk read_file
read_chunk-final calls now intents chunk_id x cs stored readable =
    rw (stored, read_chunk) (rw readable refl)

-- A chunk that was prepared and committed without an error is read, whatever the metadata service
-- says: the bytes, or what the temporary file held with their length and the expected checksum;
-- the read changes nothing.
pub read_chunk-commit_chunk-prepare_chunk :
    (checksum : Bytes → String) (calls : PrepareCalls) (reads : ReadCalls) (renames : Bool)
    (now later : ℕ) (intents : Option (String → Option IntentState)) (txn_id chunk_id : String)
    (bytes : Bytes) (expected_checksum : String) (cs ready done : ChunkService)
    → prepare_chunk checksum calls now txn_id chunk_id bytes expected_checksum cs ≡ (none, ready)
    → commit_chunk renames txn_id chunk_id ready ≡ (none, done)
    → reads.first ≡ true
    → (x : Bytes) × Fits checksum bytes expected_checksum x
      × (read_chunk reads later intents chunk_id done ≡ (content x, done))
read_chunk-commit_chunk-prepare_chunk checksum calls reads renames now later intents txn_id chunk_id
      bytes expected_checksum cs ready done first second readable =
    let (x, fits, p) =
      prepare_chunk-Prepared checksum calls now txn_id chunk_id bytes expected_checksum cs
        (rw first refl) in
    let (stored, gone) =
      commit_chunk-Prepared renames txn_id chunk_id x ready (rw first at p) (rw second refl) in
    (x, fits, read_chunk-final reads later intents chunk_id x done (rw second at stored) readable)

exists_file_eq :
    (path : File) (x : Bytes) (cs : ChunkService)
    → lookup path cs.files ≡ some x
    → exists_file path cs ≡ true
unfolding exists_file
exists_file_eq path x cs h = ground arith

missing_file :
    (path : File) (cs : ChunkService) → lookup path cs.files ≡ none → exists_file path cs ≡ false
unfolding exists_file
missing_file path cs h = ground arith

-- A commit that is repeated after a successful commit of a prepared chunk, by any transaction,
-- succeeds and changes nothing.
pub commit_chunk-commit_chunk :
    (renames again : Bool) (txn_id other chunk_id : String) (x : Bytes) (cs done : ChunkService)
    → Prepared txn_id chunk_id x cs
    → commit_chunk renames txn_id chunk_id cs ≡ (none, done)
    → commit_chunk again other chunk_id done ≡ (none, done)
unfolding commit_chunk
commit_chunk-commit_chunk renames again txn_id other chunk_id x cs done p h =
    let (stored, gone) = commit_chunk-Prepared renames txn_id chunk_id x cs p (rw h refl) in
    rw (rw h at gone, commit_chunk) (rw (exists_file_eq _ x done (rw h at stored)) refl)

-- The service after a commit that moves this content.
abbrev finished : File → String → Bytes → ChunkService → ChunkService
finished old chunk_id x cs =
    remove_from_prepared_index chunk_id
      (record cs { files = insert (final chunk_id) x (erase old cs.files) })

rename_eq :
    (succeeds : Bool) (old new : File) (x : Bytes) (cs : ChunkService)
    → lookup old cs.files ≡ some x
    → succeeds ≡ true
    → rename succeeds old new cs ≡ some (record cs { files = insert new x (erase old cs.files) })
unfolding rename
rename_eq succeeds old new x cs stored moves = rw (stored, rename) (rw moves refl)

commit_chunk_eq :
    (txn_id chunk_id : String) (x : Bytes) (cs : ChunkService) (p : Prepared txn_id chunk_id x cs)
    → commit_chunk true txn_id chunk_id cs ≡ (none, finished p.entry.temp_file chunk_id x cs)
unfolding commit_chunk forget
commit_chunk_eq txn_id chunk_id x cs p =
    let same : (p.entry.txn_id == txn_id) ≡ true =
      ground (arith, p.txn, str_eq_iff p.entry.txn_id txn_id) in
    rw (p.found, commit_chunk)
      (rw same (rw (rename_eq true p.entry.temp_file (final chunk_id) x cs p.stored refl) refl))

read_finished :
    (readable : Bool) (old : File) (chunk_id : String) (x : Bytes) (cs : ChunkService)
    → readable ≡ true
    → read_file readable (final chunk_id) (finished old chunk_id x cs) ≡ content x
unfolding read_file remove_from_prepared_index
read_finished readable old chunk_id x cs ok =
    let landed : lookup (final chunk_id) (insert (final chunk_id) x (erase old cs.files)) ≡ some x =
      lookup-insert (final chunk_id) (final chunk_id) x _
      ∙ ground (arith, same_file_iff (final chunk_id) (final chunk_id)) in
    rw (landed, read_file) (rw ok refl)

finish_read_eq :
    (reads : ReadCalls) (now : ℕ) (entry : PreparedIndexEntry) (chunk_id : String) (x : Bytes)
    (cs : ChunkService)
    → lookup (final chunk_id) cs.files ≡ none
    → lookup entry.temp_file cs.files ≡ some x
    → reads.move ≡ true
    → reads.second ≡ true
    → read_prepared reads now committed entry chunk_id cs
      ≡ (content x, finished entry.temp_file chunk_id x cs)
unfolding read_prepared finish_read
finish_read_eq reads now entry chunk_id x cs absent stored moves readable =
    rw (missing_file (final chunk_id) cs absent, read_prepared)
      (rw (rename_eq reads.move entry.temp_file (final chunk_id) x cs stored moves)
        (rw (read_finished reads.second entry.temp_file chunk_id x cs readable) refl))

-- A read of a prepared chunk whose transaction is committed, and which has no final file, is the
-- commit that did not arrive: where the file operations succeed, the content is read and the
-- service is as after CommitChunk.
pub read_chunk-commit_chunk :
    (reads : ReadCalls) (now : ℕ) (state_of : String → Option IntentState)
    (txn_id chunk_id : String) (x : Bytes) (cs : ChunkService)
    → Prepared txn_id chunk_id x cs
    → lookup (final chunk_id) cs.files ≡ none
    → state_of txn_id ≡ some committed
    → reads.move ≡ true
    → reads.second ≡ true
    → read_chunk reads now (some state_of) chunk_id cs
      ≡ (content x, (commit_chunk true txn_id chunk_id cs).1)
unfolding read_chunk read_unfinished read_file
read_chunk-commit_chunk reads now state_of txn_id chunk_id x cs p absent is_committed moves
      readable =
    let ended : state_of p.entry.txn_id ≡ some committed = rw p.txn is_committed in
    rw (commit_chunk_eq txn_id chunk_id x cs p) (
      rw (absent, read_chunk)
        (rw p.found (
          rw ended
            (finish_read_eq reads now p.entry chunk_id x cs absent p.stored moves readable))))

-- ===== src/Chunk/Finish.antt =====
-- What committing and reading do with the content of a prepared chunk.
use sandstore.Base.{
  ℕ, String, ◌≡◌, refl, ◌∙◌, ◌⊎◌, inl, inr, Bool, true, Option, none, some, arith, Bool-cases, ◌==◌,
  nat_eq, string_eq, str_eq_iff, lookup, erase, lookup-insert, lookup-erase, length,
}
use sandstore.Chunk.Paths.{File, final, temp, file_eq, same_file_iff}
use sandstore.Chunk.{
  Bytes, PreparedIndexEntry, ChunkService, PrepareCalls, add_to_prepared_index,
  remove_from_prepared_index, write_temp, already_prepared, prepare_chunk, rename, forget,
  commit_chunk,
}

-- What a successful `PrepareChunk` of these bytes may leave in the temporary file: the bytes, or what
-- was there with their length and the expected checksum.
abbrev pub Fits : (Bytes → String) → Bytes → String → Bytes → Type 0
Fits checksum bytes expected_checksum x =
    (x ≡ bytes) ⊎ ((length x ≡ length bytes) × (checksum x ≡ expected_checksum))

-- The chunk is prepared by the transaction, with this content.
pub record Prepared (txn_id chunk_id : String) (x : Bytes) (cs : ChunkService) : Type 0 where
  pub entry : PreparedIndexEntry
  pub found : lookup chunk_id cs.prepared_index ≡ some entry
  pub txn : entry.txn_id ≡ txn_id
  pub stored : lookup entry.temp_file cs.files ≡ some x

add-Prepared :
    (now : ℕ) (txn_id chunk_id : String) (x : Bytes) (cs : ChunkService)
    → lookup (temp chunk_id txn_id) cs.files ≡ some x
    → Prepared txn_id chunk_id x (add_to_prepared_index now txn_id chunk_id cs)
unfolding add_to_prepared_index
add-Prepared now txn_id chunk_id x cs stored =
    let entry : PreparedIndexEntry = record {
      txn_id = txn_id;
      chunk_id = chunk_id;
      temp_file = temp chunk_id txn_id;
      created_at = now;
    } in
    record {
      entry = entry;
      found = ground (
        arith,
        lookup-insert chunk_id chunk_id entry cs.prepared_index,
        str_eq_iff chunk_id chunk_id,
      );
      txn = refl;
      stored = stored;
    }

module _ (checksum : Bytes → String) (calls : PrepareCalls) (now : ℕ) (txn_id chunk_id : String)
    (bytes : Bytes) (expected_checksum : String) where
  already_prepared-Fits :
      (o : Option Bytes)
      → already_prepared checksum calls.read bytes expected_checksum o ≡ true
      → (x : Bytes) × (o ≡ some x) × Fits checksum bytes expected_checksum x
  unfolding already_prepared
  already_prepared-Fits none h = absurd cc
  already_prepared-Fits (some x) h =
      (x, refl, inr (ground arith, ground (arith, str_eq_iff (checksum x) expected_checksum)))

  write_temp-Prepared :
      (cs : ChunkService)
      → (write_temp calls now txn_id chunk_id bytes cs).0 ≡ none
      → Prepared txn_id chunk_id bytes (write_temp calls now txn_id chunk_id bytes cs).1
  unfolding write_temp
  write_temp-Prepared cs h = elim (Bool-cases calls.open_file) [
    | inr closed ↦ absurd (ground (arith, rw closed at h))
    | inl opened ↦ elim (Bool-cases calls.write) [
      | inr cut ↦ absurd (ground (arith, rw (opened, cut) at h))
      | inl whole ↦ elim (Bool-cases calls.sync) [
        | inr unsynced ↦ absurd (ground (arith, rw (opened, whole, unsynced) at h))
        | inl synced ↦
            rw (opened, whole, synced)
              (add-Prepared now txn_id chunk_id bytes _ (
                ground (
                  arith,
                  lookup-insert (temp chunk_id txn_id) (temp chunk_id txn_id) bytes cs.files,
                  str_eq_iff chunk_id chunk_id,
                  str_eq_iff txn_id txn_id,
                )))
      ]
    ]
  ]

  -- A nil error of PrepareChunk leaves the chunk prepared by the transaction, with the bytes, or
  -- with content of their length and the expected checksum that was there.
  pub prepare_chunk-Prepared :
      (cs : ChunkService)
      → (prepare_chunk checksum calls now txn_id chunk_id bytes expected_checksum cs).0 ≡ none
      → (x : Bytes) × Fits checksum bytes expected_checksum x
        × Prepared txn_id chunk_id x
            (prepare_chunk checksum calls now txn_id chunk_id bytes expected_checksum cs).1
  unfolding prepare_chunk
  prepare_chunk-Prepared cs h =
      elim (Bool-cases (
        already_prepared checksum calls.read bytes expected_checksum
          (lookup (temp chunk_id txn_id) cs.files))) [
            | inl there ↦
                let (x, stored, fits) = already_prepared-Fits _ there in
                (x, fits, rw there (add-Prepared now txn_id chunk_id x cs stored))
            | inr absent ↦ (bytes, inl refl, rw absent (write_temp-Prepared cs (rw absent at h)))
          ]

-- The content of the renamed file is under its new name.
content-rename :
    (succeeds : Bool) (old new : File) (x : Bytes) (cs done : ChunkService)
    → lookup old cs.files ≡ some x
    → rename succeeds old new cs ≡ some done
    → lookup new done.files ≡ some x
unfolding rename
content-rename succeeds old new x cs done stored h =
    ground (arith, lookup-insert new new x (erase old cs.files), same_file_iff new new)

forget-cases :
    (chunk_id : String) (o : Option ChunkService) (cs : ChunkService)
    → (forget chunk_id o cs).0 ≡ none
    → (done : ChunkService) × (o ≡ some done)
      × (forget chunk_id o cs ≡ (none, remove_from_prepared_index chunk_id done))
unfolding forget
forget-cases chunk_id none cs h = absurd cc
forget-cases chunk_id (some done) cs h = (done, refl, refl)

-- A nil error of `CommitChunk` of a prepared chunk puts its content into the final file and takes the
-- chunk off the index.
pub commit_chunk-Prepared :
    (renames : Bool) (txn_id chunk_id : String) (x : Bytes) (cs : ChunkService)
    → Prepared txn_id chunk_id x cs
    → (commit_chunk renames txn_id chunk_id cs).0 ≡ none
    → (lookup (final chunk_id) (commit_chunk renames txn_id chunk_id cs).1.files ≡ some x)
      × (lookup chunk_id (commit_chunk renames txn_id chunk_id cs).1.prepared_index ≡ none)
unfolding commit_chunk remove_from_prepared_index
commit_chunk-Prepared renames txn_id chunk_id x cs p h =
    let same : (p.entry.txn_id == txn_id) ≡ true =
      ground (arith, p.txn, str_eq_iff p.entry.txn_id txn_id) in
    let (done, moved, result) =
      forget-cases chunk_id (rename renames p.entry.temp_file (final chunk_id) cs) cs
        (rw same at (rw (p.found, commit_chunk) at h)) in
    rw (p.found, commit_chunk)
      (rw same (
        rw result (
          content-rename renames p.entry.temp_file (final chunk_id) x cs done p.stored moved,
          lookup-erase chunk_id chunk_id done.prepared_index
              ∙ ground (arith, str_eq_iff chunk_id chunk_id),
        )))

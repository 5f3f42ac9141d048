-- ===== src/Chunk/Finals.antt =====
-- Which final files an operation may change.
use sandstore.Base.{
  ℕ, String, ◌≡◌, refl, ◌∙◌, ◌⊎◌, inl, inr, Bool, Option, some, arith, Bool-cases, Option-cases,
  ◌==◌, nat_eq, string_eq, str_eq_iff, lookup, erase, lookup-insert, lookup-erase,
}
use sandstore.Chunk.Paths.{final, temp, file_eq}
use sandstore.Chunk.{
  Bytes, PreparedIndexEntry, ChunkService, PrepareCalls, add_to_prepared_index,
  remove_from_prepared_index, write_temp, prepare_chunk, already_prepared, rename, remove, forget,
  commit_chunk, abort_chunk,
}
use sandstore.Chunk.Index.{IsIndexed}

-- Every final file holds what it held.
abbrev pub SameFinals : ChunkService → ChunkService → Type 0
SameFinals cs done = (d : String) → lookup (final d) done.files ≡ lookup (final d) cs.files

write_temp-SameFinals :
    (calls : PrepareCalls) (now : ℕ) (txn_id chunk_id : String) (bytes : Bytes) (cs : ChunkService)
    → SameFinals cs (write_temp calls now txn_id chunk_id bytes cs).1
unfolding write_temp add_to_prepared_index
write_temp-SameFinals calls now txn_id chunk_id bytes cs d = ground (
  arith,
  lookup-insert (temp chunk_id txn_id) (final d) bytes cs.files,
  lookup-insert (temp chunk_id txn_id) (final d) calls.partial cs.files,
)

-- PrepareChunk changes no final file, on any outcome.
pub prepare_chunk-SameFinals :
    (checksum : Bytes → String) (calls : PrepareCalls) (now : ℕ) (txn_id chunk_id : String)
    (bytes : Bytes) (expected_checksum : String) (cs : ChunkService)
    → SameFinals cs (prepare_chunk checksum calls now txn_id chunk_id bytes expected_checksum cs).1
unfolding prepare_chunk add_to_prepared_index
prepare_chunk-SameFinals checksum calls now txn_id chunk_id bytes expected_checksum cs d =
    elim (Bool-cases (
      already_prepared checksum calls.read bytes expected_checksum
        (lookup (temp chunk_id txn_id) cs.files))) [
          | inl there ↦ rw there refl
          | inr absent ↦ rw absent (write_temp-SameFinals calls now txn_id chunk_id bytes cs d)
        ]

-- AbortChunk changes no final file, on any outcome, where the index is right.
pub abort_chunk-SameFinals :
    (removes : Bool) (txn_id chunk_id : String) (cs : ChunkService)
    → IsIndexed cs
    → SameFinals cs (abort_chunk removes txn_id chunk_id cs).1
unfolding abort_chunk forget remove remove_from_prepared_index
abort_chunk-SameFinals removes txn_id chunk_id cs v d =
    elim (Option-cases (lookup chunk_id cs.prepared_index)) [
      | inl absent ↦ rw (absent, abort_chunk) refl
      | inr (e, found) ↦
          rw (found, abort_chunk)
            (ground (arith, v.files chunk_id e, lookup-erase e.temp_file (final d) cs.files))
    ]

-- The chunk's prepared content, by the transaction that commits it, becomes its final content.
abbrev pub Publishes : String → String → ChunkService → String → Option Bytes → Type 0
Publishes txn_id chunk_id cs d after =
    (d ≡ chunk_id)
    × ((e : PreparedIndexEntry) × (lookup chunk_id cs.prepared_index ≡ some e)
        × (e.txn_id ≡ txn_id)
        × (after ≡ lookup (temp chunk_id txn_id) cs.files))

forget-rename :
    (renames : Bool) (txn_id chunk_id : String) (cs : ChunkService) (d : String)
    → let done =
        (forget chunk_id (rename renames (temp chunk_id txn_id) (final chunk_id) cs) cs).1 in
      (lookup (final d) done.files ≡ lookup (final d) cs.files)
      ⊎ (d ≡ chunk_id) × (lookup (final d) done.files ≡ lookup (temp chunk_id txn_id) cs.files)
unfolding forget rename remove_from_prepared_index
forget-rename renames txn_id chunk_id cs d =
    elim (Option-cases (lookup (temp chunk_id txn_id) cs.files)) [
      | inl lost ↦ rw (lost, rename) (inl refl)
      | inr (x, stored) ↦ ground (
        arith,
        lookup-insert (final chunk_id) (final d) x (erase (temp chunk_id txn_id) cs.files),
        lookup-erase (temp chunk_id txn_id) (final d) cs.files,
        str_eq_iff d chunk_id,
        str_eq_iff chunk_id d,
      )
    ]

-- Where the index is right, and on any outcome, CommitChunk leaves each final file as it is, or it
-- is the chunk's own and now holds the content that the same transaction prepared.
pub commit_chunk-Publishes :
    (renames : Bool) (txn_id chunk_id : String) (cs : ChunkService) (d : String)
    → IsIndexed cs
    → (lookup (final d) (commit_chunk renames txn_id chunk_id cs).1.files
        ≡ lookup (final d) cs.files)
      ⊎ Publishes txn_id chunk_id cs d
          (lookup (final d) (commit_chunk renames txn_id chunk_id cs).1.files)
unfolding commit_chunk
commit_chunk-Publishes renames txn_id chunk_id cs d v =
    elim (Option-cases (lookup chunk_id cs.prepared_index)) [
      | inl absent ↦ inl (rw (absent, commit_chunk) refl)
      | inr (e, found) ↦ elim (Bool-cases (e.txn_id == txn_id)) [
        | inr other ↦ inl (rw (found, commit_chunk) (rw other refl))
        | inl same ↦
            let owner : e.txn_id ≡ txn_id = ground (arith, str_eq_iff e.txn_id txn_id) in
            let path : e.temp_file ≡ temp chunk_id txn_id =
              v.files chunk_id e found ∙ rw owner refl in
            elim (forget-rename renames txn_id chunk_id cs d) [
              | inl kept ↦ inl (rw (found, commit_chunk) (rw same (rw path kept)))
              | inr (own, moved) ↦
                  inr (own, (e, found, owner, rw (found, commit_chunk) (rw same (rw path moved))))
            ]
      ]
    ]

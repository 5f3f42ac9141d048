-- ===== src/Chunk/Index.antt =====
-- The index of prepared chunks names the temporary file of each entry's transaction.
use sandstore.Base.{
  ℕ, String, ◌≡◌, refl, inl, inr, Bool, Option, none, some, arith, Bool-cases, Option-cases, ◌==◌,
  nat_eq, string_eq, str_eq_iff, lookup, lookup-insert, lookup-erase,
}
use sandstore.Chunk.Paths.{File, temp, file_eq}
use sandstore.Chunk.{
  Bytes, PreparedIndexEntry, ChunkService, PrepareCalls, add_to_prepared_index,
  remove_from_prepared_index, write_temp, already_prepared, prepare_chunk, rename, remove, forget,
  commit_chunk, abort_chunk,
}

-- Each entry stands under its chunk, with the temporary file of its transaction.
pub record IsIndexed (cs : ChunkService) : Type 0 where
  pub chunks :
      (c : String) (e : PreparedIndexEntry) → lookup c cs.prepared_index ≡ some e → e.chunk_id ≡ c
  pub files :
      (c : String) (e : PreparedIndexEntry)
      → lookup c cs.prepared_index ≡ some e
      → e.temp_file ≡ temp c e.txn_id

add-IsIndexed :
    (now : ℕ) (txn_id chunk_id : String) (cs : ChunkService)
    → IsIndexed cs
    → IsIndexed (add_to_prepared_index now txn_id chunk_id cs)
unfolding add_to_prepared_index
add-IsIndexed now txn_id chunk_id cs v = record {
  chunks = λ c e h. ground (
    arith,
    lookup-insert chunk_id c
        (record {
          txn_id = txn_id;
          chunk_id = chunk_id;
          temp_file = temp chunk_id txn_id;
          created_at = now;
        })
        cs.prepared_index,
    str_eq_iff chunk_id c,
    v.chunks c e,
  );
  files = λ c e h. ground (
    arith,
    lookup-insert chunk_id c
        (record {
          txn_id = txn_id;
          chunk_id = chunk_id;
          temp_file = temp chunk_id txn_id;
          created_at = now;
        })
        cs.prepared_index,
    str_eq_iff chunk_id c,
    v.files c e,
  );
}

drop-IsIndexed :
    (chunk_id : String) (cs : ChunkService)
    → IsIndexed cs
    → IsIndexed (remove_from_prepared_index chunk_id cs)
unfolding remove_from_prepared_index
drop-IsIndexed chunk_id cs v = record {
  chunks = λ c e h. ground (arith, lookup-erase chunk_id c cs.prepared_index, v.chunks c e);
  files = λ c e h. ground (arith, lookup-erase chunk_id c cs.prepared_index, v.files c e);
}

-- The index is what it was.
same-IsIndexed :
    (cs done : ChunkService)
    → done.prepared_index ≡ cs.prepared_index
    → IsIndexed cs
    → IsIndexed done
same-IsIndexed cs done same v = record {
  chunks = λ c e h. v.chunks c e (rw same at h);
  files = λ c e h. v.files c e (rw same at h);
}

-- PrepareChunk keeps the index right on every outcome.
pub prepare_chunk-IsIndexed :
    (checksum : Bytes → String) (calls : PrepareCalls) (now : ℕ) (txn_id chunk_id : String)
    (bytes : Bytes) (expected_checksum : String) (cs : ChunkService)
    → IsIndexed cs
    → IsIndexed (prepare_chunk checksum calls now txn_id chunk_id bytes expected_checksum cs).1
unfolding prepare_chunk write_temp
prepare_chunk-IsIndexed checksum calls now txn_id chunk_id bytes expected_checksum cs v =
    elim (Bool-cases (
      already_prepared checksum calls.read bytes expected_checksum
        (lookup (temp chunk_id txn_id) cs.files))) [
          | inl there ↦ rw there (add-IsIndexed now txn_id chunk_id cs v)
          | inr absent ↦ elim (Bool-cases calls.open_file) [
            | inr closed ↦ rw (absent, closed) v
            | inl opened ↦ elim (Bool-cases calls.write) [
              | inr cut ↦ rw (absent, opened, cut) (same-IsIndexed cs _ refl v)
              | inl whole ↦ elim (Bool-cases calls.sync) [
                | inr unsynced ↦ rw (absent, opened, whole, unsynced) (same-IsIndexed cs _ refl v)
                | inl synced ↦
                    rw (absent, opened, whole, synced)
                      (add-IsIndexed now txn_id chunk_id _ (same-IsIndexed cs _ refl v))
              ]
            ]
          ]
        ]

index-rename :
    (succeeds : Bool) (old new : File) (cs done : ChunkService)
    → rename succeeds old new cs ≡ some done
    → done.prepared_index ≡ cs.prepared_index
unfolding rename
index-rename succeeds old new cs done h = ground arith

index-remove :
    (succeeds : Bool) (path : File) (cs done : ChunkService)
    → remove succeeds path cs ≡ some done
    → done.prepared_index ≡ cs.prepared_index
unfolding remove
index-remove succeeds path cs done h = ground arith

forget-IsIndexed :
    (chunk_id : String) (o : Option ChunkService) (cs : ChunkService)
    → IsIndexed cs
    → ((done : ChunkService) → o ≡ some done → done.prepared_index ≡ cs.prepared_index)
    → IsIndexed (forget chunk_id o cs).1
unfolding forget
forget-IsIndexed chunk_id none cs v same = v
forget-IsIndexed chunk_id (some done) cs v same =
    drop-IsIndexed chunk_id done (same-IsIndexed cs done (same done refl) v)

-- CommitChunk keeps the index right on every outcome.
pub commit_chunk-IsIndexed :
    (renames : Bool) (txn_id chunk_id : String) (cs : ChunkService)
    → IsIndexed cs
    → IsIndexed (commit_chunk renames txn_id chunk_id cs).1
unfolding commit_chunk
commit_chunk-IsIndexed renames txn_id chunk_id cs v =
    elim (Option-cases (lookup chunk_id cs.prepared_index)) [
      | inl absent ↦ rw (absent, commit_chunk) v
      | inr (e, found) ↦ elim (Bool-cases (e.txn_id == txn_id)) [
        | inl same ↦
            rw (found, commit_chunk)
              (rw same (forget-IsIndexed chunk_id _ cs v (index-rename renames e.temp_file _ cs)))
        | inr other ↦ rw (found, commit_chunk) (rw other v)
      ]
    ]

-- AbortChunk keeps the index right on every outcome.
pub abort_chunk-IsIndexed :
    (removes : Bool) (txn_id chunk_id : String) (cs : ChunkService)
    → IsIndexed cs
    → IsIndexed (abort_chunk removes txn_id chunk_id cs).1
unfolding abort_chunk
abort_chunk-IsIndexed removes txn_id chunk_id cs v =
    elim (Option-cases (lookup chunk_id cs.prepared_index)) [
      | inl absent ↦ rw (absent, abort_chunk) v
      | inr (e, found) ↦ elim (Bool-cases (e.txn_id == txn_id)) [
        | inl same ↦
            rw (found, abort_chunk)
              (rw same (forget-IsIndexed chunk_id _ cs v (index-remove removes e.temp_file cs)))
        | inr other ↦ rw (found, abort_chunk) (rw other v)
      ]
    ]

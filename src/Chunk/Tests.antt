-- ===== src/Chunk/Tests.antt =====
-- The theorems about the chunk service, at one chunk and two transactions.
use sandstore.Base.{
  sym, inl, inr, Bool-cases, String, ◌≡◌, ◌⊎◌, refl, true, Option, none, some, [], ◌∷◌, ◌==◌,
  nat_eq, string_eq, if◌then◌else◌, length, lookup, insert, erase,
}
use sandstore.Chunk.Recovery.{crashed, OnlyTxn, start_service-Prepared}
use sandstore.Chunk.Paths.{
  final, temp, file_eq, has_underscore, file_name, parse_temp, trim_tmp, split_underscore,
}
use sandstore.Chunk.{
  Bytes, IntentState, committed, ChunkService, PrepareCalls, ReadCalls, content, index_file,
  index_files, add_to_prepared_index, remove_from_prepared_index, start_service, write_temp,
  already_prepared, prepare_chunk, rename, forget, commit_chunk, read_chunk, txn_mismatch,
}
use sandstore.Chunk.Index.{IsIndexed, prepare_chunk-IsIndexed}
use sandstore.Chunk.Finish.{Fits, Prepared}
use sandstore.Chunk.RoundTrip.{read_chunk-commit_chunk-prepare_chunk, read_chunk-commit_chunk}
use sandstore.Chunk.Finals.{Publishes, commit_chunk-Publishes}

abbrev digest : Bytes → String
digest bytes = if length bytes == 3 then "three" else "other"

abbrev good : PrepareCalls
good = record { read = true; open_file = true; write = true; sync = true; partial = [] }

abbrev reads : ReadCalls
reads = record { first = true; move = true; second = true }

abbrev bytes : Bytes
bytes = 1 ∷ 2 ∷ 3 ∷ []

-- A crash left a temporary file of another transaction.
abbrev before : ChunkService
before = record { files = (temp "c" "old", 9 ∷ []) ∷ []; prepared_index = [] }

before-IsIndexed : IsIndexed before
unfolding lookup
before-IsIndexed = record { chunks = λ c e h. absurd cc; files = λ c e h. absurd cc }

abbrev ready : ChunkService
ready = (prepare_chunk digest good 1 "t" "c" bytes "three" before).1

abbrev done : ChunkService
done = (commit_chunk true "t" "c" ready).1

prepared_ok : prepare_chunk digest good 1 "t" "c" bytes "three" before ≡ (none, ready)
unfolding prepare_chunk already_prepared write_temp add_to_prepared_index lookup insert
prepared_ok = refl

committed_ok : commit_chunk true "t" "c" ready ≡ (none, done)
unfolding commit_chunk rename forget remove_from_prepared_index prepare_chunk already_prepared
    write_temp add_to_prepared_index lookup insert erase
committed_ok = refl

-- The commit of another transaction is refused.
commit_other : (commit_chunk true "u" "c" ready).0 ≡ some txn_mismatch
unfolding commit_chunk prepare_chunk already_prepared write_temp add_to_prepared_index lookup insert
commit_other = refl

ready-Prepared : Prepared "t" "c" bytes ready
unfolding prepare_chunk already_prepared write_temp add_to_prepared_index lookup insert
ready-Prepared = record {
  entry = record { txn_id = "t"; chunk_id = "c"; temp_file = temp "c" "t"; created_at = 1 };
  found = refl;
  txn = refl;
  stored = refl;
}

not_final : lookup (final "c") ready.files ≡ none
unfolding prepare_chunk already_prepared write_temp add_to_prepared_index lookup insert
not_final = refl

read_chunk-commit_chunk-prepare_chunk_example :
    (x : Bytes) × Fits digest bytes "three" x
    × (read_chunk reads 5 none "c" done ≡ (content x, done))
read_chunk-commit_chunk-prepare_chunk_example =
    read_chunk-commit_chunk-prepare_chunk digest good reads true 1 5 none "t" "c" bytes "three"
      before ready done prepared_ok committed_ok refl

abbrev all_committed : String → Option IntentState
all_committed _ = some committed

read_chunk-commit_chunk_example :
    read_chunk reads 5 (some all_committed) "c" ready ≡ (content bytes, done)
read_chunk-commit_chunk_example =
    read_chunk-commit_chunk reads 5 all_committed "t" "c" bytes ready ready-Prepared not_final refl
      refl refl

ready-IsIndexed : IsIndexed ready
ready-IsIndexed =
    prepare_chunk-IsIndexed digest good 1 "t" "c" bytes "three" before before-IsIndexed

commit_chunk-Publishes_example :
    (lookup (final "c") done.files ≡ lookup (final "c") ready.files)
    ⊎ Publishes "t" "c" ready "c" (lookup (final "c") done.files)
commit_chunk-Publishes_example = commit_chunk-Publishes true "t" "c" ready "c" ready-IsIndexed

-- The service after a crash that left one temporary file.
abbrev interrupted : ChunkService
interrupted = record { files = (temp "c" "t", bytes) ∷ []; prepared_index = [] }

interrupted_txn : OnlyTxn "t" "c" interrupted.files
unfolding lookup
interrupted_txn file u there name = elim (Bool-cases (temp "c" "t" == file)) [
  | inl same ↦ sym ((file_eq.test_iff (temp "c" "t") file).0 same)
  | inr other ↦ absurd (there (rw (other, lookup) refl))
]

interrupted_file : lookup (temp "c" "t") interrupted.files ≡ some bytes
unfolding lookup
interrupted_file = refl

start_service-Prepared_example :
    Prepared "t" "c" bytes (start_service true 7 (crashed interrupted)).1
unfolding has_underscore
start_service-Prepared_example =
    start_service-Prepared 7 "t" "c" bytes interrupted refl refl interrupted_txn interrupted_file

-- A chunk whose identifier holds an underscore is not found again: Start skips its file.
lost_underscore :
    (start_service true 7
      (record { files = (temp "a_b" "t", bytes) ∷ []; prepared_index = [] })).1.prepared_index
    ≡ []
unfolding start_service index_files index_file file_name parse_temp trim_tmp split_underscore
lost_underscore = refl

-- ===== src/Chunk/Recovery.antt =====
-- What `Start` (internal/chunk_service/local_disc/local_disc_posix_chunk_service.go) finds of the chunks that were prepared before a crash.
use sandstore.Base.{
  ℕ, String, ◌≡◌, ◌≢◌, refl, sym, ap, ◌∙◌, ◌⊎◌, inl, inr, Option, true, false, none, some, [], ◌∷◌,
  arith, Bool-cases, ◌==◌, nat_eq, string_eq, str_eq_iff, Dict, lookup, lookup-insert,
}
use sandstore.Chunk.Paths.{
  File, temp, file_eq, file_name, parse_temp, has_underscore, parse_temp-file_name,
}
use sandstore.Chunk.{
  Bytes, PreparedIndexEntry, ChunkService, index_file, index_files, start_service,
}
use sandstore.Chunk.Finish.{Prepared}

-- The service after a crash: the files, and no index.
abbrev pub crashed : ChunkService → ChunkService
crashed cs = record cs { prepared_index = [] }

-- The directory has one file whose name reads as a temporary file of the chunk: the transaction's.
abbrev pub OnlyTxn : String → String → Dict File Bytes → Type 0
OnlyTxn txn_id chunk_id entries =
    (file : File) (u : String)
    → lookup file entries ≢ none
    → parse_temp (file_name file) ≡ some (chunk_id, u)
    → file ≡ temp chunk_id txn_id

module _ (now : ℕ) (txn_id chunk_id : String) where
  abbrev found_entry : PreparedIndexEntry
  found_entry = record {
    txn_id = txn_id;
    chunk_id = chunk_id;
    temp_file = temp chunk_id txn_id;
    created_at = now;
  }

  drop_first :
      (file : File) (x : Bytes) (entries : Dict File Bytes)
      → OnlyTxn txn_id chunk_id ((file, x) ∷ entries)
      → OnlyTxn txn_id chunk_id entries
  unfolding lookup
  drop_first file x entries only f u there name = elim (Bool-cases (file == f)) [
    | inl same ↦ only f u (λ h. absurd (ground (arith, h))) name
    | inr apart ↦ only f u (λ h. there (ground (arith, h))) name
  ]

  first_is :
      (file : File) (x : Bytes) (entries : Dict File Bytes) (u : String)
      → OnlyTxn txn_id chunk_id ((file, x) ∷ entries)
      → parse_temp (file_name file) ≡ some (chunk_id, u)
      → file ≡ temp chunk_id txn_id
  unfolding lookup
  first_is file x entries u only name =
      only file u (λ h. let same = file_eq.test_iff file file in absurd (ground (arith, h))) name

  Found : Dict File Bytes → ChunkService → Type 0
  Found entries cs =
      (lookup chunk_id cs.prepared_index ≡ some found_entry)
      ⊎ (lookup (temp chunk_id txn_id) entries ≢ none)

  -- The file is not the transaction's.
  not_first :
      (file : File) (x : Bytes) (entries : Dict File Bytes)
      → file ≢ temp chunk_id txn_id
      → lookup (temp chunk_id txn_id) ((file, x) ∷ entries) ≢ none
      → lookup (temp chunk_id txn_id) entries ≢ none
  unfolding lookup
  not_first file x entries other there h =
      let differs = file_eq.test_iff file (temp chunk_id txn_id) in there (ground (arith, h, other))

  -- What one file does to the index.
  indexed :
      (file : File) (x : Bytes) (entries : Dict File Bytes) (cs : ChunkService)
      (name : Option (String × String))
      → parse_temp (file_name (temp chunk_id txn_id)) ≡ some (chunk_id, txn_id)
      → parse_temp (file_name file) ≡ name
      → OnlyTxn txn_id chunk_id ((file, x) ∷ entries)
      → Found ((file, x) ∷ entries) cs
      → Found entries (index_file now file name cs)
  unfolding Found index_file
  indexed file x entries cs none own read only (inl h) = inl h
  indexed file x entries cs none own read only (inr h) =
      inr (not_first file x entries (λ same. absurd (cc)) h)
  indexed file x entries cs (some (d, u)) own read only h = elim (Bool-cases (d == chunk_id)) [
    | inl same ↦
        let here : d ≡ chunk_id = ground (arith, str_eq_iff d chunk_id) in
        let it : file ≡ temp chunk_id txn_id = first_is file x entries u only (rw here at read) in
        let parts : ◌≡◌ {A = Option (String × String)} (some (d, u)) (some (chunk_id, txn_id)) =
          sym read ∙ ap (λ f. parse_temp (file_name f)) it ∙ own in
        let owner : u ≡ txn_id = ground arith in
        inl (
          rw (here, owner, it)
            (lookup-insert chunk_id chunk_id found_entry cs.prepared_index
              ∙ ground (arith, str_eq_iff chunk_id chunk_id)))
    | inr apart ↦ elim h [
      | inl kept ↦ inl (lookup-insert d chunk_id _ cs.prepared_index ∙ rw apart kept)
      | inr there ↦ inr (
          not_first file x entries
            (λ it.
              let parts : ◌≡◌ {A = Option (String × String)} (some (d, u))
                  (some (chunk_id, txn_id)) =
                sym read ∙ ap (λ f. parse_temp (file_name f)) it ∙ own in
              absurd (ground (arith, str_eq_iff d chunk_id)))
            there)
    ]
  ]

  index_files_finds :
      (entries : Dict File Bytes) (cs : ChunkService)
      → parse_temp (file_name (temp chunk_id txn_id)) ≡ some (chunk_id, txn_id)
      → OnlyTxn txn_id chunk_id entries
      → Found entries cs
      → lookup chunk_id (index_files now entries cs).prepared_index ≡ some found_entry
  unfolding index_files Found
  index_files_finds [] cs own only (inl h) = h
  index_files_finds [] cs own only (inr h) = absurd (unfold lookup in h refl)
  index_files_finds ((file, x) ∷ entries) cs own only h =
      index_files_finds entries (index_file now file (parse_temp (file_name file)) cs) own
        (drop_first file x entries only)
        (indexed file x entries cs (parse_temp (file_name file)) own refl only h)

files-index_file :
    (now : ℕ) (file : File) (name : Option (String × String)) (cs : ChunkService)
    → (index_file now file name cs).files ≡ cs.files
unfolding index_file
files-index_file now file none cs = refl
files-index_file now file (some (d, u)) cs = refl

files-index_files :
    (now : ℕ) (entries : Dict File Bytes) (cs : ChunkService)
    → (index_files now entries cs).files ≡ cs.files
unfolding index_files
files-index_files now [] cs = refl
files-index_files now ((file, x) ∷ entries) cs =
    files-index_files now entries (index_file now file (parse_temp (file_name file)) cs)
    ∙ files-index_file now file (parse_temp (file_name file)) cs

-- After a crash, Start over a directory that can be read finds a chunk prepared, with its content,
-- where the identifiers of the chunk and of the transaction hold no underscore, and no other file
-- of the directory has a name that reads as a temporary file of the chunk.
pub start_service-Prepared :
    (now : ℕ) (txn_id chunk_id : String) (x : Bytes) (cs : ChunkService)
    → has_underscore chunk_id ≡ false
    → has_underscore txn_id ≡ false
    → OnlyTxn txn_id chunk_id cs.files
    → lookup (temp chunk_id txn_id) cs.files ≡ some x
    → Prepared txn_id chunk_id x (start_service true now (crashed cs)).1
unfolding start_service Found
start_service-Prepared now txn_id chunk_id x cs plain_chunk plain_txn only stored = record {
  entry = found_entry now txn_id chunk_id;
  found =
      index_files_finds now txn_id chunk_id cs.files (crashed cs)
        (parse_temp-file_name chunk_id txn_id plain_chunk plain_txn) only
        (inr (λ h. absurd (ground (arith, stored, h))));
  txn = refl;
  stored = rw (files-index_files now cs.files (crashed cs)) stored;
}

-- ===== src/Write/Files.antt =====
-- A file write that is committed, and the reads after it (`CommitFileWrite`, `PrepareFileRead` of
-- internal/orchestrators/control_plane.go).
use sandstore.Base.{
  ℕ, ◌/◌, ◌≤◌, ◌<◌, ◌≡◌, refl, sym, ap, ◌∙◌, Bool, true, false, Option, none, some, List, [], ◌∷◌,
  ◌++◌, arith, ltb, leb, length, if◌then◌else◌,
}
use sandstore.Metadata.Bytes.{Bytes, uint64_size}
use sandstore.Metadata.Keys.{encode_inode_key}
use sandstore.Metadata.Types.{
  Location, ChunkDescriptor, Inode, committed, chunk_intent, MetaError, ok, bind-ok,
}
use sandstore.Metadata.Bolt.{Bolt}
use sandstore.Metadata.State.{Metadata, next_consistent_index}
use sandstore.Metadata.Apply.{written_inode, apply_envelope, apply_transaction}
use sandstore.Metadata.Read.{get_inode, get_intent_state, get_chunk_placement}
use sandstore.Metadata.Tree.{Consistent}
use sandstore.Metadata.Writes.{apply_chunk_intent-read, get_inode-Loaded}
use sandstore.Metadata.Service.{as_sent, omit_empty}
use sandstore.Metadata.Replication.{Replication, replicated, update-none, replicated-Carried}
use sandstore.Write.ControlPlane.{
  Answer, answered, Notice, commit_answer, tx_commit, committed_intent, extract_participant_ids,
  committed_chunks, file_update, commit_file_write, prepare_file_read, chunk_at, broadcast,
}
use sandstore.Write.Intents.{intent_with_update}

module _ (b : Bolt) where
  -- The larger of the size and the end of the write.
  abbrev pub larger : ℕ → ℕ → ℕ
  larger size new_eof = if leb size new_eof then new_eof else size

  -- What a file write that was committed leaves: `listed` is the chunk list that it read, `current`
  -- the inode that it was applied to, and `old_size` the size that it read.
  pub record Written (stamp : ℕ) (txn_id inode_id chunk_id : Bytes) (new_eof old_size : ℕ)
      (is_new_chunk : Bool) (targets : List Location) (listed : List ChunkDescriptor)
      (current : Inode) (db' : Metadata b) : Type 0 where
    pub read_back :
        get_inode b inode_id db'
        ≡ ok (record current {
          file_size = larger old_size new_eof;
          modify_time = stamp;
          change_time = stamp;
          chunk_list =
              if is_new_chunk
              then listed ++ record { chunk_id = chunk_id; locations = targets } ∷ []
              else listed;
        })
    pub state : get_intent_state b txn_id db' ≡ committed
    pub placement : get_chunk_placement b chunk_id db' ≡ ok (extract_participant_ids targets)

  -- Identifiers with one key are read alike.
  same_key-get_inode :
      (i j : Bytes) (db : Metadata b)
      → encode_inode_key i ≡ encode_inode_key j
      → get_inode b i db ≡ get_inode b j db
  unfolding get_inode
  same_key-get_inode i j db same = rw same refl

  -- The identifier that an inode carries has the key it is stored under.
  own_key :
      (inode_id : Bytes) (old : Inode) (db : Metadata b)
      → Consistent b db
      → get_inode b inode_id db ≡ ok old
      → encode_inode_key old.inode_id ≡ encode_inode_key inode_id
  own_key inode_id old db c read =
      let o = get_inode-Loaded b inode_id old db read in
      let f = c.rooted.fits o.key o.inode o.stored in
      ap encode_inode_key (ap (λ (i : Inode). i.inode_id) (sym o.joined))
      ∙ f.encoded
      ∙ sym o.encoded

  commit_answer-answered :
      (sent notices : List Notice) (r : Option MetaError × Metadata b) (db' : Metadata b)
      → commit_answer b sent r ≡ (answered notices, db')
      → (sent ≡ notices) × (r ≡ (none, db'))
  commit_answer-answered sent notices (none, db) db' h =
      let same = ap (λ (p : Answer (List Notice) × Metadata b). p.0) h in
      (ground arith, ap (λ (p : Answer (List Notice) × Metadata b). (none, p.1)) h)
  commit_answer-answered sent notices (some e, db) db' h =
      let same = ap (λ (p : Answer (List Notice) × Metadata b). p.0) h in absurd (ground arith)

  -- The new inode, written out.
  file_update-written :
      (clock now : ℕ) (new_eof : ℕ) (is_new_chunk : Bool) (chunk_id : Bytes)
      (targets : List Location) (old current : Inode)
      → 0 < now
      → record (written_inode clock
          (as_sent (file_update now new_eof is_new_chunk chunk_id targets old))
          current) { chunk_list = committed_chunks is_new_chunk chunk_id targets old.chunk_list }
        ≡ record current {
          file_size = larger old.file_size new_eof;
          modify_time = now;
          change_time = now;
          chunk_list =
              if is_new_chunk
              then old.chunk_list ++ record { chunk_id = chunk_id; locations = targets } ∷ []
              else old.chunk_list;
        }
  unfolding written_inode file_update committed_chunks
  file_update-written clock now new_eof is_new_chunk chunk_id targets old current started =
      let later : ltb 0 now ≡ true = ground arith in
      let size : (if ltb old.file_size new_eof then new_eof else old.file_size)
          ≡ larger old.file_size new_eof =
        ground arith in
      let chunks : committed_chunks is_new_chunk chunk_id targets old.chunk_list ≡ (
          if is_new_chunk
          then old.chunk_list ++ record { chunk_id = chunk_id; locations = targets } ∷ []
          else old.chunk_list) =
        chunks_by is_new_chunk in
      rw (later, size, chunks) refl
    where
      chunks_by :
          (new : Bool)
          → committed_chunks new chunk_id targets old.chunk_list ≡ (
              if new
              then old.chunk_list ++ record { chunk_id = chunk_id; locations = targets } ∷ []
              else old.chunk_list)
      chunks_by true = refl
      chunks_by false = refl

  omit_empty-some :
      (chunks : List ChunkDescriptor) → 0 < length chunks → omit_empty (some chunks) ≡ some chunks
  omit_empty-some [] h = absurd (omega arith)
  omit_empty-some (c ∷ cs) h = refl

  pub commit_file_write-Written :
      (r : Replication b) (now intent_now : ℕ) (txn_id inode_id chunk_id : Bytes) (new_eof : ℕ)
      (is_new_chunk : Bool) (targets : List Location) (old current : Inode) (notices : List Notice)
      (db db' : Metadata b)
      → Consistent b db
      → Consistent b (r.before db)
      → get_inode b inode_id db ≡ ok old
      → get_inode b inode_id (r.before db) ≡ ok current
      → 0 < now
      → 0 < length (committed_chunks is_new_chunk chunk_id targets old.chunk_list)
      → length (committed_chunks is_new_chunk chunk_id targets old.chunk_list) ≤ uint64_size
      → commit_file_write b
          (replicated b r)
          now
          intent_now
          txn_id
          inode_id
          chunk_id
          new_eof
          is_new_chunk
          targets
          db
        ≡ (answered notices, db')
      → (notices ≡ broadcast txn_id chunk_id targets)
        × ((at : Metadata b) × Written now txn_id inode_id chunk_id new_eof old.file_size
              is_new_chunk targets old.chunk_list current at
            × (r.later at ≡ db'))
  unfolding commit_file_write tx_commit apply_transaction apply_envelope file_update
  commit_file_write-Written r now intent_now txn_id inode_id chunk_id new_eof is_new_chunk targets
        old current notices db db' c c' read read' started some_chunk fits h =
      let op = as_sent (file_update now new_eof is_new_chunk chunk_id targets old) in
      let intent = committed_intent intent_now txn_id chunk_id targets in
      let envelope = some (chunk_intent (some intent) (some op)) in
      let (sent, went) =
        commit_answer-answered (broadcast txn_id chunk_id targets) notices
          (replicated b r envelope db) db' (rw (read, commit_file_write) at h) in
      let k = replicated-Carried b r envelope db db' went in
      let done = update-none b r.commits _ (r.before db) k.at k.applied in
      let (index, (_, h1)) = bind-ok (next_consistent_index b (r.before db)) _ k.at done in
      let own = own_key inode_id old db c read in
      let chunks = committed_chunks is_new_chunk chunk_id targets old.chunk_list in
      let after =
        intent_with_update b r.clock intent op index chunks current (r.before db) k.at refl
          (omit_empty-some chunks some_chunk) fits
          (same_key-get_inode old.inode_id inode_id (r.before db) own ∙ read') h1 in
      let (state, placement) =
        apply_chunk_intent-read b r.clock intent (some op) index (r.before db) k.at h1 in
      (
        sym sent,
        (
          k.at,
          record {
            read_back =
                same_key-get_inode inode_id old.inode_id k.at (sym own)
                ∙ after
                ∙ ap ok (
                    file_update-written r.clock now new_eof is_new_chunk chunk_id targets old
                      current started);
            state = state;
            placement = placement;
          },
          k.left,
        ),
      )

  chunk_at-append :
      (chunk : ChunkDescriptor) (chunks : List ChunkDescriptor)
      → chunk_at (length chunks) (chunks ++ chunk ∷ []) ≡ some chunk
  unfolding chunk_at
  chunk_at-append chunk [] = refl
  chunk_at-append chunk (c ∷ chunks) = chunk_at-append chunk chunks

  -- After a committed write has appended a chunk, a read at an offset below the new end of file
  -- that falls into that chunk is led to the chunk and its replicas.
  pub prepare_file_read-Written :
      (chunk_size offset stamp : ℕ) (txn_id inode_id chunk_id : Bytes) (new_eof old_size : ℕ)
      (targets : List Location) (listed : List ChunkDescriptor) (current : Inode) (db' : Metadata b)
      → Written stamp txn_id inode_id chunk_id new_eof old_size true targets listed current db'
      → offset / chunk_size ≡ length listed
      → offset < new_eof
      → prepare_file_read b chunk_size inode_id offset db'
        ≡ answered (record { chunk_id = chunk_id; target_nodes = targets })
  unfolding prepare_file_read
  prepare_file_read-Written chunk_size offset stamp txn_id inode_id chunk_id new_eof old_size
        targets listed current db' w last inside =
      let below : leb (larger old_size new_eof) offset ≡ false = ground arith in
      let found = chunk_at-append (record { chunk_id = chunk_id; locations = targets }) listed in
      rw (w.read_back, prepare_file_read, below, last, found) refl

-- ===== src/Write/Intents.antt =====
-- What an intent with an update of an inode (`applyChunkIntentAtomic` of
-- internal/metadata_service/bolt/bolt_metadata_service.go) leaves of the inode.
use sandstore.Base.{ℕ, ◌≤◌, ◌≡◌, refl, sym, ap, ◌∙◌, subst, some, List, length}
use sandstore.Metadata.Bytes.{uint64_size}
use sandstore.Metadata.Keys.{encode_inode_key}
use sandstore.Metadata.Types.{
  ChunkDescriptor, Inode, MetadataOperation, OpType, op_update_inode, ChunkIntentOperation,
  not_found, ok, bind-ok, present-ok, ok-injective,
}
use sandstore.Metadata.Bolt.{Bolt}
use sandstore.Metadata.State.{Metadata, storable_inode, load_stored_inode, load_chunk_list}
use sandstore.Metadata.Apply.{
  written_inode, new_chunks, write_with_intent, meta_update, apply_chunk_intent, indexed,
}
use sandstore.Metadata.Read.{get_inode}
use sandstore.Metadata.Writes.{get_inode-Loaded, stored-get_inode, new_chunks-some, some-injective}

module _ (b : Bolt) where
  open b use {get, put}

  -- A write that comes along with an intent: the inode is read with the new values and the new list.
  write_with_intent-get_inode :
      (now : ℕ) (op : MetadataOperation) (chunks : List ChunkDescriptor) (old : Inode)
      (db db' : Metadata b)
      → op.new_chunk_list ≡ some chunks
      → length chunks ≤ uint64_size
      → get_inode b op.inode_id db ≡ ok old
      → write_with_intent b now op db ≡ ok db'
      → get_inode b op.inode_id db' ≡ ok (record (written_inode now op old) { chunk_list = chunks })
  unfolding write_with_intent load_stored_inode written_inode
  write_with_intent-get_inode now op chunks old db db' listed fits read h =
      let (key, (hk, h1)) = bind-ok (encode_inode_key op.inode_id) _ db' h in
      let (inode, (hi, h2)) = bind-ok (load_stored_inode b key db) _ db' h1 in
      let o = get_inode-Loaded b op.inode_id old db read in
      let same_key : o.key ≡ key = ok-injective o.key key (sym o.encoded ∙ hk) in
      let same_stored : some o.inode ≡ some inode =
        sym o.stored
        ∙ ap (λ k. get k db.inodes) same_key
        ∙ present-ok not_found (get key db.inodes) inode hi in
      let same : record inode { chunk_list = o.chunks } ≡ old =
        ap (λ (i : Inode). record i { chunk_list = o.chunks })
          (sym (some-injective b o.inode inode same_stored))
        ∙ o.joined in
      let new = storable_inode (written_inode now op inode) in
      let (new_map, _) = new_chunks-some b key op.new_chunk_list chunks db listed in
      let placed = new_chunks b key op.new_chunk_list db in
      let done = record placed { inodes = put key new db.inodes } in
      subst
        (λ d.
          get_inode b op.inode_id d
          ≡ ok (record (written_inode now op old) { chunk_list = chunks }))
        (ok-injective done db' h2)
        (stored-get_inode b key op.inode_id new chunks db done hk fits refl new_map
          ∙ ap (λ (i : Inode). ok (record (written_inode now op i) { chunk_list = chunks })) same)

  meta_update_eq :
      (now : ℕ) (op : MetadataOperation) (db : Metadata b)
      → op.op_type ≡ op_update_inode
      → meta_update b now (some op) db ≡ write_with_intent b now op db
  unfolding meta_update
  meta_update_eq now op db type =
      ap (λ (t : OpType). elim t [ op_update_inode ↦ write_with_intent b now op db | _ ↦ ok db ])
        type

  -- What an intent with an update of an inode leaves.
  pub intent_with_update :
      (now : ℕ) (intent : ChunkIntentOperation) (op : MetadataOperation) (index : ℕ)
      (chunks : List ChunkDescriptor) (old : Inode) (db db' : Metadata b)
      → op.op_type ≡ op_update_inode
      → op.new_chunk_list ≡ some chunks
      → length chunks ≤ uint64_size
      → get_inode b op.inode_id db ≡ ok old
      → apply_chunk_intent b now intent (some op) index db ≡ ok db'
      → get_inode b op.inode_id db' ≡ ok (record (written_inode now op old) { chunk_list = chunks })
  unfolding apply_chunk_intent meta_update get_inode load_stored_inode load_chunk_list
  intent_with_update now intent op index chunks old db db' type listed fits read h =
      let recorded = record db {
        chunk_intents = put intent.txn_id intent db.chunk_intents;
        chunk_placements = put intent.chunk_id intent.node_ids db.chunk_placements;
      } in
      let (done, (hm, h1)) = bind-ok (meta_update b now (some op) recorded) _ db' h in
      let wrote : write_with_intent b now op recorded ≡ ok done =
        sym (meta_update_eq now op recorded type) ∙ hm in
      subst
        (λ d.
          get_inode b op.inode_id d
          ≡ ok (record (written_inode now op old) { chunk_list = chunks }))
        (ok-injective (indexed b index done) db' h1)
        (write_with_intent-get_inode now op chunks old recorded done listed fits read wrote)

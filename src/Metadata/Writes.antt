-- ===== src/Metadata/Writes.antt =====
-- What a write that was applied leaves to be read (`ApplyUpdateInode`, `applyChunkIntentAtomic` of
-- internal/metadata_service/bolt/bolt_metadata_service.go).
use sandstore.Base.{
  ℕ, ◌+◌, ◌≤◌, ◌≡◌, refl, sym, ap, ◌∙◌, subst, Option, none, some, List, arith, length,
}
use sandstore.Metadata.Bytes.{Bytes, bytes_eq, uint64_size}
use sandstore.Metadata.Keys.{encode_inode_key}
use sandstore.Metadata.Types.{
  Inode, ChunkDescriptor, ChunkIntentOperation, MetadataOperation, OpType, op_create, op_remove,
  op_rename, op_set_attr, op_update_inode, not_found, ok, ◌>>=◌, present, bind-ok, present-ok,
  ok-injective,
}
use sandstore.Metadata.Bolt.{Bolt}
use sandstore.Metadata.State.{
  Metadata, storable_inode, load_stored_inode, load_chunk_list, replace_chunk_list,
}
use sandstore.Metadata.Apply.{
  updated_inode, new_chunks, apply_update_inode, write_with_intent, meta_update, apply_chunk_intent,
  indexed,
}
use sandstore.Metadata.Read.{get_inode, get_chunk_placement, get_intent_state}
use sandstore.Metadata.Tree.{get-put_same}
use sandstore.Metadata.ChunkRoundTrip.{load_chunk_list-replace_chunk_list}

module _ (b : Bolt) where
  open b use {get, put}

  -- What a read of an inode has met.
  pub record Loaded (db : Metadata b) (inode_id : Bytes) (read : Inode) : Type 0 where
    pub key : Bytes
    pub inode : Inode
    pub chunks : List ChunkDescriptor
    pub encoded : encode_inode_key inode_id ≡ ok key
    pub stored : get key db.inodes ≡ some inode
    pub listed : load_chunk_list b key db ≡ ok chunks
    pub joined : record inode { chunk_list = chunks } ≡ read

  pub get_inode-Loaded :
      (inode_id : Bytes) (read : Inode) (db : Metadata b)
      → get_inode b inode_id db ≡ ok read
      → Loaded db inode_id read
  unfolding get_inode load_stored_inode
  get_inode-Loaded inode_id read db h =
      let (key, (hk, h1)) = bind-ok (encode_inode_key inode_id) _ read h in
      let (inode, (hi, h2)) = bind-ok (load_stored_inode b key db) _ read h1 in
      let (chunks, (hc, h3)) = bind-ok (load_chunk_list b key db) _ read h2 in
      record {
        key = key;
        inode = inode;
        chunks = chunks;
        encoded = hk;
        stored = present-ok not_found (get key db.inodes) inode hi;
        listed = hc;
        joined = ok-injective _ read h3;
      }

  -- An inode that was stored with a new chunk list is read with it.
  pub stored-get_inode :
      (key inode_id : Bytes) (new : Inode) (chunks : List ChunkDescriptor) (db db' : Metadata b)
      → encode_inode_key inode_id ≡ ok key
      → length chunks ≤ uint64_size
      → db'.inodes ≡ put key new db.inodes
      → db'.chunk_map ≡ replace_chunk_list b key chunks db.chunk_map
      → get_inode b inode_id db' ≡ ok (record new { chunk_list = chunks })
  unfolding get_inode load_stored_inode load_chunk_list
  stored-get_inode key inode_id new chunks db db' h fits same_inodes same_chunks =
      let loaded = load_chunk_list-replace_chunk_list b key chunks db fits in
      rw (h, ◌>>=◌, same_inodes, get-put_same b key new db.inodes, present, same_chunks, loaded)
        refl

  pub some-injective : (x y : Inode) → some x ≡ some y → x ≡ y
  some-injective x y h = ground arith

  pub new_chunks-some :
      (key : Bytes) (given : Option (List ChunkDescriptor)) (chunks : List ChunkDescriptor)
      (db : Metadata b)
      → given ≡ some chunks
      → ((new_chunks b key given db).chunk_map ≡ replace_chunk_list b key chunks db.chunk_map)
        × ((new_chunks b key given db).inodes ≡ db.inodes)
  unfolding new_chunks
  new_chunks-some key none chunks db h = absurd (ground arith)
  new_chunks-some key (some list) chunks db h =
      let same : list ≡ chunks = ground arith in
      (ap (λ l. replace_chunk_list b key l db.chunk_map) same, refl)

  update_inode-get_inode :
      (op : MetadataOperation) (index : ℕ) (chunks : List ChunkDescriptor) (old : Inode)
      (db db' : Metadata b)
      → op.new_chunk_list ≡ some chunks
      → length chunks ≤ uint64_size
      → get_inode b op.inode_id db ≡ ok old
      → apply_update_inode b op index db ≡ ok db'
      → get_inode b op.inode_id db' ≡ ok (record (updated_inode op old) { chunk_list = chunks })
  unfolding apply_update_inode load_stored_inode new_chunks updated_inode
  update_inode-get_inode op index chunks old db db' listed fits read h =
      let (key, (hk, h1)) = bind-ok (encode_inode_key op.inode_id) _ db' h in
      let (inode, (hi, h2)) = bind-ok (load_stored_inode b key db) _ db' h1 in
      let o = get_inode-Loaded op.inode_id old db read in
      let same_key : o.key ≡ key = ok-injective o.key key (sym o.encoded ∙ hk) in
      let same_stored : some o.inode ≡ some inode =
        sym o.stored
        ∙ ap (λ k. get k db.inodes) same_key
        ∙ present-ok not_found (get key db.inodes) inode hi in
      let same : record inode { chunk_list = o.chunks } ≡ old =
        ap (λ (i : Inode). record i { chunk_list = o.chunks })
          (sym (some-injective o.inode inode same_stored))
        ∙ o.joined in
      let stored = record db {
        inodes = put key (storable_inode (updated_inode op inode)) db.inodes;
      } in
      let (new_map, same_inodes) = new_chunks-some key op.new_chunk_list chunks stored listed in
      let done = indexed b index (new_chunks b key op.new_chunk_list stored) in
      subst
        (λ d.
          get_inode b op.inode_id d ≡ ok (record (updated_inode op old) { chunk_list = chunks }))
        (ok-injective done db' h2)
        (stored-get_inode key op.inode_id (storable_inode (updated_inode op inode)) chunks db done
            hk fits same_inodes new_map
          ∙ ap (λ (i : Inode). ok (record (updated_inode op i) { chunk_list = chunks })) same)

  -- After an update with a size, a modification time and a chunk list of at most 2^64 chunks that
  -- ends well, the inode is read with them, with the change time of the operation and the next
  -- version, and is otherwise as it was read before.
  pub apply_update_inode-get_inode :
      (op : MetadataOperation) (index size mtime : ℕ) (chunks : List ChunkDescriptor) (old : Inode)
      (db db' : Metadata b)
      → op.new_size ≡ some size
      → op.set_mtime ≡ some mtime
      → op.new_chunk_list ≡ some chunks
      → length chunks ≤ uint64_size
      → get_inode b op.inode_id db ≡ ok old
      → apply_update_inode b op index db ≡ ok db'
      → get_inode b op.inode_id db'
        ≡ ok (record old {
          file_size = size;
          modify_time = mtime;
          change_time = op.timestamp;
          version_number = old.version_number + 1;
          chunk_list = chunks;
        })
  unfolding updated_inode
  apply_update_inode-get_inode op index size mtime chunks old db db' sized timed listed fits read
        h =
      update_inode-get_inode op index chunks old db db' listed fits read h ∙ rw (sized, timed) refl

  -- The write that comes along leaves the intents and the placements alone.
  abbrev SameIntents : Metadata b → Metadata b → Type 0
  SameIntents db db' =
      (db'.chunk_intents ≡ db.chunk_intents) × (db'.chunk_placements ≡ db.chunk_placements)

  new_chunks-others :
      (key : Bytes) (given : Option (List ChunkDescriptor)) (db : Metadata b)
      → SameIntents db (new_chunks b key given db)
  unfolding new_chunks
  new_chunks-others key none db = (refl, refl)
  new_chunks-others key (some chunks) db = (refl, refl)

  write_with_intent-others :
      (now : ℕ) (op : MetadataOperation) (db db' : Metadata b)
      → write_with_intent b now op db ≡ ok db'
      → SameIntents db db'
  unfolding write_with_intent
  write_with_intent-others now op db db' h =
      let (key, (hk, h1)) = bind-ok (encode_inode_key op.inode_id) _ db' h in
      let (inode, (hi, h2)) = bind-ok (load_stored_inode b key db) _ db' h1 in
      subst (SameIntents db) (ok-injective _ db' h2) (new_chunks-others key op.new_chunk_list db)

  meta_update_by_type-others :
      (t : OpType) (now : ℕ) (op : MetadataOperation) (db db' : Metadata b)
      → op.op_type ≡ t
      → meta_update b now (some op) db ≡ ok db'
      → SameIntents db db'
  unfolding meta_update
  meta_update_by_type-others op_update_inode now op db db' same h =
      write_with_intent-others now op db db' (rw same at h)
  meta_update_by_type-others op_create now op db db' same h =
      subst (SameIntents db) (ok-injective db db' (rw same at h)) (refl, refl)
  meta_update_by_type-others op_remove now op db db' same h =
      subst (SameIntents db) (ok-injective db db' (rw same at h)) (refl, refl)
  meta_update_by_type-others op_rename now op db db' same h =
      subst (SameIntents db) (ok-injective db db' (rw same at h)) (refl, refl)
  meta_update_by_type-others op_set_attr now op db db' same h =
      subst (SameIntents db) (ok-injective db db' (rw same at h)) (refl, refl)

  meta_update-others :
      (now : ℕ) (meta : Option MetadataOperation) (db db' : Metadata b)
      → meta_update b now meta db ≡ ok db'
      → SameIntents db db'
  unfolding meta_update
  meta_update-others now none db db' h = subst (SameIntents db) (ok-injective db db' h) (refl, refl)
  meta_update-others now (some op) db db' h =
      meta_update_by_type-others op.op_type now op db db' refl h

  get_intent_state-some :
      (txn_id : Bytes) (intent : ChunkIntentOperation) (db : Metadata b)
      → get txn_id db.chunk_intents ≡ some intent
      → get_intent_state b txn_id db ≡ intent.state
  unfolding get_intent_state
  get_intent_state-some txn_id intent db h = rw (h, get_intent_state) refl

  -- After a chunk intent that ends well the state of its transaction and the placement of its
  -- chunk are read as the intent gives them, whatever update of an inode came along.
  pub apply_chunk_intent-read :
      (now : ℕ) (intent : ChunkIntentOperation) (meta : Option MetadataOperation) (index : ℕ)
      (db db' : Metadata b)
      → apply_chunk_intent b now intent meta index db ≡ ok db'
      → (get_intent_state b intent.txn_id db' ≡ intent.state)
        × (get_chunk_placement b intent.chunk_id db' ≡ ok intent.node_ids)
  unfolding apply_chunk_intent get_chunk_placement
  apply_chunk_intent-read now intent meta index db db' h =
      let recorded = record db {
        chunk_intents = put intent.txn_id intent db.chunk_intents;
        chunk_placements = put intent.chunk_id intent.node_ids db.chunk_placements;
      } in
      let (done, (hm, h1)) = bind-ok (meta_update b now meta recorded) _ db' h in
      let (intents, placements) = meta_update-others now meta recorded done hm in
      subst
        (λ (d : Metadata b).
          (get_intent_state b intent.txn_id d ≡ intent.state)
          × (get_chunk_placement b intent.chunk_id d ≡ ok intent.node_ids))
        (ok-injective _ db' h1)
        (
          get_intent_state-some intent.txn_id intent (indexed b index done) (
              ap (get intent.txn_id) intents
              ∙ get-put_same b intent.txn_id intent db.chunk_intents),
          ap (present not_found) (
              ap (get intent.chunk_id) placements
              ∙ get-put_same b intent.chunk_id intent.node_ids db.chunk_placements),
        )

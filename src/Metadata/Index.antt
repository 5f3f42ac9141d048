-- ===== src/Metadata/Index.antt =====
-- The consistent index (`ApplyTransaction` of internal/metadata_service/bolt/bolt_metadata_service.go):
-- it counts the commands that committed.
use sandstore.Base.{
  ℕ, ◌+◌, ◌%◌, ◌<◌, ◌≡◌, refl, sym, ap, ◌∙◌, Bool, true, false, Option, none, some, arith, nat_eq,
}
use sandstore.Metadata.Bytes.{
  Bytes, put_little_endian, uint64_size, length-little_endian, little_endian-put_little_endian,
}
use sandstore.Metadata.Keys.{encode_inode_key, encode_dentry_key}
use sandstore.Metadata.Types.{
  MetadataOperation, ChunkIntentOperation, OpType, op_create, op_remove, op_rename, op_set_attr,
  op_update_inode, RaftCommandEnvelope, posix_meta, chunk_intent, MetaError, not_found, Result, ok,
  err, present, bind-ok, ok-injective,
}
use sandstore.Metadata.Bolt.{Bolt}
use sandstore.Metadata.State.{
  Metadata, decode_index, next_consistent_index, load_stored_inode, update,
}
use sandstore.Metadata.Apply.{
  create_in, apply_create, apply_remove, apply_rename, apply_set_attr, apply_update_inode,
  meta_update, apply_chunk_intent, apply_as, apply_operation, apply_envelope, apply_transaction,
}

module _ (b : Bolt) where
  open b use {get}

  -- The index that the database holds.
  abbrev Holds : ℕ → Metadata b → Type 0
  Holds index db = db.consistent_index ≡ some (put_little_endian 8 index)

  abbrev index_in : Result (Metadata b) → Option Bytes
  index_in (ok db) = db.consistent_index
  index_in (err _) = none

  apply_as-Holds :
      (t : OpType) (op : MetadataOperation) (index : ℕ) (db db' : Metadata b)
      → apply_as b t op index db ≡ ok db'
      → Holds index db'
  unfolding apply_as apply_create apply_remove apply_rename apply_set_attr apply_update_inode
  apply_as-Holds op_create op index db db' h =
      let (parent_key, (_, h1)) = bind-ok (encode_inode_key op.parent_id) _ db' h in
      let (child_key, (_, h2)) = bind-ok (encode_inode_key op.inode_id) _ db' h1 in
      let (parent, (_, h3)) = bind-ok (load_stored_inode b parent_key db) _ db' h2 in
      let (done, (_, h4)) = bind-ok (create_in b op parent_key child_key parent db) _ db' h3 in
      sym (ap index_in h4)
  apply_as-Holds op_remove op index db db' h =
      let (parent_key, (_, h1)) = bind-ok (encode_inode_key op.parent_id) _ db' h in
      let (child_key, (_, h2)) =
        bind-ok (present not_found (get (encode_dentry_key parent_key op.name) db.dentries)) _ db'
          h1 in
      let (parent, (_, h3)) = bind-ok (load_stored_inode b parent_key db) _ db' h2 in
      let (child, (_, h4)) = bind-ok (load_stored_inode b child_key db) _ db' h3 in
      sym (ap index_in h4)
  apply_as-Holds op_rename op index db db' h =
      let (src_key, (_, h1)) = bind-ok (encode_inode_key op.parent_id) _ db' h in
      let (dst_key, (_, h2)) = bind-ok (encode_inode_key op.dst_parent_id) _ db' h1 in
      let (src, (_, h3)) = bind-ok (load_stored_inode b src_key db) _ db' h2 in
      let (dst, (_, h4)) = bind-ok (load_stored_inode b dst_key db) _ db' h3 in
      let (child_key, (_, h5)) =
        bind-ok (present not_found (get (encode_dentry_key src_key op.name) db.dentries)) _ db'
          h4 in
      sym (ap index_in h5)
  apply_as-Holds op_set_attr op index db db' h =
      let (key, (_, h1)) = bind-ok (encode_inode_key op.inode_id) _ db' h in
      let (inode, (_, h2)) = bind-ok (load_stored_inode b key db) _ db' h1 in sym (ap index_in h2)
  apply_as-Holds op_update_inode op index db db' h =
      let (key, (_, h1)) = bind-ok (encode_inode_key op.inode_id) _ db' h in
      let (inode, (_, h2)) = bind-ok (load_stored_inode b key db) _ db' h1 in sym (ap index_in h2)

  apply_chunk_intent-Holds :
      (now : ℕ) (intent : ChunkIntentOperation) (meta : Option MetadataOperation) (index : ℕ)
      (db db' : Metadata b)
      → apply_chunk_intent b now intent meta index db ≡ ok db'
      → Holds index db'
  unfolding apply_chunk_intent
  apply_chunk_intent-Holds now intent meta index db db' h =
      let (done, (_, h1)) = bind-ok (meta_update b now meta _) _ db' h in sym (ap index_in h1)

  apply_envelope-Holds :
      (now : ℕ) (envelope : Option RaftCommandEnvelope) (db db' : Metadata b)
      → apply_envelope b now envelope db ≡ ok db'
      → (index : ℕ) × ((next_consistent_index b db ≡ ok index) × Holds index db')
  unfolding apply_envelope apply_operation
  apply_envelope-Holds now none db db' h = absurd (ground arith)
  apply_envelope-Holds now (some (posix_meta none)) db db' h = absurd (ground arith)
  apply_envelope-Holds now (some (posix_meta (some op))) db db' h =
      let (index, (hi, h1)) = bind-ok (next_consistent_index b db) _ db' h in
      (index, (hi, apply_as-Holds op.op_type op index db db' h1))
  apply_envelope-Holds now (some (chunk_intent none meta)) db db' h = absurd (ground arith)
  apply_envelope-Holds now (some (chunk_intent (some intent) meta)) db db' h =
      let (index, (hi, h1)) = bind-ok (next_consistent_index b db) _ db' h in
      (index, (hi, apply_chunk_intent-Holds now intent meta index db db' h1))

  -- What a command of the log does to the index: all or nothing.
  pub record Counted (result : Option MetaError) (db db' : Metadata b) : Type 0 where
    pub advanced :
        result ≡ none
        → (current : ℕ) × ((decode_index db.consistent_index ≡ ok current)
            × (decode_index db'.consistent_index ≡ ok ((current + 1) % uint64_size)))
    pub unchanged : (e : MetaError) → result ≡ some e → db' ≡ db

  decode_index-put_little_endian :
      (n : ℕ) → n < uint64_size → decode_index (some (put_little_endian 8 n)) ≡ ok n
  unfolding decode_index
  decode_index-put_little_endian n fits =
      ground (arith, length-little_endian 8 n, little_endian-put_little_endian n fits)

  Holds-next :
      (index : ℕ) (db db' : Metadata b)
      → next_consistent_index b db ≡ ok index
      → Holds index db'
      → (current : ℕ) × ((decode_index db.consistent_index ≡ ok current)
          × (decode_index db'.consistent_index ≡ ok ((current + 1) % uint64_size)))
  unfolding next_consistent_index
  Holds-next index db db' h holds =
      let (current, (hc, same)) = bind-ok (decode_index db.consistent_index) _ index h in
      let next = ok-injective ((current + 1) % uint64_size) index same in
      (
        current,
        (
          hc,
          ap decode_index (holds ∙ ap (λ n. some (put_little_endian 8 n)) (sym next))
              ∙ decode_index-put_little_endian ((current + 1) % uint64_size) (omega arith),
        ),
      )

  update-Counted :
      (commits : Bool) (now : ℕ) (envelope : Option RaftCommandEnvelope) (db : Metadata b)
      (r : Result (Metadata b))
      → apply_envelope b now envelope db ≡ r
      → Counted (update b commits r db).0 db (update b commits r db).1
  unfolding update
  update-Counted commits now envelope db (err e) h = record {
    advanced = λ went. absurd (ground arith);
    unchanged = λ e' _. refl;
  }
  update-Counted false now envelope db (ok db') h = record {
    advanced = λ went. absurd (ground arith);
    unchanged = λ e' _. refl;
  }
  update-Counted true now envelope db (ok db') h =
      let (index, (hi, holds)) = apply_envelope-Holds now envelope db db' h in
      record {
        advanced = λ _. Holds-next index db db' hi holds;
        unchanged = λ e' failed. absurd (ground arith);
      }

  -- A command that is applied without an error raises the consistent index by one, modulo 2^64;
  -- one that fails, at any step, leaves the database as it was.
  pub apply_transaction-Counted :
      (commits : Bool) (now : ℕ) (envelope : Option RaftCommandEnvelope) (db : Metadata b)
      → let (result, db') = apply_transaction b commits now envelope db in Counted result db db'
  unfolding apply_transaction
  apply_transaction-Counted commits now envelope db =
      update-Counted commits now envelope db (apply_envelope b now envelope db) refl

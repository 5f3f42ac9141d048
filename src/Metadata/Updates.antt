-- ===== src/Metadata/Updates.antt =====
-- The commands of the log (`ApplyTransaction` of internal/metadata_service/bolt/bolt_metadata_service.go)
-- keep the inodes and the dentries consistent.
use sandstore.Base.{ℕ, ◌≡◌, refl, subst, Bool, true, false, Option, none, some, List, arith}
use sandstore.Metadata.Bytes.{Bytes, bytes_eq}
use sandstore.Metadata.Keys.{encode_inode_key}
use sandstore.Metadata.Types.{
  Inode, ChunkDescriptor, ChunkIntentOperation, MetadataOperation, OpType, op_create, op_remove,
  op_rename, op_set_attr, op_update_inode, RaftCommandEnvelope, posix_meta, chunk_intent, Result,
  ok, err, bind-ok, ok-injective,
}
use sandstore.Metadata.Bolt.{Bolt}
use sandstore.Metadata.State.{
  Metadata, storable_inode, load_stored_inode, next_consistent_index, update,
}
use sandstore.Metadata.Apply.{
  changed_attr, apply_set_attr, updated_inode, new_chunks, apply_update_inode, written_inode,
  write_with_intent, meta_update, apply_chunk_intent, apply_as, apply_operation, apply_envelope,
  apply_transaction,
}
use sandstore.Metadata.Tree.{put-Rooted, put_inode-Linked, Consistent}
use sandstore.Metadata.Consistency.{
  Fresh, Alike, Alike-Fits, load_stored_inode-Fits, indexed-Consistent, apply_create-Consistent,
  apply_remove-Consistent,
}
use sandstore.Metadata.Renames.{apply_rename-Consistent}

module _ (b : Bolt) where
  open b use {Bucket, get, put, delete, new_bucket}

  -- An inode that is stored again, with its identifier and its type.
  replaced-Consistent :
      (key : Bytes) (inode new : Inode) (db db' : Metadata b)
      → load_stored_inode b key db ≡ ok inode
      → Alike b inode new
      → db'.inodes ≡ put key new db.inodes
      → db'.dentries ≡ db.dentries
      → Consistent b db
      → Consistent b db'
  replaced-Consistent key inode new db db' h alike same_inodes same_dentries c = record {
    rooted = rw same_inodes (
        put-Rooted b key new db.inodes
          (Alike-Fits b key inode new alike (load_stored_inode-Fits b key inode db c h)) c.rooted);
    linked =
        rw (same_inodes, same_dentries) (put_inode-Linked b key new db.inodes db.dentries c.linked);
  }

  apply_set_attr-Consistent :
      (op : MetadataOperation) (index : ℕ) (db db' : Metadata b)
      → apply_set_attr b op index db ≡ ok db'
      → Consistent b db
      → Consistent b db'
  unfolding apply_set_attr changed_attr
  apply_set_attr-Consistent op index db db' h c =
      let (key, (hk, h1)) = bind-ok (encode_inode_key op.inode_id) _ db' h in
      let (inode, (hi, h2)) = bind-ok (load_stored_inode b key db) _ db' h1 in
      let done = record db {
        inodes = put key (storable_inode (changed_attr op inode)) db.inodes;
      } in
      indexed-Consistent b index done db' h2 (
        replaced-Consistent key inode (storable_inode (changed_attr op inode)) db done hi
          (refl, refl) refl refl c)

  new_chunks-inodes :
      (key : Bytes) (chunks : Option (List ChunkDescriptor)) (db : Metadata b)
      → ((new_chunks b key chunks db).inodes ≡ db.inodes)
        × ((new_chunks b key chunks db).dentries ≡ db.dentries)
  unfolding new_chunks
  new_chunks-inodes key none db = (refl, refl)
  new_chunks-inodes key (some chunks) db = (refl, refl)

  apply_update_inode-Consistent :
      (op : MetadataOperation) (index : ℕ) (db db' : Metadata b)
      → apply_update_inode b op index db ≡ ok db'
      → Consistent b db
      → Consistent b db'
  unfolding apply_update_inode updated_inode
  apply_update_inode-Consistent op index db db' h c =
      let (key, (hk, h1)) = bind-ok (encode_inode_key op.inode_id) _ db' h in
      let (inode, (hi, h2)) = bind-ok (load_stored_inode b key db) _ db' h1 in
      let stored = record db {
        inodes = put key (storable_inode (updated_inode op inode)) db.inodes;
      } in
      let (same_inodes, same_dentries) = new_chunks-inodes key op.new_chunk_list stored in
      indexed-Consistent b index (new_chunks b key op.new_chunk_list stored) db' h2 (
        replaced-Consistent key inode (storable_inode (updated_inode op inode)) db _ hi (refl, refl)
          same_inodes same_dentries c)

  write_with_intent-Consistent :
      (now : ℕ) (op : MetadataOperation) (db db' : Metadata b)
      → write_with_intent b now op db ≡ ok db'
      → Consistent b db
      → Consistent b db'
  unfolding write_with_intent written_inode
  write_with_intent-Consistent now op db db' h c =
      let (key, (hk, h1)) = bind-ok (encode_inode_key op.inode_id) _ db' h in
      let (inode, (hi, h2)) = bind-ok (load_stored_inode b key db) _ db' h1 in
      let (same_inodes, same_dentries) = new_chunks-inodes key op.new_chunk_list db in
      subst (Consistent b) (ok-injective _ db' h2) (
        replaced-Consistent key inode (storable_inode (written_inode now op inode)) db _ hi
          (refl, refl) refl same_dentries c)

  meta_update_by_type-Consistent :
      (t : OpType) (now : ℕ) (op : MetadataOperation) (db db' : Metadata b)
      → op.op_type ≡ t
      → meta_update b now (some op) db ≡ ok db'
      → Consistent b db
      → Consistent b db'
  unfolding meta_update
  meta_update_by_type-Consistent op_update_inode now op db db' same h c =
      write_with_intent-Consistent now op db db' (rw same at h) c
  meta_update_by_type-Consistent op_create now op db db' same h c =
      subst (Consistent b) (ok-injective db db' (rw same at h)) c
  meta_update_by_type-Consistent op_remove now op db db' same h c =
      subst (Consistent b) (ok-injective db db' (rw same at h)) c
  meta_update_by_type-Consistent op_rename now op db db' same h c =
      subst (Consistent b) (ok-injective db db' (rw same at h)) c
  meta_update_by_type-Consistent op_set_attr now op db db' same h c =
      subst (Consistent b) (ok-injective db db' (rw same at h)) c

  meta_update-Consistent :
      (now : ℕ) (meta : Option MetadataOperation) (db db' : Metadata b)
      → meta_update b now meta db ≡ ok db'
      → Consistent b db
      → Consistent b db'
  unfolding meta_update
  meta_update-Consistent now none db db' h c = subst (Consistent b) (ok-injective db db' h) c
  meta_update-Consistent now (some op) db db' h c =
      meta_update_by_type-Consistent op.op_type now op db db' refl h c

  -- A command may create an inode only under a new identifier.
  abbrev pub Admissible : Option RaftCommandEnvelope → Metadata b → Type 0
  Admissible none db = Unit
  Admissible (some (posix_meta none)) db = Unit
  Admissible (some (posix_meta (some op))) db = op.op_type ≡ op_create → Fresh b op.inode_id db
  Admissible (some (chunk_intent intent meta)) db = Unit

  apply_as-Consistent :
      (t : OpType) (op : MetadataOperation) (index : ℕ) (db db' : Metadata b)
      → (t ≡ op_create → Fresh b op.inode_id db)
      → apply_as b t op index db ≡ ok db'
      → Consistent b db
      → Consistent b db'
  unfolding apply_as
  apply_as-Consistent op_create op index db db' fresh h =
      apply_create-Consistent b op index db db' (fresh refl) h
  apply_as-Consistent op_remove op index db db' fresh h =
      apply_remove-Consistent b op index db db' h
  apply_as-Consistent op_rename op index db db' fresh h =
      apply_rename-Consistent b op index db db' h
  apply_as-Consistent op_set_attr op index db db' fresh h =
      apply_set_attr-Consistent op index db db' h
  apply_as-Consistent op_update_inode op index db db' fresh h =
      apply_update_inode-Consistent op index db db' h

  apply_chunk_intent-Consistent :
      (now : ℕ) (intent : ChunkIntentOperation) (meta : Option MetadataOperation) (index : ℕ)
      (db db' : Metadata b)
      → apply_chunk_intent b now intent meta index db ≡ ok db'
      → Consistent b db
      → Consistent b db'
  unfolding apply_chunk_intent
  apply_chunk_intent-Consistent now intent meta index db db' h c =
      let (done, (hm, h1)) = bind-ok (meta_update b now meta _) _ db' h in
      indexed-Consistent b index done db' h1 (
        meta_update-Consistent now meta _ done hm (record { rooted = c.rooted; linked = c.linked }))

  apply_envelope-Consistent :
      (now : ℕ) (envelope : Option RaftCommandEnvelope) (db db' : Metadata b)
      → Admissible envelope db
      → apply_envelope b now envelope db ≡ ok db'
      → Consistent b db
      → Consistent b db'
  unfolding apply_envelope apply_operation
  apply_envelope-Consistent now none db db' a h c = absurd (ground arith)
  apply_envelope-Consistent now (some (posix_meta none)) db db' a h c = absurd (ground arith)
  apply_envelope-Consistent now (some (posix_meta (some op))) db db' a h c =
      let (index, (hi, h1)) = bind-ok (next_consistent_index b db) _ db' h in
      apply_as-Consistent op.op_type op index db db' a h1 c
  apply_envelope-Consistent now (some (chunk_intent none meta)) db db' a h c = absurd (ground arith)
  apply_envelope-Consistent now (some (chunk_intent (some intent) meta)) db db' a h c =
      let (index, (hi, h1)) = bind-ok (next_consistent_index b db) _ db' h in
      apply_chunk_intent-Consistent now intent meta index db db' h1 c

  -- What an update leaves is what was there or what the function made.
  pub update-cases :
      (commits : Bool) (r : Result (Metadata b)) (db : Metadata b) (P : Metadata b → Type 0)
      → P db
      → ((db' : Metadata b) → r ≡ ok db' → P db')
      → P (update b commits r db).1
  unfolding update
  update-cases commits (err e) db P p q = p
  update-cases true (ok db') db P p q = q db' refl
  update-cases false (ok db') db P p q = p

  pub apply_transaction-Consistent :
      (commits : Bool) (now : ℕ) (envelope : Option RaftCommandEnvelope) (db : Metadata b)
      → Admissible envelope db
      → Consistent b db
      → Consistent b (apply_transaction b commits now envelope db).1
  unfolding apply_transaction
  apply_transaction-Consistent commits now envelope db a c =
      update-cases commits (apply_envelope b now envelope db) db (Consistent b) c
        (λ db' h. apply_envelope-Consistent now envelope db db' a h c)

-- ===== src/Metadata/Runs.antt =====
-- The runs of the metadata service (internal/metadata_service/bolt/bolt_metadata_service.go) from a
-- new file system on: commands of the log, and the writes that bypass it.
use sandstore.Base.{
  ℕ, ◌≡◌, ◌≢◌, refl, sym, ap, ◌∙◌, subst, Bool, true, Option, none, some, List, arith, inl, inr,
}
use sandstore.Metadata.Bytes.{
  Bytes, bytes_eq, parse_uint, parse_digits, format_uint, format_digits, put_big_endian,
  big_endian_from,
}
use sandstore.Metadata.Keys.{encode_inode_key, decode_inode_id}
use sandstore.Metadata.Types.{
  Inode, IntentState, RaftCommandEnvelope, MetaError, Result, ok, err, bind-ok, ok-injective,
}
use sandstore.Metadata.Bolt.{Bolt}
use sandstore.Metadata.State.{Metadata, storable_inode, update}
use sandstore.Metadata.Apply.{apply_transaction}
use sandstore.Metadata.Startup.{
  update_chunk_placement, set_intent_state, initialized, recover, recover_from, recovered,
  root_inode, root_inode_id,
}
use sandstore.Metadata.Tree.{
  root_key, Fits, get-put_same, get-put_cases, Rooted, Linked, put_inode-Linked, Consistent,
}
use sandstore.Metadata.Updates.{Admissible, update-cases, apply_transaction-Consistent}

module _ (b : Bolt) where
  open b use {Bucket, get, put, delete, new_bucket}

  -- The database before the first start.
  abbrev pub new_database : Metadata b
  new_database = record {
    inodes = new_bucket;
    dentries = new_bucket;
    chunk_map = new_bucket;
    chunk_placements = new_bucket;
    chunk_intents = new_bucket;
    superblock = none;
    consistent_index = none;
  }

  nothing_new : {V : Type 0} (k : Bytes) (v : V) → get k new_bucket ≢ some v
  nothing_new {V = V} k v h = let fresh = b.get-new {V = V} k in absurd (cc)

  root_inode-Fits : (now : ℕ) → Fits root_key (storable_inode (root_inode b now))
  unfolding encode_inode_key decode_inode_id parse_uint parse_digits format_uint format_digits
      put_big_endian big_endian_from
  root_inode-Fits now = record { encoded = refl; decoded = refl; root_directory = λ h. refl }

  initialized-Consistent :
      (now : ℕ) (db db' : Metadata b)
      → ((k : Bytes) (w : Inode) → get k db.inodes ≡ some w → Fits k w)
      → Linked b db.inodes db.dentries
      → initialized b now db ≡ ok db'
      → Consistent b db'
  unfolding initialized
  initialized-Consistent now db db' fits linked h =
      let (key, (hk, h1)) = bind-ok (encode_inode_key (root_inode_id b)) _ db' h in
      let same : root_key ≡ key =
        ok-injective root_key key (sym (root_inode-Fits now).encoded ∙ hk) in
      let root = storable_inode (root_inode b now) in
      subst (Consistent b) (ok-injective _ db' h1) (record {
        rooted =
            subst (λ k. Rooted b (put k root db.inodes)) same
              (record {
                fits = λ k w there. elim (get-put_cases b root_key k root w db.inodes there) [
                  | inl (same_key, same_inode) ↦
                      subst (λ k'. Fits k' w) same_key
                        (subst (Fits root_key) same_inode (root_inode-Fits now))
                  | inr old ↦ fits k w old
                ];
                has_root = (root, get-put_same b root_key root db.inodes);
              });
        linked = put_inode-Linked b key root db.inodes db.dentries linked;
      })

  recovered-db : (r : Option MetaError × Metadata b) → (recovered b r).1 ≡ r.1
  recovered-db (some e, db) = refl
  recovered-db (none, db) = refl

  recover_from-Consistent :
      (index : Option Bytes) (commits : Bool) (now : ℕ) (db : Metadata b)
      → Consistent b db
      → Consistent b (recover_from b index commits now db).1
  unfolding recover_from
  recover_from-Consistent (some index_bytes) commits now db c = c
  recover_from-Consistent none commits now db c =
      subst (Consistent b) (sym (recovered-db (update b commits (initialized b now db) db))) (
        update-cases b commits (initialized b now db) db (Consistent b) c
          (λ db' h. initialized-Consistent now db db' c.rooted.fits c.linked h))

  new_database-Linked : Linked b new_bucket new_bucket
  new_database-Linked = record {
    child_stored = λ k child none_there. absurd (nothing_new k child none_there);
    one_parent = λ k j child none_there _. absurd (nothing_new k child none_there);
    no_root_entry = λ k none_there. nothing_new k root_key none_there;
  }

  formatted_from :
      (r : Result (Metadata b)) (old db : Metadata b)
      → recovered b (update b true r old) ≡ (ok 0, db)
      → r ≡ ok db
  unfolding update
  formatted_from (ok made) old db h = ap ok (ap (λ p. p.1) h)
  formatted_from (err e) old db h = let fault = ap (λ p. p.0) h in absurd (ground arith)

  formatted-Consistent :
      (now : ℕ) (db : Metadata b) → recover b true now new_database ≡ (ok 0, db) → Consistent b db
  unfolding recover recover_from
  formatted-Consistent now db h =
      initialized-Consistent now new_database db (λ k w there. absurd (nothing_new k w there))
        new_database-Linked (formatted_from (initialized b now new_database) new_database db h)

  -- A step: a command of the log, whether it commits or not, or a write that bypasses the log.
  pub data Step : Metadata b → Metadata b → Type 0 where
    applied :
        (commits : Bool) (now : ℕ) (envelope : Option RaftCommandEnvelope) (db : Metadata b)
        → Admissible b envelope db
        → Step db (apply_transaction b commits now envelope db).1
    placed :
        (commits : Bool) (chunk_id : Bytes) (node_ids : List Bytes) (db : Metadata b)
        → Step db (update_chunk_placement b commits chunk_id node_ids db).1
    decided :
        (commits : Bool) (now : ℕ) (txn_id : Bytes) (state : IntentState) (db : Metadata b)
        → Step db (set_intent_state b commits now txn_id state db).1
    restarted : (commits : Bool) (now : ℕ) (db : Metadata b) → Step db (recover b commits now db).1

  -- The databases of a service that has started.
  pub data Run : Metadata b → Type 0 where
    formatted : (now : ℕ) (db : Metadata b) → recover b true now new_database ≡ (ok 0, db) → Run db
    after : {db db' : Metadata b} → Run db → Step db db' → Run db'

  step-Consistent : (db db' : Metadata b) → Step db db' → Consistent b db → Consistent b db'
  unfolding update_chunk_placement set_intent_state recover
  step-Consistent _ _ (applied commits now envelope db a) c =
      apply_transaction-Consistent b commits now envelope db a c
  step-Consistent _ _ (placed commits chunk_id node_ids db) c =
      update-cases b commits _ db (Consistent b) c (λ db' h.
        subst (Consistent b) (ok-injective _ db' h)
          (record { rooted = c.rooted; linked = c.linked }))
  step-Consistent _ _ (decided commits now txn_id state db) c =
      update-cases b commits _ db (Consistent b) c (λ db' h.
        subst (Consistent b) (ok-injective _ db' h)
          (record { rooted = c.rooted; linked = c.linked }))
  step-Consistent _ _ (restarted commits now db) c =
      recover_from-Consistent db.consistent_index commits now db c

  -- In each database that a run from a new file system reaches, by commands of the log that commit
  -- or fail, the writes that bypass the log and restarts, where each creation has a new
  -- identifier: every inode stands under the key of its identifier, the root is there and is a
  -- directory, and each dentry leads to an inode, no two to the same and none to the root.
  pub run-Consistent : (db : Metadata b) → Run db → Consistent b db
  run-Consistent _ (formatted now db h) = formatted-Consistent now db h
  run-Consistent _ (after {db} {db'} run step) = step-Consistent db db' step (run-Consistent db run)

-- ===== src/Metadata/Consistency.antt =====
-- The operations of Metadata/Apply keep the inodes and the dentries consistent.
use sandstore.Base.{
  ℕ, ◌<◌, ◌≡◌, ◌≢◌, refl, sym, ap, ◌∙◌, subst, none, some, arith, Bool-cases, inl, inr,
}
use sandstore.Metadata.Bytes.{Bytes, bytes_eq, uint64_size, format_uint}
use sandstore.Metadata.Keys.{
  encode_inode_key, decode_inode_id, encode_dentry_key, decode_inode_id-encode_inode_key,
}
use sandstore.Metadata.Types.{
  Inode, MetadataOperation, not_found, ok, ◌>>=◌, present, bind-ok, present-ok, ok-injective,
}
use sandstore.Metadata.Bolt.{Bolt}
use sandstore.Metadata.State.{Metadata, is_directory, storable_inode, load_stored_inode}
use sandstore.Metadata.Apply.{
  created_inode, parent_with, parent_without, created, create_in, apply_create, removed,
  apply_remove, indexed,
}
use sandstore.Metadata.Tree.{
  root_key, Fits, get-put_same, put-Rooted, delete-Rooted, put_inode-Linked, put-Linked,
  delete-Linked, Consistent,
}

module _ (b : Bolt) where
  open b use {Bucket, get, put, delete}

  pub load_stored_inode-Fits :
      (key : Bytes) (inode : Inode) (db : Metadata b)
      → Consistent b db
      → load_stored_inode b key db ≡ ok inode
      → Fits key inode
  unfolding load_stored_inode
  load_stored_inode-Fits key inode db c h =
      c.rooted.fits key inode (present-ok not_found (get key db.inodes) inode h)

  missing_root : (db : Metadata b) → Consistent b db → get root_key db.inodes ≢ none
  missing_root db c h = let (root, there) = c.rooted.has_root in absurd (cc)

  unused_child :
      (db : Metadata b)
      → Consistent b db
      → (k child : Bytes) → get child db.inodes ≡ none
      → get k db.dentries ≢ some child
  unused_child db c k child unused h =
      let (inode, there) = c.linked.child_stored k child h in absurd (cc)

  -- What a new inode's identifier is: one that `nextInodeID` makes and no inode has.
  pub record Fresh (inode_id : Bytes) (db : Metadata b) : Type 0 where
    pub number : ℕ
    pub small : number < uint64_size
    pub made : inode_id ≡ format_uint number
    pub unused : (key : Bytes) → encode_inode_key inode_id ≡ ok key → get key db.inodes ≡ none

  -- What a change of times, rights and links leaves as it is.
  abbrev pub Alike : Inode → Inode → Type 0
  Alike i j = (i.inode_id ≡ j.inode_id) × (i.inode_type ≡ j.inode_type)

  pub Alike-Fits : (key : Bytes) (i j : Inode) → Alike i j → Fits key i → Fits key j
  Alike-Fits key i j (same_id, same_type) f = record {
    encoded = ap encode_inode_key (sym same_id) ∙ f.encoded;
    decoded = f.decoded ∙ ap ok same_id;
    root_directory = λ h. ap is_directory (sym same_type) ∙ f.root_directory h;
  }

  pub parent_with-Alike :
      (op : MetadataOperation) (parent : Inode) → Alike parent (parent_with op parent)
  unfolding parent_with
  parent_with-Alike op parent = elim (Bool-cases (is_directory op.file_type)) [
    | inl dir ↦ rw dir (refl, refl)
    | inr other ↦ rw other (refl, refl)
  ]

  pub canonical :
      (inode_id key : Bytes) (n : ℕ)
      → n < uint64_size
      → inode_id ≡ format_uint n
      → encode_inode_key inode_id ≡ ok key
      → decode_inode_id key ≡ ok inode_id
  canonical inode_id key n small made h =
      let law : (encode_inode_key inode_id >>= decode_inode_id) ≡ ok inode_id =
        subst (λ i. (encode_inode_key i >>= decode_inode_id) ≡ ok i) (sym made)
          (decode_inode_id-encode_inode_key n small) in
      rw (h, ◌>>=◌) at law

  pub parent_without-Alike :
      (op : MetadataOperation) (child parent : Inode)
      → Alike parent (parent_without op child parent)
  unfolding parent_without
  parent_without-Alike op child parent = elim (Bool-cases (is_directory child.inode_type)) [
    | inl dir ↦ rw dir (refl, refl)
    | inr other ↦ rw other (refl, refl)
  ]

  pub indexed-Consistent :
      (index : ℕ) (db db' : Metadata b)
      → ok (indexed b index db) ≡ ok db'
      → Consistent b db
      → Consistent b db'
  indexed-Consistent index db db' h c =
      subst (Consistent b) (ok-injective _ db' h) (record { rooted = c.rooted; linked = c.linked })

  created_inode-Fits :
      (op : MetadataOperation) (child_key : Bytes) (db : Metadata b)
      → encode_inode_key op.inode_id ≡ ok child_key
      → child_key ≢ root_key
      → Fresh op.inode_id db
      → Fits child_key (created_inode op)
  unfolding created_inode
  created_inode-Fits op child_key db h other fresh = record {
    encoded = h;
    decoded = canonical op.inode_id child_key fresh.number fresh.small fresh.made h;
    root_directory = λ same. absurd (other same);
  }

  created-Consistent :
      (op : MetadataOperation) (parent_key child_key : Bytes) (parent : Inode) (db : Metadata b)
      → Fits child_key (created_inode op)
      → Fits parent_key parent
      → get child_key db.inodes ≡ none
      → Consistent b db
      → Consistent b (created b op parent_key child_key parent db)
  unfolding created
  created-Consistent op parent_key child_key parent db fc fp unused c =
      let new_inode = storable_inode (created_inode op) in
      let new_parent = storable_inode (parent_with op parent) in
      record {
        rooted =
            put-Rooted b parent_key new_parent _
              (Alike-Fits parent_key parent new_parent (parent_with-Alike op parent) fp)
              (put-Rooted b child_key new_inode _
                (Alike-Fits child_key (created_inode op) new_inode (refl, refl) fc) c.rooted);
        linked = put_inode-Linked b parent_key new_parent _ _ (
            put-Linked b (encode_dentry_key parent_key op.name) child_key _ _
              (new_inode, get-put_same b child_key new_inode db.inodes)
              (λ same. missing_root db c (ap (λ k. get k db.inodes) (sym same) ∙ unused))
              (λ j h. unused_child db c j child_key unused h)
              (put_inode-Linked b child_key new_inode _ _ c.linked));
      }

  pub create_in-ok :
      (op : MetadataOperation) (parent_key child_key : Bytes) (parent : Inode) (db db' : Metadata b)
      → create_in b op parent_key child_key parent db ≡ ok db'
      → created b op parent_key child_key parent db ≡ db'
  unfolding create_in
  create_in-ok op parent_key child_key parent db db' h = ground arith

  pub apply_create-Consistent :
      (op : MetadataOperation) (index : ℕ) (db db' : Metadata b)
      → Fresh op.inode_id db
      → apply_create b op index db ≡ ok db'
      → Consistent b db
      → Consistent b db'
  unfolding apply_create
  apply_create-Consistent op index db db' fresh h c =
      let (parent_key, (hp, h1)) = bind-ok (encode_inode_key op.parent_id) _ db' h in
      let (child_key, (hc, h2)) = bind-ok (encode_inode_key op.inode_id) _ db' h1 in
      let (parent, (hi, h3)) = bind-ok (load_stored_inode b parent_key db) _ db' h2 in
      let (done, (hd, h4)) = bind-ok (create_in b op parent_key child_key parent db) _ db' h3 in
      let unused = fresh.unused child_key hc in
      let other : child_key ≢ root_key =
        λ same. missing_root db c (ap (λ k. get k db.inodes) (sym same) ∙ unused) in
      indexed-Consistent index _ db' h4 (
        subst (Consistent b) (create_in-ok op parent_key child_key parent db done hd) (
          created-Consistent op parent_key child_key parent db
            (created_inode-Fits op child_key db hc other fresh)
            (load_stored_inode-Fits parent_key parent db c hi) unused c))

  removed-Consistent :
      (op : MetadataOperation) (parent_key child_key : Bytes) (parent child : Inode)
      (db : Metadata b)
      → Fits parent_key parent
      → get (encode_dentry_key parent_key op.name) db.dentries ≡ some child_key
      → Consistent b db
      → Consistent b (removed b op parent_key child_key parent child db)
  unfolding removed
  removed-Consistent op parent_key child_key parent child db fp at c =
      let new_parent = storable_inode (parent_without op child parent) in
      let dentry_key = encode_dentry_key parent_key op.name in
      record {
        rooted =
            put-Rooted b parent_key new_parent _
              (Alike-Fits parent_key parent new_parent (parent_without-Alike op child parent) fp)
              (delete-Rooted b child_key _
                (λ same. c.linked.no_root_entry dentry_key (at ∙ ap some same)) c.rooted);
        linked =
            put_inode-Linked b parent_key new_parent _ _
              (delete-Linked b dentry_key child_key _ _ at c.linked);
      }

  pub apply_remove-Consistent :
      (op : MetadataOperation) (index : ℕ) (db db' : Metadata b)
      → apply_remove b op index db ≡ ok db'
      → Consistent b db
      → Consistent b db'
  unfolding apply_remove
  apply_remove-Consistent op index db db' h c =
      let (parent_key, (hp, h1)) = bind-ok (encode_inode_key op.parent_id) _ db' h in
      let (child_key, (hc, h2)) =
        bind-ok (present not_found (get (encode_dentry_key parent_key op.name) db.dentries)) _ db'
          h1 in
      let (parent, (hi, h3)) = bind-ok (load_stored_inode b parent_key db) _ db' h2 in
      let (child, (hj, h4)) = bind-ok (load_stored_inode b child_key db) _ db' h3 in
      indexed-Consistent index _ db' h4 (
        removed-Consistent op parent_key child_key parent child db
          (load_stored_inode-Fits parent_key parent db c hi)
          (present-ok not_found (get (encode_dentry_key parent_key op.name) db.dentries) child_key
            hc)
          c)

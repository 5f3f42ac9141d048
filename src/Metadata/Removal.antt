-- ===== src/Metadata/Removal.antt =====
-- What a removal (`ApplyRemove` of internal/metadata_service/bolt/bolt_metadata_service.go) does to the
-- names that `Lookup` finds.
use sandstore.Base.{ℕ, ◌≡◌, ◌≢◌, refl, sym, ap, ◌∙◌, subst, none, some, arith}
use sandstore.Metadata.Bytes.{Bytes, bytes_eq}
use sandstore.Metadata.Keys.{encode_inode_key, decode_inode_id, encode_dentry_key}
use sandstore.Metadata.Types.{
  Inode, Attributes, MetadataOperation, not_found, ok, err, ◌>>=◌, present, bind-ok, present-ok,
  ok-injective,
}
use sandstore.Metadata.Bolt.{Bolt}
use sandstore.Metadata.State.{Metadata, is_directory, storable_inode, load_stored_inode}
use sandstore.Metadata.Apply.{parent_without, removed, apply_remove, indexed}
use sandstore.Metadata.Read.{lookup_name, get_attributes}
use sandstore.Metadata.Tree.{Stored, get-delete_cases, Consistent}
use sandstore.Metadata.Consistency.{parent_without-Alike}
use sandstore.Metadata.Listing.{get_attributes-Opened}
use sandstore.Metadata.Names.{
  HasDirectory, lookup_name-Bound, kept, put_still-HasDirectory, delete_still-HasDirectory,
  same-directory, dentry_keys-apart, delete-other,
}

module _ (b : Bolt) where
  open b use {Bucket, get, put, delete}

  -- What `ApplyRemove` has met when it succeeds.
  record Removal (op : MetadataOperation) (index : ℕ) (db db' : Metadata b) : Type 0 where
    parent_key : Bytes
    child_key : Bytes
    parent : Inode
    child : Inode
    parent_encoded : encode_inode_key op.parent_id ≡ ok parent_key
    dentry : get (encode_dentry_key parent_key op.name) db.dentries ≡ some child_key
    parent_stored : get parent_key db.inodes ≡ some parent
    child_stored : get child_key db.inodes ≡ some child
    result : indexed b index (removed b op parent_key child_key parent child db) ≡ db'

  apply_remove-Removal :
      (op : MetadataOperation) (index : ℕ) (db db' : Metadata b)
      → apply_remove b op index db ≡ ok db'
      → Removal op index db db'
  unfolding apply_remove load_stored_inode
  apply_remove-Removal op index db db' h =
      let (parent_key, (hp, h1)) = bind-ok (encode_inode_key op.parent_id) _ db' h in
      let dentry = get (encode_dentry_key parent_key op.name) db.dentries in
      let (child_key, (hc, h2)) = bind-ok (present not_found dentry) _ db' h1 in
      let (parent, (hi, h3)) = bind-ok (load_stored_inode b parent_key db) _ db' h2 in
      let (child, (hj, h4)) = bind-ok (load_stored_inode b child_key db) _ db' h3 in
      record {
        parent_key = parent_key;
        child_key = child_key;
        parent = parent;
        child = child;
        parent_encoded = hp;
        dentry = present-ok not_found dentry child_key hc;
        parent_stored = present-ok not_found (get parent_key db.inodes) parent hi;
        child_stored = present-ok not_found (get child_key db.inodes) child hj;
        result = ok-injective _ db' h4;
      }

  -- A name that is gone, with its inode, and the names that are still there.
  pub record Unnamed (op : MetadataOperation) (db db' : Metadata b) : Type 0 where
    pub gone : (child_id : Bytes) → lookup_name b op.parent_id op.name db' ≢ ok child_id
    pub inode_gone :
        (child_id : Bytes)
        → lookup_name b op.parent_id op.name db ≡ ok child_id
        → encode_inode_key child_id ≢ encode_inode_key op.parent_id
        → get_attributes b child_id db' ≡ err not_found
    pub others :
        (parent_id name child_id : Bytes) (attrs : Attributes)
        → lookup_name b parent_id name db ≡ ok child_id
        → (encode_inode_key parent_id ≡ encode_inode_key op.parent_id → name ≢ op.name)
        → get_attributes b parent_id db' ≡ ok attrs
        → lookup_name b parent_id name db' ≡ ok child_id

  removed_still-HasDirectory :
      (op : MetadataOperation) (parent_key child_key : Bytes) (parent child : Inode)
      (db : Metadata b) (key : Bytes)
      → get parent_key db.inodes ≡ some parent
      → HasDirectory b key db.inodes
      → Stored b key (removed b op parent_key child_key parent child db).inodes
      → HasDirectory b key (removed b op parent_key child_key parent child db).inodes
  unfolding removed
  removed_still-HasDirectory op parent_key child_key parent child db key at dir =
      put_still-HasDirectory b parent_key key (storable_inode (parent_without op child parent)) _
        (λ same.
          ap is_directory (sym (parent_without-Alike b op child parent).1)
          ∙ same-directory b parent_key key parent db.inodes at dir same)
        (delete_still-HasDirectory b child_key key db.inodes dir)

  pub get_attributes-Stored :
      (inode_id key : Bytes) (attrs : Attributes) (db : Metadata b)
      → encode_inode_key inode_id ≡ ok key
      → get_attributes b inode_id db ≡ ok attrs
      → Stored b key db.inodes
  unfolding load_stored_inode
  get_attributes-Stored inode_id key attrs db h read =
      let o = get_attributes-Opened b inode_id attrs db read in
      let same : key ≡ o.key = ok-injective key o.key (sym h ∙ o.encoded) in
      (
        o.inode,
        ap (λ k. get k db.inodes) same
            ∙ present-ok not_found (get o.key db.inodes) o.inode o.loaded,
      )

  pub some-injective : (x y : Bytes) → some x ≡ some y → x ≡ y
  some-injective x y h = ground arith

  -- The identifier that a key stands for has that key.
  decoded-encoded :
      (db : Metadata b) (key : Bytes) (inode : Inode) (inode_id : Bytes)
      → Consistent b db
      → get key db.inodes ≡ some inode
      → decode_inode_id key ≡ ok inode_id
      → encode_inode_key inode_id ≡ ok key
  decoded-encoded db key inode inode_id c at h =
      let f = c.rooted.fits key inode at in
      ap encode_inode_key (ok-injective inode_id inode.inode_id (sym h ∙ f.decoded)) ∙ f.encoded

  removed_child :
      (op : MetadataOperation) (parent_key child_key : Bytes) (parent child : Inode)
      (db : Metadata b)
      → parent_key ≢ child_key
      → get child_key (removed b op parent_key child_key parent child db).inodes ≡ none
  unfolding removed
  removed_child op parent_key child_key parent child db apart = ground (
    arith,
    b.get-put parent_key child_key (storable_inode (parent_without op child parent))
        (delete child_key db.inodes),
    b.get-delete child_key child_key db.inodes,
    bytes_eq.test_iff parent_key child_key,
    bytes_eq.test_iff child_key child_key,
  )

  removed-Unnamed :
      (op : MetadataOperation) (index : ℕ) (db db' : Metadata b)
      → Consistent b db
      → Removal op index db db'
      → Unnamed op db db'
  unfolding removed get_attributes load_stored_inode
  removed-Unnamed op index db db' c k =
      let new_db = indexed b index (removed b op k.parent_key k.child_key k.parent k.child db) in
      let from = encode_dentry_key k.parent_key op.name in
      subst (Unnamed op db) k.result (record {
        gone = λ child_id h.
            let o = lookup_name-Bound b new_db op.parent_id op.name child_id h in
            let same : k.parent_key ≡ o.key =
              ok-injective _ o.key (sym k.parent_encoded ∙ o.encoded) in
            (get-delete_cases b from (encode_dentry_key o.key op.name) o.child_key db.dentries
                o.dentry).0
              (ap (λ key. encode_dentry_key key op.name) same);
        inode_gone = λ child_id h other.
            let o = lookup_name-Bound b db op.parent_id op.name child_id h in
            let same : o.key ≡ k.parent_key =
              ok-injective o.key _ (sym o.encoded ∙ k.parent_encoded) in
            let same_child : some o.child_key ≡ some k.child_key =
              sym o.dentry
              ∙ ap (λ key. get (encode_dentry_key key op.name) db.dentries) same
              ∙ k.dentry in
            let encoded = decoded-encoded db k.child_key k.child child_id c k.child_stored (
              ap decode_inode_id (sym (some-injective o.child_key k.child_key same_child))
              ∙ o.decoded) in
            let apart : k.parent_key ≢ k.child_key =
              λ equal. other (encoded ∙ ap ok (sym equal) ∙ sym k.parent_encoded) in
            let missing = removed_child op k.parent_key k.child_key k.parent k.child db apart in
            rw (encoded, ◌>>=◌, missing) refl;
        others = λ parent_id name child_id attrs h other read.
            let o = lookup_name-Bound b db parent_id name child_id h in
            kept b db new_db parent_id name child_id o
              (removed_still-HasDirectory op k.parent_key k.child_key k.parent k.child db o.key
                k.parent_stored o.opened
                (get_attributes-Stored parent_id o.key attrs new_db o.encoded read))
              (delete-other b from (encode_dentry_key o.key name) o.child_key db.dentries
                (dentry_keys-apart b parent_id op.parent_id name op.name o.key k.parent_key
                  o.encoded k.parent_encoded other)
                o.dentry);
      })

  -- In a consistent database a removal that ends well takes the name away, and its inode unless
  -- that is the directory itself; every other name in a directory that is still there is found as
  -- before.
  pub apply_remove-Unnamed :
      (op : MetadataOperation) (index : ℕ) (db db' : Metadata b)
      → Consistent b db
      → apply_remove b op index db ≡ ok db'
      → Unnamed op db db'
  apply_remove-Unnamed op index db db' c h =
      removed-Unnamed op index db db' c (apply_remove-Removal op index db db' h)

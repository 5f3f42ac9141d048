-- ===== src/Metadata/Names.antt =====
-- What a successful `Lookup` of internal/metadata_service/bolt/bolt_metadata_service.go has met, and
-- which changes keep it.
use sandstore.Base.{◌≡◌, ◌≢◌, sym, ap, ◌∙◌, true, some, arith, ◌==◌, Bool-cases, inl, inr}
use sandstore.Metadata.Bytes.{Bytes, bytes_eq}
use sandstore.Metadata.Keys.{
  encode_inode_key, decode_inode_id, encode_dentry_key, encode_dentry_key-injective,
  encode_inode_key-length,
}
use sandstore.Metadata.Types.{Inode, not_found, ok, ◌>>=◌, present, bind-ok, present-ok}
use sandstore.Metadata.Bolt.{Bolt}
use sandstore.Metadata.State.{Metadata, is_directory, load_stored_inode}
use sandstore.Metadata.Read.{require_directory, lookup_name}
use sandstore.Metadata.Tree.{Stored, get-put_cases, get-delete_cases}

module _ (b : Bolt) where
  open b use {Bucket, get, put, delete}

  abbrev pub HasDirectory : Bytes → Bucket Inode → Type 0
  HasDirectory key inodes =
      (inode : Inode) × ((get key inodes ≡ some inode) × (is_directory inode.inode_type ≡ true))

  pub put-HasDirectory :
      (key j : Bytes) (new : Inode) (inodes : Bucket Inode)
      → (key ≡ j → is_directory new.inode_type ≡ true)
      → HasDirectory j inodes
      → HasDirectory j (put key new inodes)
  put-HasDirectory key j new inodes dir (inode, (at, old)) = elim (Bool-cases (key == j)) [
    | inl same ↦
        (new, (ground (arith, b.get-put key j new inodes), dir ((bytes_eq.test_iff key j).0 same)))
    | inr other ↦ (inode, (ground (arith, b.get-put key j new inodes), old))
  ]

  pub delete-HasDirectory :
      (key j : Bytes) (inodes : Bucket Inode)
      → key ≢ j
      → HasDirectory j inodes
      → HasDirectory j (delete key inodes)
  delete-HasDirectory key j inodes other (inode, (at, dir)) =
      (inode, (ground (arith, b.get-delete key j inodes, bytes_eq.test_iff key j), dir))

  -- What a lookup that succeeds has met.
  pub record Bound (db : Metadata b) (parent_id name child_id : Bytes) : Type 0 where
    pub key : Bytes
    pub child_key : Bytes
    pub encoded : encode_inode_key parent_id ≡ ok key
    pub opened : HasDirectory key db.inodes
    pub dentry : get (encode_dentry_key key name) db.dentries ≡ some child_key
    pub decoded : decode_inode_id child_key ≡ ok child_id

  require_directory-ok :
      (i j : Inode) → require_directory i ≡ ok j → is_directory i.inode_type ≡ true
  require_directory-ok i j h = ground arith

  pub lookup_name-Bound :
      (db : Metadata b) (parent_id name child_id : Bytes)
      → lookup_name b parent_id name db ≡ ok child_id
      → Bound db parent_id name child_id
  unfolding lookup_name load_stored_inode
  lookup_name-Bound db parent_id name child_id h =
      let (key, (hk, h1)) = bind-ok (encode_inode_key parent_id) _ child_id h in
      let (inode, (hi, h2)) = bind-ok (load_stored_inode b key db) _ child_id h1 in
      let (dir, (hd, h3)) = bind-ok (require_directory inode) _ child_id h2 in
      let dentry = get (encode_dentry_key key name) db.dentries in
      let (child_key, (hc, h4)) = bind-ok (present not_found dentry) _ child_id h3 in
      record {
        key = key;
        child_key = child_key;
        encoded = hk;
        opened = (
          inode,
          (present-ok not_found (get key db.inodes) inode hi, require_directory-ok inode dir hd),
        );
        dentry = present-ok not_found dentry child_key hc;
        decoded = h4;
      }

  pub Bound-lookup_name :
      (db : Metadata b) (parent_id name child_id : Bytes)
      → Bound db parent_id name child_id
      → lookup_name b parent_id name db ≡ ok child_id
  unfolding lookup_name load_stored_inode
  Bound-lookup_name db parent_id name child_id o =
      let (inode, (at, dir)) = o.opened in
      rw (o.encoded, ◌>>=◌, at, present, dir, o.dentry) o.decoded

  -- A lookup is kept where the directory and the dentry are.
  pub kept :
      (db db' : Metadata b) (parent_id name child_id : Bytes) (o : Bound db parent_id name child_id)
      → HasDirectory o.key db'.inodes
      → get (encode_dentry_key o.key name) db'.dentries ≡ some o.child_key
      → lookup_name b parent_id name db' ≡ ok child_id
  kept db db' parent_id name child_id o dir at =
      Bound-lookup_name db' parent_id name child_id (record {
        key = o.key;
        child_key = o.child_key;
        encoded = o.encoded;
        opened = dir;
        dentry = at;
        decoded = o.decoded;
      })

  -- A directory that is stored again as one, or is still there after a change, is a directory.
  pub put_still-HasDirectory :
      (key j : Bytes) (new : Inode) (inodes : Bucket Inode)
      → (key ≡ j → is_directory new.inode_type ≡ true)
      → (Stored b j inodes → HasDirectory j inodes)
      → Stored b j (put key new inodes)
      → HasDirectory j (put key new inodes)
  put_still-HasDirectory key j new inodes dir before (inode, at) =
      elim (get-put_cases b key j new inode inodes at) [
        | inl (same, _) ↦
            (new, (ground (arith, b.get-put key j new inodes, bytes_eq.test_iff key j), dir same))
        | inr there ↦ put-HasDirectory key j new inodes dir (before (inode, there))
      ]

  pub delete_still-HasDirectory :
      (key j : Bytes) (inodes : Bucket Inode)
      → HasDirectory j inodes
      → Stored b j (delete key inodes)
      → HasDirectory j (delete key inodes)
  delete_still-HasDirectory key j inodes dir (inode, at) =
      delete-HasDirectory key j inodes (get-delete_cases b key j inode inodes at).0 dir

  -- A stored inode of a directory is one.
  pub same-directory :
      (key j : Bytes) (inode : Inode) (inodes : Bucket Inode)
      → get key inodes ≡ some inode
      → HasDirectory j inodes
      → key ≡ j
      → is_directory inode.inode_type ≡ true
  same-directory key j inode inodes at (i, (at', dir)) same =
      let equal : some inode ≡ some i = sym at ∙ ap (λ k. get k inodes) same ∙ at' in
      let here : inode ≡ i = ground arith in
      ap (λ (k : Inode). is_directory k.inode_type) here ∙ dir

  -- Names of different directories, and different names, have different keys.
  pub dentry_keys-apart :
      (p q n m p_key q_key : Bytes)
      → encode_inode_key p ≡ ok p_key
      → encode_inode_key q ≡ ok q_key
      → (encode_inode_key p ≡ encode_inode_key q → n ≢ m)
      → encode_dentry_key q_key m ≢ encode_dentry_key p_key n
  dentry_keys-apart p q n m p_key q_key hp hq other same =
      let (keys, names) =
        encode_dentry_key-injective q_key p_key m n (encode_inode_key-length q q_key hq)
          (encode_inode_key-length p p_key hp) same in
      other (hp ∙ ap ok (sym keys) ∙ sym hq) (sym names)

  -- What a deletion leaves.
  pub delete-other :
      {V : Type 0} (k j : Bytes) (v : V) (m : Bucket V)
      → k ≢ j
      → get j m ≡ some v
      → get j (delete k m) ≡ some v
  delete-other k j v m other at = ground (arith, b.get-delete k j m, bytes_eq.test_iff k j)

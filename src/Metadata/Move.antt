-- ===== src/Metadata/Move.antt =====
-- What a rename (`ApplyRename` of internal/metadata_service/bolt/bolt_metadata_service.go) does to the
-- names that `Lookup` finds.
use sandstore.Base.{ℕ, ◌≡◌, ◌≢◌, sym, ap, ◌∙◌, subst, true, Option, none, some, arith, inl, inr}
use sandstore.Metadata.Bytes.{Bytes, bytes_eq}
use sandstore.Metadata.Keys.{encode_inode_key, decode_inode_id, encode_dentry_key}
use sandstore.Metadata.Types.{
  Inode, Attributes, MetadataOperation, not_found, ok, present, bind-ok, present-ok, ok-injective,
}
use sandstore.Metadata.Bolt.{Bolt}
use sandstore.Metadata.State.{Metadata, is_directory, storable_inode, load_stored_inode}
use sandstore.Metadata.Apply.{renamed, apply_rename, touched, drop_overwritten, indexed}
use sandstore.Metadata.Read.{lookup_name, get_attributes}
use sandstore.Metadata.Tree.{Stored, get-put_same, get-put_cases, get-delete_cases}
use sandstore.Metadata.Listing.{get_attributes-Opened}
use sandstore.Metadata.Names.{
  HasDirectory, lookup_name-Bound, Bound-lookup_name, kept, put_still-HasDirectory,
  delete_still-HasDirectory, same-directory, dentry_keys-apart, delete-other,
}
use sandstore.Metadata.Removal.{get_attributes-Stored, some-injective}

module _ (b : Bolt) where
  open b use {Bucket, get, put, delete}

  -- What `ApplyRename` has met when it succeeds.
  record Move (op : MetadataOperation) (index : ℕ) (db db' : Metadata b) : Type 0 where
    src_key : Bytes
    dst_key : Bytes
    src : Inode
    dst : Inode
    child_key : Bytes
    src_encoded : encode_inode_key op.parent_id ≡ ok src_key
    dst_encoded : encode_inode_key op.dst_parent_id ≡ ok dst_key
    src_stored : get src_key db.inodes ≡ some src
    dst_stored : get dst_key db.inodes ≡ some dst
    dentry : get (encode_dentry_key src_key op.name) db.dentries ≡ some child_key
    result : indexed b index (renamed b op src_key dst_key src dst child_key db) ≡ db'

  apply_rename-Move :
      (op : MetadataOperation) (index : ℕ) (db db' : Metadata b)
      → apply_rename b op index db ≡ ok db'
      → Move op index db db'
  unfolding apply_rename load_stored_inode
  apply_rename-Move op index db db' h =
      let (src_key, (hs, h1)) = bind-ok (encode_inode_key op.parent_id) _ db' h in
      let (dst_key, (hd, h2)) = bind-ok (encode_inode_key op.dst_parent_id) _ db' h1 in
      let (src, (hi, h3)) = bind-ok (load_stored_inode b src_key db) _ db' h2 in
      let (dst, (hj, h4)) = bind-ok (load_stored_inode b dst_key db) _ db' h3 in
      let dentry = get (encode_dentry_key src_key op.name) db.dentries in
      let (child_key, (hc, h5)) = bind-ok (present not_found dentry) _ db' h4 in
      record {
        src_key = src_key;
        dst_key = dst_key;
        src = src;
        dst = dst;
        child_key = child_key;
        src_encoded = hs;
        dst_encoded = hd;
        src_stored = present-ok not_found (get src_key db.inodes) src hi;
        dst_stored = present-ok not_found (get dst_key db.inodes) dst hj;
        dentry = present-ok not_found dentry child_key hc;
        result = ok-injective _ db' h5;
      }

  -- A name that moved, and the names that are still there.
  pub record Moved (op : MetadataOperation) (db db' : Metadata b) : Type 0 where
    pub found :
        (child_id : Bytes) (attrs : Attributes)
        → lookup_name b op.parent_id op.name db ≡ ok child_id
        → get_attributes b op.dst_parent_id db ≡ ok attrs
        → is_directory attrs.inode_type ≡ true
        → lookup_name b op.dst_parent_id op.dst_name db' ≡ ok child_id
    pub gone :
        (child_id : Bytes)
        → (encode_inode_key op.parent_id ≡ encode_inode_key op.dst_parent_id
            → op.name ≢ op.dst_name)
        → lookup_name b op.parent_id op.name db' ≢ ok child_id
    pub others :
        (parent_id name child_id : Bytes) (attrs : Attributes)
        → lookup_name b parent_id name db ≡ ok child_id
        → (encode_inode_key parent_id ≡ encode_inode_key op.parent_id → name ≢ op.name)
        → (encode_inode_key parent_id ≡ encode_inode_key op.dst_parent_id → name ≢ op.dst_name)
        → get_attributes b parent_id db' ≡ ok attrs
        → lookup_name b parent_id name db' ≡ ok child_id

  put-other :
      {V : Type 0} (k j : Bytes) (v w : V) (m : Bucket V)
      → k ≢ j
      → get j m ≡ some w
      → get j (put k v m) ≡ some w
  put-other k j v w m other at = ground (arith, b.get-put k j v m, bytes_eq.test_iff k j)

  dropped_still-HasDirectory :
      (overwritten : Option Bytes) (key : Bytes) (inodes : Bucket Inode)
      → HasDirectory b key inodes
      → Stored b key (drop_overwritten b overwritten inodes)
      → HasDirectory b key (drop_overwritten b overwritten inodes)
  unfolding drop_overwritten
  dropped_still-HasDirectory none key inodes dir stored = dir
  dropped_still-HasDirectory (some o) key inodes dir stored =
      delete_still-HasDirectory b o key inodes dir stored

  renamed_still-HasDirectory :
      (op : MetadataOperation) (src_key dst_key : Bytes) (src dst : Inode) (child_key : Bytes)
      (db : Metadata b) (key : Bytes)
      → get src_key db.inodes ≡ some src
      → get dst_key db.inodes ≡ some dst
      → HasDirectory b key db.inodes
      → Stored b key (renamed b op src_key dst_key src dst child_key db).inodes
      → HasDirectory b key (renamed b op src_key dst_key src dst child_key db).inodes
  unfolding renamed
  renamed_still-HasDirectory op src_key dst_key src dst child_key db key at_src at_dst dir =
      put_still-HasDirectory b dst_key key (storable_inode (touched op.timestamp dst)) _
        (same-directory b dst_key key dst db.inodes at_dst dir)
        (put_still-HasDirectory b src_key key (storable_inode (touched op.timestamp src)) _
          (same-directory b src_key key src db.inodes at_src dir)
          (dropped_still-HasDirectory _ key db.inodes dir))

  get_attributes-directory :
      (inode_id key : Bytes) (attrs : Attributes) (inode : Inode) (db : Metadata b)
      → encode_inode_key inode_id ≡ ok key
      → get key db.inodes ≡ some inode
      → get_attributes b inode_id db ≡ ok attrs
      → is_directory attrs.inode_type ≡ true
      → is_directory inode.inode_type ≡ true
  unfolding load_stored_inode
  get_attributes-directory inode_id key attrs inode db h at read dir =
      let o = get_attributes-Opened b inode_id attrs db read in
      let same : o.key ≡ key = ok-injective o.key key (sym o.encoded ∙ h) in
      same-directory b key o.key inode db.inodes at
        (
          o.inode,
          (
            present-ok not_found (get o.key db.inodes) o.inode o.loaded,
            ap is_directory o.same_type ∙ dir,
          ),
        )
        (sym same)

  Move-Moved :
      (op : MetadataOperation) (index : ℕ) (db db' : Metadata b)
      → Move op index db db'
      → Moved op db db'
  unfolding renamed
  Move-Moved op index db db' k =
      let new_db = indexed b index (renamed b op k.src_key k.dst_key k.src k.dst k.child_key db) in
      let from = encode_dentry_key k.src_key op.name in
      let to = encode_dentry_key k.dst_key op.dst_name in
      let still = λ (key : Bytes).
        renamed_still-HasDirectory op k.src_key k.dst_key k.src k.dst k.child_key db key
          k.src_stored k.dst_stored in
      subst (Moved op db) k.result (record {
        found = λ child_id attrs h read dir.
            let o = lookup_name-Bound b db op.parent_id op.name child_id h in
            let same : o.key ≡ k.src_key = ok-injective o.key _ (sym o.encoded ∙ k.src_encoded) in
            let same_child : some o.child_key ≡ some k.child_key =
              sym o.dentry
              ∙ ap (λ key. get (encode_dentry_key key op.name) db.dentries) same
              ∙ k.dentry in
            let dst_dir =
              get_attributes-directory op.dst_parent_id k.dst_key attrs k.dst db k.dst_encoded
                k.dst_stored read dir in
            Bound-lookup_name b new_db op.dst_parent_id op.dst_name child_id (record {
              key = k.dst_key;
              child_key = k.child_key;
              encoded = k.dst_encoded;
              opened =
                  still k.dst_key (k.dst, (k.dst_stored, dst_dir))
                    (storable_inode (touched op.timestamp k.dst), get-put_same b k.dst_key _ _);
              dentry = get-put_same b to k.child_key (delete from db.dentries);
              decoded =
                  ap decode_inode_id (sym (some-injective b o.child_key k.child_key same_child))
                  ∙ o.decoded;
            });
        gone = λ child_id other h.
            let o = lookup_name-Bound b new_db op.parent_id op.name child_id h in
            let same : k.src_key ≡ o.key = ok-injective _ o.key (sym k.src_encoded ∙ o.encoded) in
            let key = encode_dentry_key o.key op.name in
            let apart =
              dentry_keys-apart b op.parent_id op.dst_parent_id op.name op.dst_name o.key k.dst_key
                o.encoded k.dst_encoded other in
            elim (get-put_cases b to key k.child_key o.child_key (delete from db.dentries)
              o.dentry) [
                | inl (here, _) ↦ apart here
                | inr there ↦
                    (get-delete_cases b from key o.child_key db.dentries there).0
                      (ap (λ j. encode_dentry_key j op.name) same)
              ];
        others = λ parent_id name child_id attrs h not_src not_dst read.
            let o = lookup_name-Bound b db parent_id name child_id h in
            let key = encode_dentry_key o.key name in
            kept b db new_db parent_id name child_id o
              (still o.key o.opened
                (get_attributes-Stored b parent_id o.key attrs new_db o.encoded read))
              (put-other to key k.child_key o.child_key (delete from db.dentries)
                (dentry_keys-apart b parent_id op.dst_parent_id name op.dst_name o.key k.dst_key
                  o.encoded k.dst_encoded not_dst)
                (delete-other b from key o.child_key db.dentries
                  (dentry_keys-apart b parent_id op.parent_id name op.name o.key k.src_key o.encoded
                    k.src_encoded not_src)
                  o.dentry));
      })

  -- A rename that ends well binds the new name to the inode of the old one, where the target is a
  -- directory, takes the old name away, unless both are the same, and leaves every other name in a
  -- directory that is still there.
  pub apply_rename-Moved :
      (op : MetadataOperation) (index : ℕ) (db db' : Metadata b)
      → apply_rename b op index db ≡ ok db'
      → Moved op db db'
  apply_rename-Moved op index db db' h =
      Move-Moved op index db db' (apply_rename-Move op index db db' h)

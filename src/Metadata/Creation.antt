-- ===== src/Metadata/Creation.antt =====
-- What a creation (`ApplyCreate` of internal/metadata_service/bolt/bolt_metadata_service.go) does to
-- the names that `Lookup` finds.
use sandstore.Base.{ℕ, ◌≡◌, ◌≢◌, refl, sym, ap, ◌∙◌, subst, true, none, some, arith}
use sandstore.Metadata.Bytes.{Bytes, bytes_eq}
use sandstore.Metadata.Keys.{encode_inode_key, encode_dentry_key}
use sandstore.Metadata.Types.{
  Inode, MetadataOperation, not_found, ok, err, ◌>>=◌, bind-ok, present-ok, ok-injective,
}
use sandstore.Metadata.Bolt.{Bolt}
use sandstore.Metadata.State.{Metadata, is_directory, storable_inode, load_stored_inode}
use sandstore.Metadata.Apply.{created_inode, parent_with, created, create_in, apply_create, indexed}
use sandstore.Metadata.Read.{lookup_name, get_attributes}
use sandstore.Metadata.Tree.{get-put_same}
use sandstore.Metadata.Consistency.{Fresh, canonical, parent_with-Alike, create_in-ok}
use sandstore.Metadata.Names.{
  HasDirectory, put-HasDirectory, lookup_name-Bound, Bound-lookup_name, kept,
}

module _ (b : Bolt) where
  open b use {Bucket, get, put, delete}

  -- What `ApplyCreate` has met when it succeeds.
  record Creation (op : MetadataOperation) (index : ℕ) (db db' : Metadata b) : Type 0 where
    parent_key : Bytes
    child_key : Bytes
    parent : Inode
    parent_encoded : encode_inode_key op.parent_id ≡ ok parent_key
    child_encoded : encode_inode_key op.inode_id ≡ ok child_key
    parent_stored : get parent_key db.inodes ≡ some parent
    parent_directory : is_directory parent.inode_type ≡ true
    free : get (encode_dentry_key parent_key op.name) db.dentries ≡ none
    result : indexed b index (created b op parent_key child_key parent db) ≡ db'

  create_in-free :
      (op : MetadataOperation) (parent_key child_key : Bytes) (parent : Inode)
      (db done : Metadata b)
      → create_in b op parent_key child_key parent db ≡ ok done
      → (is_directory parent.inode_type ≡ true)
        × (get (encode_dentry_key parent_key op.name) db.dentries ≡ none)
  unfolding create_in
  create_in-free op parent_key child_key parent db done h = ground arith

  apply_create-Creation :
      (op : MetadataOperation) (index : ℕ) (db db' : Metadata b)
      → apply_create b op index db ≡ ok db'
      → Creation op index db db'
  unfolding apply_create load_stored_inode
  apply_create-Creation op index db db' h =
      let (parent_key, (hp, h1)) = bind-ok (encode_inode_key op.parent_id) _ db' h in
      let (child_key, (hc, h2)) = bind-ok (encode_inode_key op.inode_id) _ db' h1 in
      let (parent, (hi, h3)) = bind-ok (load_stored_inode b parent_key db) _ db' h2 in
      let (done, (hd, h4)) = bind-ok (create_in b op parent_key child_key parent db) _ db' h3 in
      let (dir, free) = create_in-free op parent_key child_key parent db done hd in
      record {
        parent_key = parent_key;
        child_key = child_key;
        parent = parent;
        parent_encoded = hp;
        child_encoded = hc;
        parent_stored = present-ok not_found (get parent_key db.inodes) parent hi;
        parent_directory = dir;
        free = free;
        result =
            ap (indexed b index) (create_in-ok b op parent_key child_key parent db done hd)
            ∙ ok-injective _ db' h4;
      }

  -- A new name, with its inode, and the names that were there.
  pub record Named (op : MetadataOperation) (db db' : Metadata b) : Type 0 where
    pub was_free : lookup_name b op.parent_id op.name db ≡ err not_found
    pub found : lookup_name b op.parent_id op.name db' ≡ ok op.inode_id
    pub has_attributes :
        get_attributes b op.inode_id db'
        ≡ ok (record {
          inode_id = op.inode_id;
          inode_type = op.file_type;
          mode = op.mode;
          size = 0;
          access_time = op.timestamp;
          modify_time = op.timestamp;
          change_time = op.timestamp;
          uid = op.uid;
          gid = op.gid;
        })
    pub others :
        (parent_id name child_id : Bytes)
        → lookup_name b parent_id name db ≡ ok child_id
        → lookup_name b parent_id name db' ≡ ok child_id

  created-HasDirectory :
      (op : MetadataOperation) (parent_key child_key : Bytes) (parent : Inode) (db : Metadata b)
      (key : Bytes)
      → is_directory parent.inode_type ≡ true
      → get child_key db.inodes ≡ none
      → HasDirectory b key db.inodes
      → HasDirectory b key (created b op parent_key child_key parent db).inodes
  unfolding created
  created-HasDirectory op parent_key child_key parent db key dir unused (inode, (at, old)) =
      let occupied : child_key ≢ key = λ same. absurd (cc) in
      put-HasDirectory b parent_key key (storable_inode (parent_with op parent)) _
        (λ _. ap is_directory (sym (parent_with-Alike b op parent).1) ∙ dir)
        (put-HasDirectory b child_key key (storable_inode (created_inode op)) db.inodes
          (λ same. absurd (occupied same)) (inode, (at, old)))

  child_stored :
      (op : MetadataOperation) (parent_key child_key : Bytes) (parent : Inode) (db : Metadata b)
      → get parent_key db.inodes ≡ some parent
      → get child_key db.inodes ≡ none
      → get child_key (created b op parent_key child_key parent db).inodes
        ≡ some (storable_inode (created_inode op))
  unfolding created
  child_stored op parent_key child_key parent db at unused =
      let new_inode = storable_inode (created_inode op) in
      let other : parent_key ≢ child_key = λ same. absurd (cc) in
      ground (
        arith,
        b.get-put parent_key child_key (storable_inode (parent_with op parent))
            (put child_key new_inode db.inodes),
        get-put_same b child_key new_inode db.inodes,
        bytes_eq.test_iff parent_key child_key,
      )

  other_dentry :
      (new_key key new_child child : Bytes) (dentries : Bucket Bytes)
      → get new_key dentries ≡ none
      → get key dentries ≡ some child
      → get key (put new_key new_child dentries) ≡ some child
  other_dentry new_key key new_child child dentries free at =
      let other : new_key ≢ key = λ same. absurd (cc) in
      ground (arith, b.get-put new_key key new_child dentries, bytes_eq.test_iff new_key key)

  created-Named :
      (op : MetadataOperation) (index : ℕ) (db db' : Metadata b)
      → Fresh b op.inode_id db
      → Creation op index db db'
      → Named op db db'
  unfolding created created_inode get_attributes lookup_name load_stored_inode
  created-Named op index db db' fresh k =
      let unused = fresh.unused k.child_key k.child_encoded in
      let new_db = created b op k.parent_key k.child_key k.parent db in
      let parent_stays =
        created-HasDirectory op k.parent_key k.child_key k.parent db k.parent_key k.parent_directory
          unused (k.parent, (k.parent_stored, k.parent_directory)) in
      subst (Named op db) k.result (record {
        was_free = rw (k.parent_encoded, ◌>>=◌, k.parent_stored, k.parent_directory, k.free) refl;
        found =
            Bound-lookup_name b (indexed b index new_db) op.parent_id op.name op.inode_id (record {
              key = k.parent_key;
              child_key = k.child_key;
              encoded = k.parent_encoded;
              opened = parent_stays;
              dentry =
                  get-put_same b (encode_dentry_key k.parent_key op.name) k.child_key db.dentries;
              decoded =
                  canonical b op.inode_id k.child_key fresh.number fresh.small fresh.made
                    k.child_encoded;
            });
        has_attributes =
            rw
              (
                k.child_encoded,
                ◌>>=◌,
                child_stored op k.parent_key k.child_key k.parent db k.parent_stored unused,
              )
              refl;
        others = λ parent_id name child_id h.
            let o = lookup_name-Bound b db parent_id name child_id h in
            kept b db (indexed b index new_db) parent_id name child_id o
              (created-HasDirectory op k.parent_key k.child_key k.parent db o.key k.parent_directory
                unused o.opened)
              (other_dentry (encode_dentry_key k.parent_key op.name) (encode_dentry_key o.key name)
                k.child_key o.child_key db.dentries k.free o.dentry);
      })

  -- A creation with a new identifier that ends well found the name free; it binds the name to the
  -- inode, which has the type, mode, owner and times of the operation and no content, and every
  -- name that was looked up before is found as before.
  pub apply_create-Named :
      (op : MetadataOperation) (index : ℕ) (db db' : Metadata b)
      → Fresh b op.inode_id db
      → apply_create b op index db ≡ ok db'
      → Named op db db'
  apply_create-Named op index db db' fresh h =
      created-Named op index db db' fresh (apply_create-Creation op index db db' h)

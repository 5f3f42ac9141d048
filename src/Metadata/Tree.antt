-- ===== src/Metadata/Tree.antt =====
-- What holds between the buckets of the inodes and of the dentries of
-- internal/metadata_service/bolt/bolt_metadata_service.go, and which changes of a bucket keep it.
use sandstore.Base.{
  ◌≡◌, ◌≢◌, sym, ap, ◌∙◌, subst, true, some, arith, ◌==◌, Bool-cases, ◌⊎◌, inl, inr,
}
use sandstore.Metadata.Bytes.{Bytes, bytes_eq, put_big_endian}
use sandstore.Metadata.Keys.{encode_inode_key, decode_inode_id}
use sandstore.Metadata.Types.{Inode, ok}
use sandstore.Metadata.Bolt.{Bolt}
use sandstore.Metadata.State.{Metadata, is_directory}

-- The key of the root, whose identifier is "0".
abbrev pub root_key : Bytes
root_key = put_big_endian 8 0

-- An inode under its own key; the root is a directory.
pub record Fits (key : Bytes) (inode : Inode) : Type 0 where
  pub encoded : encode_inode_key inode.inode_id ≡ ok key
  pub decoded : decode_inode_id key ≡ ok inode.inode_id
  pub root_directory : key ≡ root_key → is_directory inode.inode_type ≡ true

module _ (b : Bolt) where
  open b use {Bucket, get, put, delete}

  module _ {V : Type 0} where
    abbrev pub Stored : Bytes → Bucket V → Type 0
    Stored key bucket = (v : V) × (get key bucket ≡ some v)

    pub get-put_same : (k : Bytes) (v : V) (m : Bucket V) → get k (put k v m) ≡ some v
    get-put_same k v m = ground (arith, b.get-put k k v m, bytes_eq.test_iff k k)

    pub get-put_cases :
        (k j : Bytes) (v w : V) (m : Bucket V)
        → get j (put k v m) ≡ some w
        → ((k ≡ j) × (v ≡ w)) ⊎ (get j m ≡ some w)
    get-put_cases k j v w m h = ground (arith, b.get-put k j v m, bytes_eq.test_iff k j)

    pub get-delete_cases :
        (k j : Bytes) (w : V) (m : Bucket V)
        → get j (delete k m) ≡ some w
        → (k ≢ j) × (get j m ≡ some w)
    get-delete_cases k j w m h = ground (arith, b.get-delete k j m, bytes_eq.test_iff k j)

    pub put-Stored : (k j : Bytes) (v : V) (m : Bucket V) → Stored j m → Stored j (put k v m)
    put-Stored k j v m (w, h) = elim (Bool-cases (k == j)) [
      | inl same ↦ (v, ground (arith, b.get-put k j v m))
      | inr other ↦ (w, ground (arith, b.get-put k j v m))
    ]

    pub delete-Stored : (k j : Bytes) (m : Bucket V) → k ≢ j → Stored j m → Stored j (delete k m)
    delete-Stored k j m other (w, h) =
        (w, ground (arith, b.get-delete k j m, bytes_eq.test_iff k j))

  -- The inodes: each under its key, and the root is there.
  pub record Rooted (inodes : Bucket Inode) : Type 0 where
    pub fits : (key : Bytes) (inode : Inode) → get key inodes ≡ some inode → Fits key inode
    pub has_root : Stored root_key inodes

  pub put-Rooted :
      (key : Bytes) (inode : Inode) (inodes : Bucket Inode)
      → Fits key inode
      → Rooted inodes
      → Rooted (put key inode inodes)
  put-Rooted key inode inodes f r = record {
    fits = λ j w h. elim (get-put_cases key j inode w inodes h) [
      | inl (same_key, same) ↦ subst (λ j'. Fits j' w) same_key (subst (Fits key) same f)
      | inr there ↦ r.fits j w there
    ];
    has_root = put-Stored key root_key inode inodes r.has_root;
  }

  pub delete-Rooted :
      (key : Bytes) (inodes : Bucket Inode)
      → key ≢ root_key
      → Rooted inodes
      → Rooted (delete key inodes)
  delete-Rooted key inodes other r = record {
    fits = λ j w h. r.fits j w (get-delete_cases key j w inodes h).1;
    has_root = delete-Stored key root_key inodes other r.has_root;
  }

  -- The dentries: each leads to an inode, no two to the same, none to the root.
  pub record Linked (inodes : Bucket Inode) (dentries : Bucket Bytes) : Type 0 where
    pub child_stored : (k child : Bytes) → get k dentries ≡ some child → Stored child inodes
    pub one_parent :
        (k j child : Bytes) → get k dentries ≡ some child → get j dentries ≡ some child → k ≡ j
    pub no_root_entry : (k : Bytes) → get k dentries ≢ some root_key

  pub put_inode-Linked :
      (key : Bytes) (inode : Inode) (inodes : Bucket Inode) (dentries : Bucket Bytes)
      → Linked inodes dentries
      → Linked (put key inode inodes) dentries
  put_inode-Linked key inode inodes dentries l = record {
    child_stored = λ k child h. put-Stored key child inode inodes (l.child_stored k child h);
    one_parent = l.one_parent;
    no_root_entry = l.no_root_entry;
  }

  -- An entry and its inode go together.
  pub delete-Linked :
      (k child : Bytes) (inodes : Bucket Inode) (dentries : Bucket Bytes)
      → get k dentries ≡ some child
      → Linked inodes dentries
      → Linked (delete child inodes) (delete k dentries)
  delete-Linked k child inodes dentries at l = record {
    child_stored = λ j c h.
        let (other, there) = get-delete_cases k j c dentries h in
        delete-Stored child c inodes (λ same. other (l.one_parent k j c (at ∙ ap some same) there))
          (l.child_stored j c there);
    one_parent = λ i j c h h'.
        l.one_parent i j c (get-delete_cases k i c dentries h).1
          (get-delete_cases k j c dentries h').1;
    no_root_entry = λ j h. l.no_root_entry j (get-delete_cases k j root_key dentries h).1;
  }

  -- Taking an entry away, with its inode left.
  pub delete_entry-Linked :
      (k : Bytes) (inodes : Bucket Inode) (dentries : Bucket Bytes)
      → Linked inodes dentries
      → Linked inodes (delete k dentries)
  delete_entry-Linked k inodes dentries l = record {
    child_stored = λ j c h. l.child_stored j c (get-delete_cases k j c dentries h).1;
    one_parent = λ i j c h h'.
        l.one_parent i j c (get-delete_cases k i c dentries h).1
          (get-delete_cases k j c dentries h').1;
    no_root_entry = λ j h. l.no_root_entry j (get-delete_cases k j root_key dentries h).1;
  }

  -- A new entry for an inode that no other entry leads to.
  pub put-Linked :
      (k child : Bytes) (inodes : Bucket Inode) (dentries : Bucket Bytes)
      → Stored child inodes
      → child ≢ root_key
      → ((j : Bytes) → get j dentries ≢ some child)
      → Linked inodes dentries
      → Linked inodes (put k child dentries)
  put-Linked k child inodes dentries stored other unlinked l = record {
    child_stored = λ j c h. elim (get-put_cases k j child c dentries h) [
      | inl (_, same) ↦ subst (λ c'. Stored c' inodes) same stored
      | inr there ↦ l.child_stored j c there
    ];
    one_parent = λ i j c h h'. elim (get-put_cases k i child c dentries h) [
      | inl (here, same) ↦ elim (get-put_cases k j child c dentries h') [
        | inl (here', _) ↦ sym here ∙ here'
        | inr there ↦ absurd (unlinked j (there ∙ ap some (sym same)))
      ]
      | inr there ↦ elim (get-put_cases k j child c dentries h') [
        | inl (_, same) ↦ absurd (unlinked i (there ∙ ap some (sym same)))
        | inr there' ↦ l.one_parent i j c there there'
      ]
    ];
    no_root_entry = λ j h. elim (get-put_cases k j child root_key dentries h) [
      | inl (_, same) ↦ other same
      | inr there ↦ l.no_root_entry j there
    ];
  }

  -- What a bucket gives is all that counts.
  pub same_entries-Linked :
      (inodes : Bucket Inode) (d e : Bucket Bytes)
      → ((k : Bytes) → get k d ≡ get k e)
      → Linked inodes d
      → Linked inodes e
  same_entries-Linked inodes d e same l = record {
    child_stored = λ k child h. l.child_stored k child (same k ∙ h);
    one_parent = λ k j child h h'. l.one_parent k j child (same k ∙ h) (same j ∙ h');
    no_root_entry = λ k h. l.no_root_entry k (same k ∙ h);
  }

  -- A file system: the inodes are rooted, and the dentries linked to them.
  pub record Consistent (db : Metadata b) : Type 0 where
    pub rooted : Rooted db.inodes
    pub linked : Linked db.inodes db.dentries

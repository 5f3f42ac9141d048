-- ===== src/Metadata/Listing.antt =====
-- Directory listings (`ReadDir`, `ReadDirPlus` of internal/metadata_service/bolt/bolt_metadata_service.go)
-- against lookups.
use sandstore.Base.{
  ◌≡◌, refl, sym, ap, ◌∙◌, subst, true, some, List, [], ◌∷◌, ◌++◌, All, length, ◌⊎◌, inl, inr,
}
use sandstore.Metadata.Bytes.{Bytes, bytes_eq, has_prefix}
use sandstore.Metadata.Keys.{
  encode_inode_key, decode_inode_id, encode_dentry_key, drop, append-drop, drop-append,
  has_prefix-append,
}
use sandstore.Metadata.Types.{
  Inode, Attributes, DirEntry, not_found, ok, ◌>>=◌, present, bind-ok, present-ok, ok-injective,
}
use sandstore.Metadata.Bolt.{Bolt, Listed}
use sandstore.Metadata.State.{Metadata, is_directory, load_stored_inode}
use sandstore.Metadata.Read.{attributes, lookup_name, get_attributes, collect_entries, all_entries}
use sandstore.Metadata.Tree.{Consistent}

-- Some entry has the name.
abbrev pub Named : Bytes → List DirEntry → Type 0
Named name [] = ⊥
Named name (entry ∷ entries) = (entry.name ≡ name) ⊎ Named name entries

module _ (b : Bolt) where
  open b use {Bucket, get, scan}

  -- The entry names an inode of the database, as the dentry under the key does.
  record Denotes (db : Metadata b) (parent_key : Bytes) (entry : DirEntry) : Type 0 where
    child_key : Bytes
    child : Inode
    dentry : get (encode_dentry_key parent_key entry.name) db.dentries ≡ some child_key
    stored : get child_key db.inodes ≡ some child
    same_id : child.inode_id ≡ entry.inode_id

  -- A pair that a scan may yield.
  abbrev Scanned : Metadata b → Bytes → (Bytes × Bytes) → Type 0
  Scanned db parent_key e = (get e.0 db.dentries ≡ some e.1) × (has_prefix parent_key e.0 ≡ true)

  -- What the loop makes of the pairs.
  record Collected (db : Metadata b) (parent_key : Bytes) (pairs : List (Bytes × Bytes))
      : Type 0 where
    entries : List DirEntry
    result : collect_entries b (length parent_key) pairs db ≡ ok entries
    denoted : All (Denotes db parent_key) entries
    complete :
        (key child_key : Bytes)
        → Listed key child_key pairs
        → Named (drop (length parent_key) key) entries

  collect_entries-Collected :
      (db : Metadata b) (parent_key : Bytes) (pairs : List (Bytes × Bytes))
      → Consistent b db
      → All (Scanned db parent_key) pairs
      → Collected db parent_key pairs
  unfolding collect_entries encode_dentry_key
  collect_entries-Collected db parent_key [] c _ = record {
    entries = [];
    result = refl;
    denoted = tt;
    complete = λ key child_key h. h;
  }
  collect_entries-Collected db parent_key ((key, child_key) ∷ rest) c ((at, prefixed), later) =
      let more = collect_entries-Collected db parent_key rest c later in
      let (child, there) = c.linked.child_stored key child_key at in
      let name = drop (length parent_key) key in
      let entry : DirEntry = record {
        name = name;
        inode_id = child.inode_id;
        inode_type = child.inode_type;
      } in
      record {
        entries = entry ∷ more.entries;
        result = rw (there, more.result, collect_entries, ◌>>=◌) refl;
        denoted = (
          record {
            child_key = child_key;
            child = child;
            dentry = ap (λ k. get k db.dentries) (append-drop parent_key key prefixed) ∙ at;
            stored = there;
            same_id = refl;
          },
          more.denoted,
        );
        complete = λ j w h. elim h [
          | inl (same, _) ↦ inl (ap (drop (length parent_key)) same)
          | inr later' ↦ inr (more.complete j w later')
        ];
      }

  -- What is known of a directory whose attributes were read.
  pub record Opened (db : Metadata b) (inode_id : Bytes) (attrs : Attributes) : Type 0 where
    pub key : Bytes
    pub inode : Inode
    pub encoded : encode_inode_key inode_id ≡ ok key
    pub loaded : load_stored_inode b key db ≡ ok inode
    pub same_type : inode.inode_type ≡ attrs.inode_type

  pub get_attributes-Opened :
      (inode_id : Bytes) (attrs : Attributes) (db : Metadata b)
      → get_attributes b inode_id db ≡ ok attrs
      → Opened db inode_id attrs
  unfolding get_attributes
  get_attributes-Opened inode_id attrs db h =
      let (key, (hk, h1)) = bind-ok (encode_inode_key inode_id) _ attrs h in
      let (inode, (hi, h2)) = bind-ok (load_stored_inode b key db) _ attrs h1 in
      record {
        key = key;
        inode = inode;
        encoded = hk;
        loaded = hi;
        same_type =
            ap (λ (a : Attributes). a.inode_type) (ok-injective (attributes inode) attrs h2);
      }

  -- An inode of a consistent database is read by its identifier.
  pub get_attributes-Fits :
      (key : Bytes) (inode : Inode) (db : Metadata b)
      → Consistent b db
      → get key db.inodes ≡ some inode
      → get_attributes b inode.inode_id db ≡ ok (attributes inode)
  unfolding get_attributes load_stored_inode
  get_attributes-Fits key inode db c h = rw ((c.rooted.fits key inode h).encoded, ◌>>=◌, h) refl

  -- A name is looked up in a directory by the dentry under it.
  pub lookup_name-eq :
      (inode_id name : Bytes) (attrs : Attributes) (db : Metadata b) (o : Opened db inode_id attrs)
      → is_directory attrs.inode_type ≡ true
      → lookup_name b inode_id name db
        ≡ (present not_found (get (encode_dentry_key o.key name) db.dentries) >>= decode_inode_id)
  unfolding lookup_name
  lookup_name-eq inode_id name attrs db o dir =
      rw (o.encoded, ◌>>=◌, o.loaded, ap is_directory o.same_type ∙ dir) refl

  Denotes-lookup_name :
      (inode_id : Bytes) (attrs : Attributes) (db : Metadata b) (entry : DirEntry)
      (o : Opened db inode_id attrs)
      → Consistent b db
      → is_directory attrs.inode_type ≡ true
      → Denotes db o.key entry
      → lookup_name b inode_id entry.name db ≡ ok entry.inode_id
  Denotes-lookup_name inode_id attrs db entry o c dir d =
      lookup_name-eq inode_id entry.name attrs db o dir
      ∙ rw (d.dentry, ◌>>=◌)
          ((c.rooted.fits d.child_key d.child d.stored).decoded ∙ ap ok d.same_id)

  Denotes-get_attributes :
      (db : Metadata b) (parent_key : Bytes) (entry : DirEntry)
      → Consistent b db
      → Denotes db parent_key entry
      → (a : Attributes) × (get_attributes b entry.inode_id db ≡ ok a)
  Denotes-get_attributes db parent_key entry c d = (
    attributes d.child,
    subst (λ i. get_attributes b i db ≡ ok (attributes d.child)) d.same_id
        (get_attributes-Fits d.child_key d.child db c d.stored),
  )

  -- What a listing promises.
  pub record Lists (db : Metadata b) (inode_id : Bytes) (entries : List DirEntry) : Type 0 where
    pub found : All (λ e. lookup_name b inode_id e.name db ≡ ok e.inode_id) entries
    pub readable : All (λ e. (a : Attributes) × (get_attributes b e.inode_id db ≡ ok a)) entries
    pub complete :
        (name child_id : Bytes) → lookup_name b inode_id name db ≡ ok child_id → Named name entries

  map-All :
      {P Q : DirEntry → Type 0}
      → ((e : DirEntry) → P e → Q e)
      → (entries : List DirEntry) → All P entries
      → All Q entries
  map-All f [] _ = tt
  map-All f (e ∷ entries) (p, ps) = (f e p, map-All f entries ps)

  dentry-Named :
      (inode_id : Bytes) (attrs : Attributes) (db : Metadata b) (o : Opened db inode_id attrs)
      → is_directory attrs.inode_type ≡ true
      → (found : Collected db o.key (scan o.key db.dentries)) (name child_id : Bytes)
      → lookup_name b inode_id name db ≡ ok child_id
      → Named name found.entries
  unfolding encode_dentry_key
  dentry-Named inode_id attrs db o dir found name child_id looked =
      let dentry = get (o.key ++ name) db.dentries in
      let (child_key, (at, _)) =
        bind-ok (present not_found dentry) _ child_id
          (sym (lookup_name-eq inode_id name attrs db o dir) ∙ looked) in
      subst (λ n. Named n found.entries) (drop-append o.key name)
        (found.complete (o.key ++ name) child_key (
          b.scan-complete o.key (o.key ++ name) child_key db.dentries
            (present-ok not_found dentry child_key at)
            ((has_prefix-append o.key o.key name refl).1 refl)))

  -- In a consistent database the listing of a directory does not fail, each of its entries is what
  -- a lookup of its name finds and has attributes, and each name that a lookup finds is in it.
  pub all_entries-Lists :
      (inode_id : Bytes) (attrs : Attributes) (db : Metadata b)
      → Consistent b db
      → get_attributes b inode_id db ≡ ok attrs
      → is_directory attrs.inode_type ≡ true
      → (entries : List DirEntry) × ((all_entries b inode_id db ≡ ok entries)
          × Lists db inode_id entries)
  unfolding all_entries
  all_entries-Lists inode_id attrs db c h dir =
      let o = get_attributes-Opened inode_id attrs db h in
      let found =
        collect_entries-Collected db o.key (scan o.key db.dentries) c
          (b.scan-sound o.key db.dentries) in
      (
        found.entries,
        (
          rw (o.encoded, ◌>>=◌, o.loaded, ap is_directory o.same_type ∙ dir) found.result,
          record {
            found =
                map-All (λ e d. Denotes-lookup_name inode_id attrs db e o c dir d) found.entries
                  found.denoted;
            readable =
                map-All (λ e d. Denotes-get_attributes db o.key e c d) found.entries found.denoted;
            complete = dentry-Named inode_id attrs db o dir found;
          },
        ),
      )

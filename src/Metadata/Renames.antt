-- ===== src/Metadata/Renames.antt =====
-- Renames (`ApplyRename` of internal/metadata_service/bolt/bolt_metadata_service.go) keep the inodes
-- and the dentries consistent.
use sandstore.Base.{ℕ, ◌≡◌, ◌≢◌, refl, ap, ◌∙◌, some, arith, Option-cases, inl, inr}
use sandstore.Metadata.Bytes.{Bytes, bytes_eq}
use sandstore.Metadata.Keys.{encode_inode_key, encode_dentry_key}
use sandstore.Metadata.Types.{Inode, MetadataOperation, not_found, ok, present, bind-ok, present-ok}
use sandstore.Metadata.Bolt.{Bolt}
use sandstore.Metadata.State.{Metadata, storable_inode, load_stored_inode}
use sandstore.Metadata.Apply.{renamed, apply_rename, touched, drop_overwritten}
use sandstore.Metadata.Tree.{
  root_key, Fits, Stored, get-delete_cases, delete-Stored, same_entries-Linked, Rooted, put-Rooted,
  delete-Rooted, Linked, put_inode-Linked, put-Linked, delete-Linked, delete_entry-Linked,
  Consistent,
}
use sandstore.Metadata.Consistency.{Alike-Fits, load_stored_inode-Fits, indexed-Consistent}

module _ (b : Bolt) where
  open b use {Bucket, get, put, delete}

  drop_overwritten-Rooted :
      (k : Bytes) (inodes : Bucket Inode) (dentries : Bucket Bytes)
      → Rooted b inodes
      → Linked b inodes dentries
      → Rooted b (drop_overwritten b (get k dentries) inodes)
  unfolding drop_overwritten
  drop_overwritten-Rooted k inodes dentries r l = elim (Option-cases (get k dentries)) [
    | inl free ↦ rw free r
    | inr (o, taken) ↦
        rw taken (delete-Rooted b o inodes (λ same. l.no_root_entry k (taken ∙ ap some same)) r)
  ]

  drop_overwritten-Linked :
      (k : Bytes) (inodes : Bucket Inode) (dentries : Bucket Bytes)
      → Linked b inodes dentries
      → Linked b (drop_overwritten b (get k dentries) inodes) (delete k dentries)
  unfolding drop_overwritten
  drop_overwritten-Linked k inodes dentries l = elim (Option-cases (get k dentries)) [
    | inl free ↦ rw free (delete_entry-Linked b k inodes dentries l)
    | inr (o, taken) ↦ rw taken (delete-Linked b k o inodes dentries taken l)
  ]

  drop_overwritten-Stored :
      (k child : Bytes) (inodes : Bucket Inode) (dentries : Bucket Bytes)
      → get k dentries ≢ some child
      → Stored b child inodes
      → Stored b child (drop_overwritten b (get k dentries) inodes)
  unfolding drop_overwritten
  drop_overwritten-Stored k child inodes dentries other stored =
      elim (Option-cases (get k dentries)) [
        | inl free ↦ rw free stored
        | inr (o, taken) ↦
            rw taken (delete-Stored b o child inodes (λ same. other (taken ∙ ap some same)) stored)
      ]

  overwritten-Linked :
      (k child : Bytes) (inodes : Bucket Inode) (dentries : Bucket Bytes)
      → Stored b child inodes
      → child ≢ root_key
      → ((j : Bytes) → get j dentries ≢ some child)
      → Linked b inodes dentries
      → Linked b (drop_overwritten b (get k dentries) inodes) (put k child dentries)
  overwritten-Linked k child inodes dentries stored other unlinked l =
      same_entries-Linked b _ (put k child (delete k dentries)) (put k child dentries)
        (λ j. ground (
          arith,
          b.get-put k j child dentries,
          b.get-put k j child (delete k dentries),
          b.get-delete k j dentries,
        ))
        (put-Linked b k child _ _
          (drop_overwritten-Stored k child inodes dentries (unlinked k) stored) other
          (λ j h. unlinked j (get-delete_cases b k j child dentries h).1)
          (drop_overwritten-Linked k inodes dentries l))

  renamed-Consistent :
      (op : MetadataOperation) (src_key dst_key : Bytes) (src dst : Inode) (child_key : Bytes)
      (db : Metadata b)
      → Fits src_key src
      → Fits dst_key dst
      → get (encode_dentry_key src_key op.name) db.dentries ≡ some child_key
      → Consistent b db
      → Consistent b (renamed b op src_key dst_key src dst child_key db)
  unfolding renamed
  renamed-Consistent op src_key dst_key src dst child_key db fs fd at c =
      let from = encode_dentry_key src_key op.name in
      let to = encode_dentry_key dst_key op.dst_name in
      let without = delete from db.dentries in
      let left = delete_entry-Linked b from db.inodes db.dentries c.linked in
      let new_src = storable_inode (touched op.timestamp src) in
      let new_dst = storable_inode (touched op.timestamp dst) in
      record {
        rooted = put-Rooted b dst_key new_dst _ (Alike-Fits b dst_key dst new_dst (refl, refl) fd) (
            put-Rooted b src_key new_src _ (Alike-Fits b src_key src new_src (refl, refl) fs)
              (drop_overwritten-Rooted to db.inodes without c.rooted left));
        linked = put_inode-Linked b dst_key new_dst _ _ (
            put_inode-Linked b src_key new_src _ _ (
              overwritten-Linked to child_key db.inodes without
                (c.linked.child_stored from child_key at)
                (λ same. c.linked.no_root_entry from (at ∙ ap some same))
                (λ j h.
                  let (other, there) = get-delete_cases b from j child_key db.dentries h in
                  other (c.linked.one_parent from j child_key at there))
                left));
      }

  pub apply_rename-Consistent :
      (op : MetadataOperation) (index : ℕ) (db db' : Metadata b)
      → apply_rename b op index db ≡ ok db'
      → Consistent b db
      → Consistent b db'
  unfolding apply_rename
  apply_rename-Consistent op index db db' h c =
      let (src_key, (hs, h1)) = bind-ok (encode_inode_key op.parent_id) _ db' h in
      let (dst_key, (hd, h2)) = bind-ok (encode_inode_key op.dst_parent_id) _ db' h1 in
      let (src, (hi, h3)) = bind-ok (load_stored_inode b src_key db) _ db' h2 in
      let (dst, (hj, h4)) = bind-ok (load_stored_inode b dst_key db) _ db' h3 in
      let (child_key, (hc, h5)) =
        bind-ok (present not_found (get (encode_dentry_key src_key op.name) db.dentries)) _ db'
          h4 in
      indexed-Consistent b index _ db' h5 (
        renamed-Consistent op src_key dst_key src dst child_key db
          (load_stored_inode-Fits b src_key src db c hi)
          (load_stored_inode-Fits b dst_key dst db c hj)
          (present-ok not_found (get (encode_dentry_key src_key op.name) db.dentries) child_key hc)
          c)

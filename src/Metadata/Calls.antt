-- ===== src/Metadata/Calls.antt =====
-- The calls `Create` and `Rmdir` of internal/metadata_service/bolt/bolt_metadata_service.go, whatever
-- commands of others are applied while they wait for the replicator.
use sandstore.Base.{◌≡◌, true, [], nat_eq}
use sandstore.Metadata.Bytes.{Bytes}
use sandstore.Metadata.Types.{Inode, MetadataOperation, not_found, ok, err}
use sandstore.Metadata.Bolt.{Bolt}
use sandstore.Metadata.State.{Metadata, is_directory}
use sandstore.Metadata.Read.{lookup_name, get_inode, all_entries}
use sandstore.Metadata.Replication.{Replication}
use sandstore.Metadata.Creation.{Named}

module _ (b : Bolt) where
  open b use {scan}

  -- A directory that is removed.
  pub record Emptied (parent_id name : Bytes) (db : Metadata b) : Type 0 where
    pub child_id : Bytes
    pub found : lookup_name b parent_id name db ≡ ok child_id
    pub no_entries : all_entries b child_id db ≡ ok []

  -- What `Create` has met when it returns an inode.
  pub record Created (r : Replication b) (op : MetadataOperation) (inode : Inode)
      (db db' : Metadata b) : Type 0 where
    pub parent : Inode
    pub parent_read : get_inode b op.parent_id db ≡ ok parent
    pub parent_directory : is_directory parent.inode_type ≡ true
    pub was_free : lookup_name b op.parent_id op.name db ≡ err not_found
    pub at : Metadata b
    pub named : Named b op (r.before db) at
    pub left : r.later at ≡ db'
    pub read_back : get_inode b op.inode_id db' ≡ ok inode

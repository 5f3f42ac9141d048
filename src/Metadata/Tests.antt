-- ===== src/Metadata/Tests.antt =====
-- The theorems about the metadata service, at the file system of Metadata/Samples.
use sandstore.Base.{
  ◌≡◌, refl, true, none, some, List, [], ◌∷◌, arith, lookup, insert, erase, nat_eq,
}
use sandstore.Metadata.Bytes.{
  bytes_eq, put_big_endian, put_little_endian, little_endian, parse_uint, parse_digits, format_uint,
  format_digits,
}
use sandstore.Metadata.Keys.{encode_inode_key, encode_dentry_key}
use sandstore.Metadata.Types.{DirEntry, ok}
use sandstore.Metadata.State.{
  Metadata, decode_index, next_consistent_index, load_stored_inode, update, load_chunk_list,
  replace_chunk_list,
}
use sandstore.Metadata.Apply.{
  created_inode, parent_with, created, create_in, apply_create, apply_as, apply_operation,
  apply_envelope, apply_transaction,
}
use sandstore.Metadata.Read.{get_inode, all_entries}
use sandstore.Metadata.Creation.{Named, apply_create-Named}
use sandstore.Metadata.Removal.{Unnamed, apply_remove-Unnamed}
use sandstore.Metadata.Move.{Moved, apply_rename-Moved}
use sandstore.Metadata.Index.{Counted, apply_transaction-Counted}
use sandstore.Metadata.Listing.{Lists, all_entries-Lists}
use sandstore.Metadata.Paging.{read_pages, read_pages-all_entries}
use sandstore.Metadata.ChunkRoundTrip.{load_chunk_list-replace_chunk_list}
use sandstore.Metadata.Writes.{apply_update_inode-get_inode}
use sandstore.Metadata.Startup.{initialized, recover, recover_from}
use sandstore.Metadata.Store.{store}
use sandstore.Metadata.Runs.{run-Consistent}
use sandstore.Metadata.Tree.{Consistent}
use sandstore.Metadata.Samples.{
  formatted_db, text, make_d, command, with_d, key_of, make_d-Fresh, grown, with_d_ok,
  with_d-Consistent, remove_d, without_d, without_d_ok, rename_d, with_e, with_e_ok,
  root_attributes, root_read, d_entry, root_listed, two_chunks, write_d, written, written_ok,
  d_read,
}

run-Consistent_example : Consistent store with_d
run-Consistent_example = run-Consistent store with_d grown

apply_create-Named_example : Named store make_d formatted_db with_d
apply_create-Named_example =
    apply_create-Named store make_d 1 formatted_db with_d make_d-Fresh with_d_ok

apply_remove-Unnamed_example : Unnamed store remove_d with_d without_d
apply_remove-Unnamed_example =
    apply_remove-Unnamed store remove_d 2 with_d without_d with_d-Consistent without_d_ok

apply_rename-Moved_example : Moved store rename_d with_d with_e
apply_rename-Moved_example = apply_rename-Moved store rename_d 2 with_d with_e with_e_ok

apply_transaction-Counted_example : Counted store none formatted_db with_d
unfolding apply_transaction apply_envelope apply_operation apply_as apply_create create_in created
    parent_with created_inode next_consistent_index decode_index load_stored_inode recover
    recover_from initialized encode_inode_key encode_dentry_key parse_uint parse_digits update
    format_uint format_digits put_big_endian put_little_endian little_endian lookup insert erase
apply_transaction-Counted_example =
    apply_transaction-Counted store true 6 (command make_d) formatted_db

all_entries-Lists_example :
    (entries : List DirEntry) × ((all_entries store (text b'0') with_d ≡ ok entries)
      × Lists store with_d (text b'0') entries)
unfolding parent_with
all_entries-Lists_example =
    all_entries-Lists store (text b'0') root_attributes with_d with_d-Consistent root_read refl

read_pages-all_entries_example :
    read_pages store 2 (text b'0') 0 1 with_d ≡ ok (some (d_entry ∷ []))
read_pages-all_entries_example =
    read_pages-all_entries store 2 (text b'0') 1 with_d (d_entry ∷ []) root_listed (omega arith)
      (omega arith)

load_chunk_list-replace_chunk_list_example :
    load_chunk_list store (key_of 7) (record with_d {
      chunk_map = replace_chunk_list store (key_of 7) two_chunks with_d.chunk_map;
    })
    ≡ ok two_chunks
load_chunk_list-replace_chunk_list_example =
    load_chunk_list-replace_chunk_list store (key_of 7) two_chunks with_d (omega arith)

apply_update_inode-get_inode_example :
    get_inode store (text b'7') written
    ≡ ok (record (created_inode make_d) {
      file_size = 9;
      modify_time = 7;
      change_time = write_d.timestamp;
      version_number = 1;
      chunk_list = two_chunks;
    })
unfolding created_inode
apply_update_inode-get_inode_example =
    apply_update_inode-get_inode store write_d 2 9 7 two_chunks (created_inode make_d) with_d
      written refl refl refl (omega arith) d_read written_ok

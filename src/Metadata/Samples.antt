-- ===== src/Metadata/Samples.antt =====
-- A small file system in memory, and what operations make of it.
use sandstore.Base.{
  ℕ, ◌≡◌, refl, ap, ◌∙◌, sym, true, Option, none, some, List, [], ◌∷◌, arith, lookup, insert, erase,
  nat_eq,
}
use sandstore.Metadata.Bytes.{
  Bytes, bytes_eq, has_prefix, put_big_endian, big_endian_from, put_little_endian, little_endian,
  parse_uint, parse_digits, format_uint, format_digits,
}
use sandstore.Metadata.Keys.{encode_inode_key, decode_inode_id, encode_dentry_key, drop}
use sandstore.Metadata.Types.{
  file, directory, Inode, Attributes, DirEntry, ChunkIntentOperation, committed, MetadataOperation,
  op_create, op_remove, op_rename, op_set_attr, op_update_inode, RaftCommandEnvelope, posix_meta,
  Result, ok, err, ok-injective, ChunkDescriptor,
}
use sandstore.Metadata.State.{
  Metadata, decode_index, next_consistent_index, load_stored_inode, update, load_chunk_list,
  collect_chunks,
}
use sandstore.Metadata.Apply.{
  created_inode, parent_with, created, create_in, apply_create, apply_as, apply_operation,
  apply_envelope, apply_transaction, apply_remove, removed, parent_without, apply_rename, renamed,
  drop_overwritten, changed_attr, apply_set_attr, apply_update_inode, updated_inode, new_chunks,
  apply_chunk_intent, meta_update, write_with_intent, written_inode,
}
use sandstore.Metadata.Read.{
  attributes, get_attributes, lookup_name, get_inode, all_entries, collect_entries, read_dir, page,
  slice, directory_is_empty,
}
use sandstore.Metadata.Replication.{Replication, replicated, stamped}
use sandstore.Metadata.Service.{
  blank, create_operation, create, submit_checked, check_create, require_absent, replicate_op,
  rmdir, check_rmdir,
}
use sandstore.Metadata.Startup.{
  update_chunk_placement, initialized, recover, recover_from, root_inode,
}
use sandstore.Metadata.Store.{store, scan_from}
use sandstore.Metadata.Consistency.{Fresh}
use sandstore.Metadata.Runs.{new_database, Run, formatted, after, applied, run-Consistent}
use sandstore.Metadata.Tree.{Consistent}

-- A new file system, and one with the directory "d" below the root.
abbrev pub formatted_db : Metadata store
formatted_db = (recover store true 5 (new_database store)).1

abbrev pub text : ℕ → Bytes
text c = c ∷ []

abbrev pub make_d : MetadataOperation
make_d = record (blank op_create) {
  inode_id = text b'7';
  parent_id = text b'0';
  name = text b'd';
  file_type = directory;
  mode = 493;
  timestamp = 6;
}

abbrev pub command : MetadataOperation → Option RaftCommandEnvelope
command op = some (posix_meta (some op))

abbrev pub with_d : Metadata store
with_d = (apply_transaction store true 6 (command make_d) formatted_db).1

pub formatted_ok : recover store true 5 (new_database store) ≡ (ok 0, formatted_db)
unfolding recover recover_from initialized encode_inode_key parse_uint parse_digits update
formatted_ok = refl

-- The key of a one-digit identifier.
abbrev pub key_of : ℕ → Bytes
key_of n = put_big_endian 8 n

pub unused_at :
    (inode_id key : Bytes) (db : Metadata store)
    → encode_inode_key inode_id ≡ ok key
    → (other : Bytes) → encode_inode_key inode_id ≡ ok other
    → store.get key db.inodes ≡ none
    → store.get other db.inodes ≡ none
unused_at inode_id key db h other h' free =
    ap (λ k. store.get k db.inodes) (ok-injective other key (sym h' ∙ h)) ∙ free

pub make_d-Fresh : Fresh store (text b'7') formatted_db
unfolding recover recover_from initialized encode_inode_key parse_uint parse_digits update
    format_uint format_digits put_big_endian lookup insert
make_d-Fresh = record {
  number = 7;
  small = omega arith;
  made = refl;
  unused = λ other h. unused_at (text b'7') (key_of 7) formatted_db refl other h refl;
}

pub started : Run store formatted_db
started = formatted 5 formatted_db formatted_ok

pub grown : Run store with_d
grown = after started (applied true 6 (command make_d) formatted_db (λ _. make_d-Fresh))

pub with_d_ok : apply_create store make_d 1 formatted_db ≡ ok with_d
unfolding apply_transaction apply_envelope apply_operation apply_as apply_create create_in created
    parent_with created_inode next_consistent_index decode_index load_stored_inode recover
    recover_from initialized encode_inode_key encode_dentry_key parse_uint parse_digits update
    format_uint format_digits put_big_endian put_little_endian little_endian lookup insert erase
with_d_ok = refl

pub with_d-Consistent : Consistent store with_d
with_d-Consistent = run-Consistent store with_d grown

-- The database that an operation leaves.
abbrev pub outcome : Result (Metadata store) → Metadata store
outcome (ok db) = db
outcome (err _) = with_d

abbrev pub remove_d : MetadataOperation
remove_d = record (blank op_remove) { parent_id = text b'0'; name = text b'd'; timestamp = 7 }

abbrev pub without_d : Metadata store
without_d = outcome (apply_remove store remove_d 2 with_d)

pub without_d_ok : apply_remove store remove_d 2 with_d ≡ ok without_d
unfolding apply_remove removed parent_without apply_transaction apply_envelope apply_operation
    apply_as apply_create create_in created parent_with created_inode next_consistent_index
    decode_index load_stored_inode recover recover_from initialized encode_inode_key
    encode_dentry_key parse_uint parse_digits update format_uint format_digits put_big_endian
    put_little_endian little_endian lookup insert erase
without_d_ok = refl

abbrev pub rename_d : MetadataOperation
rename_d = record (blank op_rename) {
  parent_id = text b'0';
  name = text b'd';
  dst_parent_id = text b'0';
  dst_name = text b'e';
  timestamp = 7;
}

abbrev pub with_e : Metadata store
with_e = outcome (apply_rename store rename_d 2 with_d)

pub with_e_ok : apply_rename store rename_d 2 with_d ≡ ok with_e
unfolding apply_rename renamed drop_overwritten apply_transaction apply_envelope apply_operation
    apply_as apply_create create_in created parent_with created_inode next_consistent_index
    decode_index load_stored_inode recover recover_from initialized encode_inode_key
    encode_dentry_key parse_uint parse_digits update format_uint format_digits put_big_endian
    put_little_endian little_endian lookup insert erase
with_e_ok = refl

abbrev pub root_attributes : Attributes
root_attributes = attributes (parent_with make_d (root_inode store 5))

pub root_read : get_attributes store (text b'0') with_d ≡ ok root_attributes
unfolding get_attributes apply_transaction apply_envelope apply_operation apply_as apply_create
    create_in created parent_with created_inode next_consistent_index decode_index load_stored_inode
    recover recover_from initialized encode_inode_key encode_dentry_key parse_uint parse_digits
    update format_uint format_digits put_big_endian put_little_endian little_endian lookup insert
    erase
root_read = refl

abbrev pub d_entry : DirEntry
d_entry = record { name = text b'd'; inode_id = text b'7'; inode_type = directory }

pub root_listed : all_entries store (text b'0') with_d ≡ ok (d_entry ∷ [])
unfolding all_entries collect_entries drop scan_from has_prefix apply_transaction apply_envelope
    apply_operation apply_as apply_create create_in created parent_with created_inode
    next_consistent_index decode_index load_stored_inode recover recover_from initialized
    encode_inode_key encode_dentry_key parse_uint parse_digits update format_uint format_digits
    put_big_endian put_little_endian little_endian lookup insert erase
root_listed = refl

pub root_page : read_dir store (text b'0') 0 5 with_d ≡ ok (d_entry ∷ [], 1, true)
unfolding read_dir page slice all_entries collect_entries drop scan_from has_prefix
    apply_transaction apply_envelope apply_operation apply_as apply_create create_in created
    parent_with created_inode next_consistent_index decode_index load_stored_inode recover
    recover_from initialized encode_inode_key encode_dentry_key parse_uint parse_digits update
    format_uint format_digits put_big_endian put_little_endian little_endian lookup insert erase
root_page = refl

abbrev pub two_chunks : List ChunkDescriptor
two_chunks =
    record { chunk_id = text b'x'; locations = [] }
    ∷ record { chunk_id = text b'y'; locations = [] }
    ∷ []

abbrev pub write_d : MetadataOperation
write_d = record (blank op_update_inode) {
  inode_id = text b'7';
  new_size = some 9;
  new_chunk_list = some two_chunks;
  set_mtime = some 7;
  timestamp = 8;
}

abbrev pub written : Metadata store
written = outcome (apply_update_inode store write_d 2 with_d)

pub written_ok : apply_update_inode store write_d 2 with_d ≡ ok written
unfolding apply_update_inode updated_inode new_chunks apply_transaction apply_envelope
    apply_operation apply_as apply_create create_in created parent_with created_inode
    next_consistent_index decode_index load_stored_inode recover recover_from initialized
    encode_inode_key encode_dentry_key parse_uint parse_digits update format_uint format_digits
    put_big_endian put_little_endian little_endian lookup insert erase
written_ok = refl

pub d_read : get_inode store (text b'7') with_d ≡ ok (created_inode make_d)
unfolding get_inode load_chunk_list collect_chunks scan_from apply_transaction apply_envelope
    apply_operation apply_as apply_create create_in created parent_with created_inode
    next_consistent_index decode_index load_stored_inode recover recover_from initialized
    encode_inode_key encode_dentry_key parse_uint parse_digits update format_uint format_digits
    put_big_endian put_little_endian little_endian lookup insert erase
d_read = refl

abbrev pub intent : ChunkIntentOperation
intent = record {
  txn_id = text b't';
  chunk_id = text b'x';
  node_ids = text b'n' ∷ [];
  state = committed;
  timestamp = 8;
}

abbrev pub intended : Metadata store
intended = outcome (apply_chunk_intent store 8 intent (some write_d) 2 with_d)

pub intended_ok : apply_chunk_intent store 8 intent (some write_d) 2 with_d ≡ ok intended
unfolding apply_chunk_intent meta_update write_with_intent written_inode new_chunks
    apply_transaction apply_envelope apply_operation apply_as apply_create create_in created
    parent_with created_inode next_consistent_index decode_index load_stored_inode recover
    recover_from initialized encode_inode_key encode_dentry_key parse_uint parse_digits update
    format_uint format_digits put_big_endian put_little_endian little_endian lookup insert erase
intended_ok = refl

-- What another client does to the directory.
abbrev pub chmod_d : MetadataOperation
chmod_d = record (blank op_set_attr) { inode_id = text b'7'; set_mode = some 511; timestamp = 8 }

-- The replicator with the command of another client before ours, and a placement after it.
abbrev pub between : Replication store
between = record {
  refusal = none;
  commits = true;
  clock = 9;
  before = λ db. (apply_transaction store true 8 (command chmod_d) db).1;
  later = λ db. (update_chunk_placement store true (text b'x') [] db).1;
}

pub changed : Run store (between.before with_d)
changed = after grown (applied true 8 (command chmod_d) with_d (λ h. absurd (ground arith)))

pub changed-Consistent : Consistent store (between.before with_d)
changed-Consistent = run-Consistent store (between.before with_d) changed

pub file_8-Fresh : Fresh store (text b'8') (between.before with_d)
unfolding apply_set_attr changed_attr apply_transaction apply_envelope apply_operation apply_as
    apply_create create_in created parent_with created_inode next_consistent_index decode_index
    load_stored_inode recover recover_from initialized encode_inode_key encode_dentry_key parse_uint
    parse_digits update format_uint format_digits put_big_endian put_little_endian little_endian
    lookup insert erase
file_8-Fresh = record {
  number = 8;
  small = omega arith;
  made = refl;
  unused = λ other h. unused_at (text b'8') (key_of 8) (between.before with_d) refl other h refl;
}

abbrev pub make_f : MetadataOperation
make_f = stamped store 9 (create_operation store file (text b'8') (text b'7') (text b'f') 420 1 2)

abbrev pub call : Result Inode × Metadata store
call =
    create store (replicate_op store (replicated store between) 9) (text b'8') (text b'7')
      (text b'f') 420 1 2 with_d

pub f_made : call.0 ≡ ok (created_inode make_f)
unfolding replicated update_chunk_placement apply_set_attr changed_attr create submit_checked
    check_create require_absent replicate_op get_inode load_chunk_list collect_chunks lookup_name
    scan_from apply_transaction apply_envelope apply_operation apply_as apply_create create_in
    created parent_with created_inode next_consistent_index decode_index load_stored_inode recover
    recover_from initialized encode_inode_key encode_dentry_key parse_uint parse_digits update
    format_uint format_digits put_big_endian put_little_endian little_endian lookup insert erase
f_made = refl

abbrev pub emptied : Metadata store
emptied =
    (rmdir store (replicate_op store (replicated store between) 9) (text b'0') (text b'd') with_d).1

pub d_removed :
    rmdir store (replicate_op store (replicated store between) 9) (text b'0') (text b'd') with_d
    ≡ (none, emptied)
unfolding replicated update_chunk_placement apply_set_attr changed_attr rmdir check_rmdir
    directory_is_empty submit_checked replicate_op get_inode load_chunk_list collect_chunks
    lookup_name decode_inode_id big_endian_from scan_from has_prefix apply_remove removed
    parent_without apply_transaction apply_envelope apply_operation apply_as apply_create create_in
    created parent_with created_inode next_consistent_index decode_index load_stored_inode recover
    recover_from initialized encode_inode_key encode_dentry_key parse_uint parse_digits update
    format_uint format_digits put_big_endian put_little_endian little_endian lookup insert erase
d_removed = refl

-- ===== src/Write/Tests.antt =====
-- The theorems about writes, at one node and one file.
use sandstore.Base.{
  ℕ, String, ◌≡◌, refl, true, false, Option, none, some, List, [], ◌∷◌, arith, length, ◌==◌, nat_eq,
  string_eq, if◌then◌else◌, lookup, insert, erase,
}
use sandstore.Chunk.{
  PrepareCalls, ReadCalls, prepare_chunk, already_prepared, write_temp, add_to_prepared_index,
}
use sandstore.Placement.{ChunkLocation}
use sandstore.Write.DataPlane.{
  Nodes, Rpc, WriteError, overlay, resolve_target, prepare_at, send_prepare, send_prepares, copy_at,
  make_bytes, prepare_write_payload, send_payload, execute_read, execute_write,
}
use sandstore.Write.Payload.{Overlaid, overlay-Overlaid}
use sandstore.Write.Delivery.{AllHold, execute_write-AllHold}
use sandstore.Metadata.Bytes.{
  bytes_eq, has_prefix, put_big_endian, put_little_endian, little_endian, parse_uint, parse_digits,
  format_uint, format_digits,
}
use sandstore.Metadata.Keys.{encode_inode_key, encode_dentry_key}
use sandstore.Metadata.Types.{Location, ok}
use sandstore.Metadata.State.{
  Metadata, decode_index, next_consistent_index, load_stored_inode, update, load_chunk_list,
  collect_chunks,
}
use sandstore.Metadata.Apply.{
  created_inode, parent_with, created, create_in, apply_create, apply_as, apply_operation,
  apply_envelope, apply_transaction, apply_chunk_intent, meta_update, write_with_intent,
  written_inode, new_chunks, changed_attr, apply_set_attr,
}
use sandstore.Metadata.Read.{get_inode}
use sandstore.Metadata.Replication.{replicated}
use sandstore.Metadata.Startup.{update_chunk_placement, initialized, recover, recover_from}
use sandstore.Metadata.Store.{store, scan_from}
use sandstore.Metadata.Tree.{Consistent}
use sandstore.Metadata.Runs.{after, applied, run-Consistent}
use sandstore.Metadata.Samples.{
  text, with_d, command, make_f, file_8-Fresh, between, changed, chmod_d,
}
use sandstore.Write.ControlPlane.{
  Answer, answered, Notice, broadcast, tx_commit, commit_file_write, prepare_file_read, file_update,
  committed_chunks,
}
use sandstore.Write.Files.{Written, commit_file_write-Written, prepare_file_read-Written}

overlay-Overlaid_example :
    Overlaid 2 (7 ∷ 8 ∷ []) (1 ∷ 2 ∷ 3 ∷ []) (overlay 2 (7 ∷ 8 ∷ []) (1 ∷ 2 ∷ 3 ∷ []))
overlay-Overlaid_example = overlay-Overlaid 2 (7 ∷ 8 ∷ []) (1 ∷ 2 ∷ 3 ∷ [])

abbrev digest : List ℕ → String
digest bytes = if length bytes == 3 then "three" else "other"

abbrev one_node : Nodes
one_node = ("a:1", record { files = []; prepared_index = [] }) ∷ []

abbrev one_target : List ChunkLocation
one_target = record { logical_node_alias = "a"; physical_endpoint = "a:1" } ∷ []

abbrev delivered : ℕ → Rpc PrepareCalls
delivered attempt = record {
  reached = true;
  answered = true;
  now = 1;
  calls = record { read = true; open_file = true; write = true; sync = true; partial = [] };
}

-- No read is answered.
abbrev unread : ℕ → Rpc ReadCalls
unread attempt = record {
  reached = false;
  answered = false;
  now = 1;
  calls = record { first = false; move = false; second = false };
}

abbrev sent : Option WriteError × Nodes
sent =
    execute_write (resolve_target none) digest 8 unread none delivered "t" "c" 9 (2 ∷ 3 ∷ [])
      one_target true one_node

sent_ok : sent ≡ (none, sent.1)
unfolding execute_write prepare_write_payload overlay copy_at make_bytes send_payload send_prepares
    send_prepare prepare_at resolve_target prepare_chunk already_prepared write_temp
    add_to_prepared_index lookup insert
sent_ok = refl

execute_write-AllHold_example :
    (bytes : List ℕ) × ((prepare_write_payload
        (resolve_target none)
        8
        (execute_read (resolve_target none) unread none "c" 0 one_target)
        9
        (2 ∷ 3 ∷ [])
        true
        one_node).0
      ≡ some bytes)
    × AllHold (resolve_target none) digest "t" "c" bytes one_target sent.1
execute_write-AllHold_example =
    execute_write-AllHold (resolve_target none) digest 8 unread none delivered "t" "c" 9
      (2 ∷ 3 ∷ []) one_target true one_node sent.1 sent_ok

abbrev with_f : Metadata store
with_f = (apply_transaction store true 9 (command make_f) (between.before with_d)).1

with_f-Consistent : Consistent store with_f
with_f-Consistent =
    run-Consistent store with_f
      (after changed (applied true 9 (command make_f) (between.before with_d) (λ _. file_8-Fresh)))

-- The database to which the commit of a write comes.
abbrev reached_f : Metadata store
reached_f = between.before with_f

reached_f-Consistent : Consistent store reached_f
reached_f-Consistent = run-Consistent store reached_f (
    after
      (after changed (applied true 9 (command make_f) (between.before with_d) (λ _. file_8-Fresh)))
      (applied true 8 (command chmod_d) with_f (λ h. absurd (ground arith))))

f_read : get_inode store (text b'8') with_f ≡ ok (created_inode make_f)
unfolding apply_set_attr changed_attr apply_transaction apply_envelope apply_operation apply_as
    apply_create create_in created parent_with created_inode next_consistent_index decode_index
    load_stored_inode recover recover_from initialized encode_inode_key encode_dentry_key parse_uint
    parse_digits update format_uint format_digits put_big_endian put_little_endian little_endian
    lookup insert erase get_inode load_chunk_list collect_chunks scan_from has_prefix
f_read = refl

f_read_later : get_inode store (text b'8') reached_f ≡ ok (created_inode make_f)
unfolding apply_set_attr changed_attr apply_transaction apply_envelope apply_operation apply_as
    apply_create create_in created parent_with created_inode next_consistent_index decode_index
    load_stored_inode recover recover_from initialized encode_inode_key encode_dentry_key parse_uint
    parse_digits update format_uint format_digits put_big_endian put_little_endian little_endian
    lookup insert erase get_inode load_chunk_list collect_chunks scan_from has_prefix
f_read_later = refl

abbrev targets : List Location
targets = record { logical_node_alias = text b'a'; physical_endpoint = text b'e' } ∷ []

abbrev commit : Answer (List Notice) × Metadata store
commit =
    commit_file_write store (replicated store between) 10 11 (text b't') (text b'8') (text b'c') 5
      true targets with_f

commit_ok : commit ≡ (answered (broadcast (text b't') (text b'c') targets), commit.1)
unfolding replicated update_chunk_placement apply_set_attr changed_attr commit_file_write tx_commit
    file_update committed_chunks apply_chunk_intent meta_update write_with_intent written_inode
    new_chunks apply_transaction apply_envelope apply_operation apply_as apply_create create_in
    created parent_with created_inode next_consistent_index decode_index load_stored_inode recover
    recover_from initialized encode_inode_key encode_dentry_key parse_uint parse_digits update
    format_uint format_digits put_big_endian put_little_endian little_endian lookup insert erase
    get_inode load_chunk_list collect_chunks scan_from has_prefix
commit_ok = refl

few_chunks :
    length (committed_chunks true (text b'c') targets (created_inode make_f).chunk_list) ≡ 1
unfolding committed_chunks created_inode
few_chunks = refl

committed_f :
    (broadcast (text b't') (text b'c') targets ≡ broadcast (text b't') (text b'c') targets)
    × ((at : Metadata store) × Written store 10
          (text b't')
          (text b'8')
          (text b'c')
          5
          (created_inode make_f).file_size
          true
          targets
          (created_inode make_f).chunk_list
          (created_inode make_f)
          at
        × (between.later at ≡ commit.1))
committed_f =
    commit_file_write-Written store between 10 11 (text b't') (text b'8') (text b'c') 5 true targets
      (created_inode make_f) (created_inode make_f) (broadcast (text b't') (text b'c') targets)
      with_f commit.1 with_f-Consistent reached_f-Consistent f_read f_read_later (omega arith)
      (omega (arith, few_chunks)) (omega (arith, few_chunks)) commit_ok

prepare_file_read-Written_example :
    prepare_file_read store 8 (text b'8') 3 committed_f.1.0
    ≡ answered (record { chunk_id = text b'c'; target_nodes = targets })
unfolding created_inode
prepare_file_read-Written_example =
    prepare_file_read-Written store 8 3 10 (text b't') (text b'8') (text b'c') 5
      (created_inode make_f).file_size targets (created_inode make_f).chunk_list
      (created_inode make_f) committed_f.1.0 committed_f.1.1 refl (omega arith)

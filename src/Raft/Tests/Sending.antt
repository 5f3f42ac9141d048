-- ===== src/Raft/Tests/Sending.antt =====
-- The theorems about requests, from a leader with three entries to a peer with one.
use sandstore.Base.{
  ℕ, ◌≡◌, ◌≤◌, refl, true, some, [], ◌∷◌, arith, lookup, insert, erase_where, nat_eq, string_eq,
}
use sandstore.Raft.Types.{Bytes, max_uint64}
use sandstore.Raft.AtomicFile.{all_succeed, write_file_atomically}
use sandstore.Raft.LogStore.{
  FileLogStore, load, put_entry, persist, store_entries, store_logs, get_log, last_index_and_term,
  delete_range, delete_top, delete_marked, mark_compacted, delete_entries, max_key,
}
use sandstore.Raft.LogStore.Valid.{load-IsValid, store_logs-IsValid}
use sandstore.Raft.LogStore.Reload.{IsDurable, store_logs-IsDurable}
use sandstore.Raft.Stores.{SnapshotMeta}
use sandstore.Raft.Node.{Node, ClusterNode}
use sandstore.Raft.Apply.{index_of}
use sandstore.Raft.Append.{
  AppendSyscalls, append_to_log, merge_entries, truncated_logs, store_new, check_previous,
  follow_leader, follow_commit, commit_target, finish_append, after_append, append_checked,
  append_entries, append_lowered, handle_append_entries,
}
use sandstore.Raft.Append.Handler.{Replicated}
use sandstore.Raft.Replication.{
  AppendWork, append, collect_entries, append_work, next_to_send, plan_peer, append_request,
}
use sandstore.Raft.Replication.Sending.{Sent, plan_peer-Sent}
use sandstore.Raft.Replication.Delivery.{plan_peer-Replicated}
use sandstore.Raft.Tests.{
  no_file, entry, empty_log, three_logs, three_logs-IsValid, adder, node, leading,
}

abbrev peer : ClusterNode
peer = record { id = "c"; address = "c:1" }

abbrev no_snapshot : SnapshotMeta × Bytes
no_snapshot = (record { last_included_index = 0; last_included_term = 0 }, [])

-- The leader has learnt that the peer holds the first entry.
abbrev sender : Node ℕ
sender = record leading { next_index = ("c", 2) ∷ [] }

abbrev work : AppendWork
work = record {
  peer = peer;
  prev_log_index = 1;
  prev_log_term = 1;
  entries = entry 2 1 ∷ entry 3 2 ∷ [];
  term = 2;
  commit_index = 0;
}

three_logs_small : three_logs.last ≤ max_uint64
unfolding store_logs store_entries put_entry persist write_file_atomically load
three_logs_small = omega arith

planned : plan_peer no_snapshot 3 sender peer ≡ some (append work)
unfolding plan_peer next_to_send append_work collect_entries index_of get_log store_logs
    store_entries put_entry persist write_file_atomically load lookup insert
planned = refl

plan_peer-Sent_example : Sent sender work
plan_peer-Sent_example =
    plan_peer-Sent sender no_snapshot 3 peer work three_logs-IsValid three_logs_small planned

abbrev one_log : FileLogStore
one_log = (store_logs all_succeed (entry 1 1 ∷ []) empty_log).1

one_log-IsDurable : IsDurable one_log
unfolding store_logs store_entries put_entry persist write_file_atomically load
one_log-IsDurable =
    store_logs-IsDurable all_succeed (entry 1 1 ∷ []) empty_log (load-IsValid no_file) refl

abbrev receiver : Node ℕ
receiver = record node { id = "c"; log_store = one_log }

abbrev good : AppendSyscalls
good = record { term = all_succeed; truncate = all_succeed; store = all_succeed }

accepted :
    (handle_append_entries adder good 5 (append_request "a" work) receiver).0.0.success ≡ true
unfolding append_request handle_append_entries append_lowered append_entries append_checked
    after_append finish_append follow_commit commit_target check_previous follow_leader
    last_index_and_term append_to_log merge_entries truncated_logs store_new get_log delete_range
    delete_top delete_marked mark_compacted delete_entries max_key store_logs store_entries
    put_entry persist write_file_atomically load lookup insert erase_where
accepted = refl

plan_peer-Replicated_example :
    Replicated
      (append_request "a" work)
      (entry 2 1 ∷ entry 3 2 ∷ [])
      0
      0
      one_log
      (handle_append_entries adder good 5 (append_request "a" work) receiver).1.log_store
plan_peer-Replicated_example =
    plan_peer-Replicated adder sender receiver no_snapshot 3 peer work good 5 three_logs-IsValid
      three_logs_small planned
      (store_logs-IsValid all_succeed (entry 1 1 ∷ []) empty_log (load-IsValid no_file))
      one_log-IsDurable accepted

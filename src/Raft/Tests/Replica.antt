-- ===== src/Raft/Tests/Replica.antt =====
-- The theorems about applying, committing and merging entries, at sample nodes.
use sandstore.Base.{
  inl, ℕ, ◌≡◌, refl, true, some, List, [], ◌∷◌, arith, lookup, insert, erase_where, nat_eq,
  string_eq,
}
use sandstore.Raft.Types.{LogEntry, ok}
use sandstore.Raft.AtomicFile.{all_succeed, write_file_atomically}
use sandstore.Raft.LogStore.{
  load, put_entry, persist, store_entries, store_logs, get_log, last_index_and_term, delete_range,
  delete_top, delete_marked, mark_compacted, delete_entries, max_key,
}
use sandstore.Raft.Node.{Node}
use sandstore.Raft.Apply.{apply_logs, advance_commit_index}
use sandstore.Raft.Apply.Progress.{Applied, apply_logs-Applied}
use sandstore.Raft.Apply.Commit.{Advances, Held, advance_commit_index-Advances}
use sandstore.Raft.Append.{AppendSyscalls, append_to_log, merge_entries, truncated_logs, store_new}
use sandstore.Raft.Append.Merge.{Merged, append_to_log-Merged}
use sandstore.Raft.Append.{
  AppendEntriesRequest, check_previous, follow_leader, follow_commit, commit_target, finish_append,
  after_append, append_checked, append_entries, append_lowered, handle_append_entries,
}
use sandstore.Raft.Append.Durable.{append_to_log-IsDurable}
use sandstore.Raft.Append.Handler.{Replicated, handle_append_entries-Replicated}
use sandstore.Raft.LogStore.Reload.{IsDurable, store_logs-IsDurable}
use sandstore.Raft.LogStore.Valid.{load-IsValid}
use sandstore.Raft.Tests.{
  no_file, entry, empty_log, three_logs, three_logs-IsValid, adder, peers, node, leading,
}

abbrev committed : Node ℕ
committed = record node { commit_index = 2 }

apply_logs-Applied_example : Applied adder committed (apply_logs adder committed)
apply_logs-Applied_example = apply_logs-Applied adder committed (omega arith) (omega arith)

three_logs_end : last_index_and_term three_logs ≡ ok (3, 2)
unfolding last_index_and_term store_logs store_entries put_entry persist write_file_atomically load
    lookup insert
three_logs_end = refl

advance_commit_index-Advances_example :
    Advances adder
      (Held adder peers leading)
      leading
      3
      (advance_commit_index adder (some peers) leading)
advance_commit_index-Advances_example =
    advance_commit_index-Advances adder peers leading 3 2 (inl refl) three_logs_end

-- The disks of a request: every write succeeds.
abbrev good : AppendSyscalls
good = record { term = all_succeed; truncate = all_succeed; store = all_succeed }

-- The leader's entries differ from the node's from the third on.
abbrev sent : List LogEntry
sent = entry 2 1 ∷ entry 3 3 ∷ entry 4 3 ∷ []

merge_done : (append_to_log good 0 sent three_logs).0 ≡ true
unfolding append_to_log merge_entries truncated_logs store_new get_log delete_range delete_top
    delete_marked mark_compacted delete_entries max_key store_logs store_entries put_entry persist
    write_file_atomically load lookup insert
merge_done = refl

append_to_log-Merged_example : Merged 0 2 sent three_logs (append_to_log good 0 sent three_logs).1
append_to_log-Merged_example =
    append_to_log-Merged good 0 2 sent three_logs three_logs-IsValid
      (refl, omega arith, (refl, omega arith, (refl, omega arith, tt))) merge_done

three_logs-IsDurable : IsDurable three_logs
unfolding store_logs store_entries put_entry persist write_file_atomically load
three_logs-IsDurable =
    store_logs-IsDurable all_succeed (entry 1 1 ∷ entry 2 1 ∷ entry 3 2 ∷ []) empty_log
      (load-IsValid no_file) refl

-- The leader of term 2 sends its entries after the first.
abbrev append_request : AppendEntriesRequest
append_request = record {
  term = 2;
  leader_id = "b";
  prev_log_index = 1;
  prev_log_term = 1;
  entries = some sent;
  leader_commit = 0;
}

append_accepted : (handle_append_entries adder good 5 append_request node).0.0.success ≡ true
unfolding handle_append_entries append_lowered append_entries append_checked after_append
    finish_append follow_commit commit_target check_previous follow_leader last_index_and_term
    append_to_log merge_entries truncated_logs store_new get_log delete_range delete_top
    delete_marked mark_compacted delete_entries max_key store_logs store_entries put_entry persist
    write_file_atomically load lookup insert erase_where
append_accepted = refl

handle_append_entries-Replicated_example :
    Replicated append_request sent 0 0 three_logs
      (handle_append_entries adder good 5 append_request node).1.log_store
handle_append_entries-Replicated_example =
    handle_append_entries-Replicated adder good 5 append_request sent node refl
      (refl, omega arith, (refl, omega arith, (refl, omega arith, tt))) three_logs-IsValid
      three_logs-IsDurable append_accepted

append_to_log-IsDurable_example : IsDurable (append_to_log good 0 sent three_logs).1
append_to_log-IsDurable_example =
    append_to_log-IsDurable good 0 sent three_logs three_logs-IsValid three_logs-IsDurable
      merge_done

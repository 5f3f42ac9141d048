-- ===== src/Raft/Tests/Log.antt =====
-- The theorems about the log store and its file, at sample logs.
use sandstore.Base.{nat_eq, lookup, insert, false, ◌≡◌, refl, ◌≤◌, ◌<◌, arith, none, some, [], ◌∷◌}
use sandstore.Raft.Types.{err, log_compacted, max_uint64}
use sandstore.Raft.AtomicFile.{Syscalls, all_succeed, write_file_atomically}
use sandstore.Raft.LogStore.{
  load, put_entry, persist, store_entries, store_logs, get_log, mark_compacted, delete_entries,
  delete_top, delete_marked, delete_range,
}
use sandstore.Raft.LogStore.Valid.{load-IsValid}
use sandstore.Raft.LogStore.Contents.{latest, found_or, get_log-store_logs, logs-delete_range-zero}
use sandstore.Raft.LogStore.Compaction.{get_log-delete_range-zero}
use sandstore.Raft.LogStore.Reload.{IsDurable, store_logs-IsDurable, delete_range-IsDurable}
use sandstore.Raft.Tests.{entry, no_file, empty_log, three_logs, three_logs-IsValid}

-- A disk on which the rename fails.
abbrev no_rename : Syscalls
no_rename = record all_succeed { rename = false }

three_logs_stored :
    (store_logs all_succeed (entry 1 1 ∷ entry 2 1 ∷ entry 3 2 ∷ []) empty_log).0 ≡ none
unfolding store_logs store_entries put_entry persist write_file_atomically load
three_logs_stored = refl

three_logs-IsDurable : IsDurable three_logs
three_logs-IsDurable =
    store_logs-IsDurable all_succeed _ empty_log (load-IsValid no_file) three_logs_stored

store_logs-IsDurable_example : IsDurable three_logs
store_logs-IsDurable_example =
    store_logs-IsDurable all_succeed (entry 1 1 ∷ entry 2 1 ∷ entry 3 2 ∷ []) empty_log
      (load-IsValid no_file) three_logs_stored

truncation_done : (delete_range all_succeed 2 max_uint64 three_logs).0 ≡ none
unfolding delete_range delete_top delete_marked mark_compacted delete_entries store_logs
    store_entries put_entry persist write_file_atomically load
truncation_done = refl

delete_range-IsDurable_example : IsDurable (delete_range all_succeed 2 max_uint64 three_logs).1
delete_range-IsDurable_example =
    delete_range-IsDurable all_succeed 2 max_uint64 three_logs three_logs-IsValid
      three_logs-IsDurable truncation_done

get_log-store_logs_example :
    get_log three_logs 2 ≡ found_or (get_log empty_log 2) (some (entry 2 1))
unfolding latest
get_log-store_logs_example =
    get_log-store_logs all_succeed (entry 1 1 ∷ entry 2 1 ∷ entry 3 2 ∷ []) empty_log 2
      three_logs_stored

three_logs_mark : three_logs.compacted_until < 2
unfolding store_logs store_entries put_entry persist write_file_atomically load
three_logs_mark = omega arith

within_three_logs : 2 ≤ three_logs.last
unfolding store_logs store_entries put_entry persist write_file_atomically load
within_three_logs = omega arith

get_log-delete_range-zero_example :
    get_log (delete_range all_succeed 0 2 three_logs).1 1 ≡ err log_compacted
get_log-delete_range-zero_example =
    get_log-delete_range-zero all_succeed three_logs 2 three_logs-IsValid three_logs_mark
      within_three_logs (omega arith) 1

second_entry : lookup 2 three_logs.logs ≡ some (entry 2 1)
unfolding store_logs store_entries put_entry persist write_file_atomically load insert lookup
second_entry = refl

logs-delete_range-zero_example : (delete_range no_rename 0 2 three_logs).1.logs ≡ three_logs.logs
logs-delete_range-zero_example = logs-delete_range-zero no_rename three_logs 2

-- A write that leaves a part of the content.
abbrev torn_write : Syscalls
torn_write = record all_succeed { write = false }

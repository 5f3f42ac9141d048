-- ===== src/Raft/LogStore.antt =====
-- `FileLogStore` of internal/metadata_replicator/durable_raft/stores.go. Indices and terms are
-- numbers: the model takes them in the range where `int64` and `uint64` agree. The file holds the
-- content of the envelope; the envelope itself is in Raft/Envelope.
pub mod Valid
pub mod Contents
pub mod Compaction
pub mod Reload
use sandstore.Base.{
  ℕ, ◌+◌, Bool, ◌&&◌, Option, none, some, List, [], ◌∷◌, map, ltb, leb, ◌==◌, nat_eq, if◌then◌else◌,
  Dict, lookup, insert, erase_where,
}
use sandstore.Raft.Types.{
  LogEntry, Error, Result, ok, err, append_compacted, log_not_found, log_compacted, last_missing,
  max_uint64,
}
use sandstore.Raft.AtomicFile.{Syscalls, Slot, write_file_atomically}

pub record WalFile : Type 0 where
  pub compacted_until : ℕ
  pub compacted_term : ℕ
  pub logs : List LogEntry

pub record FileLogStore : Type 0 where
  pub logs : Dict ℕ LogEntry
  pub last : ℕ
  pub compacted_until : ℕ
  pub compacted_term : ℕ
  pub slot : Slot WalFile

-- `s.logs[idx] = entry; if idx > s.last { s.last = idx }`
unfoldable pub put_entry : LogEntry → FileLogStore → FileLogStore
put_entry entry s = record s {
  logs = insert entry.index entry s.logs;
  last = if ltb s.last entry.index then entry.index else s.last;
}

unfoldable pub load_entries : List LogEntry → FileLogStore → FileLogStore
load_entries [] s = s
load_entries (entry ∷ entries) s = load_entries entries (put_entry entry s)

-- A new store over a file whose envelope is valid, or over no file.
unfoldable pub load : Slot WalFile → FileLogStore
load slot = elim slot.file [
  | none ↦ record { logs = []; last = 0; compacted_until = 0; compacted_term = 0; slot = slot }
  | some wal ↦ load_entries wal.logs (record {
    logs = [];
    last = wal.compacted_until;
    compacted_until = wal.compacted_until;
    compacted_term = wal.compacted_term;
    slot = slot;
  })
]

-- `sort.Slice` by index; the indices are the keys of a map, so the result does not depend on the
-- algorithm.
unfoldable pub insert_sorted : LogEntry → List LogEntry → List LogEntry
insert_sorted e [] = e ∷ []
insert_sorted e (x ∷ xs) = if ltb x.index e.index then x ∷ insert_sorted e xs else e ∷ x ∷ xs

unfoldable pub sorted_entries : Dict ℕ LogEntry → List LogEntry
sorted_entries [] = []
sorted_entries ((_, e) ∷ m) = insert_sorted e (sorted_entries m)

unfoldable pub wal_file : FileLogStore → WalFile
wal_file s = record {
  compacted_until = s.compacted_until;
  compacted_term = s.compacted_term;
  logs = sorted_entries s.logs;
}

unfoldable pub persist : Syscalls → FileLogStore → Option Error × FileLogStore
persist sys s =
    let (e, slot') = write_file_atomically sys none (wal_file s) s.slot in
    (e, record s { slot = slot' })

-- The loop of `StoreLogs`; entries before a refused one stay in memory.
unfoldable pub store_entries : List LogEntry → FileLogStore → Option Error × FileLogStore
store_entries [] s = (none, s)
store_entries (entry ∷ entries) s =
    let rest = store_entries entries (put_entry entry s) in
    if leb entry.index s.compacted_until then (some append_compacted, s) else rest

unfoldable pub store_logs : Syscalls → List LogEntry → FileLogStore → Option Error × FileLogStore
store_logs sys entries s =
    let (e, s') = store_entries entries s in
    elim e [ some x ↦ (some x, s') | none ↦ persist sys s' ]

unfoldable pub get_log : FileLogStore → ℕ → Result LogEntry
get_log s index =
    if leb index s.compacted_until
    then err log_compacted
    else elim (lookup index s.logs) [ none ↦ err log_not_found | some entry ↦ ok entry ]

unfoldable pub last_index_and_term : FileLogStore → Result (ℕ × ℕ)
last_index_and_term s =
    if s.last == 0
    then ok (0, 0)
    else if s.last == s.compacted_until
    then ok (s.compacted_until, s.compacted_term)
    else elim (lookup s.last s.logs) [
      | none ↦ err last_missing
      | some entry ↦ ok (s.last, entry.term)
    ]

-- `for idx := range s.logs { if idx > s.last { s.last = idx } }`
unfoldable pub max_key : ℕ → Dict ℕ LogEntry → ℕ
max_key last [] = last
max_key last ((idx, _) ∷ m) = max_key (if ltb last idx then idx else last) m

-- The compaction mark is moved when the range begins at 0.
unfoldable pub mark_compacted : ℕ → ℕ → FileLogStore → FileLogStore
mark_compacted min max s =
    if (min == 0) && ltb s.compacted_until max
    then record s {
      compacted_term = elim (lookup max s.logs) [ some e ↦ e.term | none ↦ s.compacted_term ];
      compacted_until = max;
    }
    else s

unfoldable pub delete_entries : ℕ → ℕ → FileLogStore → FileLogStore
delete_entries min max s =
    let kept = erase_where (λ idx. leb min idx && leb idx max) s.logs in
    record s { logs = kept; last = max_key s.compacted_until kept }

-- The upper end of the range, cut to the last index.
unfoldable pub delete_top : ℕ → FileLogStore → ℕ
delete_top max s = if max == max_uint64 then s.last else if ltb s.last max then s.last else max

-- What follows the early returns of `DeleteRange`.
unfoldable pub delete_marked : Syscalls → ℕ → ℕ → FileLogStore → Option Error × FileLogStore
delete_marked sys min top s =
    let marked = mark_compacted min top s in
    persist sys (
      delete_entries (if leb min marked.compacted_until then marked.compacted_until + 1 else min)
        top marked)

unfoldable pub delete_range : Syscalls → ℕ → ℕ → FileLogStore → Option Error × FileLogStore
delete_range sys min max s =
    if ltb max min
    then (none, s)
    else if delete_top max s == 0
    then (none, s)
    else delete_marked sys min (delete_top max s) s

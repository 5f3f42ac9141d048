-- ===== src/Raft/LogStore/Compaction.antt =====
-- `DeleteRange` from 0, by which snapshots compact the log.
use sandstore.Base.{
  ℕ, ◌≤◌, ◌<◌, ◌≡◌, none, some, arith, leb, ◌==◌, nat_eq, if◌then◌else◌, Dict, lookup,
}
use sandstore.Raft.Types.{LogEntry, ok, err, log_compacted, max_uint64}
use sandstore.Raft.AtomicFile.{Syscalls}
use sandstore.Raft.LogStore.{
  FileLogStore, persist, get_log, last_index_and_term, mark_compacted, delete_entries, delete_top,
  delete_marked, delete_range,
}
use sandstore.Raft.LogStore.Valid.{IsMaxKey, IsValid, delete_range-IsValid}
use sandstore.Raft.LogStore.Contents.{logs-delete_range-zero}

pub IsMaxKey-unique :
    {low n k : ℕ} {m : Dict ℕ LogEntry} → IsMaxKey low m n → IsMaxKey low m k → n ≡ k
IsMaxKey-unique {n} {k} v w =
    ground (arith, v.attained, w.attained, v.above k, w.above n, v.from, w.from)

IsMaxKey-raise :
    {low up n : ℕ} {m : Dict ℕ LogEntry} → low ≤ up → up ≤ n → IsMaxKey low m n → IsMaxKey up m n
IsMaxKey-raise h k v = record { from = k; above = v.above; attained = grind (arith, v.attained) }

module _ (sys : Syscalls) (s : FileLogStore) (max : ℕ) (v : IsValid s) where
  module _ (above : s.compacted_until < max) (within : max ≤ s.last)
      (small : max < max_uint64) where
    marks-delete_range-zero :
        ((delete_range sys 0 max s).1.compacted_until ≡ max)
        × ((delete_range sys 0 max s).1.compacted_term
            ≡ elim (lookup max s.logs) [ some e ↦ e.term | none ↦ s.compacted_term ])
    unfolding delete_range delete_top delete_marked persist delete_entries mark_compacted
    marks-delete_range-zero = ground arith

    -- On a valid store, compaction from 0 to an index past the compaction mark, within the log and
    -- below the largest uint64, whatever file operation fails, reports the indices up to it as
    -- compacted and leaves what is read at every other index.
    pub get_log-delete_range-zero :
        (i : ℕ)
        → get_log (delete_range sys 0 max s).1 i
          ≡ (if leb i max then err log_compacted else get_log s i)
    unfolding get_log
    get_log-delete_range-zero i =
        ground (arith, marks-delete_range-zero.0, logs-delete_range-zero sys s max)

    last-delete_range-zero : (delete_range sys 0 max s).1.last ≡ s.last
    last-delete_range-zero = IsMaxKey-unique (delete_range-IsValid sys 0 max s v).last_max (
        rw (marks-delete_range-zero.0, logs-delete_range-zero sys s max)
          (IsMaxKey-raise (omega arith) within v.last_max))

    -- On a valid store, compaction from 0 to an index past the compaction mark, within the log and
    -- below the largest uint64, at which the log has an entry, keeps the index and the term of the
    -- last entry.
    pub last_index_and_term-delete_range-zero :
        (e : LogEntry)
        → lookup max s.logs ≡ some e
        → last_index_and_term (delete_range sys 0 max s).1 ≡ last_index_and_term s
    unfolding last_index_and_term
    last_index_and_term-delete_range-zero e h = ground (
      arith,
      marks-delete_range-zero,
      last-delete_range-zero,
      logs-delete_range-zero sys s max,
      above,
      within,
    )

-- The term that belongs to the last index.
pub last_term : FileLogStore → ℕ
last_term s =
    if s.last == 0
    then 0
    else if s.last == s.compacted_until
    then s.compacted_term
    else elim (lookup s.last s.logs) [ some e ↦ e.term | none ↦ 0 ]

-- On a valid store the last entry can always be read: LastIndexAndTerm does not report it as
-- missing.
pub last_index_and_term_total :
    (s : FileLogStore) → IsValid s → last_index_and_term s ≡ ok (s.last, last_term s)
unfolding last_index_and_term last_term
last_index_and_term_total s v = ground (arith, v.last_max.attained)

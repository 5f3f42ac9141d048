-- ===== src/Raft/LogStore/Contents.antt =====
-- What the log store holds after `StoreLogs` and `DeleteRange`.
use sandstore.Base.{
  ℕ, ◌+◌, ◌≤◌, ◌<◌, ◌≡◌, ◌≢◌, refl, ap, ◌∙◌, Bool, false, ◌&&◌, Bool-cases, Option-cases, Option,
  none, some, inl, inr, List, [], ◌∷◌, arith, ltb, leb, ◌==◌, nat_eq, if◌then◌else◌, Dict, lookup,
  erase_where, lookup-insert, lookup-erase_where,
}
use sandstore.Raft.Types.{LogEntry, Result, ok, err, log_not_found, max_uint64}
use sandstore.Raft.AtomicFile.{Syscalls}
use sandstore.Raft.LogStore.{
  FileLogStore, put_entry, persist, store_entries, store_logs, get_log, mark_compacted,
  delete_entries, delete_top, delete_marked, delete_range,
}
use sandstore.Raft.LogStore.Valid.{IsValid}

-- The last entry of a batch with an index.
unfoldable pub latest : ℕ → List LogEntry → Option LogEntry
latest i [] = none
latest i (e ∷ es) = elim (latest i es) [
  | some x ↦ some x
  | none ↦ if e.index == i then some e else none
]

abbrev pub or_else : Option LogEntry → Option LogEntry → Option LogEntry
or_else (some x) o = some x
or_else none o = o

-- What an accepted batch does to the store in memory.
pub record Stored (es : List LogEntry) (s t : FileLogStore) : Type 0 where
  pub compacted_until : t.compacted_until ≡ s.compacted_until
  pub compacted_term : t.compacted_term ≡ s.compacted_term
  pub lookups : (i : ℕ) → lookup i t.logs ≡ or_else (latest i es) (lookup i s.logs)
  pub fresh : (i : ℕ) → latest i es ≢ none → s.compacted_until < i

store_entries-Stored :
    (es : List LogEntry) (s : FileLogStore)
    → (store_entries es s).0 ≡ none
    → Stored es s (store_entries es s).1
unfolding store_entries latest put_entry
store_entries-Stored [] s h = record {
  compacted_until = refl;
  compacted_term = refl;
  lookups = λ i. refl;
  fresh = λ i n. absurd (n refl);
}
store_entries-Stored (e ∷ es) s h = elim (Bool-cases (leb e.index s.compacted_until)) [
  | inl old ↦ absurd (ground arith)
  | inr new ↦ rw new (step (store_entries-Stored es (put_entry e s) (ground arith)))
]
  where
    step : {t : FileLogStore} → Stored es (put_entry e s) t → Stored (e ∷ es) s t
    step {t} r = record {
      compacted_until = ground (arith, r.compacted_until);
      compacted_term = ground (arith, r.compacted_term);
      lookups = λ i. ground (arith, r.lookups i, lookup-insert e.index i e s.logs);
      fresh = λ i n. ground (arith, r.fresh i);
    }

-- The entry that a read returns.
abbrev pub found_or : Result LogEntry → Option LogEntry → Result LogEntry
found_or r none = r
found_or r (some e) = ok e

module _ (sys : Syscalls) (es : List LogEntry) (s : FileLogStore) where
  store_logs-Stored : (store_logs sys es s).0 ≡ none → Stored es s (store_logs sys es s).1
  unfolding store_logs persist
  store_logs-Stored h = elim (Option-cases (store_entries es s).0) [
    | inl fine ↦
        let r = store_entries-Stored es s fine in
        rw (fine, store_logs)
          (record {
            compacted_until = r.compacted_until;
            compacted_term = r.compacted_term;
            lookups = r.lookups;
            fresh = r.fresh;
          })
    | inr (x, refused) ↦ absurd (ground arith)
  ]

  -- After a successful StoreLogs, each index of the batch reads its last entry there, and every
  -- other index reads what it read before.
  pub get_log-store_logs :
      (i : ℕ)
      → (store_logs sys es s).0 ≡ none
      → get_log (store_logs sys es s).1 i ≡ found_or (get_log s i) (latest i es)
  unfolding get_log
  get_log-store_logs i h =
      let r = store_logs-Stored h in ground (arith, r.compacted_until, r.lookups i, r.fresh i)

erase_where_none {ℓ} :
    {V : Type ℓ} (p : ℕ → Bool) (m : Dict ℕ V) → ((i : ℕ) → p i ≡ false) → erase_where p m ≡ m
unfolding erase_where
erase_where_none p [] h = refl
erase_where_none p ((i, v) ∷ m) h = rw (h i) (ap (◌∷◌ (i, v)) (erase_where_none p m h))

ltb-zero : (n : ℕ) → ltb n 0 ≡ false
ltb-zero n = ground arith

module _ (sys : Syscalls) (s : FileLogStore) where
  logs-delete_marked :
      (min top : ℕ)
      → (delete_marked sys min top s).1.logs
        ≡ erase_where
            (λ idx.
              leb
                (if leb min (mark_compacted min top s).compacted_until
                  then (mark_compacted min top s).compacted_until + 1
                  else min)
                idx
              && leb idx top)
            s.logs
  unfolding delete_marked delete_entries persist mark_compacted
  logs-delete_marked min top = ground arith

  marked-zero : (top : ℕ) → top ≤ (mark_compacted 0 top s).compacted_until
  unfolding mark_compacted
  marked-zero top = ground arith

  -- A range that begins at 0 deletes no entry from the map of the store, whatever its end is:
  -- compaction only moves the mark.
  pub logs-delete_range-zero : (max : ℕ) → (delete_range sys 0 max s).1.logs ≡ s.logs
  unfolding delete_range
  logs-delete_range-zero max = elim (Bool-cases (delete_top max s == 0)) [
    | inl none_left ↦ rw (ltb-zero max) (rw none_left)
    | inr some_left ↦ rw (ltb-zero max) (
        rw some_left (
          logs-delete_marked 0 (delete_top max s)
          ∙ erase_where_none _ s.logs (λ i. ground (arith, marked-zero (delete_top max s)))))
  ]

  module _ (min : ℕ) (above : s.compacted_until < min) where
    mark_compacted_above : (top : ℕ) → mark_compacted min top s ≡ s
    unfolding mark_compacted
    mark_compacted_above top = ground arith

    lookup-delete_marked :
        (top i : ℕ)
        → lookup i (delete_marked sys min top s).1.logs
          ≡ (if leb min i && leb i top then none else lookup i s.logs)
    lookup-delete_marked top i =
        rw (logs-delete_marked min top)
          (rw (mark_compacted_above top) (lookup-erase_where _ i s.logs ∙ ground arith))

    marks-delete_marked :
        (top : ℕ)
        → ((delete_marked sys min top s).1.compacted_until ≡ s.compacted_until)
          × ((delete_marked sys min top s).1.compacted_term ≡ s.compacted_term)
    unfolding delete_marked persist delete_entries
    marks-delete_marked top = rw (mark_compacted_above top) (refl, refl)

    -- On a valid store, deleting from an index above the compaction mark to the largest uint64
    -- leaves what is read below the index and leaves no entry from it on, whatever file operation
    -- fails.
    pub get_log-delete_range-suffix :
        (i : ℕ)
        → IsValid s
        → min ≤ max_uint64
        → get_log (delete_range sys min max_uint64 s).1 i
          ≡ (if leb min i then err log_not_found else get_log s i)
    unfolding get_log delete_range delete_top
    get_log-delete_range-suffix i v small =
        ground
          (arith, lookup-delete_marked s.last i, (marks-delete_marked s.last).0, v.last_max.above i)

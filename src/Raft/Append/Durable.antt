-- ===== src/Raft/Append/Durable.antt =====
-- The file of the log after the entries of a request were merged into it.
use sandstore.Base.{
  ℕ, ◌≡◌, true, Option, none, some, List, [], ◌∷◌, Bool-cases, Option-cases, inl, inr, leb, ◌==◌,
  nat_eq,
}
use sandstore.Raft.Types.{LogEntry, Result-cases, max_uint64}
use sandstore.Raft.LogStore.{FileLogStore, get_log, store_logs, delete_range}
use sandstore.Raft.LogStore.Valid.{IsValid, store_logs-IsValid, delete_range-IsValid}
use sandstore.Raft.LogStore.Reload.{IsDurable, store_logs-IsDurable}
use sandstore.Raft.Append.{AppendSyscalls, truncated_logs, merge_entries, store_new, append_to_log}
use sandstore.Raft.Append.Merge.{store_new-cases, truncated_cases}

module _ (sys : AppendSyscalls) (last_included : ℕ) where
  store_new-IsValid :
      (es : Option (List LogEntry)) (s : FileLogStore) → IsValid s → IsValid (store_new sys es s).1
  unfolding store_new
  store_new-IsValid none s v = v
  store_new-IsValid (some []) s v = v
  store_new-IsValid (some (e ∷ es)) s v = elim (Option-cases (store_logs sys.store (e ∷ es) s).0) [
    | inl fine ↦ rw (fine, store_new) (store_logs-IsValid sys.store (e ∷ es) s v)
    | inr (x, failed) ↦ rw (failed, store_new) (store_logs-IsValid sys.store (e ∷ es) s v)
  ]

  truncated_logs-IsValid :
      (e : LogEntry) (es : List LogEntry) (s : FileLogStore)
      → IsValid s
      → IsValid (truncated_logs sys e es s).1
  unfolding truncated_logs
  truncated_logs-IsValid e es s v =
      let w = delete_range-IsValid sys.truncate e.index max_uint64 s v in
      elim (Option-cases (delete_range sys.truncate e.index max_uint64 s).0) [
        | inl fine ↦ rw (fine, truncated_logs) w
        | inr (x, failed) ↦ rw (failed, truncated_logs) w
      ]

  merge_entries-IsValid :
      (es : List LogEntry) (s : FileLogStore)
      → IsValid s
      → IsValid (merge_entries sys last_included es s).1
  unfolding merge_entries
  merge_entries-IsValid [] s v = v
  merge_entries-IsValid (e ∷ es) s v =
      let ih = merge_entries-IsValid es s v in
      elim (Bool-cases (leb e.index last_included)) [
        | inl old ↦ rw old ih
        | inr new ↦ elim (Result-cases (get_log s e.index)) [
          | inl (x, missing) ↦ rw new (rw missing v)
          | inr (x, found) ↦ elim (Bool-cases (x.term == e.term)) [
            | inl same ↦ rw new (rw found (rw same ih))
            | inr differs ↦ rw new (rw found (rw differs (truncated_logs-IsValid e es s v)))
          ]
        ]
      ]

  -- Merging the entries of a request keeps the store valid, whatever write fails.
  pub append_to_log-IsValid :
      (es : List LogEntry) (s : FileLogStore)
      → IsValid s
      → IsValid (append_to_log sys last_included es s).1
  unfolding append_to_log
  append_to_log-IsValid es s v = store_new-IsValid _ _ (merge_entries-IsValid es s v)

  store_new-IsDurable :
      (e : LogEntry) (es : List LogEntry) (s : FileLogStore)
      → IsValid s
      → (store_new sys (some (e ∷ es)) s).0 ≡ true
      → IsDurable (store_new sys (some (e ∷ es)) s).1
  store_new-IsDurable e es s v h =
      let (fine, same) = store_new-cases sys last_included e es s h in
      rw same (store_logs-IsDurable sys.store (e ∷ es) s v fine)

  -- After a successful merge into a valid and durable log, a restart reads the log that the node
  -- has in memory.
  pub append_to_log-IsDurable :
      (es : List LogEntry) (s : FileLogStore)
      → IsValid s
      → IsDurable s
      → (append_to_log sys last_included es s).0 ≡ true
      → IsDurable (append_to_log sys last_included es s).1
  unfolding append_to_log merge_entries
  append_to_log-IsDurable [] s v d h = unfold store_new in d
  append_to_log-IsDurable (e ∷ es) s v d h =
      let ih = append_to_log-IsDurable es s v d in
      elim (Bool-cases (leb e.index last_included)) [
        | inl old ↦ rw old (ih (rw old at h))
        | inr new ↦ elim (Result-cases (get_log s e.index)) [
          | inl (x, missing) ↦
              rw new (rw missing (store_new-IsDurable e es s v (rw missing at (rw new at h))))
          | inr (x, found) ↦ elim (Bool-cases (x.term == e.term)) [
            | inl same ↦ rw new (rw found (rw same (ih (rw same at (rw found at (rw new at h))))))
            | inr differs ↦
                let g = rw differs at (rw found at (rw new at h)) in
                let cut = truncated_cases sys last_included e es s g in
                rw new (
                  rw found (
                    rw differs (
                      rw cut (
                        store_new-IsDurable e es (delete_range sys.truncate e.index max_uint64 s).1
                          (delete_range-IsValid sys.truncate e.index max_uint64 s v)
                          (rw cut at g)))))
          ]
        ]
      ]

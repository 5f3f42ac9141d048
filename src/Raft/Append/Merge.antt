-- ===== src/Raft/Append/Merge.antt =====
-- The log after the entries of a request were merged into it.
use sandstore.Base.{
  ℕ, ◌+◌, ◌≤◌, ◌<◌, ◌≡◌, refl, ◌∙◌, ◌⊎◌, true, none, some, List, [], ◌∷◌, arith, Bool-cases, inl,
  inr, leb, ◌==◌, nat_eq, string_eq, All,
}
use sandstore.Raft.Types.{LogEntry, ok, Result-cases, max_uint64}
use sandstore.Raft.LogStore.{FileLogStore, get_log, store_logs, delete_range}
use sandstore.Raft.LogStore.Valid.{IsValid}
use sandstore.Raft.LogStore.Contents.{latest, get_log-store_logs, get_log-delete_range-suffix}
use sandstore.Raft.Append.{AppendSyscalls, truncated_logs, merge_entries, store_new, append_to_log}

-- The entries have the indices from `i` on, one after another, below the largest `uint64`.
abbrev pub Consecutive : ℕ → List LogEntry → Type 0
Consecutive i [] = Unit
Consecutive i (e ∷ es) = (e.index ≡ i) × (i ≤ max_uint64) × Consecutive (i + 1) es

latest-Consecutive : (j i : ℕ) (es : List LogEntry) → Consecutive i es → j < i → latest j es ≡ none
unfolding latest
latest-Consecutive j i [] c h = refl
latest-Consecutive j i (e ∷ es) (here, small, c) h =
    ground (arith, latest-Consecutive j (i + 1) es c)

present_above :
    (s : FileLogStore) (i : ℕ) (e : LogEntry) → get_log s i ≡ ok e → s.compacted_until < i
unfolding get_log
present_above s i e h = ground arith

-- An entry of this index and term is in the log, or the snapshot includes it.
abbrev pub Holds : ℕ → FileLogStore → LogEntry → Type 0
Holds last_included s e =
    (e.index ≤ last_included) ⊎ ((x : LogEntry) × (get_log s e.index ≡ ok x) × (x.term ≡ e.term))

-- The store agrees with another one at every index below `i`.
abbrev pub AgreesBelow : ℕ → FileLogStore → FileLogStore → Type 0
AgreesBelow i s t = (j : ℕ) → j < i → get_log t j ≡ get_log s j

-- What holds for the last entry of each index holds for consecutive entries.
last_ones_suffice :
    (P : LogEntry → Type 0) (i : ℕ) (es : List LogEntry)
    → Consecutive i es
    → ((e : LogEntry) → latest e.index es ≡ some e → P e)
    → All P es
unfolding latest
last_ones_suffice P i [] c f = tt
last_ones_suffice P i (e ∷ es) (here, small, c) f = (
  f e (ground (arith, latest-Consecutive i (i + 1) es c)),
  last_ones_suffice P (i + 1) es c (λ x h. f x (ground arith)),
)

-- `t` holds the entries, and reads as `s` below the first of them.
pub record Merged (last_included i : ℕ) (es : List LogEntry) (s t : FileLogStore) : Type 0 where
  pub holds : All (Holds last_included t) es
  pub below : AgreesBelow i s t

known :
    (last_included i : ℕ) (e : LogEntry) (es : List LogEntry) (s t : FileLogStore)
    → Holds last_included t e
    → Merged last_included (i + 1) es s t
    → Merged last_included i (e ∷ es) s t
known last_included i e es s t h m = record {
  holds = (h, m.holds);
  below = λ j lt. m.below j (omega arith);
}

module _ (sys : AppendSyscalls) (last_included : ℕ) where
  pub store_new-cases :
      (e : LogEntry) (es : List LogEntry) (s : FileLogStore)
      → (store_new sys (some (e ∷ es)) s).0 ≡ true
      → ((store_logs sys.store (e ∷ es) s).0 ≡ none)
        × ((store_new sys (some (e ∷ es)) s).1 ≡ (store_logs sys.store (e ∷ es) s).1)
  unfolding store_new
  store_new-cases e es s h = ground arith

  store_new-Merged :
      (i : ℕ) (e : LogEntry) (es : List LogEntry) (s : FileLogStore)
      → Consecutive i (e ∷ es)
      → (store_new sys (some (e ∷ es)) s).0 ≡ true
      → Merged last_included i (e ∷ es) s (store_new sys (some (e ∷ es)) s).1
  store_new-Merged i e es s c h =
      let (fine, same) = store_new-cases e es s h in
      let reads = λ (j : ℕ). get_log-store_logs sys.store (e ∷ es) s j fine in
      rw same (record {
        holds =
            last_ones_suffice (Holds last_included (store_logs sys.store (e ∷ es) s).1) i (e ∷ es) c
              (λ x l. inr (x, reads x.index ∙ rw l, refl));
        below = λ j lt. reads j ∙ rw (latest-Consecutive j i (e ∷ es) c lt);
      })

  truncated_below :
      (i : ℕ) (s : FileLogStore) (existing : LogEntry)
      → IsValid s
      → i ≤ max_uint64
      → get_log s i ≡ ok existing
      → AgreesBelow i s (delete_range sys.truncate i max_uint64 s).1
  truncated_below i s existing v small found j below =
      get_log-delete_range-suffix sys.truncate s i (present_above s i existing found) j v small
      ∙ ground arith

  pub truncated_cases :
      (e : LogEntry) (es : List LogEntry) (s : FileLogStore)
      → (store_new sys (truncated_logs sys e es s).0 (truncated_logs sys e es s).1).0 ≡ true
      → truncated_logs sys e es s
        ≡ (some (e ∷ es), (delete_range sys.truncate e.index max_uint64 s).1)
  unfolding truncated_logs store_new
  truncated_cases e es s h = ground arith

  -- A conflicting entry: the log is truncated, and the entries are stored.
  truncate_then_store :
      (i : ℕ) (e : LogEntry) (es : List LogEntry) (s : FileLogStore) (x : LogEntry)
      → IsValid s
      → Consecutive i (e ∷ es)
      → get_log s e.index ≡ ok x
      → (store_new sys (truncated_logs sys e es s).0 (truncated_logs sys e es s).1).0 ≡ true
      → Merged last_included i
          (e ∷ es)
          s
          (store_new sys (truncated_logs sys e es s).0 (truncated_logs sys e es s).1).1
  truncate_then_store i e es s x v (here, small, c) found h =
      let same = truncated_cases e es s h in
      let m =
        store_new-Merged i e es (delete_range sys.truncate e.index max_uint64 s).1 (here, small, c)
          (rw same at h) in
      rw same (record {
        holds = m.holds;
        below = λ j lt.
            m.below j lt ∙ truncated_below e.index s x v (rw here small) found j (rw here lt);
      })

  -- After a successful merge of consecutive entries into a valid log, the log holds each entry
  -- that the snapshot does not include with its term, and reads as before below the first of them.
  pub append_to_log-Merged :
      (i : ℕ) (es : List LogEntry) (s : FileLogStore)
      → IsValid s
      → Consecutive i es
      → (append_to_log sys last_included es s).0 ≡ true
      → Merged last_included i es s (append_to_log sys last_included es s).1
  unfolding append_to_log merge_entries
  append_to_log-Merged i [] s v c h =
      unfold store_new in record { holds = tt; below = λ j lt. refl }
  append_to_log-Merged i (e ∷ es) s v (here, small, c) h =
      let ih = append_to_log-Merged (i + 1) es s v c in
      elim (Bool-cases (leb e.index last_included)) [
        | inl old ↦ rw old (known last_included i e es s _ (inl (ground arith)) (ih (rw old at h)))
        | inr new ↦ elim (Result-cases (get_log s e.index)) [
          | inl (x, missing) ↦ rw new (
              rw missing (store_new-Merged i e es s (here, small, c) (rw missing at (rw new at h))))
          | inr (x, found) ↦ elim (Bool-cases (x.term == e.term)) [
            | inl same ↦
                let m = ih (rw same at (rw found at (rw new at h))) in
                rw new (
                  rw found (
                    rw same (
                      known last_included i e es s _
                        (inr (x, m.below e.index (omega arith) ∙ found, ground arith)) m)))
            | inr differs ↦ rw new (
                rw found (
                  rw differs (
                    truncate_then_store i e es s x v (here, small, c) found
                      (rw differs at (rw found at (rw new at h))))))
          ]
        ]
      ]

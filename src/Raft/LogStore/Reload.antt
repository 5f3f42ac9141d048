-- ===== src/Raft/LogStore/Reload.antt =====
-- What a restart reads back from the file.
use sandstore.Base.{
  ℕ, ◌≡◌, refl, ◌∙◌, Option-cases, none, some, inl, inr, List, [], ◌∷◌, arith, NodupKeys, ◌==◌,
  nat_eq, if◌then◌else◌, Dict, lookup, lookup-insert,
}
use sandstore.Raft.Types.{LogEntry}
use sandstore.Raft.AtomicFile.{Syscalls, Slot, file-write_file_atomically_ok}
use sandstore.Raft.LogStore.{
  FileLogStore, WalFile, put_entry, load_entries, load, insert_sorted, sorted_entries, wal_file,
  persist, store_entries, store_logs, get_log, last_index_and_term, delete_range,
}
use sandstore.Raft.LogStore.Valid.{
  KeysMatch, IsValid, load-IsValid, persist-IsValid, store_entries-IsValid, deleted-IsValid,
  delete_range-cases,
}
use sandstore.Raft.LogStore.Contents.{latest, or_else}
use sandstore.Raft.LogStore.Compaction.{IsMaxKey-unique}

load_entries-lookup :
    (es : List LogEntry) (s : FileLogStore) (i : ℕ)
    → lookup i (load_entries es s).logs ≡ or_else (latest i es) (lookup i s.logs)
unfolding load_entries latest put_entry
load_entries-lookup [] s i = refl
load_entries-lookup (e ∷ es) s i =
    load_entries-lookup es (put_entry e s) i ∙ ground (arith, lookup-insert e.index i e s.logs)

load_entries-marks :
    (es : List LogEntry) (s : FileLogStore)
    → ((load_entries es s).compacted_until ≡ s.compacted_until)
      × ((load_entries es s).compacted_term ≡ s.compacted_term)
unfolding load_entries put_entry
load_entries-marks [] s = (refl, refl)
load_entries-marks (e ∷ es) s = load_entries-marks es (put_entry e s)

latest-insert_sorted :
    (i : ℕ) (e : LogEntry) (es : List LogEntry)
    → latest e.index es ≡ none
    → latest i (insert_sorted e es) ≡ (if e.index == i then some e else latest i es)
unfolding latest insert_sorted
latest-insert_sorted i e [] h = refl
latest-insert_sorted i e (x ∷ xs) h = ground (arith, latest-insert_sorted i e xs)

latest-sorted_entries :
    (i : ℕ) (m : Dict ℕ LogEntry)
    → NodupKeys m
    → KeysMatch m
    → latest i (sorted_entries m) ≡ lookup i m
unfolding latest sorted_entries lookup
latest-sorted_entries i [] u k = refl
latest-sorted_entries i ((j, e) ∷ m) (fresh, u) k =
    let rest = λ (x : ℕ). latest-sorted_entries x m u (λ n x h. ground (arith, k n x)) in
    let here : e.index ≡ j = k j e (ground arith) in
    ground (arith, latest-insert_sorted i e (sorted_entries m), rest j, rest i)

-- Two stores that no reader of the log can tell apart.
pub record SameLog (a b : FileLogStore) : Type 0 where
  pub entries : (i : ℕ) → get_log a i ≡ get_log b i
  pub ends : last_index_and_term a ≡ last_index_and_term b

indistinguishable :
    (a b : FileLogStore)
    → IsValid a
    → IsValid b
    → a.compacted_until ≡ b.compacted_until
    → a.compacted_term ≡ b.compacted_term
    → ((i : ℕ) → lookup i a.logs ≡ lookup i b.logs)
    → SameLog a b
unfolding get_log last_index_and_term
indistinguishable a b v w until term same =
    let last : a.last ≡ b.last = IsMaxKey-unique v.last_max (record {
      from = ground (arith, w.last_max.from);
      above = λ i h. ground (arith, w.last_max.above i, same i);
      attained = grind (arith, w.last_max.attained, same b.last);
    }) in
    record { entries = λ i. ground (arith, same i); ends = ground (arith, same a.last) }

load-wal_file :
    (s : FileLogStore) (slot : Slot WalFile)
    → IsValid s
    → slot.file ≡ some (wal_file s)
    → SameLog (load slot) s
unfolding load wal_file lookup
load-wal_file s slot v h =
    indistinguishable (load slot) s (load-IsValid slot) v (rw h (load_entries-marks _ _).0)
      (rw h (load_entries-marks _ _).1)
      (λ i. rw h (
        load_entries-lookup (sorted_entries s.logs) _ i
        ∙ ground (arith, latest-sorted_entries i s.logs v.nodup v.keys_match)))

-- What a restart reads is what the store in memory holds.
abbrev pub IsDurable : FileLogStore → Type 0
IsDurable s = SameLog (load s.slot) s

persist-IsDurable :
    (sys : Syscalls) (s : FileLogStore)
    → IsValid s
    → (persist sys s).0 ≡ none
    → IsDurable (persist sys s).1
persist-IsDurable sys s v fine =
    load-wal_file (persist sys s).1 (persist sys s).1.slot (persist-IsValid sys s v)
      (unfold persist wal_file in file-write_file_atomically_ok sys none (wal_file s) s.slot fine)

-- A nil error of StoreLogs on a valid store is a durable append: the store that a restart loads
-- reads the same at every index and has the same last entry.
pub store_logs-IsDurable :
    (sys : Syscalls) (es : List LogEntry) (s : FileLogStore)
    → IsValid s
    → (store_logs sys es s).0 ≡ none
    → IsDurable (store_logs sys es s).1
unfolding store_logs
store_logs-IsDurable sys es s v h = elim (Option-cases (store_entries es s).0) [
  | inl fine ↦
      rw (fine, store_logs)
        (persist-IsDurable sys _ (store_entries-IsValid es s v) (rw (fine, store_logs) at h))
  | inr (x, refused) ↦ absurd (ground arith)
]

-- A nil error of DeleteRange on a valid and durable store leaves a durable store, for every range.
pub delete_range-IsDurable :
    (sys : Syscalls) (min max : ℕ) (s : FileLogStore)
    → IsValid s
    → IsDurable s
    → (delete_range sys min max s).0 ≡ none
    → IsDurable (delete_range sys min max s).1
delete_range-IsDurable sys min max s v d h = elim (delete_range-cases sys min max s) [
  | inl e ↦ rw e d
  | inr e ↦ rw e (persist-IsDurable sys _ (deleted-IsValid min _ s v) (rw e at h))
]

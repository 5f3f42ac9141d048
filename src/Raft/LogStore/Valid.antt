-- ===== src/Raft/LogStore/Valid.antt =====
-- The invariant of the log store, which every operation keeps on every outcome.
use sandstore.Base.{
  ℕ, ◌+◌, ◌≤◌, ◌≡◌, refl, ◌≢◌, ◌⊎◌, inl, inr, ◌&&◌, Bool-cases, Option-cases, none, some, List, [],
  ◌∷◌, arith, ltb, leb, ◌==◌, nat_eq, if◌then◌else◌, Dict, lookup, insert, NodupKeys, lookup-insert,
  lookup-erase_where, insert-NodupKeys, erase_where-NodupKeys,
}
use sandstore.Raft.Types.{LogEntry}
use sandstore.Raft.AtomicFile.{Syscalls, Slot}
use sandstore.Raft.LogStore.{
  FileLogStore, WalFile, put_entry, load_entries, load, persist, store_entries, store_logs, max_key,
  mark_compacted, delete_entries, delete_top, delete_marked, delete_range,
}

abbrev pub KeysMatch : Dict ℕ LogEntry → Type 0
KeysMatch m = (i : ℕ) (e : LogEntry) → lookup i m ≡ some e → e.index ≡ i

-- `n` is the largest of `low` and the keys of `m`.
pub record IsMaxKey (low : ℕ) (m : Dict ℕ LogEntry) (n : ℕ) : Type 0 where
  pub from : low ≤ n
  pub above : (i : ℕ) → lookup i m ≢ none → i ≤ n
  pub attained : (n ≡ low) ⊎ (lookup n m ≢ none)

pub record IsValid (s : FileLogStore) : Type 0 where
  pub nodup : NodupKeys s.logs
  pub keys_match : KeysMatch s.logs
  pub last_max : IsMaxKey s.compacted_until s.logs s.last

insert-IsMaxKey :
    (low n : ℕ) (m : Dict ℕ LogEntry) (e : LogEntry)
    → IsMaxKey low m n
    → IsMaxKey low (insert e.index e m) (if ltb n e.index then e.index else n)
insert-IsMaxKey low n m e v = record {
  from = ground (arith, v.from);
  above = λ i h. ground (arith, v.above i, lookup-insert e.index i e m);
  attained =
      grind (arith, v.attained, lookup-insert e.index n e m, lookup-insert e.index e.index e m);
}

cons-IsMaxKey :
    (acc k n : ℕ) (x : LogEntry) (m : Dict ℕ LogEntry)
    → IsMaxKey (if ltb acc k then k else acc) m n
    → IsMaxKey acc ((k, x) ∷ m) n
unfolding lookup
cons-IsMaxKey acc k n x m v = record {
  from = ground (arith, v.from);
  above = λ i h. ground (arith, v.above i, v.from);
  attained = ground (arith, v.attained);
}

max_key-IsMaxKey : (acc : ℕ) (m : Dict ℕ LogEntry) → IsMaxKey acc m (max_key acc m)
unfolding max_key lookup
max_key-IsMaxKey acc [] = record {
  from = omega arith;
  above = λ i h. absurd (h refl);
  attained = inl refl;
}
max_key-IsMaxKey acc ((k, x) ∷ m) =
    cons-IsMaxKey acc k _ x m (max_key-IsMaxKey (if ltb acc k then k else acc) m)

put_entry-IsValid : (e : LogEntry) (s : FileLogStore) → IsValid s → IsValid (put_entry e s)
unfolding put_entry
put_entry-IsValid e s v = record {
  nodup = insert-NodupKeys e.index e s.logs v.nodup;
  keys_match = λ i x h. ground (arith, lookup-insert e.index i e s.logs, v.keys_match i x);
  last_max = insert-IsMaxKey s.compacted_until s.last s.logs e v.last_max;
}

load_entries-IsValid :
    (es : List LogEntry) (s : FileLogStore) → IsValid s → IsValid (load_entries es s)
unfolding load_entries
load_entries-IsValid [] s v = v
load_entries-IsValid (e ∷ es) s v =
    load_entries-IsValid es (put_entry e s) (put_entry-IsValid e s v)

empty-IsValid :
    (until term : ℕ) (slot : Slot WalFile)
    → IsValid (record {
      logs = [];
      last = until;
      compacted_until = until;
      compacted_term = term;
      slot = slot;
    })
unfolding lookup
empty-IsValid until term slot = record {
  nodup = tt;
  keys_match = λ i e h. cc;
  last_max = record { from = omega arith; above = λ i h. absurd (h refl); attained = inl refl };
}

-- Whatever the file holds, the store that is loaded from it is valid: distinct keys, entries under
-- their own index, and the last index the largest of the compaction mark and the keys.
pub load-IsValid : (slot : Slot WalFile) → IsValid (load slot)
unfolding load
load-IsValid slot = elim (Option-cases slot.file) [
  | inl absent ↦ rw (absent, load) (empty-IsValid 0 0 slot)
  | inr (wal, found) ↦
      rw (found, load)
        (load_entries-IsValid wal.logs _
          (empty-IsValid wal.compacted_until wal.compacted_term slot))
]

pub persist-IsValid : (sys : Syscalls) (s : FileLogStore) → IsValid s → IsValid (persist sys s).1
unfolding persist
persist-IsValid sys s v = record {
  nodup = v.nodup;
  keys_match = v.keys_match;
  last_max = v.last_max;
}

pub store_entries-IsValid :
    (es : List LogEntry) (s : FileLogStore) → IsValid s → IsValid (store_entries es s).1
unfolding store_entries
store_entries-IsValid [] s v = v
store_entries-IsValid (e ∷ es) s v = elim (Bool-cases (leb e.index s.compacted_until)) [
  | inl old ↦ rw old v
  | inr new ↦ rw new (store_entries-IsValid es (put_entry e s) (put_entry-IsValid e s v))
]

-- StoreLogs keeps the store valid, whether or not it returns an error.
pub store_logs-IsValid :
    (sys : Syscalls) (es : List LogEntry) (s : FileLogStore)
    → IsValid s
    → IsValid (store_logs sys es s).1
unfolding store_logs
store_logs-IsValid sys es s v = elim (Option-cases (store_entries es s).0) [
  | inl fine ↦ rw (fine, store_logs) (persist-IsValid sys _ (store_entries-IsValid es s v))
  | inr (x, refused) ↦ rw (refused, store_logs) (store_entries-IsValid es s v)
]

mark_compacted-parts :
    (min max : ℕ) (s : FileLogStore)
    → ((mark_compacted min max s).logs ≡ s.logs) × ((mark_compacted min max s).slot ≡ s.slot)
unfolding mark_compacted
mark_compacted-parts min max s = ground arith

delete_entries-IsValid :
    (min max : ℕ) (s : FileLogStore)
    → NodupKeys s.logs
    → KeysMatch s.logs
    → IsValid (delete_entries min max s)
unfolding delete_entries
delete_entries-IsValid min max s u k =
    let p = λ (idx : ℕ). leb min idx && leb idx max in
    record {
      nodup = erase_where-NodupKeys p s.logs u;
      keys_match = λ i e h. ground (arith, lookup-erase_where p i s.logs, k i e);
      last_max = max_key-IsMaxKey s.compacted_until _;
    }

-- What `DeleteRange` writes to the file.
abbrev pub deleted : ℕ → ℕ → FileLogStore → FileLogStore
deleted min top s =
    let marked = mark_compacted min top s in
    delete_entries (if leb min marked.compacted_until then marked.compacted_until + 1 else min) top
      marked

pub deleted-IsValid : (min top : ℕ) (s : FileLogStore) → IsValid s → IsValid (deleted min top s)
deleted-IsValid min top s v =
    delete_entries-IsValid _ top (mark_compacted min top s)
      (rw (mark_compacted-parts min top s).0 v.nodup)
      (rw (mark_compacted-parts min top s).0 v.keys_match)

-- `DeleteRange` returns early with nothing done, or writes what is left.
pub delete_range-cases :
    (sys : Syscalls) (min max : ℕ) (s : FileLogStore)
    → (delete_range sys min max s ≡ (none, s))
      ⊎ (delete_range sys min max s ≡ persist sys (deleted min (delete_top max s) s))
unfolding delete_range delete_marked
delete_range-cases sys min max s = elim (Bool-cases (ltb max min)) [
  | inl b ↦ inl (rw b)
  | inr b ↦ elim (Bool-cases (delete_top max s == 0)) [
    | inl c ↦ inl (rw b (rw c))
    | inr c ↦ inr (rw b (rw c))
  ]
]

-- DeleteRange keeps the store valid for every range, whether or not it returns an error.
pub delete_range-IsValid :
    (sys : Syscalls) (min max : ℕ) (s : FileLogStore)
    → IsValid s
    → IsValid (delete_range sys min max s).1
delete_range-IsValid sys min max s v = elim (delete_range-cases sys min max s) [
  | inl e ↦ rw e v
  | inr e ↦ rw e (persist-IsValid sys _ (deleted-IsValid min _ s v))
]

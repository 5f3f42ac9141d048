-- ===== src/Raft/Replication/Sending.antt =====
-- What a leader sends to a peer.
use sandstore.Base.{
  ℕ, zero, suc, ◌+◌, ◌-◌, ◌≤◌, ◌<◌, ◌≡◌, ◌⊎◌, refl, some, arith, Bool-cases, inl, inr, leb, ◌==◌,
  nat_eq, string_eq,
}
use sandstore.Raft.Types.{Bytes, LogEntry, ok, Result-cases, max_uint64}
use sandstore.Raft.LogStore.{FileLogStore, get_log}
use sandstore.Raft.LogStore.Valid.{IsValid}
use sandstore.Raft.Stores.{SnapshotMeta}
use sandstore.Raft.Node.{Node, ClusterNode}
use sandstore.Raft.Apply.Progress.{Reads}
use sandstore.Raft.Append.Merge.{Consecutive}
use sandstore.Raft.Append.Handler.{Previous}
use sandstore.Raft.Replication.{
  AppendWork, append, collect_entries, snapshot_work, append_work, next_to_send, plan_peer,
  append_request,
}

module _ (s : FileLogStore) (v : IsValid s) (small : s.last ≤ max_uint64) where
  found_here : (i : ℕ) (e : LogEntry) → get_log s i ≡ ok e → (e.index ≡ i) × (i ≤ max_uint64)
  unfolding get_log
  found_here i e h = (ground (arith, v.keys_match i e), ground (arith, v.last_max.above i))

  collect_entries-Consecutive : (rounds i : ℕ) → Consecutive i (collect_entries rounds i s)
  unfolding collect_entries
  collect_entries-Consecutive zero i = tt
  collect_entries-Consecutive (suc rounds) i = elim (Result-cases (get_log s i)) [
    | inl (x, missing) ↦ rw (missing, Consecutive) tt
    | inr (e, found) ↦
        let (index, below) = found_here i e found in
        rw (found, Consecutive) (index, below, collect_entries-Consecutive rounds (i + 1))
  ]

collect_entries-Reads : (rounds i : ℕ) (s : FileLogStore) → Reads s i (collect_entries rounds i s)
unfolding collect_entries
collect_entries-Reads zero i s = tt
collect_entries-Reads (suc rounds) i s = elim (Result-cases (get_log s i)) [
  | inl (x, missing) ↦ rw (missing, Reads) tt
  | inr (e, found) ↦ rw (found, Reads) (found, collect_entries-Reads rounds (i + 1) s)
]

-- What the leader `n` puts into a request to append.
pub record Sent {M : Type 0} (n : Node M) (w : AppendWork) : Type 0 where
  pub term : w.term ≡ n.current_term
  pub previous :
      Previous (append_request n.id w) n.last_included_index n.last_included_term n.log_store
  pub consecutive : Consecutive (w.prev_log_index + 1) w.entries
  pub reads : Reads n.log_store (w.prev_log_index + 1) w.entries

module _ {M : Type 0} (n : Node M) where
  next_to_send_positive : (peer : ClusterNode) → 0 < next_to_send n peer
  unfolding next_to_send
  next_to_send_positive peer = ground arith

  -- The entry before the index that is to be sent, as the leader knows it.
  abbrev Behind : ℕ → ℕ → Type 0
  Behind next prev_term =
      ((next - 1 ≡ n.last_included_index) × (prev_term ≡ n.last_included_term))
      ⊎ ((x : LogEntry) × (get_log n.log_store (next - 1) ≡ ok x) × (x.term ≡ prev_term))

  append_work-Sent :
      (last next prev_term : ℕ) (peer : ClusterNode)
      → IsValid n.log_store
      → n.log_store.last ≤ max_uint64
      → 0 < next
      → Behind next prev_term
      → Sent n (append_work last next prev_term n peer)
  unfolding append_work append_request
  append_work-Sent last next prev_term peer v small positive fits =
      let back : next - 1 + 1 ≡ next = omega arith in
      record {
        term = refl;
        previous = fits;
        consecutive = rw back (collect_entries-Consecutive n.log_store v small _ next);
        reads = rw back (collect_entries-Reads _ next n.log_store);
      }

  plan_peer-cases :
      (snap : SnapshotMeta × Bytes) (last : ℕ) (peer : ClusterNode) (w : AppendWork)
      → plan_peer snap last n peer ≡ some (append w)
      → (prev_term : ℕ) × Behind (next_to_send n peer) prev_term
        × (append_work last (next_to_send n peer) prev_term n peer ≡ w)
  unfolding plan_peer snapshot_work
  plan_peer-cases snap last peer w h =
      elim (Bool-cases (leb (next_to_send n peer) n.last_included_index)) [
        | inl compacted ↦ absurd (ground arith)
        | inr recent ↦ elim (Bool-cases (next_to_send n peer - 1 == n.last_included_index)) [
          | inl included ↦ (n.last_included_term, inl (ground arith, refl), ground arith)
          | inr further ↦ elim (Result-cases (get_log n.log_store (next_to_send n peer - 1))) [
            | inl (x, missing) ↦ absurd (ground (arith, next_to_send_positive peer))
            | inr (x, found) ↦
                (x.term, inr (x, found, refl), ground (arith, next_to_send_positive peer))
          ]
        ]
      ]

  -- A request to append that is planned for a peer, by a node whose log is valid and ends within
  -- uint64, has the node's term and consecutive entries that stand in its log behind the previous
  -- entry it names, and that entry is in the node's log or the last one of its snapshot.
  pub plan_peer-Sent :
      (snap : SnapshotMeta × Bytes) (last : ℕ) (peer : ClusterNode) (w : AppendWork)
      → IsValid n.log_store
      → n.log_store.last ≤ max_uint64
      → plan_peer snap last n peer ≡ some (append w)
      → Sent n w
  plan_peer-Sent snap last peer w v small h =
      let (prev_term, fits, same) = plan_peer-cases snap last peer w h in
      rw (← same) (
        append_work-Sent last (next_to_send n peer) prev_term peer v small
          (next_to_send_positive peer) fits)

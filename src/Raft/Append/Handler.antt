-- ===== src/Raft/Append/Handler.antt =====
-- What a reply with success of `HandleAppendEntries` means.
use sandstore.Base.{
  ℕ, String, ◌+◌, ◌≡◌, ◌⊎◌, refl, ap, Bool, true, false, Option, none, some, List, arith,
  Bool-cases, inl, inr, ltb, ◌==◌, nat_eq, string_eq,
}
use sandstore.Raft.Types.{LogEntry, Error, Result, ok, err, Result-cases}
use sandstore.Raft.AtomicFile.{Syscalls}
use sandstore.Raft.LogStore.{FileLogStore, get_log}
use sandstore.Raft.LogStore.Valid.{IsValid}
use sandstore.Raft.LogStore.Reload.{IsDurable}
use sandstore.Raft.Node.{
  Node, StateMachine, step_down, become_follower, persist_stable, handle_stable_store_failure,
  fail_all_pending,
}
use sandstore.Raft.Apply.{apply_logs}
use sandstore.Raft.Apply.Frame.{apply_logs-Frame}
use sandstore.Raft.Append.{
  AppendSyscalls, AppendEntriesRequest, check_previous, follow_leader, follow_commit, finish_append,
  after_append, append_checked, append_entries, append_lowered, handle_append_entries,
}
use sandstore.Raft.Append.Merge.{Consecutive, Merged, append_to_log-Merged}
use sandstore.Raft.Append.Durable.{append_to_log-IsDurable}

-- The entry before those of the request is the last one of the snapshot, or stands in the log, with
-- the term that the request names.
abbrev pub Previous : AppendEntriesRequest → ℕ → ℕ → FileLogStore → Type 0
Previous req included_index included_term s =
    ((req.prev_log_index ≡ included_index) × (req.prev_log_term ≡ included_term))
    ⊎ ((x : LogEntry) × (get_log s req.prev_log_index ≡ ok x) × (x.term ≡ req.prev_log_term))

-- `t`, the log of a node that was at `s`, has taken in the entries of the request.
pub record Replicated (req : AppendEntriesRequest) (es : List LogEntry)
    (included_index included_term : ℕ) (s t : FileLogStore) : Type 0 where
  pub previous : Previous req included_index included_term s
  pub merged : Merged included_index (req.prev_log_index + 1) es s t
  pub durable : IsDurable t

module _ {M : Type 0} (sm : StateMachine M) where
  check_previous-none :
      (req : AppendEntriesRequest) (n : Node M)
      → check_previous req n ≡ none
      → Previous req n.last_included_index n.last_included_term n.log_store
  unfolding check_previous
  check_previous-none req n h = elim (Result-cases (get_log n.log_store req.prev_log_index)) [
    | inl (e, missing) ↦ inl (ground arith, ground arith)
    | inr (x, found) ↦ elim (Bool-cases (req.prev_log_index == n.last_included_index)) [
      | inl included ↦ inl (ground arith, ground arith)
      | inr behind ↦ inr (x, found, ground arith)
    ]
  ]

  log-apply_logs : (n : Node M) → (apply_logs sm n).log_store ≡ n.log_store
  log-apply_logs n = ap (λ (k : Node M). k.log_store) (apply_logs-Frame sm n)

  log-follow_commit :
      (leader_commit last_idx : ℕ) (n : Node M)
      → (follow_commit sm leader_commit last_idx n).log_store ≡ n.log_store
  unfolding follow_commit
  log-follow_commit leader_commit last_idx n =
      elim (Bool-cases (ltb n.commit_index leader_commit)) [
        | inl further ↦ rw further (log-apply_logs _)
        | inr known ↦ rw known refl
      ]

  log-finish_append :
      (leader_commit : ℕ) (r : Result (ℕ × ℕ)) (n : Node M)
      → (finish_append sm leader_commit r n).1.log_store ≡ n.log_store
  unfolding finish_append
  log-finish_append leader_commit (err _) n = refl
  log-finish_append leader_commit (ok (last_idx, _)) n = log-follow_commit leader_commit last_idx n

  log-after_append :
      (leader_commit : ℕ) (stored : Bool) (s : FileLogStore) (n : Node M)
      → (after_append sm leader_commit (stored, s) n).0.success ≡ true
      → (stored ≡ true) × ((after_append sm leader_commit (stored, s) n).1.log_store ≡ s)
  unfolding after_append
  log-after_append leader_commit true s n h = (refl, log-finish_append leader_commit _ _)
  log-after_append leader_commit false s n h = absurd cc

  append_checked-Replicated :
      (sys : AppendSyscalls) (req : AppendEntriesRequest) (es : List LogEntry)
      (conflict : Option (ℕ × ℕ)) (n : Node M)
      → IsValid n.log_store
      → IsDurable n.log_store
      → Consecutive (req.prev_log_index + 1) es
      → (append_checked sm sys req.leader_commit conflict (some es) n).0.success ≡ true
      → (conflict ≡ none)
        × Merged n.last_included_index
            (req.prev_log_index + 1)
            es
            n.log_store
            (append_checked sm sys req.leader_commit conflict (some es) n).1.log_store
        × IsDurable (append_checked sm sys req.leader_commit conflict (some es) n).1.log_store
  unfolding append_checked
  append_checked-Replicated sys req es (some (index, term)) n v d c h = absurd cc
  append_checked-Replicated sys req es none n v d c h =
      let (stored, same) = log-after_append req.leader_commit _ _ n h in
      (
        refl,
        rw same (append_to_log-Merged sys n.last_included_index _ es n.log_store v c stored),
        rw same (append_to_log-IsDurable sys n.last_included_index es n.log_store v d stored),
      )

  append_entries-Replicated :
      (sys : AppendSyscalls) (req : AppendEntriesRequest) (es : List LogEntry) (n : Node M)
      → req.entries ≡ some es
      → IsValid n.log_store
      → IsDurable n.log_store
      → Consecutive (req.prev_log_index + 1) es
      → (append_entries sm sys req n).0.success ≡ true
      → Replicated req es n.last_included_index n.last_included_term n.log_store
          (append_entries sm sys req n).1.log_store
  unfolding append_entries check_previous
  append_entries-Replicated sys req es n body v d c h =
      let (fits, merged, durable) =
        append_checked-Replicated sys req es (check_previous req n) n v d c (rw body at h) in
      rw body
        (record { previous = check_previous-none req n fits; merged = merged; durable = durable })

  -- What stepping down leaves alone.
  step_down-parts :
      (sys : Syscalls) (now new_term : ℕ) (leader_id : String) (n : Node M)
      → ((step_down sys now new_term leader_id n).1.log_store ≡ n.log_store)
        × ((step_down sys now new_term leader_id n).1.last_included_index ≡ n.last_included_index)
        × ((step_down sys now new_term leader_id n).1.last_included_term ≡ n.last_included_term)
  unfolding step_down become_follower persist_stable handle_stable_store_failure fail_all_pending
  step_down-parts sys now new_term leader_id n = (ground arith, ground arith, ground arith)

  append_lowered-Replicated :
      (sys : AppendSyscalls) (now : ℕ) (req : AppendEntriesRequest) (es : List LogEntry)
      (old_term : ℕ) (e : Option Error) (n : Node M)
      → req.entries ≡ some es
      → IsValid n.log_store
      → IsDurable n.log_store
      → Consecutive (req.prev_log_index + 1) es
      → (append_lowered sm sys now req old_term (e, n)).0.0.success ≡ true
      → Replicated req es n.last_included_index n.last_included_term n.log_store
          (append_lowered sm sys now req old_term (e, n)).1.log_store
  unfolding append_lowered follow_leader
  append_lowered-Replicated sys now req es old_term (some x) n body v d c h = absurd cc
  append_lowered-Replicated sys now req es old_term none n body v d c h =
      append_entries-Replicated sys req es (follow_leader now req.leader_id n) body v d c h

  -- On a valid and durable log, a reply with success to a request with consecutive entries means
  -- that the previous entry matched, that the log holds each entry the snapshot does not include
  -- with its term, reads as before below the first of them, and is what a restart reads back.
  pub handle_append_entries-Replicated :
      (sys : AppendSyscalls) (now : ℕ) (req : AppendEntriesRequest) (es : List LogEntry)
      (n : Node M)
      → req.entries ≡ some es
      → Consecutive (req.prev_log_index + 1) es
      → IsValid n.log_store
      → IsDurable n.log_store
      → (handle_append_entries sm sys now req n).0.0.success ≡ true
      → Replicated req es n.last_included_index n.last_included_term n.log_store
          (handle_append_entries sm sys now req n).1.log_store
  unfolding handle_append_entries
  handle_append_entries-Replicated sys now req es n body c v d h =
      elim (Bool-cases (ltb req.term n.current_term)) [
        | inl old ↦ absurd (cc (rw old at h))
        | inr recent ↦ elim (Bool-cases (ltb n.current_term req.term)) [
          | inr same ↦ rw recent (
              rw same (
                append_lowered-Replicated sys now req es n.current_term none n body v d c
                  (rw same at (rw recent at h))))
          | inl higher ↦
              let (log, index, term) = step_down-parts sys.term now req.term req.leader_id n in
              let r =
                append_lowered-Replicated sys now req es n.current_term _ _ body (rw log v)
                  (rw log d) c (rw higher at (rw recent at h)) in
              rw recent (rw higher (rw (log, index, term) at r))
        ]
      ]

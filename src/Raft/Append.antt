-- ===== src/Raft/Append.antt =====
-- `HandleAppendEntries`, and what the leader does with its reply, of
-- internal/metadata_replicator/durable_raft/replicator.go.
pub mod Merge
pub mod Durable
pub mod Handler
use sandstore.Base.{
  ℕ, zero, suc, String, ◌+◌, ◌-◌, Bool, true, false, not, Option, none, some, List, [], ◌∷◌, ◌++◌,
  ◌==◌, nat_eq, string_eq, ltb, leb, ◌&&◌, ◌||◌, length, if◌then◌else◌, Dict, lookup, insert, erase,
}
use sandstore.Raft.Types.{Bytes, LogEntry, Error, Result, ok, err, max_uint64}
use sandstore.Raft.AtomicFile.{Syscalls}
use sandstore.Raft.LogStore.{FileLogStore, get_log, last_index_and_term, store_logs, delete_range}
use sandstore.Raft.Node.{
  Node, ClusterNode, StateMachine, RaftState, follower, candidate, leader, step_down,
}
use sandstore.Raft.Apply.{index_of, apply_logs, advance_commit_index}
use sandstore.Raft.Election.{is_leader}

-- `entries` is what the JSON body holds: no entries for an empty body, `none` for one that cannot be
-- decoded.
pub record AppendEntriesRequest : Type 0 where
  pub term : ℕ
  pub leader_id : String
  pub prev_log_index : ℕ
  pub prev_log_term : ℕ
  pub entries : Option (List LogEntry)
  pub leader_commit : ℕ

pub record AppendEntriesReply : Type 0 where
  pub term : ℕ
  pub success : Bool
  pub conflict_index : ℕ
  pub conflict_term : ℕ

-- The outcomes of the writes: of the term, of the truncation, of the new entries.
pub record AppendSyscalls : Type 0 where
  pub term : Syscalls
  pub truncate : Syscalls
  pub store : Syscalls

abbrev pub refusal : ℕ → AppendEntriesReply
refusal term = record { term = term; success = false; conflict_index = 0; conflict_term = 0 }

-- `lastIdx, _, _ := r.logStore.LastIndexAndTerm()`
unfoldable pub last_index_or_zero : FileLogStore → ℕ
last_index_or_zero s = elim (last_index_and_term s) [ err _ ↦ 0 | ok (last, _) ↦ last ]

-- A conflicting entry: the log is truncated from it on, and all that follow are new.
unfoldable pub truncated_logs :
    AppendSyscalls → LogEntry → List LogEntry → FileLogStore → Option (List LogEntry) × FileLogStore
truncated_logs sys entry entries s =
    let (e, truncated) = delete_range sys.truncate entry.index max_uint64 s in
    elim e [ some _ ↦ (none, truncated) | none ↦ (some (entry ∷ entries), truncated) ]

-- The loop over the entries: those to be stored, or `none` for a return without success.
unfoldable pub merge_entries :
    AppendSyscalls → ℕ → List LogEntry → FileLogStore → Option (List LogEntry) × FileLogStore
merge_entries sys last_included [] s = (some [], s)
merge_entries sys last_included (entry ∷ entries) s =
    let rest = merge_entries sys last_included entries s in
    if leb entry.index last_included then rest else elim (get_log s entry.index) [
      | err _ ↦ (some (entry ∷ entries), s)
      | ok existing ↦
          if existing.term == entry.term then rest else truncated_logs sys entry entries s
    ]

-- The new entries are stored if there are any; `false` for a return without success.
unfoldable pub store_new :
    AppendSyscalls → Option (List LogEntry) → FileLogStore → Bool × FileLogStore
store_new sys none s = (false, s)
store_new sys (some []) s = (true, s)
store_new sys (some (entry ∷ entries)) s =
    let (e, stored) = store_logs sys.store (entry ∷ entries) s in
    elim e [ some _ ↦ (false, stored) | none ↦ (true, stored) ]

unfoldable pub append_to_log :
    AppendSyscalls → ℕ → List LogEntry → FileLogStore → Bool × FileLogStore
append_to_log sys last_included entries s =
    let (new_logs, s') = merge_entries sys last_included entries s in store_new sys new_logs s'

unfoldable pub commit_target : ℕ → ℕ → ℕ → ℕ
commit_target leader_commit last_idx last_included =
    let capped = if ltb last_idx leader_commit then last_idx else leader_commit in
    if ltb capped last_included then last_included else capped

module _ {M : Type 0} where
  -- The test of `PrevLogIndex` and `PrevLogTerm`: the conflict that is reported, if there is one.
  unfoldable pub check_previous : AppendEntriesRequest → Node M → Option (ℕ × ℕ)
  check_previous req n =
      if ltb req.prev_log_index n.last_included_index
      then some (n.last_included_index + 1, 0)
      else if req.prev_log_index == n.last_included_index
      then (if req.prev_log_term == n.last_included_term
          then none
          else some (n.last_included_index, n.last_included_term))
      else elim (get_log n.log_store req.prev_log_index) [
        | err _ ↦ some (last_index_or_zero n.log_store + 1, 0)
        | ok entry ↦
            if entry.term == req.prev_log_term then none else some (req.prev_log_index, entry.term)
      ]

  -- The sender of the current term is the leader.
  unfoldable pub follow_leader : ℕ → String → Node M → Node M
  follow_leader now leader_id n = record n {
    role = follower;
    leader_id = leader_id;
    election_reset_event = now;
  }

module _ {M : Type 0} (sm : StateMachine M) where
  -- The commit index follows the leader's as far as the log goes.
  unfoldable pub follow_commit : ℕ → ℕ → Node M → Node M
  unfolding commit_target
  follow_commit leader_commit last_idx n =
      if ltb n.commit_index leader_commit
      then apply_logs sm
          (record n { commit_index = commit_target leader_commit last_idx n.last_included_index })
      else n

  -- The end of the handler, once the entries are stored.
  unfoldable pub finish_append : ℕ → Result (ℕ × ℕ) → Node M → AppendEntriesReply × Node M
  finish_append leader_commit (err _) n = (refusal n.current_term, n)
  finish_append leader_commit (ok (last_idx, _)) n =
      (record (refusal n.current_term) { success = true }, follow_commit leader_commit last_idx n)

  -- The handler once the log store was written, with whether that went well.
  unfoldable pub after_append : ℕ → Bool × FileLogStore → Node M → AppendEntriesReply × Node M
  after_append leader_commit (stored, store') n =
      let n' = record n { log_store = store' } in
      if stored
      then finish_append leader_commit (last_index_and_term store') n'
      else (refusal n.current_term, n')

  -- The handler once the previous entry was compared.
  unfoldable pub append_checked :
      AppendSyscalls
      → ℕ
      → Option (ℕ × ℕ)
      → Option (List LogEntry)
      → Node M
      → AppendEntriesReply × Node M
  append_checked sys leader_commit (some (index, term)) entries n =
      (record (refusal n.current_term) { conflict_index = index; conflict_term = term }, n)
  append_checked sys leader_commit none none n = (refusal n.current_term, n)
  append_checked sys leader_commit none (some entries) n =
      after_append leader_commit (append_to_log sys n.last_included_index entries n.log_store) n

  unfoldable pub append_entries :
      AppendSyscalls → AppendEntriesRequest → Node M → AppendEntriesReply × Node M
  append_entries sys req n =
      append_checked sys req.leader_commit (check_previous req n) req.entries n

  -- The handler for a request of a higher term, once the node has stepped down.
  unfoldable pub append_lowered :
      AppendSyscalls
      → ℕ
      → AppendEntriesRequest
      → ℕ
      → Option Error × Node M
      → (AppendEntriesReply × Option Error) × Node M
  append_lowered sys now req old_term (some x, n) = ((refusal old_term, some x), n)
  append_lowered sys now req old_term (none, n) =
      let (reply, appended) = append_entries sys req (follow_leader now req.leader_id n) in
      ((reply, none), appended)

  unfoldable pub handle_append_entries :
      AppendSyscalls
      → ℕ
      → AppendEntriesRequest
      → Node M
      → (AppendEntriesReply × Option Error) × Node M
  unfolding append_lowered
  handle_append_entries sys now req n =
      let lowered = step_down sys.term now req.term req.leader_id n in
      if ltb req.term n.current_term
      then ((refusal n.current_term, none), n)
      else if ltb n.current_term req.term
      then append_lowered sys now req n.current_term lowered
      else append_lowered sys now req n.current_term (none, n)

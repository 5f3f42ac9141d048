-- ===== src/Raft/Node.antt =====
-- `DurableRaftReplicator` of internal/metadata_replicator/durable_raft/replicator.go: its state and
-- the helpers that every handler uses. A handler runs under the mutex, so it is a function on the
-- state. The clock, the outcome of each file operation and the view of the cluster are arguments.
-- Log lines and metrics are left out.
use sandstore.Base.{
  ℕ, String, Option, none, some, List, [], ◌++◌, map, ◌==◌, nat_eq, string_eq, ◌&&◌, if◌then◌else◌,
  Dict,
}
use sandstore.Raft.Types.{Bytes, LogEntry, Error, ok, err, leadership_changed, stable_failure}
use sandstore.Raft.AtomicFile.{Syscalls, Slot}
use sandstore.Raft.LogStore.{FileLogStore, last_index_and_term}
use sandstore.Raft.Stores.{StableState, SnapshotFile, set_state}

-- What the replicator calls of the service above it: `ApplyFunc` and `SnapshotableStateMachine`.
pub record StateMachine (M : Type 0) : Type 0 where
  pub apply : Bytes → M → Option Error × M
  pub serialize : M → Option Bytes
  pub restore : Bytes → M → Option Error × M

pub data RaftState : Type 0 where
  follower candidate leader : RaftState

pub record ClusterNode : Type 0 where
  pub id : String
  pub address : String

-- A client waits under the index of its entry; `replies` lists what was sent to the channels, and
-- `broadcasts` counts the goroutines that send the log to the peers.
pub record Node (M : Type 0) : Type 0 where
  pub id : String
  pub max_batch_size : ℕ
  pub snapshot_threshold_logs : ℕ
  pub log_store : FileLogStore
  pub stable_store : Slot StableState
  pub snapshot_store : Slot SnapshotFile
  pub machine : M
  pub role : RaftState
  pub current_term : ℕ
  pub voted_for : String
  pub commit_index : ℕ
  pub last_applied : ℕ
  pub last_included_index : ℕ
  pub last_included_term : ℕ
  pub next_index : Dict String ℕ
  pub match_index : Dict String ℕ
  pub leader_id : String
  pub election_reset_event : ℕ
  pub pending_batch : List LogEntry
  pub pending_clients : Dict ℕ ℕ
  pub replies : List (ℕ × Option Error)
  pub broadcasts : ℕ

module _ {M : Type 0} where
  unfoldable pub fail_all_pending : Error → Node M → Node M
  fail_all_pending e n = record n {
    pending_batch = [];
    pending_clients = [];
    replies = n.replies ++ map (λ p. (p.1, some e)) n.pending_clients;
  }

  unfoldable pub persist_stable : Syscalls → Node M → Option Error × Node M
  persist_stable sys n =
      let (e, slot) = set_state sys n.current_term n.voted_for n.stable_store in
      (e, record n { stable_store = slot })

  unfoldable pub handle_stable_store_failure : ℕ → Node M → Node M
  unfolding fail_all_pending
  handle_stable_store_failure now n =
      fail_all_pending stable_failure (record n { role = follower; election_reset_event = now })

  -- The part of `stepDownLocked` before the state is written.
  unfoldable pub become_follower : ℕ → ℕ → String → Node M → Node M
  unfolding fail_all_pending
  become_follower now new_term leader_id n =
      let lowered = record n {
        role = follower;
        current_term = new_term;
        voted_for = "";
        leader_id = if leader_id == "" then n.leader_id else leader_id;
      } in
      let failed = fail_all_pending leadership_changed lowered in
      record failed { election_reset_event = now }

  unfoldable pub step_down : Syscalls → ℕ → ℕ → String → Node M → Option Error × Node M
  unfolding become_follower persist_stable handle_stable_store_failure
  step_down sys now new_term leader_id n =
      let (e, written) = persist_stable sys (become_follower now new_term leader_id n) in
      elim e [ none ↦ (none, written) | some x ↦ (some x, handle_stable_store_failure now written) ]

  unfoldable pub get_last_log_info : Node M → ℕ × ℕ
  get_last_log_info n = elim (last_index_and_term n.log_store) [
    | err _ ↦ (n.last_included_index, n.last_included_term)
    | ok (idx, term) ↦
        if (idx == n.last_included_index) && (term == 0)
        then (n.last_included_index, n.last_included_term)
        else (idx, term)
  ]

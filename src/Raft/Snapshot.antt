-- ===== src/Raft/Snapshot.antt =====
-- Snapshots, start-up and the replies to the leader, of
-- internal/metadata_replicator/durable_raft/replicator.go.
use sandstore.Base.{
  ℕ, String, ◌-◌, Bool, true, false, Option, none, some, [], ◌==◌, nat_eq, string_eq, ltb, leb,
  ◌&&◌, length, if◌then◌else◌,
}
use sandstore.Raft.Types.{
  Bytes, Error, Result, ok, err, snapshot_without_data, snapshot_failed, wal_behind_snapshot,
}
use sandstore.Raft.AtomicFile.{Syscalls}
use sandstore.Raft.LogStore.{FileLogStore, get_log, load, last_index_and_term, delete_range}
use sandstore.Raft.Stores.{SnapshotMeta, get_state, save_snapshot, load_snapshot}
use sandstore.Raft.Node.{Node, StateMachine, follower, step_down}
use sandstore.Raft.Append.{follow_leader}

pub record InstallSnapshotRequest : Type 0 where
  pub term : ℕ
  pub leader_id : String
  pub last_included_index : ℕ
  pub last_included_term : ℕ
  pub content : Bytes

pub record InstallSnapshotReply : Type 0 where
  pub term : ℕ
  pub success : Bool

-- The outcomes of the writes: of the term, of the snapshot, of the compaction.
pub record SnapshotSyscalls : Type 0 where
  pub term : Syscalls
  pub save : Syscalls
  pub compact : Syscalls

-- The log holds the last entry that the snapshot includes.
unfoldable pub retains_suffix : InstallSnapshotRequest → FileLogStore → Bool
retains_suffix req s = elim (get_log s req.last_included_index) [
  | err _ ↦ false
  | ok entry ↦ entry.term == req.last_included_term
]

module _ {M : Type 0} where
  unfoldable pub raise_marks : InstallSnapshotRequest → Node M → Node M
  raise_marks req n = record n {
    last_included_index = req.last_included_index;
    last_included_term = req.last_included_term;
    commit_index =
        if ltb n.commit_index req.last_included_index
        then req.last_included_index
        else n.commit_index;
    last_applied =
        if ltb n.last_applied req.last_included_index
        then req.last_included_index
        else n.last_applied;
  }

module _ {M : Type 0} (sm : StateMachine M) where
  -- The log is cleared, and the state machine replaced; the error is that of the call that fails.
  unfoldable pub replace_state :
      SnapshotSyscalls → Bytes → Result (ℕ × ℕ) → Node M → Option Error × Node M
  replace_state sys content (err x) n = (some x, n)
  replace_state sys content (ok (last_idx, _)) n =
      let (e, cleared) = delete_range sys.compact 0 last_idx n.log_store in
      let (e', machine') = sm.restore content n.machine in
      elim e [
        | some x ↦ (some x, record n { log_store = cleared })
        | none ↦ (e', record n { log_store = cleared; machine = machine' })
      ]

  -- A log that holds the snapshot's last entry is only compacted.
  unfoldable pub install_log :
      SnapshotSyscalls → InstallSnapshotRequest → Node M → Option Error × Node M
  install_log sys req n =
      let (e, kept) = delete_range sys.compact 0 req.last_included_index n.log_store in
      if retains_suffix req n.log_store
      then (e, record n { log_store = kept })
      else replace_state sys req.content (last_index_and_term n.log_store) n

  unfoldable pub finish_install :
      InstallSnapshotRequest → Option Error × Node M → InstallSnapshotReply × Node M
  finish_install req (some _, n) = (record { term = n.current_term; success = false }, n)
  finish_install req (none, n) =
      (record { term = n.current_term; success = true }, raise_marks req n)

  -- The rest of the handler, once the snapshot was written or could not be.
  unfoldable pub after_save :
      SnapshotSyscalls
      → InstallSnapshotRequest
      → Option Error
      → Node M
      → InstallSnapshotReply × Node M
  unfolding finish_install install_log
  after_save sys req (some _) n = (record { term = n.current_term; success = false }, n)
  after_save sys req none n = finish_install req (install_log sys req n)

  unfoldable pub install_snapshot :
      SnapshotSyscalls → InstallSnapshotRequest → Node M → InstallSnapshotReply × Node M
  unfolding after_save
  install_snapshot sys req n =
      let (e, slot) =
        save_snapshot sys.save
          (record {
            last_included_index = req.last_included_index;
            last_included_term = req.last_included_term;
          })
          req.content n.snapshot_store in
      if leb req.last_included_index n.last_included_index
      then (record { term = n.current_term; success = true }, n)
      else after_save sys req e (record n { snapshot_store = slot })

  -- The handler for a request of a higher term, once the node has stepped down.
  unfoldable pub install_lowered :
      SnapshotSyscalls
      → ℕ
      → InstallSnapshotRequest
      → ℕ
      → Option Error × Node M
      → (InstallSnapshotReply × Option Error) × Node M
  install_lowered sys now req old_term (some x, n) =
      ((record { term = old_term; success = false }, some x), n)
  install_lowered sys now req old_term (none, n) =
      let (reply, installed) = install_snapshot sys req (follow_leader now req.leader_id n) in
      ((reply, none), installed)

  unfoldable pub handle_install_snapshot :
      SnapshotSyscalls
      → ℕ
      → InstallSnapshotRequest
      → Node M
      → (InstallSnapshotReply × Option Error) × Node M
  unfolding install_lowered
  handle_install_snapshot sys now req n =
      let lowered = step_down sys.term now req.term req.leader_id n in
      if ltb req.term n.current_term
      then ((record { term = n.current_term; success = false }, none), n)
      else if ltb n.current_term req.term
      then install_lowered sys now req n.current_term lowered
      else install_lowered sys now req n.current_term (none, n)

  -- The writes of `checkCompaction`, which do not hold the mutex.
  unfoldable pub write_snapshot :
      SnapshotSyscalls → SnapshotMeta → Option Bytes → Node M → Option Error × Node M
  write_snapshot sys meta none n = (some snapshot_failed, n)
  write_snapshot sys meta (some content) n =
      let (e, slot) = save_snapshot sys.save meta content n.snapshot_store in
      let (e', compacted) = delete_range sys.compact 0 meta.last_included_index n.log_store in
      elim e [
        | some x ↦ (some x, record n { snapshot_store = slot })
        | none ↦ (e', record n { snapshot_store = slot; log_store = compacted })
      ]

  unfoldable pub write_compaction : SnapshotSyscalls → SnapshotMeta → Node M → Option Error × Node M
  unfolding write_snapshot
  write_compaction sys meta n = write_snapshot sys meta (sm.serialize n.machine) n

module _ {M : Type 0} where
  -- The first half of `checkCompaction` that holds the mutex.
  unfoldable pub plan_compaction : Node M → Option SnapshotMeta
  plan_compaction n =
      if n.snapshot_threshold_logs == 0
      then none
      else if leb n.last_applied n.last_included_index
      then none
      else if ltb (n.last_applied - n.last_included_index) n.snapshot_threshold_logs
      then none
      else some (record {
        last_included_index = n.last_applied;
        last_included_term = elim (get_log n.log_store n.last_applied) [
          | err _ ↦ n.last_included_term
          | ok entry ↦ entry.term
        ];
      })

  -- The second half of `checkCompaction` that holds the mutex.
  unfoldable pub finish_compaction : SnapshotMeta → Node M → Node M
  finish_compaction meta n =
      if ltb n.last_included_index meta.last_included_index
      then record n {
        last_included_index = meta.last_included_index;
        last_included_term = meta.last_included_term;
      }
      else n

  -- `Start` over what a crash left: the log store is loaded again, and the volatile state is new.
  unfoldable pub start : Bool → Bool → ℕ → Node M → Result (Node M)
  start stable_readable snapshot_readable now n =
      let log = load n.log_store.slot in
      elim (get_state stable_readable n.stable_store) [
        | err x ↦ err x
        | ok (term, voted_for) ↦ elim (load_snapshot snapshot_readable n.snapshot_store) [
          | err x ↦ err x
          | ok (meta, content) ↦
              let booted = record n {
                log_store = log;
                role = follower;
                current_term = term;
                voted_for = voted_for;
                commit_index = meta.last_included_index;
                last_applied = meta.last_included_index;
                last_included_index = meta.last_included_index;
                last_included_term =
                    if ltb 0 meta.last_included_index then meta.last_included_term else 0;
                next_index = [];
                match_index = [];
                leader_id = "";
                election_reset_event = now;
                pending_batch = [];
                pending_clients = [];
                replies = [];
                broadcasts = 0;
              } in
              if ltb 0 meta.last_included_index && (length content == 0)
              then err snapshot_without_data
              else elim (last_index_and_term log) [
                | err x ↦ err x
                | ok (last_idx, _) ↦
                    if ltb last_idx meta.last_included_index
                    then err wal_behind_snapshot
                    else ok booted
              ]
        ]
      ]

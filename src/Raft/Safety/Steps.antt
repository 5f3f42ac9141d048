-- ===== src/Raft/Safety/Steps.antt =====
-- One step of a node: a handler, a tick, a reply that arrives, or a crash and a new start. The
-- arguments of a step, the outcomes of its file operations among them, are arbitrary.
use sandstore.Base.{ℕ, ◌≡◌, Bool, Option, List}
use sandstore.Raft.Types.{Bytes, ok}
use sandstore.Raft.AtomicFile.{Syscalls}
use sandstore.Raft.Stores.{SnapshotMeta}
use sandstore.Raft.Node.{Node, StateMachine, ClusterNode}
use sandstore.Raft.Election.{
  RequestVoteArgs, RequestVoteReply, Election, handle_request_vote, start_election,
  handle_vote_reply, flush_pending_batch, replicate,
}
use sandstore.Raft.Append.{
  AppendSyscalls, AppendEntriesRequest, AppendEntriesReply, handle_append_entries,
}
use sandstore.Raft.Snapshot.{
  SnapshotSyscalls, InstallSnapshotRequest, InstallSnapshotReply, handle_install_snapshot,
  write_compaction, finish_compaction, start,
}
use sandstore.Raft.Replication.{
  AppendWork, SnapshotWork, handle_append_reply, handle_snapshot_reply,
}

module _ {M : Type 0} (sm : StateMachine M) where
  pub data Step : Node M → Node M → Type 0 where
    vote_requested :
        (n : Node M) (sys_term sys_vote : Syscalls) (now : ℕ) (req : RequestVoteArgs)
        → Step n (handle_request_vote sys_term sys_vote now req n).1
    entries_received :
        (n : Node M) (sys : AppendSyscalls) (now : ℕ) (req : AppendEntriesRequest)
        → Step n (handle_append_entries sm sys now req n).1
    snapshot_received :
        (n : Node M) (sys : SnapshotSyscalls) (now : ℕ) (req : InstallSnapshotRequest)
        → Step n (handle_install_snapshot sm sys now req n).1
    election_due :
        (n : Node M) (sys sys_log : Syscalls) (now : ℕ) (nodes : Option (List ClusterNode))
        → Step n (start_election sys sys_log now nodes n).1
    vote_replied :
        (n : Node M) (sys sys_log : Syscalls) (now : ℕ) (reply : RequestVoteReply)
        (election : Election)
        → Step n (handle_vote_reply sys sys_log now reply election n).1
    append_replied :
        (n : Node M) (sys : Syscalls) (now : ℕ) (nodes : Option (List ClusterNode)) (w : AppendWork)
        (reply : AppendEntriesReply)
        → Step n (handle_append_reply sm sys now nodes w reply n)
    snapshot_replied :
        (n : Node M) (sys : Syscalls) (now : ℕ) (w : SnapshotWork) (reply : InstallSnapshotReply)
        → Step n (handle_snapshot_reply sys now w reply n)
    batch_due : (n : Node M) (sys : Syscalls) → Step n (flush_pending_batch sys n)
    client_request :
        (n : Node M) (sys : Syscalls) (now client : ℕ) (bytes : Bytes)
        → Step n (replicate sys now client bytes n).1
    compaction_written :
        (n : Node M) (sys : SnapshotSyscalls) (meta : SnapshotMeta)
        → Step n (write_compaction sm sys meta n).1
    compaction_finished : (n : Node M) (meta : SnapshotMeta) → Step n (finish_compaction meta n)
    restarted :
        (n : Node M) (stable_readable snapshot_readable : Bool) (now : ℕ) {n' : Node M}
        → start stable_readable snapshot_readable now n ≡ ok n'
        → Step n n'

  pub data Reach (n : Node M) : Node M → Type 0 where
    here : Reach n n
    next : {k m : Node M} → Reach n k → Step k m → Reach n m

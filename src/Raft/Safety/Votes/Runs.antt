-- ===== src/Raft/Safety/Votes/Runs.antt =====
-- A granted vote is kept by every run of a node.
use sandstore.Base.{ℕ, String, ◌≡◌, ◌≢◌, Bool, arith, nat_eq, string_eq}
use sandstore.Raft.Types.{ok}
use sandstore.Raft.Stores.{SnapshotMeta, get_state, load_snapshot}
use sandstore.Raft.Node.{Node, StateMachine}
use sandstore.Raft.Snapshot.{finish_compaction, start}
use sandstore.Raft.Safety.Steps.{Step, Reach}
use sandstore.Raft.Safety.SameVote.{
  SameVote, write_compaction-SameVote, replicate-SameVote, flush_pending_batch-SameVote,
}
use sandstore.Raft.Safety.Votes.{Holds, SameVote-Holds, request_vote-Holds}
use sandstore.Raft.Safety.Votes.Logs.{handle_append_entries-Holds, handle_install_snapshot-Holds}
use sandstore.Raft.Safety.Votes.Replies.{
  start_election-Holds, handle_vote_reply-Holds, append_reply-Holds, snapshot_reply-Holds,
}

module _ {M : Type 0} (t : ℕ) (c : String) where
  finish_compaction-Holds :
      (meta : SnapshotMeta) (n : Node M) → Holds t c n → Holds t c (finish_compaction meta n)
  unfolding finish_compaction
  finish_compaction-Holds meta n h =
      let s : SameVote n (finish_compaction meta n) = record {
        term = ground arith;
        vote = ground arith;
        disk = ground arith;
      } in
      SameVote-Holds t c _ _ s h

  -- A new start takes the term and the vote from the disk.
  start-Holds :
      (stable_readable snapshot_readable : Bool) (now : ℕ) (n n' : Node M)
      → start stable_readable snapshot_readable now n ≡ ok n'
      → Holds t c n
      → Holds t c n'
  unfolding start get_state load_snapshot
  start-Holds stable_readable snapshot_readable now n n' e h = record {
    memory = ground (arith, h.written, h.disk);
    state = h.state;
    written = ground (arith, h.written);
    disk = h.disk;
  }

  module _ (sm : StateMachine M) (named : c ≢ "") where
    Step-Holds : {n k : Node M} → Step sm n k → Holds t c n → Holds t c k
    Step-Holds (Step.vote_requested n sys_term sys_vote now req) h =
        request_vote-Holds t c named sys_term sys_vote now req n h
    Step-Holds (Step.entries_received n sys now req) h =
        handle_append_entries-Holds t c sm sys now req n h
    Step-Holds (Step.snapshot_received n sys now req) h =
        handle_install_snapshot-Holds t c sm sys now req n h
    Step-Holds (Step.election_due n sys sys_log now nodes) h =
        start_election-Holds t c sys sys_log now nodes n h
    Step-Holds (Step.vote_replied n sys sys_log now reply election) h =
        handle_vote_reply-Holds t c sys sys_log now reply election n h
    Step-Holds (Step.append_replied n sys now nodes w reply) h =
        append_reply-Holds t c sm sys now nodes w reply n h
    Step-Holds (Step.snapshot_replied n sys now w reply) h =
        snapshot_reply-Holds t c sys now w reply n h
    Step-Holds (Step.batch_due n sys) h =
        SameVote-Holds t c _ _ (flush_pending_batch-SameVote sys n) h
    Step-Holds (Step.client_request n sys now client bytes) h =
        SameVote-Holds t c _ _ (replicate-SameVote sys now client bytes n) h
    Step-Holds (Step.compaction_written n sys meta) h =
        SameVote-Holds t c _ _ (write_compaction-SameVote sm sys meta n) h
    Step-Holds (Step.compaction_finished n meta) h = finish_compaction-Holds meta n h
    Step-Holds (Step.restarted n stable_readable snapshot_readable now e) h =
        start-Holds stable_readable snapshot_readable now n _ e h

    -- A vote that is kept is kept by every run, through crashes and failing writes.
    pub Reach-Holds : {n k : Node M} → Reach sm n k → Holds t c n → Holds t c k
    Reach-Holds Reach.here h = h
    Reach-Holds (Reach.next r st) h = Step-Holds st (Reach-Holds r h)

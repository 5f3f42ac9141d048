-- ===== src/Raft/Safety/Votes/Replies.antt =====
-- A granted vote is kept by elections, and by the replies that arrive.
use sandstore.Base.{
  ℕ, String, ◌+◌, not, Option, none, some, List, arith, Bool-cases, inl, inr, ltb, leb, ◌==◌, ◌||◌,
  length, nat_eq, string_eq, insert,
}
use sandstore.Raft.Types.{Error}
use sandstore.Raft.AtomicFile.{Syscalls}
use sandstore.Raft.Node.{Node, ClusterNode, StateMachine}
use sandstore.Raft.Election.{
  is_candidate, is_leader, RequestVoteReply, Election, after_election_written, start_election,
  handle_vote_reply, become_leader,
}
use sandstore.Raft.Append.{AppendEntriesReply}
use sandstore.Raft.Snapshot.{InstallSnapshotReply}
use sandstore.Raft.Apply.{index_of}
use sandstore.Raft.Replication.{
  replicated_index, AppendWork, SnapshotWork, handle_append_reply, handle_append_success,
  handle_snapshot_reply, back_off,
}
use sandstore.Raft.Safety.SameVote.{SameVote, become_leader-SameVote, advance_commit_index-SameVote}
use sandstore.Raft.Safety.Votes.{
  Holds, SameVote-Holds, persist_stable-Holds, choice_Holds, if_Holds, failed-Holds,
  step_down-Holds,
}

module _ {M : Type 0} (t : ℕ) (c : String) where
  election_written-Holds :
      (sys_log : Syscalls) (e : Option Error) (now : ℕ) (nodes : Option (List ClusterNode))
      (n : Node M)
      → Holds t c n
      → Holds t c (after_election_written sys_log now nodes (e, n)).1
  unfolding after_election_written
  election_written-Holds sys_log (some x) now nodes n h = failed-Holds t c now n h
  election_written-Holds sys_log none now none n h = h
  election_written-Holds sys_log none now (some peers) n h = elim (Bool-cases (length peers == 1)) [
    | inl alone ↦
        rw (alone, after_election_written)
          (SameVote-Holds t c _ _ (become_leader-SameVote sys_log peers n) h)
    | inr several ↦ rw (several, after_election_written) h
  ]

  pub start_election-Holds :
      (sys sys_log : Syscalls) (now : ℕ) (nodes : Option (List ClusterNode)) (n : Node M)
      → Holds t c n
      → Holds t c (start_election sys sys_log now nodes n).1
  unfolding start_election
  start_election-Holds sys sys_log now nodes n h =
      election_written-Holds sys_log _ now nodes _
        (persist_stable-Holds t c sys _ (ground (arith, h.memory)) h.state h.written h.disk)

  pub handle_vote_reply-Holds :
      (sys sys_log : Syscalls) (now : ℕ) (reply : RequestVoteReply) (election : Election)
      (n : Node M)
      → Holds t c n
      → Holds t c (handle_vote_reply sys sys_log now reply election n).1
  unfolding handle_vote_reply
  handle_vote_reply-Holds sys sys_log now reply election n h =
      elim (Bool-cases (not (is_candidate n.role) || not (n.current_term == election.saved_term))) [
        | inl stale ↦ rw stale h
        | inr awaited ↦ elim (Bool-cases (ltb n.current_term reply.term)) [
          | inl higher ↦
              rw awaited (rw higher (step_down-Holds t c sys now reply.term "" n (ground arith) h))
          | inr level ↦
              let led =
                SameVote-Holds t c _ _ (become_leader-SameVote sys_log election.nodes n) h in
              let counted = record election { votes_received = election.votes_received + 1 } in
              rw awaited (
                rw level (
                  if_Holds t c reply.vote_granted _ _
                    (λ _.
                      if_Holds t c (leb election.quorum counted.votes_received)
                        (counted, become_leader sys_log election.nodes n) (counted, n) (λ _. led)
                        (λ _. h))
                    (λ _. h)))
        ]
      ]

  back_off-Holds :
      (peer : String) (reply : AppendEntriesReply) (n : Node M)
      → Holds t c n
      → Holds t c (back_off peer reply n)
  unfolding back_off
  back_off-Holds peer reply n h =
      let s : SameVote n (back_off peer reply n) = record {
        term = ground arith;
        vote = ground arith;
        disk = ground arith;
      } in
      SameVote-Holds t c _ _ s h

  module _ (sm : StateMachine M) where
    append_success-Holds :
        (nodes : Option (List ClusterNode)) (w : AppendWork) (n : Node M)
        → Holds t c n
        → Holds t c (handle_append_success sm nodes w n)
    unfolding handle_append_success
    append_success-Holds nodes w n h =
        elim (Bool-cases (ltb (index_of w.peer.id n.match_index) (replicated_index w))) [
          | inl further ↦
              rw (further, handle_append_success)
                (SameVote-Holds t c _ _ (advance_commit_index-SameVote sm nodes _) (record {
                  memory = h.memory;
                  state = h.state;
                  written = h.written;
                  disk = h.disk;
                }))
          | inr known ↦ rw (known, handle_append_success) h
        ]

    pub append_reply-Holds :
        (sys : Syscalls) (now : ℕ) (nodes : Option (List ClusterNode)) (w : AppendWork)
        (reply : AppendEntriesReply) (n : Node M)
        → Holds t c n
        → Holds t c (handle_append_reply sm sys now nodes w reply n)
    unfolding handle_append_reply
    append_reply-Holds sys now nodes w reply n h =
        elim (Bool-cases (not (is_leader n.role) || not (n.current_term == w.term))) [
          | inl stale ↦ rw stale h
          | inr awaited ↦ elim (Bool-cases (ltb n.current_term reply.term)) [
            | inl higher ↦
                rw awaited
                  (rw higher (step_down-Holds t c sys now reply.term "" n (ground arith) h))
            | inr level ↦ rw awaited (
                rw level (
                  choice_Holds t c reply.success _ _ (λ _. append_success-Holds nodes w n h)
                    (λ _. back_off-Holds w.peer.id reply n h)))
          ]
        ]

  pub snapshot_reply-Holds :
      (sys : Syscalls) (now : ℕ) (w : SnapshotWork) (reply : InstallSnapshotReply) (n : Node M)
      → Holds t c n
      → Holds t c (handle_snapshot_reply sys now w reply n)
  unfolding handle_snapshot_reply
  snapshot_reply-Holds sys now w reply n h =
      elim (Bool-cases (not (is_leader n.role) || not (n.current_term == w.term))) [
        | inl stale ↦ rw stale h
        | inr awaited ↦ elim (Bool-cases (ltb n.current_term reply.term)) [
          | inl higher ↦
              rw awaited (rw higher (step_down-Holds t c sys now reply.term "" n (ground arith) h))
          | inr level ↦ rw awaited (
              rw level (
                choice_Holds t c reply.success
                  (record n {
                    match_index = insert w.peer.id w.req.last_included_index n.match_index;
                    next_index = insert w.peer.id (w.req.last_included_index + 1) n.next_index;
                  })
                  n
                  (λ _. record {
                    memory = h.memory;
                    state = h.state;
                    written = h.written;
                    disk = h.disk;
                  })
                  (λ _. h)))
        ]
      ]

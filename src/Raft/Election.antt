-- ===== src/Raft/Election.antt =====
-- Elections, and the batches of a leader, of
-- internal/metadata_replicator/durable_raft/replicator.go. `Send` to the peers is outside the model:
-- its replies come as arguments.
use sandstore.Base.{
  ℕ, String, ◌+◌, ◌/◌, Bool, true, false, not, Option, none, some, List, [], ◌∷◌, ◌++◌, ◌==◌,
  nat_eq, string_eq, ltb, leb, ◌&&◌, ◌||◌, length, if◌then◌else◌, Dict, insert,
}
use sandstore.Raft.Types.{Bytes, LogEntry, Error, Result, ok, err, not_leader}
use sandstore.Raft.AtomicFile.{Syscalls}
use sandstore.Raft.LogStore.{last_index_and_term, store_logs}
use sandstore.Raft.Node.{
  Node, ClusterNode, RaftState, follower, candidate, leader, persist_stable,
  handle_stable_store_failure, step_down, get_last_log_info,
}
use sandstore.Raft.Apply.{notify}

pub record RequestVoteArgs : Type 0 where
  pub term : ℕ
  pub candidate_id : String
  pub last_log_index : ℕ
  pub last_log_term : ℕ

pub record RequestVoteReply : Type 0 where
  pub term : ℕ
  pub vote_granted : Bool

-- The variables that the goroutines of one election share.
pub record Election : Type 0 where
  pub saved_term : ℕ
  pub votes_received : ℕ
  pub quorum : ℕ
  pub nodes : List ClusterNode

abbrev pub is_leader : RaftState → Bool
is_leader leader = true
is_leader _ = false

abbrev pub is_candidate : RaftState → Bool
is_candidate candidate = true
is_candidate _ = false

abbrev pub is_follower : RaftState → Bool
is_follower follower = true
is_follower _ = false

unfoldable pub up_to_date : RequestVoteArgs → ℕ × ℕ → Bool
up_to_date req (last_idx, last_term) =
    ltb last_term req.last_log_term
    || ((req.last_log_term == last_term) && leb last_idx req.last_log_index)

unfoldable pub set_next : ℕ → List ClusterNode → Dict String ℕ → Dict String ℕ
set_next i [] m = m
set_next i (peer ∷ nodes) m = set_next i nodes (insert peer.id i m)

module _ {M : Type 0} where
  -- `HandleRequestVote` after the terms are compared.
  unfoldable pub consider_vote :
      Syscalls → ℕ → RequestVoteArgs → Node M → (RequestVoteReply × Option Error) × Node M
  consider_vote sys now req n =
      let (e, written) = persist_stable sys (record n { voted_for = req.candidate_id }) in
      if ((n.voted_for == "") || (n.voted_for == req.candidate_id))
        && up_to_date req (get_last_log_info n)
      then elim e [
        | none ↦ (
          (record { term = n.current_term; vote_granted = true }, none),
          record written { election_reset_event = now },
        )
        | some x ↦ (
          (record { term = n.current_term; vote_granted = false }, some x),
          handle_stable_store_failure now written,
        )
      ]
      else ((record { term = n.current_term; vote_granted = false }, none), n)

  -- The outcomes are those of the write in `stepDownLocked` and of the write of the vote.
  unfoldable pub handle_request_vote :
      Syscalls
      → Syscalls
      → ℕ
      → RequestVoteArgs
      → Node M
      → (RequestVoteReply × Option Error) × Node M
  handle_request_vote sys_term sys_vote now req n =
      let (e, lowered) = step_down sys_term now req.term "" n in
      if ltb req.term n.current_term
      then ((record { term = n.current_term; vote_granted = false }, none), n)
      else if ltb n.current_term req.term
      then elim e [
        | none ↦ consider_vote sys_vote now req lowered
        | some x ↦ ((record { term = lowered.current_term; vote_granted = false }, some x), lowered)
      ]
      else consider_vote sys_vote now req n

  unfoldable pub fail_clients : Error → List LogEntry → Node M → Node M
  fail_clients e [] n = n
  fail_clients e (entry ∷ batch) n = fail_clients e batch (notify entry.index (some e) n)

  unfoldable pub flush_batch : Syscalls → List LogEntry → Node M → Node M
  flush_batch sys batch n =
      let (e, store') = store_logs sys batch n.log_store in
      let stored = record n { pending_batch = []; log_store = store' } in
      elim e [
        | some x ↦ fail_clients x batch stored
        | none ↦ record stored { broadcasts = n.broadcasts + 1 }
      ]

  unfoldable pub flush_if_any : Syscalls → List LogEntry → Node M → Node M
  flush_if_any sys [] n = n
  flush_if_any sys (entry ∷ batch) n = flush_batch sys (entry ∷ batch) n

  unfoldable pub flush_pending_batch : Syscalls → Node M → Node M
  unfolding flush_if_any
  flush_pending_batch sys n = flush_if_any sys n.pending_batch n

  -- The leader's view of its peers, before anything is sent.
  unfoldable pub led : List ClusterNode → Node M → Node M
  led nodes n =
      let last_idx = (get_last_log_info n).0 in
      record n {
        role = leader;
        leader_id = n.id;
        next_index = set_next (last_idx + 1) nodes n.next_index;
        match_index = insert n.id last_idx (set_next n.last_included_index nodes n.match_index);
      }

  unfoldable pub become_leader : Syscalls → List ClusterNode → Node M → Node M
  unfolding led
  become_leader sys nodes n =
      let flushed = flush_pending_batch sys (led nodes n) in
      record flushed { broadcasts = flushed.broadcasts + 1 }

  -- `startElectionLocked` once the vote was written, or could not be.
  unfoldable pub after_election_written :
      Syscalls → ℕ → Option (List ClusterNode) → Option Error × Node M → Option Election × Node M
  after_election_written sys_log now nodes (some x, n) = (none, handle_stable_store_failure now n)
  after_election_written sys_log now none (none, n) = (none, n)
  after_election_written sys_log now (some peers) (none, n) =
      let election : Election = record {
        saved_term = n.current_term;
        votes_received = 1;
        quorum = length peers / 2 + 1;
        nodes = peers;
      } in
      if length peers == 1 then (none, become_leader sys_log peers n) else (some election, n)

  -- `startElectionLocked` until the requests are sent: the election whose replies are awaited, if
  -- there is one. `sys` is for the vote, `sys_log` for the batch of a node that is alone.
  unfoldable pub start_election :
      Syscalls → Syscalls → ℕ → Option (List ClusterNode) → Node M → Option Election × Node M
  unfolding after_election_written
  start_election sys sys_log now nodes n = after_election_written sys_log now nodes (
      persist_stable sys (record n {
        role = candidate;
        current_term = n.current_term + 1;
        voted_for = n.id;
        election_reset_event = now;
      }))

  -- What the goroutine does with a vote reply that arrived and could be decoded.
  unfoldable pub handle_vote_reply :
      Syscalls → Syscalls → ℕ → RequestVoteReply → Election → Node M → Election × Node M
  handle_vote_reply sys sys_log now reply election n =
      let counted = record election { votes_received = election.votes_received + 1 } in
      if not (is_candidate n.role) || not (n.current_term == election.saved_term)
      then (election, n)
      else if ltb n.current_term reply.term
      then (election, (step_down sys now reply.term "" n).1)
      else if reply.vote_granted
      then (if leb election.quorum counted.votes_received
          then (counted, become_leader sys_log election.nodes n)
          else (counted, n))
      else (election, n)

  -- What `startElectionLocked` sends to each peer.
  unfoldable pub vote_request : Node M → RequestVoteArgs
  vote_request n = record {
    term = n.current_term;
    candidate_id = n.id;
    last_log_index = (get_last_log_info n).0;
    last_log_term = (get_last_log_info n).1;
  }

  -- The client waits, and its entry is the last of the batch.
  unfoldable pub enqueued : ℕ → ℕ → Bytes → ℕ → Node M → Node M
  enqueued now client bytes last_idx n =
      let index = last_idx + length n.pending_batch + 1 in
      let entry : LogEntry = record {
        index = index;
        term = n.current_term;
        payload = bytes;
        timestamp = now;
      } in
      record n {
        pending_batch = n.pending_batch ++ entry ∷ [];
        pending_clients = insert index client n.pending_clients;
      }

  unfoldable pub flush_if_full : Syscalls → Node M → Node M
  flush_if_full sys n =
      if leb n.max_batch_size 1 || leb n.max_batch_size (length n.pending_batch)
      then flush_pending_batch sys n
      else n

  -- `Replicate` once the leader knows where its log ends.
  unfoldable pub enqueue : Syscalls → ℕ → ℕ → Bytes → Result (ℕ × ℕ) → Node M → Result ℕ × Node M
  enqueue sys now client bytes (err x) n = (err x, n)
  enqueue sys now client bytes (ok (last_idx, _)) n = (
    ok (last_idx + length n.pending_batch + 1),
    flush_if_full sys (enqueued now client bytes last_idx n),
  )

  -- The locked part of `Replicate`: an error at once, or the index under which the client waits.
  unfoldable pub replicate : Syscalls → ℕ → ℕ → Bytes → Node M → Result ℕ × Node M
  replicate sys now client bytes n =
      if not (is_leader n.role)
      then (err not_leader, n)
      else enqueue sys now client bytes (last_index_and_term n.log_store) n

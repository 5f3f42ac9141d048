-- ===== src/Raft/Safety/Votes.antt =====
-- A vote that was granted is kept, in memory and on disk: what that means, and the handler of votes.
pub mod Logs
pub mod Replies
pub mod Runs
use sandstore.Base.{
  ℕ, String, ◌+◌, ◌<◌, ◌≡◌, ◌≢◌, ◌⊎◌, refl, ◌∙◌, Bool, true, false, not, Option, none, some, List,
  arith, Bool-cases, Option-cases, inl, inr, ltb, leb, ◌==◌, ◌||◌, ◌&&◌, length, nat_eq, string_eq,
  str_eq_iff, insert, if◌then◌else◌,
}
use sandstore.Raft.Types.{Error, ok}
use sandstore.Raft.AtomicFile.{Syscalls, file-write_file_atomically}
use sandstore.Raft.Stores.{StableState, SnapshotMeta, set_state, get_state, load_snapshot}
use sandstore.Raft.Node.{
  Node, ClusterNode, StateMachine, persist_stable, handle_stable_store_failure, become_follower,
  step_down, get_last_log_info,
}
use sandstore.Raft.Election.{
  is_candidate, is_leader, RequestVoteArgs, RequestVoteReply, Election, up_to_date, consider_vote,
  handle_request_vote, after_election_written, start_election, handle_vote_reply, become_leader,
}
use sandstore.Raft.Append.{
  AppendSyscalls, AppendEntriesRequest, AppendEntriesReply, append_lowered, handle_append_entries,
  follow_leader,
}
use sandstore.Raft.Snapshot.{
  SnapshotSyscalls, InstallSnapshotRequest, InstallSnapshotReply, install_lowered,
  handle_install_snapshot, finish_compaction, start,
}
use sandstore.Raft.Apply.{index_of}
use sandstore.Raft.Replication.{
  replicated_index, AppendWork, SnapshotWork, handle_append_reply, handle_append_success,
  handle_snapshot_reply, back_off,
}
use sandstore.Raft.Safety.Steps.{Step, Reach}
use sandstore.Raft.Safety.SameVote.{
  SameVote, append_entries-SameVote, install_snapshot-SameVote, become_leader-SameVote,
  write_compaction-SameVote, replicate-SameVote, flush_pending_batch-SameVote,
  advance_commit_index-SameVote,
}

-- A ballot at this term with this vote has not gone back behind the vote for `c` in term `t`.
abbrev pub Casts : ℕ → String → ℕ → String → Type 0
Casts t c term vote = (t < term) ⊎ ((t ≡ term) × (vote ≡ c))

module _ {M : Type 0} where
  pub record Holds (t : ℕ) (c : String) (n : Node M) : Type 0 where
    pub memory : Casts t c n.current_term n.voted_for
    pub state : StableState
    pub written : n.stable_store.file ≡ some state
    pub disk : Casts t c state.term state.voted_for

module _ {M : Type 0} (t : ℕ) (c : String) where
  pub SameVote-Holds : (n k : Node M) → SameVote n k → Holds t c n → Holds t c k
  SameVote-Holds n k s h = record {
    memory = rw (s.term, s.vote) h.memory;
    state = h.state;
    written = rw s.disk h.written;
    disk = h.disk;
  }

  pub persist_stable-Holds :
      (sys : Syscalls) (n : Node M)
      → Casts t c n.current_term n.voted_for
      → (state : StableState) → n.stable_store.file ≡ some state
      → Casts t c state.term state.voted_for
      → Holds t c (persist_stable sys n).1
  unfolding persist_stable set_state
  persist_stable-Holds sys n m state w d =
      let content : StableState = record { term = n.current_term; voted_for = n.voted_for } in
      elim (file-write_file_atomically sys none content n.stable_store) [
        | inl old ↦ record { memory = m; state = state; written = old ∙ w; disk = d }
        | inr new ↦ record { memory = m; state = content; written = new; disk = m }
      ]

  pub choice_Holds :
      (b : Bool) (x y : Node M)
      → (b ≡ true → Holds t c x)
      → (b ≡ false → Holds t c y)
      → Holds t c (if b then x else y)
  choice_Holds true x y p q = p refl
  choice_Holds false x y p q = q refl

  pub if_Holds :
      {A : Type 0} (b : Bool) (x y : A × Node M)
      → (b ≡ true → Holds t c x.1)
      → (b ≡ false → Holds t c y.1)
      → Holds t c (if b then x else y).1
  if_Holds true x y p q = p refl
  if_Holds false x y p q = q refl

  pub failed-Holds :
      (now : ℕ) (n : Node M) → Holds t c n → Holds t c (handle_stable_store_failure now n)
  unfolding handle_stable_store_failure
  failed-Holds now n h = record {
    memory = h.memory;
    state = h.state;
    written = h.written;
    disk = h.disk;
  }

  pub step_down-Holds :
      (sys : Syscalls) (now new_term : ℕ) (leader_id : String) (n : Node M)
      → n.current_term < new_term
      → Holds t c n
      → Holds t c (step_down sys now new_term leader_id n).1
  unfolding step_down become_follower
  step_down-Holds sys now new_term leader_id n higher h =
      let written =
        persist_stable-Holds sys (become_follower now new_term leader_id n)
          (ground (arith, h.memory)) h.state h.written h.disk in
      elim (Option-cases (persist_stable sys (become_follower now new_term leader_id n)).0) [
        | inl fine ↦ rw (fine, step_down) written
        | inr (x, failed) ↦ rw (failed, step_down) (failed-Holds now _ written)
      ]

  module _ (named : c ≢ "") where
    -- Where the test of the vote passes, a vote of this term is for the same candidate.
    may_vote :
        (n : Node M) (candidate_id : String)
        → ((n.voted_for == "") || (n.voted_for == candidate_id)) ≡ true
        → Casts t c n.current_term n.voted_for
        → Casts t c n.current_term candidate_id
    may_vote n candidate_id test m =
        ground (arith, str_eq_iff n.voted_for "", str_eq_iff n.voted_for candidate_id, m)

    voted_for-Holds :
        (sys : Syscalls) (n : Node M) (candidate_id : String)
        → ((n.voted_for == "") || (n.voted_for == candidate_id)) ≡ true
        → Holds t c n
        → Holds t c (persist_stable sys (record n { voted_for = candidate_id })).1
    voted_for-Holds sys n candidate_id test h =
        persist_stable-Holds sys _ (may_vote n candidate_id test h.memory) h.state h.written h.disk

    consider_vote-Holds :
        (sys : Syscalls) (now : ℕ) (req : RequestVoteArgs) (n : Node M)
        → Holds t c n
        → Holds t c (consider_vote sys now req n).1
    unfolding consider_vote
    consider_vote-Holds sys now req n h =
        elim (Bool-cases (
          ((n.voted_for == "") || (n.voted_for == req.candidate_id))
          && up_to_date req (get_last_log_info n))) [
            | inr refused ↦ rw (refused, consider_vote) h
            | inl votes ↦
                let written = voted_for-Holds sys n req.candidate_id (ground arith) h in
                elim (Option-cases
                  (persist_stable sys (record n { voted_for = req.candidate_id })).0) [
                    | inl fine ↦
                        rw (votes, consider_vote)
                          (rw fine (record {
                            memory = written.memory;
                            state = written.state;
                            written = written.written;
                            disk = written.disk;
                          }))
                    | inr (x, failed) ↦
                        rw (votes, consider_vote) (rw failed (failed-Holds now _ written))
                  ]
          ]

    pub request_vote-Holds :
        (sys_term sys_vote : Syscalls) (now : ℕ) (req : RequestVoteArgs) (n : Node M)
        → Holds t c n
        → Holds t c (handle_request_vote sys_term sys_vote now req n).1
    unfolding handle_request_vote
    request_vote-Holds sys_term sys_vote now req n h =
        elim (Bool-cases (ltb req.term n.current_term)) [
          | inl old ↦ rw (old, handle_request_vote) h
          | inr recent ↦ elim (Bool-cases (ltb n.current_term req.term)) [
            | inr same ↦
                rw (recent, handle_request_vote)
                  (rw same (consider_vote-Holds sys_vote now req n h))
            | inl higher ↦
                let lowered = step_down-Holds sys_term now req.term "" n (ground arith) h in
                elim (Option-cases (step_down sys_term now req.term "" n).0) [
                  | inl fine ↦
                      rw (recent, handle_request_vote)
                        (rw higher (rw fine (consider_vote-Holds sys_vote now req _ lowered)))
                  | inr (x, failed) ↦
                      rw (recent, handle_request_vote) (rw higher (rw failed lowered))
                ]
          ]
        ]

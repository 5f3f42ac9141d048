-- ===== src/Raft/Safety/OneVote.antt =====
-- What a granted vote means, and that a node grants one vote in a term.
use sandstore.Base.{
  none, ℕ, String, ◌<◌, ◌≤◌, ◌≡◌, ◌≢◌, refl, sym, true, some, arith, Bool-cases, Option-cases, inl,
  inr, ltb, ◌==◌, ◌||◌, ◌&&◌, nat_eq, string_eq,
}
use sandstore.Raft.AtomicFile.{Syscalls, write_file_atomically, file-write_file_atomically_ok}
use sandstore.Raft.Stores.{StableState, set_state}
use sandstore.Raft.Node.{Node, StateMachine, persist_stable, step_down, get_last_log_info}
use sandstore.Raft.Election.{RequestVoteArgs, up_to_date, consider_vote, handle_request_vote}
use sandstore.Raft.Safety.Steps.{Step, Reach}
use sandstore.Raft.Safety.Votes.{Holds}
use sandstore.Raft.Safety.Votes.Runs.{Reach-Holds}

-- Raft's order on logs: the later last term wins, and at one term the longer log.
pub data IsUpToDate (req : RequestVoteArgs) (last_term last_idx : ℕ) : Type 0 where
  later_term : last_term < req.last_log_term → IsUpToDate req last_term last_idx
  same_term :
      req.last_log_term ≡ last_term
      → last_idx ≤ req.last_log_index
      → IsUpToDate req last_term last_idx

up_to_date-IsUpToDate :
    (req : RequestVoteArgs) (last : ℕ × ℕ)
    → up_to_date req last ≡ true
    → IsUpToDate req last.1 last.0
unfolding up_to_date
up_to_date-IsUpToDate req (last_idx, last_term) h =
    elim (Bool-cases (ltb last_term req.last_log_term)) [
      | inl later ↦ later_term (ground arith)
      | inr not_later ↦ same_term (ground (arith, not_later, h)) (ground (arith, not_later, h))
    ]

-- What a granted vote leaves behind: the vote in memory and on disk, at the term of the request, for
-- a candidate whose log is up to date with the node's.
pub record Granted {M : Type 0} (req : RequestVoteArgs) (k : Node M) : Type 0 where
  pub term : k.current_term ≡ req.term
  pub vote : k.voted_for ≡ req.candidate_id
  pub written :
      k.stable_store.file ≡ some (record { term = req.term; voted_for = req.candidate_id })
  pub log : IsUpToDate req (get_last_log_info k).1 (get_last_log_info k).0

module _ {M : Type 0} where
  current_term-step_down :
      (sys : Syscalls) (now new_term : ℕ) (leader_id : String) (n : Node M)
      → (step_down sys now new_term leader_id n).1.current_term ≡ new_term
  unfolding step_down
  current_term-step_down sys now new_term leader_id n = ground arith

  consider_vote-Granted :
      (sys : Syscalls) (now : ℕ) (req : RequestVoteArgs) (n : Node M)
      → n.current_term ≡ req.term
      → (consider_vote sys now req n).0.0.vote_granted ≡ true
      → Granted req (consider_vote sys now req n).1
  unfolding consider_vote persist_stable set_state get_last_log_info
  consider_vote-Granted sys now req n same g =
      elim (Bool-cases (
        ((n.voted_for == "") || (n.voted_for == req.candidate_id))
        && up_to_date req (get_last_log_info n))) [
          | inr refused ↦ absurd (ground (arith, rw (refused, consider_vote) at g))
          | inl votes ↦
              let content : StableState = record {
                term = n.current_term;
                voted_for = req.candidate_id;
              } in
              elim (Option-cases (write_file_atomically sys none content n.stable_store).0) [
                | inr (x, failed) ↦
                    absurd (
                      ground
                        (arith, rw (failed, consider_vote) at (rw (votes, consider_vote) at g)))
                | inl fine ↦
                    rw (votes, consider_vote)
                      (rw (fine, consider_vote)
                        (record {
                          term = same;
                          vote = refl;
                          written =
                              rw (← same) (
                                file-write_file_atomically_ok sys none content n.stable_store fine);
                          log = up_to_date-IsUpToDate req (get_last_log_info n) (ground arith);
                        }))
              ]
        ]

  -- A granted vote is at the term of the request, in memory and on disk before the reply is sent,
  -- and for a candidate whose last log term is later than the node's, or the same with a log that
  -- is at least as long.
  pub request_vote-Granted :
      (sys_term sys_vote : Syscalls) (now : ℕ) (req : RequestVoteArgs) (n : Node M)
      → (handle_request_vote sys_term sys_vote now req n).0.0.vote_granted ≡ true
      → Granted req (handle_request_vote sys_term sys_vote now req n).1
  unfolding handle_request_vote
  request_vote-Granted sys_term sys_vote now req n g =
      elim (Bool-cases (ltb req.term n.current_term)) [
        | inl old ↦ absurd (cc (rw (old, handle_request_vote) at g))
        | inr recent ↦ elim (Bool-cases (ltb n.current_term req.term)) [
          | inr same ↦
              rw (recent, handle_request_vote)
                (rw same (
                  consider_vote-Granted sys_vote now req n (ground arith)
                    (rw same at (rw (recent, handle_request_vote) at g))))
          | inl higher ↦ elim (Option-cases (step_down sys_term now req.term "" n).0) [
            | inl fine ↦
                rw (recent, handle_request_vote)
                  (rw higher (
                    rw fine (
                      consider_vote-Granted sys_vote now req
                        (step_down sys_term now req.term "" n).1
                        (current_term-step_down sys_term now req.term "" n)
                        (rw fine at (rw higher at (rw (recent, handle_request_vote) at g))))))
            | inr (x, failed) ↦
                absurd (cc (rw failed at (rw higher at (rw (recent, handle_request_vote) at g))))
          ]
        ]
      ]

  Granted-Holds :
      (req : RequestVoteArgs) (k : Node M) → Granted req k → Holds req.term req.candidate_id k
  Granted-Holds req k g = record {
    memory = inr (sym g.term, g.vote);
    state = record { term = req.term; voted_for = req.candidate_id };
    written = g.written;
    disk = inr (refl, refl);
  }

-- The node grants the request.
abbrev pub Grants : {M : Type 0} → Syscalls → Syscalls → ℕ → RequestVoteArgs → Node M → Type 0
Grants sys_term sys_vote now req n =
    (handle_request_vote sys_term sys_vote now req n).0.0.vote_granted ≡ true

module _ {M : Type 0} (sm : StateMachine M) where
  -- A node that grants a vote in a term, to a candidate with an identifier that is not empty,
  -- grants no other candidate a vote in that term, whatever handlers, failing file operations,
  -- crashes and new starts come between.
  pub vote_unique :
      (sys_term sys_vote sys_term' sys_vote' : Syscalls) (now now' : ℕ) (req req' : RequestVoteArgs)
      (n k : Node M)
      → req.candidate_id ≢ ""
      → Grants sys_term sys_vote now req n
      → Reach sm (handle_request_vote sys_term sys_vote now req n).1 k
      → Grants sys_term' sys_vote' now' req' k
      → req.term ≡ req'.term
      → req.candidate_id ≡ req'.candidate_id
  vote_unique sys_term sys_vote sys_term' sys_vote' now now' req req' n k named first run second
        same =
      let held = Granted-Holds req _ (request_vote-Granted sys_term sys_vote now req n first) in
      let later =
        Reach-Holds req.term req.candidate_id sm named
          (Reach.next run (Step.vote_requested k sys_term' sys_vote' now' req')) held in
      let granted = request_vote-Granted sys_term' sys_vote' now' req' k second in
      ground (arith, later.memory, granted.term, granted.vote)

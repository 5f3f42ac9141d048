-- ===== src/Raft/Safety/Votes/Logs.antt =====
-- A granted vote is kept by the handlers of entries and of snapshots.
use sandstore.Base.{
  ℕ, String, Option, none, some, arith, Bool-cases, inl, inr, ltb, nat_eq, string_eq,
}
use sandstore.Raft.Types.{Error}
use sandstore.Raft.Node.{Node, StateMachine}
use sandstore.Raft.Append.{
  AppendSyscalls, AppendEntriesRequest, append_lowered, handle_append_entries, follow_leader,
}
use sandstore.Raft.Snapshot.{
  SnapshotSyscalls, InstallSnapshotRequest, install_lowered, handle_install_snapshot,
}
use sandstore.Raft.Safety.SameVote.{append_entries-SameVote, install_snapshot-SameVote}
use sandstore.Raft.Safety.Votes.{Holds, SameVote-Holds, step_down-Holds}

module _ {M : Type 0} (t : ℕ) (c : String) where
  follow_leader-Holds :
      (now : ℕ) (leader_id : String) (n : Node M)
      → Holds t c n
      → Holds t c (follow_leader now leader_id n)
  unfolding follow_leader
  follow_leader-Holds now leader_id n h = record {
    memory = h.memory;
    state = h.state;
    written = h.written;
    disk = h.disk;
  }

  module _ (sm : StateMachine M) where
    append_lowered-Holds :
        (sys : AppendSyscalls) (now : ℕ) (req : AppendEntriesRequest) (old_term : ℕ)
        (e : Option Error) (n : Node M)
        → Holds t c n
        → Holds t c (append_lowered sm sys now req old_term (e, n)).1
    unfolding append_lowered
    append_lowered-Holds sys now req old_term (some x) n h = h
    append_lowered-Holds sys now req old_term none n h =
        SameVote-Holds t c _ _ (append_entries-SameVote sm sys req _)
          (follow_leader-Holds now req.leader_id n h)

    pub handle_append_entries-Holds :
        (sys : AppendSyscalls) (now : ℕ) (req : AppendEntriesRequest) (n : Node M)
        → Holds t c n
        → Holds t c (handle_append_entries sm sys now req n).1
    unfolding handle_append_entries
    handle_append_entries-Holds sys now req n h = elim (Bool-cases (ltb req.term n.current_term)) [
      | inl old ↦ rw old h
      | inr recent ↦ elim (Bool-cases (ltb n.current_term req.term)) [
        | inr same ↦ rw recent (rw same (append_lowered-Holds sys now req n.current_term none n h))
        | inl higher ↦ rw recent (
            rw higher (
              append_lowered-Holds sys now req _ _ _
                (step_down-Holds t c sys.term now req.term req.leader_id n (ground arith) h)))
      ]
    ]

    install_lowered-Holds :
        (sys : SnapshotSyscalls) (now : ℕ) (req : InstallSnapshotRequest) (old_term : ℕ)
        (e : Option Error) (n : Node M)
        → Holds t c n
        → Holds t c (install_lowered sm sys now req old_term (e, n)).1
    unfolding install_lowered
    install_lowered-Holds sys now req old_term (some x) n h = h
    install_lowered-Holds sys now req old_term none n h =
        SameVote-Holds t c _ _ (install_snapshot-SameVote sm sys req _)
          (follow_leader-Holds now req.leader_id n h)

    pub handle_install_snapshot-Holds :
        (sys : SnapshotSyscalls) (now : ℕ) (req : InstallSnapshotRequest) (n : Node M)
        → Holds t c n
        → Holds t c (handle_install_snapshot sm sys now req n).1
    unfolding handle_install_snapshot
    handle_install_snapshot-Holds sys now req n h =
        elim (Bool-cases (ltb req.term n.current_term)) [
          | inl old ↦ rw old h
          | inr recent ↦ elim (Bool-cases (ltb n.current_term req.term)) [
            | inr same ↦
                rw recent (rw same (install_lowered-Holds sys now req n.current_term none n h))
            | inl higher ↦ rw recent (
                rw higher (
                  install_lowered-Holds sys now req _ _ _
                    (step_down-Holds t c sys.term now req.term req.leader_id n (ground arith) h)))
          ]
        ]

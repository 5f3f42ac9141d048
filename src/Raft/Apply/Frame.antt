-- ===== src/Raft/Apply/Frame.antt =====
-- What applying the log leaves alone: all but the applied index, the state machine and the clients.
use sandstore.Base.{
  ℕ, zero, suc, ◌≡◌, refl, ap, ◌∙◌, Option, some, arith, Bool-cases, Option-cases, inl, inr, ltb,
  nat_eq, string_eq,
}
use sandstore.Raft.Types.{Error}
use sandstore.Raft.Node.{Node, StateMachine}
use sandstore.Raft.Apply.{notify, apply_entry, apply_next, apply_rounds, apply_logs}

module _ {M : Type 0} where
  abbrev pub with_applied : Node M → Node M → Node M
  with_applied n k = record n {
    last_applied = k.last_applied;
    machine = k.machine;
    pending_clients = k.pending_clients;
    replies = k.replies;
  }

  -- `k` is `n` with other applied parts.
  abbrev pub Frame : Node M → Node M → Type 0
  Frame n k = k ≡ with_applied n k

  Frame-trans : (n k m : Node M) → Frame n k → Frame k m → Frame n m
  Frame-trans n k m p q = q ∙ ap (λ x. with_applied x m) p

  pub notify-Frame : (index : ℕ) (e : Option Error) (n : Node M) → Frame n (notify index e n)
  unfolding notify
  notify-Frame index e n = ground arith

module _ {M : Type 0} (sm : StateMachine M) where
  apply_next-Frame : (n : Node M) {n' : Node M} → apply_next sm n ≡ some n' → Frame n n'
  unfolding apply_next apply_entry notify
  apply_next-Frame n h = ground arith

  apply_rounds-Frame : (rounds : ℕ) (n : Node M) → Frame n (apply_rounds sm rounds n)
  unfolding apply_rounds
  apply_rounds-Frame zero n = refl
  apply_rounds-Frame (suc rounds) n = elim (Bool-cases (ltb n.last_applied n.commit_index)) [
    | inr done ↦ rw (done, apply_rounds)
    | inl more ↦ elim (Option-cases (apply_next sm n)) [
      | inl stuck ↦ rw (more, apply_rounds) (rw stuck)
      | inr (n', went) ↦
          rw (more, apply_rounds)
            (rw went (Frame-trans n n' _ (apply_next-Frame n went) (apply_rounds-Frame rounds n')))
    ]
  ]

  pub apply_logs-Frame : (n : Node M) → Frame n (apply_logs sm n)
  unfolding apply_logs
  apply_logs-Frame n = apply_rounds-Frame _ n

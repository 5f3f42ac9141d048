-- ===== src/Raft/Safety/SameVote.antt =====
-- The functions that touch neither the term, nor the vote, nor the stable store.
use sandstore.Base.{
  ℕ, ◌≡◌, refl, ap, Bool, true, false, not, Option, none, some, List, [], ◌∷◌, Bool-cases,
  Option-cases, inl, inr, ltb, leb, ◌||◌, length, nat_eq, string_eq,
}
use sandstore.Raft.Types.{Bytes, LogEntry, Error, Result, ok, err}
use sandstore.Raft.AtomicFile.{Syscalls}
use sandstore.Raft.LogStore.{last_index_and_term, store_logs, delete_range, FileLogStore}
use sandstore.Raft.Node.{Node, StateMachine, ClusterNode}
use sandstore.Raft.Apply.{notify, apply_logs, advance_commit_index}
use sandstore.Raft.Apply.Frame.{Frame, notify-Frame, apply_logs-Frame}
use sandstore.Raft.Apply.Commit.{advance_commit_index-cases}
use sandstore.Raft.Election.{
  fail_clients, flush_batch, led, flush_if_any, flush_if_full, enqueued, is_leader,
  flush_pending_batch, become_leader, enqueue, replicate,
}
use sandstore.Raft.Append.{
  AppendSyscalls, AppendEntriesRequest, commit_target, follow_commit, finish_append, after_append,
  append_checked, append_entries,
}
use sandstore.Raft.Stores.{SnapshotMeta, save_snapshot}
use sandstore.Raft.Snapshot.{
  SnapshotSyscalls, InstallSnapshotRequest, replace_state, install_log, retains_suffix,
  finish_install, raise_marks, after_save, install_snapshot, write_snapshot, write_compaction,
}

pub record SameVote {M : Type 0} (n k : Node M) : Type 0 where
  pub term : k.current_term ≡ n.current_term
  pub vote : k.voted_for ≡ n.voted_for
  pub disk : k.stable_store ≡ n.stable_store

module _ {M : Type 0} where
  pub SameVote-refl : (n : Node M) → SameVote n n
  SameVote-refl n = record { term = refl; vote = refl; disk = refl }

  pub SameVote-trans : {n k m : Node M} → SameVote n k → SameVote k m → SameVote n m
  SameVote-trans a b = record {
    term = cc (a.term, b.term);
    vote = cc (a.vote, b.vote);
    disk = cc (a.disk, b.disk);
  }

  Frame-SameVote : (n k : Node M) → Frame n k → SameVote n k
  Frame-SameVote n k p = record {
    term = ap (λ (x : Node M). x.current_term) p;
    vote = ap (λ (x : Node M). x.voted_for) p;
    disk = ap (λ (x : Node M). x.stable_store) p;
  }

  notify-SameVote : (index : ℕ) (e : Option Error) (n : Node M) → SameVote n (notify index e n)
  notify-SameVote index e n = Frame-SameVote n _ (notify-Frame index e n)

  fail_clients-SameVote :
      (e : Error) (batch : List LogEntry) (n : Node M) → SameVote n (fail_clients e batch n)
  unfolding fail_clients
  fail_clients-SameVote e [] n = SameVote-refl n
  fail_clients-SameVote e (entry ∷ batch) n =
      SameVote-trans (notify-SameVote entry.index (some e) n) (fail_clients-SameVote e batch _)

  flush_batch-SameVote :
      (sys : Syscalls) (batch : List LogEntry) (n : Node M) → SameVote n (flush_batch sys batch n)
  unfolding flush_batch
  flush_batch-SameVote sys batch n = elim (Option-cases (store_logs sys batch n.log_store).0) [
    | inl fine ↦ rw (fine, flush_batch) (record { term = refl; vote = refl; disk = refl })
    | inr (x, failed) ↦
        rw (failed, flush_batch)
          (SameVote-trans (record { term = refl; vote = refl; disk = refl })
            (fail_clients-SameVote x batch _))
  ]

  flush_if_any-SameVote :
      (sys : Syscalls) (batch : List LogEntry) (n : Node M) → SameVote n (flush_if_any sys batch n)
  unfolding flush_if_any
  flush_if_any-SameVote sys [] n = SameVote-refl n
  flush_if_any-SameVote sys (e ∷ es) n = flush_batch-SameVote sys (e ∷ es) n

  pub flush_pending_batch-SameVote :
      (sys : Syscalls) (n : Node M) → SameVote n (flush_pending_batch sys n)
  unfolding flush_pending_batch
  flush_pending_batch-SameVote sys n = flush_if_any-SameVote sys n.pending_batch n

  pub become_leader-SameVote :
      (sys : Syscalls) (nodes : List ClusterNode) (n : Node M)
      → SameVote n (become_leader sys nodes n)
  unfolding become_leader
  become_leader-SameVote sys nodes n =
      let s = flush_pending_batch-SameVote sys (led nodes n) in
      record { term = s.term; vote = s.vote; disk = s.disk }

  flush_if_full-SameVote : (sys : Syscalls) (n : Node M) → SameVote n (flush_if_full sys n)
  unfolding flush_if_full
  flush_if_full-SameVote sys n =
      elim (Bool-cases (leb n.max_batch_size 1 || leb n.max_batch_size (length n.pending_batch))) [
        | inl full ↦ rw (full, flush_if_full) (flush_pending_batch-SameVote sys n)
        | inr room ↦ rw (room, flush_if_full) (SameVote-refl n)
      ]

  enqueue-SameVote :
      (sys : Syscalls) (now client : ℕ) (bytes : Bytes) (r : Result (ℕ × ℕ)) (n : Node M)
      → SameVote n (enqueue sys now client bytes r n).1
  unfolding enqueue enqueued
  enqueue-SameVote sys now client bytes (err x) n = SameVote-refl n
  enqueue-SameVote sys now client bytes (ok (last_idx, _)) n =
      let s = flush_if_full-SameVote sys (enqueued now client bytes last_idx n) in
      record { term = s.term; vote = s.vote; disk = s.disk }

  pub replicate-SameVote :
      (sys : Syscalls) (now client : ℕ) (bytes : Bytes) (n : Node M)
      → SameVote n (replicate sys now client bytes n).1
  unfolding replicate
  replicate-SameVote sys now client bytes n = elim (Bool-cases (not (is_leader n.role))) [
    | inl refused ↦ rw refused (SameVote-refl n)
    | inr leads ↦ rw leads (enqueue-SameVote sys now client bytes _ n)
  ]

module _ {M : Type 0} (sm : StateMachine M) where
  apply_logs-SameVote : (n : Node M) → SameVote n (apply_logs sm n)
  apply_logs-SameVote n = Frame-SameVote n _ (apply_logs-Frame sm n)

  pub advance_commit_index-SameVote :
      (nodes : Option (List ClusterNode)) (n : Node M)
      → SameVote n (advance_commit_index sm nodes n)
  advance_commit_index-SameVote nodes n = elim (advance_commit_index-cases sm nodes n) [
    | inl same ↦ rw same (SameVote-refl n)
    | inr (index, past, same) ↦
        let s = apply_logs-SameVote (record n { commit_index = index }) in
        rw same (record { term = s.term; vote = s.vote; disk = s.disk })
  ]

  follow_commit-SameVote :
      (leader_commit last_idx : ℕ) (n : Node M)
      → SameVote n (follow_commit sm leader_commit last_idx n)
  unfolding follow_commit
  follow_commit-SameVote leader_commit last_idx n =
      elim (Bool-cases (ltb n.commit_index leader_commit)) [
        | inl behind ↦
            let s = apply_logs-SameVote (record n {
              commit_index = commit_target leader_commit last_idx n.last_included_index;
            }) in
            rw (behind, follow_commit) (record { term = s.term; vote = s.vote; disk = s.disk })
        | inr level ↦ rw (level, follow_commit) (SameVote-refl n)
      ]

  finish_append-SameVote :
      (leader_commit : ℕ) (r : Result (ℕ × ℕ)) (n : Node M)
      → SameVote n (finish_append sm leader_commit r n).1
  unfolding finish_append
  finish_append-SameVote leader_commit (err _) n = SameVote-refl n
  finish_append-SameVote leader_commit (ok (last_idx, _)) n =
      follow_commit-SameVote leader_commit last_idx n

  after_append-SameVote :
      (leader_commit : ℕ) (stored : Bool) (store' : FileLogStore) (n : Node M)
      → SameVote n (after_append sm leader_commit (stored, store') n).1
  unfolding after_append
  after_append-SameVote leader_commit true store' n =
      let s =
        finish_append-SameVote leader_commit (last_index_and_term store')
          (record n { log_store = store' }) in
      record { term = s.term; vote = s.vote; disk = s.disk }
  after_append-SameVote leader_commit false store' n = record {
    term = refl;
    vote = refl;
    disk = refl;
  }

  append_checked-SameVote :
      (sys : AppendSyscalls) (leader_commit : ℕ) (conflict : Option (ℕ × ℕ))
      (entries : Option (List LogEntry)) (n : Node M)
      → SameVote n (append_checked sm sys leader_commit conflict entries n).1
  unfolding append_checked
  append_checked-SameVote sys leader_commit (some _) entries n = SameVote-refl n
  append_checked-SameVote sys leader_commit none none n = SameVote-refl n
  append_checked-SameVote sys leader_commit none (some entries) n =
      after_append-SameVote leader_commit _ _ n

  pub append_entries-SameVote :
      (sys : AppendSyscalls) (req : AppendEntriesRequest) (n : Node M)
      → SameVote n (append_entries sm sys req n).1
  unfolding append_entries
  append_entries-SameVote sys req n = append_checked-SameVote sys req.leader_commit _ req.entries n

  replace_state-SameVote :
      (sys : SnapshotSyscalls) (content : Bytes) (r : Result (ℕ × ℕ)) (n : Node M)
      → SameVote n (replace_state sm sys content r n).1
  unfolding replace_state
  replace_state-SameVote sys content (err x) n = SameVote-refl n
  replace_state-SameVote sys content (ok (last_idx, _)) n =
      elim (Option-cases (delete_range sys.compact 0 last_idx n.log_store).0) [
        | inl fine ↦ rw (fine, replace_state) (record { term = refl; vote = refl; disk = refl })
        | inr (x, failed) ↦
            rw (failed, replace_state) (record { term = refl; vote = refl; disk = refl })
      ]

  install_log-SameVote :
      (sys : SnapshotSyscalls) (req : InstallSnapshotRequest) (n : Node M)
      → SameVote n (install_log sm sys req n).1
  unfolding install_log
  install_log-SameVote sys req n = elim (Bool-cases (retains_suffix req n.log_store)) [
    | inl kept ↦ rw (kept, install_log) (record { term = refl; vote = refl; disk = refl })
    | inr cleared ↦ rw (cleared, install_log) (replace_state-SameVote sys req.content _ n)
  ]

  finish_install-SameVote :
      (req : InstallSnapshotRequest) (e : Option Error) (n : Node M)
      → SameVote n (finish_install sm req (e, n)).1
  unfolding finish_install raise_marks
  finish_install-SameVote req (some _) n = SameVote-refl n
  finish_install-SameVote req none n = record { term = refl; vote = refl; disk = refl }

  after_save-SameVote :
      (sys : SnapshotSyscalls) (req : InstallSnapshotRequest) (e : Option Error) (n : Node M)
      → SameVote n (after_save sm sys req e n).1
  unfolding after_save
  after_save-SameVote sys req (some _) n = SameVote-refl n
  after_save-SameVote sys req none n =
      SameVote-trans (install_log-SameVote sys req n) (finish_install-SameVote req _ _)

  pub install_snapshot-SameVote :
      (sys : SnapshotSyscalls) (req : InstallSnapshotRequest) (n : Node M)
      → SameVote n (install_snapshot sm sys req n).1
  unfolding install_snapshot
  install_snapshot-SameVote sys req n =
      elim (Bool-cases (leb req.last_included_index n.last_included_index)) [
        | inl old ↦ rw (old, install_snapshot) (SameVote-refl n)
        | inr newer ↦
            let s = after_save-SameVote sys req _ (record n { snapshot_store = _ }) in
            rw (newer, install_snapshot) (record { term = s.term; vote = s.vote; disk = s.disk })
      ]

  write_snapshot-SameVote :
      (sys : SnapshotSyscalls) (meta : SnapshotMeta) (content : Option Bytes) (n : Node M)
      → SameVote n (write_snapshot sm sys meta content n).1
  unfolding write_snapshot
  write_snapshot-SameVote sys meta none n = SameVote-refl n
  write_snapshot-SameVote sys meta (some content) n =
      elim (Option-cases (save_snapshot sys.save meta content n.snapshot_store).0) [
        | inl fine ↦ rw (fine, write_snapshot) (record { term = refl; vote = refl; disk = refl })
        | inr (x, failed) ↦
            rw (failed, write_snapshot) (record { term = refl; vote = refl; disk = refl })
      ]

  pub write_compaction-SameVote :
      (sys : SnapshotSyscalls) (meta : SnapshotMeta) (n : Node M)
      → SameVote n (write_compaction sm sys meta n).1
  unfolding write_compaction
  write_compaction-SameVote sys meta n = write_snapshot-SameVote sys meta _ n

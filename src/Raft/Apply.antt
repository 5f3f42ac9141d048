-- ===== src/Raft/Apply.antt =====
-- `applyLogsLocked` and `advanceCommitIndexLocked` of
-- internal/metadata_replicator/durable_raft/replicator.go.
pub mod Frame
pub mod Commit
pub mod Progress
use sandstore.Base.{
  ℕ, zero, suc, String, ◌+◌, ◌-◌, ◌*◌, ◌/◌, Bool, Option, none, some, List, [], ◌∷◌, ◌++◌, ◌==◌,
  nat_eq, string_eq, ltb, leb, length, if◌then◌else◌, Dict, lookup, erase,
}
use sandstore.Raft.Types.{LogEntry, Error, Result, ok, err}
use sandstore.Raft.LogStore.{FileLogStore, get_log, last_index_and_term}
use sandstore.Raft.Node.{Node, StateMachine, ClusterNode}

-- `m[k]`, which is 0 where there is no entry.
unfoldable pub index_of : String → Dict String ℕ → ℕ
index_of k m = elim (lookup k m) [ none ↦ 0 | some i ↦ i ]

-- The peers, this node apart, whose log is known to reach an index.
unfoldable pub count_matches : String → Dict String ℕ → ℕ → List ClusterNode → ℕ
count_matches id match_index index [] = 0
count_matches id match_index index (peer ∷ nodes) =
    let rest = count_matches id match_index index nodes in
    if peer.id == id
    then rest
    else if leb index (index_of peer.id match_index)
    then rest + 1
    else rest

module _ {M : Type 0} where
  unfoldable pub has_majority : Node M → List ClusterNode → ℕ → Bool
  has_majority n nodes index =
      ltb (length nodes / 2) (1 + count_matches n.id n.match_index index nodes)

  unfoldable pub notify : ℕ → Option Error → Node M → Node M
  notify index e n = elim (lookup index n.pending_clients) [
    | none ↦ n
    | some client ↦ record n {
      replies = n.replies ++ (client, e) ∷ [];
      pending_clients = erase index n.pending_clients;
    }
  ]

module _ {M : Type 0} (sm : StateMachine M) where
  unfoldable pub apply_entry : LogEntry → Node M → Node M
  unfolding notify
  apply_entry entry n =
      let (e, machine') = sm.apply entry.payload n.machine in
      notify entry.index e (record n { last_applied = n.last_applied + 1; machine = machine' })

  -- One round of the loop; `none` is its `return`.
  unfoldable pub apply_next : Node M → Option (Node M)
  apply_next n =
      if leb (n.last_applied + 1) n.last_included_index
      then some (record n { last_applied = n.last_applied + 1 })
      else elim (get_log n.log_store (n.last_applied + 1)) [
        | err _ ↦ none
        | ok entry ↦ some (apply_entry entry n)
      ]

  unfoldable pub apply_rounds : ℕ → Node M → Node M
  apply_rounds zero n = n
  apply_rounds (suc rounds) n =
      if ltb n.last_applied n.commit_index
      then elim (apply_next n) [ none ↦ n | some n' ↦ apply_rounds rounds n' ]
      else n

  -- Each round raises `last_applied` by one, so there are at most this many.
  unfoldable pub apply_logs : Node M → Node M
  apply_logs n = apply_rounds (n.commit_index - n.last_applied) n

  -- `for n := lastIdx; n > r.commitIndex; n--`
  unfoldable pub advance_from : ℕ → List ClusterNode → Node M → Node M
  advance_from zero nodes n = n
  advance_from (suc below) nodes n =
      let rest = advance_from below nodes n in
      if leb (suc below) n.commit_index then n else elim (get_log n.log_store (suc below)) [
        | err _ ↦ rest
        | ok entry ↦
            if entry.term == n.current_term
            then (if has_majority n nodes (suc below)
                then apply_logs (record n { commit_index = suc below })
                else rest)
            else rest
      ]

  -- The early returns: on a log that cannot be read, on no view of the cluster, on an empty view.
  unfoldable pub advance_in : Result (ℕ × ℕ) → Option (List ClusterNode) → Node M → Node M
  advance_in (err _) nodes n = n
  advance_in (ok _) none n = n
  advance_in (ok _) (some []) n = n
  advance_in (ok (last, _)) (some (peer ∷ peers)) n = advance_from last (peer ∷ peers) n

  unfoldable pub advance_commit_index : Option (List ClusterNode) → Node M → Node M
  unfolding advance_in
  advance_commit_index nodes n = advance_in (last_index_and_term n.log_store) nodes n

-- ===== src/Raft/Replication.antt =====
-- What the leader sends to its peers and does with their replies, of
-- internal/metadata_replicator/durable_raft/replicator.go.
pub mod Sending
pub mod Delivery
use sandstore.Base.{
  ℕ, zero, suc, String, ◌+◌, ◌-◌, Bool, not, Option, none, some, List, [], ◌∷◌, ◌==◌, nat_eq,
  string_eq, ltb, leb, ◌||◌, length, if◌then◌else◌, insert,
}
use sandstore.Raft.Types.{Bytes, LogEntry, ok, err, log_compacted}
use sandstore.Raft.AtomicFile.{Syscalls}
use sandstore.Raft.LogStore.{FileLogStore, get_log}
use sandstore.Raft.Stores.{SnapshotMeta, load_snapshot}
use sandstore.Raft.Node.{Node, ClusterNode, StateMachine, step_down, get_last_log_info}
use sandstore.Raft.Apply.{index_of, advance_commit_index}
use sandstore.Raft.Election.{is_leader}
use sandstore.Raft.Append.{AppendEntriesReply, AppendEntriesRequest}
use sandstore.Raft.Snapshot.{InstallSnapshotRequest, InstallSnapshotReply}

pub record AppendWork : Type 0 where
  pub peer : ClusterNode
  pub prev_log_index : ℕ
  pub prev_log_term : ℕ
  pub entries : List LogEntry
  pub term : ℕ
  pub commit_index : ℕ

pub record SnapshotWork : Type 0 where
  pub peer : ClusterNode
  pub req : InstallSnapshotRequest
  pub term : ℕ

pub data Work : Type 0 where
  append : AppendWork → Work
  snapshot : SnapshotWork → Work

-- `for idx := nextIdx; idx <= lastIdx; idx++` over the rounds left; the first entry that cannot be
-- read ends it.
unfoldable pub collect_entries : ℕ → ℕ → FileLogStore → List LogEntry
collect_entries zero idx s = []
collect_entries (suc rounds) idx s = elim (get_log s idx) [
  | err _ ↦ []
  | ok entry ↦ entry ∷ collect_entries rounds (idx + 1) s
]

unfoldable pub last_index_of : ℕ → List LogEntry → ℕ
last_index_of last [] = last
last_index_of last (entry ∷ entries) = last_index_of entry.index entries

-- The index up to which a reply with success shows the peer's log to agree.
unfoldable pub replicated_index : AppendWork → ℕ
replicated_index w = last_index_of w.prev_log_index w.entries

module _ {M : Type 0} where
  unfoldable pub snapshot_work : SnapshotMeta × Bytes → Node M → ClusterNode → Work
  snapshot_work (meta, content) n peer = snapshot (record {
    peer = peer;
    req = record {
      term = n.current_term;
      leader_id = n.id;
      last_included_index = meta.last_included_index;
      last_included_term = meta.last_included_term;
      content = content;
    };
    term = n.current_term;
  })

  -- The entries from `next_idx` on, behind an entry of the given term.
  unfoldable pub append_work : ℕ → ℕ → ℕ → Node M → ClusterNode → AppendWork
  append_work last_idx next_idx prev_term n peer = record {
    peer = peer;
    prev_log_index = next_idx - 1;
    prev_log_term = prev_term;
    entries = collect_entries (last_idx + 1 - next_idx) next_idx n.log_store;
    term = n.current_term;
    commit_index = n.commit_index;
  }

  -- A peer that was never heard of starts behind the snapshot.
  unfoldable pub next_to_send : Node M → ClusterNode → ℕ
  next_to_send n peer =
      if index_of peer.id n.next_index == 0
      then n.last_included_index + 1
      else index_of peer.id n.next_index

  -- The loop body of `broadcastAppendEntries`: what is sent to one peer, if anything is.
  unfoldable pub plan_peer : SnapshotMeta × Bytes → ℕ → Node M → ClusterNode → Option Work
  plan_peer snap last_idx n peer =
      let next_idx = next_to_send n peer in
      let prev = next_idx - 1 in
      if leb next_idx n.last_included_index
      then (if (snap.0.last_included_index == 0) || (length snap.1 == 0)
          then none
          else some (snapshot_work snap n peer))
      else if prev == n.last_included_index
      then some (append (append_work last_idx next_idx n.last_included_term n peer))
      else if ltb 0 prev
      then elim (get_log n.log_store prev) [
        | err log_compacted ↦
            if ltb 0 snap.0.last_included_index then some (snapshot_work snap n peer) else none
        | err _ ↦ none
        | ok entry ↦ some (append (append_work last_idx next_idx entry.term n peer))
      ]
      else some (append (append_work last_idx next_idx 0 n peer))

  unfoldable pub plan_peers : SnapshotMeta × Bytes → ℕ → Node M → List ClusterNode → List Work
  plan_peers snap last_idx n [] = []
  plan_peers snap last_idx n (peer ∷ nodes) =
      let rest = plan_peers snap last_idx n nodes in
      if peer.id == n.id
      then rest
      else elim (plan_peer snap last_idx n peer) [ none ↦ rest | some work ↦ work ∷ rest ]

  unfoldable pub broadcast_append_entries : Bool → Option (List ClusterNode) → Node M → List Work
  broadcast_append_entries readable nodes n = elim nodes [
    | none ↦ []
    | some peers ↦ elim (load_snapshot readable n.snapshot_store) [
      | err _ ↦ []
      | ok snap ↦ if is_leader n.role then plan_peers snap (get_last_log_info n).0 n peers else []
    ]
  ]

  unfoldable pub back_off : String → AppendEntriesReply → Node M → Node M
  back_off peer reply n =
      let next_idx = index_of peer n.next_index in
      if ltb 0 reply.conflict_index
      then record n {
        next_index =
            insert peer (if ltb reply.conflict_index 1 then 1 else reply.conflict_index)
              n.next_index;
      }
      else if ltb 1 next_idx
      then record n { next_index = insert peer (next_idx - 1) n.next_index }
      else n

-- The request that `replicateAppendEntries` sends.
unfoldable pub append_request : String → AppendWork → AppendEntriesRequest
append_request id w = record {
  term = w.term;
  leader_id = id;
  prev_log_index = w.prev_log_index;
  prev_log_term = w.prev_log_term;
  entries = some w.entries;
  leader_commit = w.commit_index;
}

module _ {M : Type 0} (sm : StateMachine M) where
  unfoldable pub handle_append_success : Option (List ClusterNode) → AppendWork → Node M → Node M
  handle_append_success nodes w n =
      let matched = replicated_index w in
      if ltb (index_of w.peer.id n.match_index) matched
      then advance_commit_index sm nodes (record n {
        match_index = insert w.peer.id matched n.match_index;
        next_index = insert w.peer.id (matched + 1) n.next_index;
      })
      else n

  -- `replicateAppendEntries` from the reply on.
  unfoldable pub handle_append_reply :
      Syscalls → ℕ → Option (List ClusterNode) → AppendWork → AppendEntriesReply → Node M → Node M
  handle_append_reply sys now nodes w reply n =
      if not (is_leader n.role) || not (n.current_term == w.term)
      then n
      else if ltb n.current_term reply.term
      then (step_down sys now reply.term "" n).1
      else if reply.success
      then handle_append_success nodes w n
      else back_off w.peer.id reply n

module _ {M : Type 0} where
  -- `replicateSnapshot` from the reply on.
  unfoldable pub handle_snapshot_reply :
      Syscalls → ℕ → SnapshotWork → InstallSnapshotReply → Node M → Node M
  handle_snapshot_reply sys now w reply n =
      if not (is_leader n.role) || not (n.current_term == w.term)
      then n
      else if ltb n.current_term reply.term
      then (step_down sys now reply.term "" n).1
      else if reply.success
      then record n {
        match_index = insert w.peer.id w.req.last_included_index n.match_index;
        next_index = insert w.peer.id (w.req.last_included_index + 1) n.next_index;
      }
      else n

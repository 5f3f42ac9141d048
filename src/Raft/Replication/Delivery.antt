-- ===== src/Raft/Replication/Delivery.antt =====
-- A request to append from the leader that plans it to the peer that answers it.
use sandstore.Base.{ℕ, ◌≡◌, ◌≤◌, refl, true, some}
use sandstore.Raft.Types.{Bytes, max_uint64}
use sandstore.Raft.LogStore.Valid.{IsValid}
use sandstore.Raft.LogStore.Reload.{IsDurable}
use sandstore.Raft.Stores.{SnapshotMeta}
use sandstore.Raft.Node.{Node, ClusterNode, StateMachine}
use sandstore.Raft.Append.{AppendSyscalls, handle_append_entries}
use sandstore.Raft.Append.Handler.{Replicated, handle_append_entries-Replicated}
use sandstore.Raft.Replication.{AppendWork, append, plan_peer, append_request}
use sandstore.Raft.Replication.Sending.{plan_peer-Sent}

module _ {M : Type 0} (sm : StateMachine M) where
  -- A request that a leader with a valid log that ends within uint64 plans, and that a peer with a
  -- valid and durable log answers with success, leaves the peer with a log that holds each of the
  -- entries that its snapshot does not include, reads as before below them and is what a restart
  -- reads back, and the previous entry matched.
  pub plan_peer-Replicated :
      (n k : Node M) (snap : SnapshotMeta × Bytes) (last : ℕ) (peer : ClusterNode) (w : AppendWork)
      (sys : AppendSyscalls) (now : ℕ)
      → IsValid n.log_store
      → n.log_store.last ≤ max_uint64
      → plan_peer snap last n peer ≡ some (append w)
      → IsValid k.log_store
      → IsDurable k.log_store
      → (handle_append_entries sm sys now (append_request n.id w) k).0.0.success ≡ true
      → Replicated
          (append_request n.id w)
          w.entries
          k.last_included_index
          k.last_included_term
          k.log_store
          (handle_append_entries sm sys now (append_request n.id w) k).1.log_store
  unfolding append_request
  plan_peer-Replicated n k snap last peer w sys now v small planned valid durable accepted =
      let sent = plan_peer-Sent n snap last peer w v small planned in
      handle_append_entries-Replicated sm sys now (append_request n.id w) w.entries k refl
        sent.consecutive valid durable accepted

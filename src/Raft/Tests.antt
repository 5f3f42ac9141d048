-- ===== src/Raft/Tests.antt =====
-- Sample entries, logs and nodes on which the theorems about the replicator are run.
pub mod Log
pub mod Files
pub mod Replica
pub mod Voting
pub mod Sending
use sandstore.Base.{ℕ, String, ◌+◌, ◌≡◌, Option, none, some, List, [], ◌∷◌, length}
use sandstore.Raft.Types.{Bytes, LogEntry, Error, ok, err}
use sandstore.Raft.AtomicFile.{Slot, all_succeed}
use sandstore.Raft.LogStore.{FileLogStore, WalFile, load, store_logs}
use sandstore.Raft.LogStore.Valid.{IsValid, load-IsValid, store_logs-IsValid}
use sandstore.Raft.Node.{Node, StateMachine, ClusterNode, follower, leader}

abbrev pub entry : ℕ → ℕ → LogEntry
entry index term = record { index = index; term = term; payload = index ∷ []; timestamp = 0 }

abbrev pub no_file : {C : Type 0} → Slot C
no_file = record { file = none; tmp = none }

abbrev pub empty_log : FileLogStore
empty_log = load no_file

-- The log of the entries 1, 2 and 3.
abbrev pub three_logs : FileLogStore
three_logs = (store_logs all_succeed (entry 1 1 ∷ entry 2 1 ∷ entry 3 2 ∷ []) empty_log).1

pub three_logs-IsValid : IsValid three_logs
three_logs-IsValid = store_logs-IsValid all_succeed _ empty_log (load-IsValid no_file)

-- A state machine that adds up its commands.
abbrev pub sum : Bytes → ℕ
sum [] = 0
sum (b ∷ bs) = b + sum bs

abbrev pub adder : StateMachine ℕ
adder = record {
  apply = λ b m. (none, m + sum b);
  serialize = λ m. some (m ∷ []);
  restore = λ b m. (none, sum b);
}

abbrev pub peers : List ClusterNode
peers =
    record { id = "a"; address = "a:1" }
    ∷ record { id = "b"; address = "b:1" }
    ∷ record { id = "c"; address = "c:1" }
    ∷ []

-- Node `a`, in term 2 over the three entries.
abbrev pub node : Node ℕ
node = record {
  id = "a";
  max_batch_size = 8;
  snapshot_threshold_logs = 100;
  log_store = three_logs;
  stable_store = no_file;
  snapshot_store = no_file;
  machine = 0;
  role = follower;
  current_term = 2;
  voted_for = "";
  commit_index = 0;
  last_applied = 0;
  last_included_index = 0;
  last_included_term = 0;
  next_index = [];
  match_index = [];
  leader_id = "";
  election_reset_event = 0;
  pending_batch = [];
  pending_clients = [];
  replies = [];
  broadcasts = 0;
}

-- The same node, leading, with the peers' acknowledgements.
abbrev pub leading : Node ℕ
leading = record node { role = leader; match_index = ("b", 3) ∷ ("c", 1) ∷ [] }

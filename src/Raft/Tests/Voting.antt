-- ===== src/Raft/Tests/Voting.antt =====
-- The theorems about votes, at two elections of node `a` with a crash between them.
use sandstore.Base.{ℕ, ◌≡◌, refl, true, lookup, insert, nat_eq, string_eq}
use sandstore.Raft.Types.{Result, ok, err}
use sandstore.Raft.AtomicFile.{all_succeed, write_file_atomically}
use sandstore.Raft.LogStore.{
  load, put_entry, load_entries, insert_sorted, sorted_entries, wal_file, persist, store_entries,
  store_logs, last_index_and_term,
}
use sandstore.Raft.Stores.{set_state, get_state, load_snapshot}
use sandstore.Raft.Node.{Node, become_follower, persist_stable, step_down, get_last_log_info}
use sandstore.Raft.Election.{RequestVoteArgs, up_to_date, consider_vote, handle_request_vote}
use sandstore.Raft.Snapshot.{start}
use sandstore.Raft.Safety.Steps.{Step, Reach}
use sandstore.Raft.Safety.OneVote.{Granted, Grants, request_vote-Granted, vote_unique}
use sandstore.Raft.Tests.{node, adder}

abbrev request : RequestVoteArgs
request = record { term = 3; candidate_id = "b"; last_log_index = 3; last_log_term = 2 }

abbrev voted : Node ℕ
voted = (handle_request_vote all_succeed all_succeed 5 request node).1

abbrev node_or : Node ℕ → Result (Node ℕ) → Node ℕ
node_or n (ok k) = k
node_or n (err _) = n

-- The node after a crash and a new start.
abbrev restarted : Node ℕ
restarted = node_or voted (start true true 9 voted)

first_vote : Grants all_succeed all_succeed 5 request node
unfolding handle_request_vote consider_vote step_down become_follower persist_stable set_state
    up_to_date get_last_log_info last_index_and_term write_file_atomically store_logs store_entries
    put_entry persist load lookup insert load_entries wal_file sorted_entries insert_sorted
first_vote = refl

restart_done : start true true 9 voted ≡ ok restarted
unfolding start get_state load_snapshot handle_request_vote consider_vote step_down become_follower
    persist_stable set_state up_to_date get_last_log_info last_index_and_term write_file_atomically
    store_logs store_entries put_entry persist load lookup insert load_entries wal_file
    sorted_entries insert_sorted
restart_done = refl

second_vote : Grants all_succeed all_succeed 12 request restarted
unfolding start get_state load_snapshot handle_request_vote consider_vote step_down become_follower
    persist_stable set_state up_to_date get_last_log_info last_index_and_term write_file_atomically
    store_logs store_entries put_entry persist load lookup insert load_entries wal_file
    sorted_entries insert_sorted
second_vote = refl

request_vote-Granted_example : Granted request voted
request_vote-Granted_example =
    request_vote-Granted all_succeed all_succeed 5 request node first_vote

vote_unique_example : request.candidate_id ≡ request.candidate_id
vote_unique_example =
    vote_unique adder all_succeed all_succeed all_succeed all_succeed 5 12 request request node
      restarted (λ h. cc) first_vote
      (Reach.next Reach.here (Step.restarted voted true true 9 restart_done)) second_vote refl

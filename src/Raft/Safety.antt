-- ===== src/Raft/Safety.antt =====
-- Properties of the replicator that hold over any run of its handlers, crashes and failing file
-- operations included.
pub mod Steps
pub mod SameVote
pub mod Votes
pub mod OneVote

-- ===== src/Raft/Types.antt =====
-- Types that the stores and the replicator share: log entries of
-- internal/metadata_replicator/raft_replicator/types.go, and the errors of
-- internal/metadata_replicator/durable_raft.
use sandstore.Base.{ℕ, List, ◌≡◌, refl, ◌⊎◌, inl, inr}

abbrev pub Bytes : Type 0
Bytes = List ℕ

pub record LogEntry : Type 0 where
  pub index : ℕ
  pub term : ℕ
  pub payload : Bytes
  pub timestamp : ℕ

-- The largest `uint64`.
abbrev pub max_uint64 : ℕ
max_uint64 = 0xffff_ffff_ffff_ffff

pub data Error : Type 0 where
  io_failed append_compacted log_not_found log_compacted last_missing : Error
  wal_corrupt stable_corrupt wal_behind_snapshot snapshot_without_data : Error
  not_leader leadership_changed stable_failure snapshot_failed apply_failed canceled : Error

-- A Go pair of a value and an error.
pub data Result {ℓ} (A : Type ℓ) : Type ℓ where
  ok : A → Result A
  err : Error → Result A

pub Result-cases {ℓ} :
    {A : Type ℓ} (r : Result A) → ((e : Error) × (r ≡ err e)) ⊎ ((a : A) × (r ≡ ok a))
Result-cases (ok a) = inr (a, refl)
Result-cases (err e) = inl (e, refl)

-- ===== src/Raft/Stores.antt =====
-- `FileStableStore` and `FileSnapshotStore` of
-- internal/metadata_replicator/durable_raft/stores.go, over files of values: Raft/Envelope has the
-- bytes, of which a part of a file stands for no value (`none`). `readable` says whether `os.ReadFile` succeeds on a file that exists.
use sandstore.Base.{ℕ, String, Bool, Option, none, some, [], if◌then◌else◌}
use sandstore.Raft.Types.{Bytes, Error, Result, ok, err, io_failed}
use sandstore.Raft.AtomicFile.{Syscalls, Slot, write_file_atomically}

pub record StableState : Type 0 where
  pub term : ℕ
  pub voted_for : String

pub record SnapshotMeta : Type 0 where
  pub last_included_index : ℕ
  pub last_included_term : ℕ

pub record SnapshotFile : Type 0 where
  pub meta : SnapshotMeta
  pub content : Bytes

unfoldable pub set_state :
    Syscalls → ℕ → String → Slot StableState → Option Error × Slot StableState
set_state sys current_term voted_for slot =
    write_file_atomically sys none (record { term = current_term; voted_for = voted_for }) slot

unfoldable pub get_state : Bool → Slot StableState → Result (ℕ × String)
get_state readable slot = elim slot.file [
  | none ↦ ok (0, "")
  | some state ↦ if readable then ok (state.term, state.voted_for) else err io_failed
]

unfoldable pub save_snapshot :
    Syscalls → SnapshotMeta → Bytes → Slot SnapshotFile → Option Error × Slot SnapshotFile
save_snapshot sys meta content slot =
    write_file_atomically sys none (record { meta = meta; content = content }) slot

unfoldable pub load_snapshot : Bool → Slot SnapshotFile → Result (SnapshotMeta × Bytes)
load_snapshot readable slot = elim slot.file [
  | none ↦ ok (record { last_included_index = 0; last_included_term = 0 }, [])
  | some snap ↦ if readable then ok (snap.meta, snap.content) else err io_failed
]

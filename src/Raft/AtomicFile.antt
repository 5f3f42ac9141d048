-- ===== src/Raft/AtomicFile.antt =====
-- `writeFileAtomically` of internal/metadata_replicator/durable_raft/stores.go: a file beside its
-- temporary, and the outcome of each system call as an argument.
use sandstore.Base.{◌≡◌, ◌⊎◌, Bool, true, not, ◌||◌, ◌&&◌, Option, none, some, arith, if◌then◌else◌}
use sandstore.Raft.Types.{Error, io_failed}

-- Which system calls succeed, in the order in which the function makes them.
pub record Syscalls : Type 0 where
  pub mkdir : Bool
  pub open_tmp : Bool
  pub write : Bool
  pub sync : Bool
  pub close : Bool
  pub rename : Bool
  pub open_dir : Bool
  pub sync_dir : Bool

pub record Slot (C : Type 0) : Type 0 where
  pub file : Option C
  pub tmp : Option C

abbrev pub all_succeed : Syscalls
all_succeed = record {
  mkdir = true;
  open_tmp = true;
  write = true;
  sync = true;
  close = true;
  rename = true;
  open_dir = true;
  sync_dir = true;
}

-- The calls up to the rename succeed.
abbrev pub is_replaced : Syscalls → Bool
is_replaced sys = sys.mkdir && sys.open_tmp && sys.write && sys.sync && sys.close && sys.rename

module _ {C : Type 0} where
  remove_tmp : Slot C → Slot C
  remove_tmp slot = record slot { tmp = none }

  -- `os.Rename`: the temporary file, whatever it holds, takes the place of the file.
  rename_tmp : Slot C → Slot C
  rename_tmp slot = record { file = slot.tmp; tmp = none }

  -- `partial` is what the temporary file holds after a write or a sync that fails.
  unfoldable pub write_file_atomically : Syscalls → Option C → C → Slot C → Option Error × Slot C
  unfolding remove_tmp rename_tmp
  write_file_atomically sys partial content slot =
      let written = record slot { tmp = if sys.write && sys.sync then some content else partial } in
      let renamed = rename_tmp written in
      if not sys.mkdir
      then (some io_failed, slot)
      else if not sys.open_tmp
      then (some io_failed, slot)
      else if not sys.write || not sys.sync
      then (some io_failed, remove_tmp written)
      else if not sys.close
      then (some io_failed, remove_tmp written)
      else if not sys.rename
      then (some io_failed, remove_tmp written)
      else if not sys.open_dir
      then (some io_failed, renamed)
      else if not sys.sync_dir
      then (some io_failed, renamed)
      else (none, renamed)

  module _ (sys : Syscalls) (partial : Option C) (content : C) (slot : Slot C) where
    -- The file holds its old content or the whole new one.
    pub file-write_file_atomically :
        ((write_file_atomically sys partial content slot).1.file ≡ slot.file)
        ⊎ ((write_file_atomically sys partial content slot).1.file ≡ some content)
    unfolding write_file_atomically
    file-write_file_atomically = ground arith

    -- A nil error means that the new content is in place.
    pub file-write_file_atomically_ok :
        (write_file_atomically sys partial content slot).0 ≡ none
        → (write_file_atomically sys partial content slot).1.file ≡ some content
    unfolding write_file_atomically
    file-write_file_atomically_ok h = ground arith

-- Two files written under the same outcomes fail alike and move on alike.
pub write_file_atomically-parallel :
    {C D : Type 0} (sys : Syscalls) (part : Option C) (piece : Option D) (c : C) (d : D)
    (s : Slot C) (t : Slot D)
    → ((write_file_atomically sys part c s).0 ≡ (write_file_atomically sys piece d t).0)
      × (((write_file_atomically sys part c s).1.file ≡ s.file)
            × ((write_file_atomically sys piece d t).1.file ≡ t.file)
          ⊎ ((write_file_atomically sys part c s).1.file ≡ some c)
            × ((write_file_atomically sys piece d t).1.file ≡ some d))
unfolding write_file_atomically
write_file_atomically-parallel sys part piece c d s t = (ground arith, ground arith)

-- ===== src/Raft/Envelope.antt =====
-- The checksummed envelopes of internal/metadata_replicator/durable_raft/stores.go, around the log
-- and around the stable state. JSON (`encoding/json`) and CRC-32 (`hash/crc32`) are parameters.
use sandstore.Base.{ℕ, ◌≡◌, inl, inr, Option, none, some, arith, ◌==◌, nat_eq, if◌then◌else◌}
use sandstore.Raft.Types.{Bytes, Error, Result, ok, err}
use sandstore.Raft.AtomicFile.{
  Syscalls, Slot, write_file_atomically, write_file_atomically-parallel,
}

-- `json.Marshal` and `json.Unmarshal` at one type: what was marshalled is read back.
pub record Codec (T : Type 0) : Type 0 where
  pub marshal : T → Bytes
  pub unmarshal : Bytes → Option T
  pub unmarshal-marshal : (t : T) → unmarshal (marshal t) ≡ some t

pub record Envelope : Type 0 where
  pub crc : ℕ
  pub body : Bytes

-- What every reader and writer of an envelope uses.
pub record Format (T : Type 0) : Type 0 where
  pub checksum : Bytes → ℕ
  pub inner : Codec T
  pub outer : Codec Envelope

module _ {T : Type 0} (f : Format T) where
  unfoldable pub seal : T → Bytes
  seal t =
      let body = f.inner.marshal t in
      f.outer.marshal (record { crc = f.checksum body; body = body })

  -- The reading side, with the error that the file's store reports.
  unfoldable pub unseal : Error → Bytes → Result T
  unseal corrupt raw = elim (f.outer.unmarshal raw) [
    | none ↦ err corrupt
    | some envelope ↦
        if f.checksum envelope.body == envelope.crc
        then elim (f.inner.unmarshal envelope.body) [ none ↦ err corrupt | some t ↦ ok t ]
        else err corrupt
  ]

  -- A sealed value is read back.
  pub unseal-seal : (corrupt : Error) (t : T) → unseal corrupt (seal t) ≡ ok t
  unfolding unseal seal
  unseal-seal corrupt t = ground (
    arith,
    f.outer.unmarshal-marshal
        (record { crc = f.checksum (f.inner.marshal t); body = f.inner.marshal t }),
    f.inner.unmarshal-marshal t,
  )

  -- What a reader of the file of bytes gets, where there is a file.
  abbrev pub reading : Error → Option Bytes → Option (Result T)
  reading corrupt none = none
  reading corrupt (some bytes) = some (unseal corrupt bytes)

  abbrev pub value : Option T → Option (Result T)
  value none = none
  value (some t) = some (ok t)

  -- A file of sealed bytes stands for a file of values.
  abbrev pub Decodes : Error → Slot Bytes → Slot T → Type 0
  Decodes corrupt raw s = reading corrupt raw.file ≡ value s.file

  -- Writing a sealed value to a file of bytes does what writing the value does to the file of
  -- values that the bytes stand for, with the same error, whatever system call fails and whatever
  -- bytes a failed write leaves in the temporary file.
  pub write_file_atomically-Decodes :
      (corrupt : Error) (sys : Syscalls) (partial : Option Bytes) (t : T) (raw : Slot Bytes)
      (s : Slot T)
      → Decodes corrupt raw s
      → ((write_file_atomically sys partial (seal t) raw).0
          ≡ (write_file_atomically sys none t s).0)
        × Decodes corrupt
            (write_file_atomically sys partial (seal t) raw).1
            (write_file_atomically sys none t s).1
  write_file_atomically-Decodes corrupt sys partial t raw s d =
      let (errors, files) = write_file_atomically-parallel sys partial none (seal t) t raw s in
      (
        errors,
        elim files [
          | inl (old, old') ↦ rw (old, old') d
          | inr (new, new') ↦ rw (new, new') (rw unseal-seal)
        ],
      )

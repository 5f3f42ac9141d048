-- ===== src/Write/Payload.antt =====
-- What `prepareWritePayload` of internal/orchestrators/raft_data_plane.go makes of the old and the new
-- bytes.
use sandstore.Base.{
  ℕ, zero, suc, ◌+◌, ◌≤◌, ◌<◌, ◌≡◌, refl, sym, ◌∙◌, [], ◌∷◌, arith, ltb, length, if◌then◌else◌, ◌⊎◌,
  inl, inr, Bool-cases,
}
use sandstore.Chunk.{Bytes}
use sandstore.Write.DataPlane.{make_bytes, copy_at, overlay}

-- The byte at a position, 0 behind the end.
unfoldable pub byte_at : ℕ → Bytes → ℕ
byte_at i [] = 0
byte_at zero (b ∷ bs) = b
byte_at (suc i) (b ∷ bs) = byte_at i bs

length-make_bytes : (n : ℕ) → length (make_bytes n) ≡ n
unfolding make_bytes
length-make_bytes zero = refl
length-make_bytes (suc n) = let rest = length-make_bytes n in omega arith

byte_at-make_bytes : (i n : ℕ) → byte_at i (make_bytes n) ≡ 0
unfolding make_bytes byte_at
byte_at-make_bytes i zero = refl
byte_at-make_bytes zero (suc n) = refl
byte_at-make_bytes (suc i) (suc n) = byte_at-make_bytes i n

length-copy_at :
    (offset : ℕ) (new_data out : Bytes) → length (copy_at offset new_data out) ≡ length out
unfolding copy_at
length-copy_at offset new_data [] = refl
length-copy_at zero [] (o ∷ out) = refl
length-copy_at zero (d ∷ new_data) (o ∷ out) =
    let rest = length-copy_at zero new_data out in omega arith
length-copy_at (suc offset) new_data (o ∷ out) =
    let rest = length-copy_at offset new_data out in omega arith

-- A copy that fits puts the new bytes at their place.
copy_at-inside :
    (i k offset : ℕ) (new_data out : Bytes)
    → k ≡ offset + i
    → i < length new_data
    → offset + length new_data ≤ length out
    → byte_at k (copy_at offset new_data out) ≡ byte_at i new_data
unfolding copy_at byte_at
copy_at-inside i k offset new_data [] at inside fits = absurd (omega arith)
copy_at-inside i k zero [] (o ∷ out) at inside fits = absurd (omega arith)
copy_at-inside zero zero zero (d ∷ new_data) (o ∷ out) at inside fits = refl
copy_at-inside zero (suc k) zero (d ∷ new_data) (o ∷ out) at inside fits = absurd (omega arith)
copy_at-inside (suc i) zero zero (d ∷ new_data) (o ∷ out) at inside fits = absurd (omega arith)
copy_at-inside (suc i) (suc k) zero (d ∷ new_data) (o ∷ out) at inside fits =
    copy_at-inside i k zero new_data out (omega arith) (omega arith) (omega arith)
copy_at-inside i zero (suc offset) new_data (o ∷ out) at inside fits = absurd (omega arith)
copy_at-inside i (suc k) (suc offset) new_data (o ∷ out) at inside fits =
    copy_at-inside i k offset new_data out (omega arith) inside (omega arith)

-- It leaves the bytes before and behind that place.
copy_at-outside :
    (k offset : ℕ) (new_data out : Bytes)
    → (k < offset) ⊎ (offset + length new_data ≤ k)
    → byte_at k (copy_at offset new_data out) ≡ byte_at k out
unfolding copy_at byte_at
copy_at-outside k offset new_data [] apart = refl
copy_at-outside k zero [] (o ∷ out) apart = refl
copy_at-outside zero zero (d ∷ new_data) (o ∷ out) (inl before) = absurd (omega arith)
copy_at-outside zero zero (d ∷ new_data) (o ∷ out) (inr behind) = absurd (omega arith)
copy_at-outside (suc k) zero (d ∷ new_data) (o ∷ out) (inl before) = absurd (omega arith)
copy_at-outside (suc k) zero (d ∷ new_data) (o ∷ out) (inr behind) =
    copy_at-outside k zero new_data out (inr (omega arith))
copy_at-outside zero (suc offset) new_data (o ∷ out) apart = refl
copy_at-outside (suc k) (suc offset) new_data (o ∷ out) (inl before) =
    copy_at-outside k offset new_data out (inl (omega arith))
copy_at-outside (suc k) (suc offset) new_data (o ∷ out) (inr behind) =
    copy_at-outside k offset new_data out (inr (omega arith))

byte_at-end : (k : ℕ) (bytes : Bytes) → length bytes ≤ k → byte_at k bytes ≡ 0
unfolding byte_at
byte_at-end k [] behind = refl
byte_at-end zero (b ∷ bytes) behind = absurd (omega arith)
byte_at-end (suc k) (b ∷ bytes) behind = byte_at-end k bytes (omega arith)

-- The old bytes with the new ones over them.
pub record Overlaid (write_offset : ℕ) (new_data existing out : Bytes) : Type 0 where
  pub size : length out ≡ (
      if ltb (length existing) (write_offset + length new_data)
      then write_offset + length new_data
      else length existing)
  pub written : (i : ℕ) → i < length new_data → byte_at (write_offset + i) out ≡ byte_at i new_data
  pub kept :
      (k : ℕ)
      → (k < write_offset) ⊎ (write_offset + length new_data ≤ k)
      → byte_at k out ≡ byte_at k existing

-- The buffer that the old bytes are copied into.
buffer-byte_at :
    (k n : ℕ) (existing : Bytes)
    → length existing ≤ n
    → byte_at k (copy_at 0 existing (make_bytes n)) ≡ byte_at k existing
buffer-byte_at k n existing fits = elim (Bool-cases (ltb k (length existing))) [
  | inl inside ↦
      let size = length-make_bytes n in
      copy_at-inside k k 0 existing (make_bytes n) (omega arith) (ground arith) (omega arith)
  | inr behind ↦
      copy_at-outside k 0 existing (make_bytes n) (inr (ground arith))
      ∙ byte_at-make_bytes k n
      ∙ sym (byte_at-end k existing (ground arith))
]

-- The payload of a write into a chunk is as long as the old bytes, or as far as the new ones
-- reach, holds the new bytes at their offset, and elsewhere the old bytes, or zeros behind their
-- end.
pub overlay-Overlaid :
    (write_offset : ℕ) (new_data existing : Bytes)
    → Overlaid write_offset new_data existing (overlay write_offset new_data existing)
unfolding overlay
overlay-Overlaid write_offset new_data existing =
    let required = write_offset + length new_data in
    let n = if ltb (length existing) required then required else length existing in
    let base = copy_at 0 existing (make_bytes n) in
    let size : length base ≡ n = length-copy_at 0 existing (make_bytes n) ∙ length-make_bytes n in
    let roomy : required ≤ n = ground arith in
    let roomy_old : length existing ≤ n = ground arith in
    record {
      size = length-copy_at write_offset new_data base ∙ size;
      written = λ i inside.
          copy_at-inside i (write_offset + i) write_offset new_data base refl inside (omega arith);
      kept = λ k apart.
          copy_at-outside k write_offset new_data base apart
          ∙ buffer-byte_at k n existing roomy_old;
    }

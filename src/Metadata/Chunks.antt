-- ===== src/Metadata/Chunks.antt =====
-- The chunk list of an inode (`replaceChunkList`, `loadChunkList` of
-- internal/metadata_service/bolt/bolt_metadata_service.go): one key for each chunk.
use sandstore.Base.{
  ℕ, zero, suc, ◌+◌, ◌<◌, ◌≡◌, refl, sym, ap, ◌∙◌, subst, true, Option, none, some, List, [], ◌∷◌,
  All, arith, ◌==◌, nat_eq, length, length-append, inl, inr,
}
use sandstore.Metadata.Bytes.{
  Bytes, bytes_eq, put_big_endian, big_endian_from, uint64_size, length-big_endian,
  big_endian_from-put_big_endian,
}
use sandstore.Metadata.Keys.{encode_chunk_map_key, drop, drop-append}
use sandstore.Metadata.Types.{ChunkDescriptor, ok}
use sandstore.Metadata.Bolt.{Listed}
use sandstore.Metadata.State.{set_chunk, collect_chunks}

-- The chunk at a position.
unfoldable pub nth : ℕ → List ChunkDescriptor → Option ChunkDescriptor
nth n [] = none
nth zero (x ∷ xs) = some x
nth (suc n) (x ∷ xs) = nth n xs

pub nth-extensional : (xs ys : List ChunkDescriptor) → ((n : ℕ) → nth n xs ≡ nth n ys) → xs ≡ ys
unfolding nth
nth-extensional [] [] same = refl
nth-extensional [] (y ∷ ys) same = let first = same 0 in absurd (ground arith)
nth-extensional (x ∷ xs) [] same = let first = same 0 in absurd (ground arith)
nth-extensional (x ∷ xs) (y ∷ ys) same =
    let first = same 0 in let rest = nth-extensional xs ys (λ n. same (suc n)) in ground arith

-- A position that is right stays so when a right chunk is set.
set_chunk-nth :
    (i j : ℕ) (chunk : ChunkDescriptor) (found chunks : List ChunkDescriptor)
    → nth i chunks ≡ some chunk
    → nth j found ≡ nth j chunks
    → nth j (set_chunk i chunk found) ≡ nth j chunks
unfolding nth set_chunk
set_chunk-nth i j chunk found [] at same = absurd (ground arith)
set_chunk-nth zero zero chunk [] (c ∷ chunks) at same = sym at
set_chunk-nth zero zero chunk (f ∷ found) (c ∷ chunks) at same = sym at
set_chunk-nth zero (suc j) chunk [] (c ∷ chunks) at same = same
set_chunk-nth zero (suc j) chunk (f ∷ found) (c ∷ chunks) at same = same
set_chunk-nth (suc i) zero chunk [] (c ∷ chunks) at same = absurd (ground arith)
set_chunk-nth (suc i) zero chunk (f ∷ found) (c ∷ chunks) at same = same
set_chunk-nth (suc i) (suc j) chunk [] (c ∷ chunks) at same =
    set_chunk-nth i j chunk [] chunks at same
set_chunk-nth (suc i) (suc j) chunk (f ∷ found) (c ∷ chunks) at same =
    set_chunk-nth i j chunk found chunks at same

nth-set_chunk :
    (i : ℕ) (chunk : ChunkDescriptor) (found : List ChunkDescriptor)
    → nth i (set_chunk i chunk found) ≡ some chunk
unfolding nth set_chunk
nth-set_chunk zero chunk [] = refl
nth-set_chunk zero chunk (f ∷ found) = refl
nth-set_chunk (suc i) chunk [] = nth-set_chunk i chunk []
nth-set_chunk (suc i) chunk (f ∷ found) = nth-set_chunk i chunk found

-- A pair of the bucket that stands for a chunk of the list.
pub record Right (key : Bytes) (chunks : List ChunkDescriptor) (e : Bytes × ChunkDescriptor)
    : Type 0 where
  pub index : ℕ
  pub small : index < uint64_size
  pub keyed : encode_chunk_map_key key index ≡ e.0
  pub at : nth index chunks ≡ some e.1

-- What the loop makes of right pairs.
pub record Collected (key : Bytes) (chunks : List ChunkDescriptor)
    (pairs : List (Bytes × ChunkDescriptor)) (found : List ChunkDescriptor) : Type 0 where
  pub loaded : List ChunkDescriptor
  pub result : collect_chunks (length key) pairs found ≡ ok loaded
  pub kept : (j : ℕ) → nth j found ≡ nth j chunks → nth j loaded ≡ nth j chunks
  pub listed :
      (j : ℕ) (chunk : ChunkDescriptor)
      → j < uint64_size
      → Listed (encode_chunk_map_key key j) chunk pairs
      → nth j loaded ≡ nth j chunks

pub read_index :
    (key : Bytes) (index : ℕ)
    → index < uint64_size
    → big_endian_from 0 (drop (length key) (encode_chunk_map_key key index)) ≡ index
unfolding encode_chunk_map_key
read_index key index small =
    ap (big_endian_from 0) (drop-append key (put_big_endian 8 index))
    ∙ big_endian_from-put_big_endian index small

key_length :
    (key : Bytes) (index : ℕ) → (length (encode_chunk_map_key key index) == length key + 8) ≡ true
unfolding encode_chunk_map_key
key_length key index =
    ground (arith, length-append key (put_big_endian 8 index), length-big_endian index)

pub collect_chunks-Collected :
    (key : Bytes) (chunks : List ChunkDescriptor) (pairs : List (Bytes × ChunkDescriptor))
    (found : List ChunkDescriptor)
    → All (Right key chunks) pairs
    → Collected key chunks pairs found
unfolding collect_chunks
collect_chunks-Collected key chunks [] found _ = record {
  loaded = found;
  result = refl;
  kept = λ j h. h;
  listed = λ j chunk small h. absurd h;
}
collect_chunks-Collected key chunks ((k, chunk) ∷ rest) found (r, later) =
    let more = collect_chunks-Collected key chunks rest (set_chunk r.index chunk found) later in
    let index_read : big_endian_from 0 (drop (length key) k) ≡ r.index =
      ap (λ j. big_endian_from 0 (drop (length key) j)) (sym r.keyed)
      ∙ read_index key r.index r.small in
    let long : (length k == length key + 8) ≡ true =
      ap (λ j. length j == length key + 8) (sym r.keyed) ∙ key_length key r.index in
    record {
      loaded = more.loaded;
      result = rw (long, index_read) more.result;
      kept = λ j h. more.kept j (set_chunk-nth r.index j chunk found chunks r.at h);
      listed = λ j c small h. elim h [
        | inl (same, _) ↦
            let equal : r.index ≡ j =
              sym (read_index key r.index r.small)
              ∙ ap (λ i. big_endian_from 0 (drop (length key) i)) (r.keyed ∙ same)
              ∙ read_index key j small in
            subst (λ i. nth i more.loaded ≡ nth i chunks) equal
              (more.kept r.index (nth-set_chunk r.index chunk found ∙ sym r.at))
        | inr after ↦ more.listed j c small after
      ];
    }

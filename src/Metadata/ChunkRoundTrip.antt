-- ===== src/Metadata/ChunkRoundTrip.antt =====
-- A chunk list that is replaced is loaded again (`replaceChunkList`, `loadChunkList` of
-- internal/metadata_service/bolt/bolt_metadata_service.go).
use sandstore.Base.{
  ℕ, zero, suc, ◌+◌, ◌<◌, ◌≤◌, ◌≡◌, ◌≢◌, refl, sym, ap, ◌∙◌, true, some, List, [], ◌∷◌, All, arith,
  nat_eq, length, Option-cases, ◌⊎◌, inl, inr,
}
use sandstore.Metadata.Bytes.{
  Bytes, bytes_eq, has_prefix, put_big_endian, big_endian_from, uint64_size,
}
use sandstore.Metadata.Keys.{encode_chunk_map_key, drop, has_prefix-append}
use sandstore.Metadata.Types.{ChunkDescriptor, ok}
use sandstore.Metadata.Bolt.{Bolt, Listed}
use sandstore.Metadata.State.{
  Metadata, delete_scanned, delete_chunk_list, put_chunks, replace_chunk_list, load_chunk_list,
}
use sandstore.Metadata.Tree.{get-put_same, get-put_cases, get-delete_cases}
use sandstore.Metadata.Chunks.{
  nth, nth-extensional, read_index, Right, Collected, collect_chunks-Collected,
}

map-All :
    {A : Type 0} {P Q : A → Type 0} → ((e : A) → P e → Q e) → (es : List A) → All P es → All Q es
map-All f [] _ = tt
map-All f (e ∷ es) (p, ps) = (f e p, map-All f es ps)

same_index :
    (key : Bytes) (i j : ℕ)
    → i < uint64_size
    → j < uint64_size
    → encode_chunk_map_key key i ≡ encode_chunk_map_key key j
    → i ≡ j
same_index key i j fits fits' same =
    sym (read_index key i fits)
    ∙ ap (λ k. big_endian_from 0 (drop (length key) k)) same
    ∙ read_index key j fits'

nth-small :
    (n : ℕ) (chunk : ChunkDescriptor) (chunks : List ChunkDescriptor)
    → nth n chunks ≡ some chunk
    → n < length chunks
unfolding nth
nth-small n chunk [] h = absurd (ground arith)
nth-small zero chunk (c ∷ chunks) h = omega arith
nth-small (suc n) chunk (c ∷ chunks) h = let small = nth-small n chunk chunks h in omega arith

module _ (b : Bolt) where
  open b use {Bucket, get, put, delete, scan}

  delete_scanned-cases :
      (k : Bytes) (v : ChunkDescriptor) (pairs : List (Bytes × ChunkDescriptor))
      (m : Bucket ChunkDescriptor)
      → get k (delete_scanned b pairs m) ≡ some v
      → (get k m ≡ some v) × ((w : ChunkDescriptor) → Listed k w pairs → ⊥)
  unfolding delete_scanned
  delete_scanned-cases k v [] m h = (h, λ w no_pair. no_pair)
  delete_scanned-cases k v ((key, _) ∷ rest) m h =
      let (there, unlisted) = delete_scanned-cases k v rest (delete key m) h in
      let (other, before) = get-delete_cases b key k v m there in
      (
        before,
        λ w listed. elim listed [ inl (same, _) ↦ other same | inr later ↦ unlisted w later ],
      )

  delete_chunk_list-gone :
      (key k : Bytes) (v : ChunkDescriptor) (m : Bucket ChunkDescriptor)
      → has_prefix key k ≡ true
      → get k (delete_chunk_list b key m) ≢ some v
  unfolding delete_chunk_list
  delete_chunk_list-gone key k v m prefixed h =
      let (there, unlisted) = delete_scanned-cases k v (scan key m) m h in
      unlisted v (b.scan-complete key k v m there prefixed)

  -- A pair that the loop put, from an index on.
  record Put (key : Bytes) (i : ℕ) (chunks : List ChunkDescriptor) (k : Bytes) (v : ChunkDescriptor)
      : Type 0 where
    index : ℕ
    keyed : encode_chunk_map_key key (i + index) ≡ k
    at : nth index chunks ≡ some v

  put_chunks-cases :
      (key k : Bytes) (i : ℕ) (v : ChunkDescriptor) (chunks : List ChunkDescriptor)
      (m : Bucket ChunkDescriptor)
      → get k (put_chunks b key i chunks m) ≡ some v
      → Put key i chunks k v ⊎ (get k m ≡ some v)
  unfolding put_chunks nth
  put_chunks-cases key k i v [] m h = inr h
  put_chunks-cases key k i v (chunk ∷ chunks) m h =
      elim (put_chunks-cases key k (i + 1) v chunks (put (encode_chunk_map_key key i) chunk m) h) [
        | inl later ↦ inl (record {
          index = suc later.index;
          keyed = ap (encode_chunk_map_key key) (omega arith) ∙ later.keyed;
          at = later.at;
        })
        | inr there ↦ elim (get-put_cases b (encode_chunk_map_key key i) k chunk v m there) [
          | inl (same, equal) ↦ inl (record {
            index = 0;
            keyed = ap (encode_chunk_map_key key) (omega arith) ∙ same;
            at = ap some equal;
          })
          | inr before ↦ inr before
        ]
      ]

  put_chunks-before :
      (key : Bytes) (i j : ℕ) (chunks : List ChunkDescriptor) (m : Bucket ChunkDescriptor)
      → j < i
      → i + length chunks ≤ uint64_size
      → get (encode_chunk_map_key key j) (put_chunks b key i chunks m)
        ≡ get (encode_chunk_map_key key j) m
  unfolding put_chunks
  put_chunks-before key i j [] m before fits = refl
  put_chunks-before key i j (chunk ∷ chunks) m before fits =
      let rest =
        put_chunks-before key (i + 1) j chunks (put (encode_chunk_map_key key i) chunk m)
          (omega arith) (omega arith) in
      let other : encode_chunk_map_key key i ≢ encode_chunk_map_key key j = λ same.
        let equal = same_index key i j (omega arith) (omega arith) same in absurd (omega arith) in
      ground (
        arith,
        rest,
        b.get-put (encode_chunk_map_key key i) (encode_chunk_map_key key j) chunk m,
        bytes_eq.test_iff (encode_chunk_map_key key i) (encode_chunk_map_key key j),
      )

  put_chunks-get :
      (key : Bytes) (i j : ℕ) (v : ChunkDescriptor) (chunks : List ChunkDescriptor)
      (m : Bucket ChunkDescriptor)
      → nth j chunks ≡ some v
      → i + length chunks ≤ uint64_size
      → get (encode_chunk_map_key key (i + j)) (put_chunks b key i chunks m) ≡ some v
  unfolding put_chunks nth
  put_chunks-get key i j v [] m at fits = absurd (ground arith)
  put_chunks-get key i zero v (chunk ∷ chunks) m at fits =
      ap (λ n. get (encode_chunk_map_key key n) (put_chunks b key i (chunk ∷ chunks) m))
        (omega arith)
      ∙ put_chunks-before key (i + 1) i chunks (put (encode_chunk_map_key key i) chunk m)
          (omega arith) (omega arith)
      ∙ get-put_same b (encode_chunk_map_key key i) chunk m
      ∙ at
  put_chunks-get key i (suc j) v (chunk ∷ chunks) m at fits =
      ap (λ n. get (encode_chunk_map_key key n) (put_chunks b key i (chunk ∷ chunks) m))
        (omega arith)
      ∙ put_chunks-get key (i + 1) j v chunks (put (encode_chunk_map_key key i) chunk m) at
          (omega arith)

  -- What a scan finds after the list was put into a bucket without keys of the inode.
  scanned-Right :
      (key : Bytes) (chunks : List ChunkDescriptor) (m : Bucket ChunkDescriptor)
      (e : Bytes × ChunkDescriptor)
      → length chunks ≤ uint64_size
      → (get e.0 (put_chunks b key 0 chunks (delete_chunk_list b key m)) ≡ some e.1)
        × (has_prefix key e.0 ≡ true)
      → Right key chunks e
  scanned-Right key chunks m e fits (at, prefixed) =
      elim (put_chunks-cases key e.0 0 e.1 chunks (delete_chunk_list b key m) at) [
        | inl p ↦
            let small = nth-small p.index e.1 chunks p.at in
            record {
              index = p.index;
              small = omega arith;
              keyed = ap (encode_chunk_map_key key) (omega arith) ∙ p.keyed;
              at = p.at;
            }
        | inr old ↦ absurd (delete_chunk_list-gone key e.0 e.1 m prefixed old)
      ]

  loaded-nth :
      (key : Bytes) (chunks : List ChunkDescriptor) (m : Bucket ChunkDescriptor)
      → length chunks ≤ uint64_size
      → (found : Collected key chunks (scan key (put_chunks b key 0 chunks m)) []) (n : ℕ)
      → nth n found.loaded ≡ nth n chunks
  unfolding nth encode_chunk_map_key
  loaded-nth key chunks m fits found n = elim (Option-cases (nth n chunks)) [
    | inl past ↦ found.kept n (sym past)
    | inr (v, at) ↦
        let small = nth-small n v chunks at in
        let stored = put_chunks-get key 0 n v chunks m at (omega arith) in
        found.listed n v (omega arith) (
          b.scan-complete key (encode_chunk_map_key key n) v (put_chunks b key 0 chunks m)
            (ap (λ i. get (encode_chunk_map_key key i) (put_chunks b key 0 chunks m)) (omega arith)
              ∙ stored)
            ((has_prefix-append key key (put_big_endian 8 n) refl).1 refl))
  ]

  -- A chunk list of at most 2^64 chunks that replaces the list of an inode is what is loaded then,
  -- whatever the bucket held.
  pub load_chunk_list-replace_chunk_list :
      (key : Bytes) (chunks : List ChunkDescriptor) (db : Metadata b)
      → length chunks ≤ uint64_size
      → load_chunk_list b key
          (record db { chunk_map = replace_chunk_list b key chunks db.chunk_map })
        ≡ ok chunks
  unfolding load_chunk_list replace_chunk_list
  load_chunk_list-replace_chunk_list key chunks db fits =
      let m = put_chunks b key 0 chunks (delete_chunk_list b key db.chunk_map) in
      let found = collect_chunks-Collected key chunks (scan key m) [] (
        map-All (λ e. scanned-Right key chunks db.chunk_map e fits) (scan key m)
          (b.scan-sound key m)) in
      found.result
      ∙ ap ok (
          nth-extensional found.loaded chunks
            (loaded-nth key chunks (delete_chunk_list b key db.chunk_map) fits found))

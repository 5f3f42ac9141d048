-- ===== src/Metadata/Store.antt =====
-- A database in memory that keeps the laws of Metadata/Bolt: buckets as lists of pairs.
use sandstore.Base.{
  ◌≡◌, refl, true, Option, none, some, List, [], ◌∷◌, All, arith, if◌then◌else◌, ◌==◌, Dict, lookup,
  insert, erase, lookup-nil, lookup-insert, lookup-erase, length, Bool-cases, Option-cases, inl,
  inr,
}
use sandstore.Metadata.Bytes.{Bytes, bytes_eq, has_prefix}
use sandstore.Metadata.Bolt.{Bolt, Listed}

module _ {V : Type 0} where
  abbrev found : Bytes → Option V → List (Bytes × V) → List (Bytes × V)
  found k none rest = rest
  found k (some v) rest = (k, v) ∷ rest

  -- The pairs of a bucket, from a pair on.
  unfoldable pub scan_from : Dict Bytes V → Bytes → Dict Bytes V → List (Bytes × V)
  scan_from bucket p [] = []
  scan_from bucket p ((k, _) ∷ rest) =
      let more = scan_from bucket p rest in
      if has_prefix p k then found k (lookup k bucket) more else more

  pub scan_from_sound :
      (bucket : Dict Bytes V) (p : Bytes) (pairs : Dict Bytes V)
      → All
          (λ (e : Bytes × V). (lookup e.0 bucket ≡ some e.1) × (has_prefix p e.0 ≡ true))
          (scan_from bucket p pairs)
  unfolding scan_from
  scan_from_sound bucket p [] = tt
  scan_from_sound bucket p ((k, _) ∷ rest) =
      let more = scan_from_sound bucket p rest in
      elim (Bool-cases (has_prefix p k)) [
        | inl yes_prefix ↦ elim (Option-cases (lookup k bucket)) [
          | inl missing ↦ rw (yes_prefix, missing) more
          | inr (v, there) ↦ rw (yes_prefix, there) ((there, yes_prefix), more)
        ]
        | inr no_prefix ↦ rw no_prefix more
      ]

  Listed-later :
      (bucket : Dict Bytes V) (p k j : Bytes) (v : V) (pairs : List (Bytes × V))
      → Listed k v pairs
      → Listed k v (if has_prefix p j then found j (lookup j bucket) pairs else pairs)
  Listed-later bucket p k j v pairs h = elim (Bool-cases (has_prefix p j)) [
    | inl yes_prefix ↦ elim (Option-cases (lookup j bucket)) [
      | inl missing ↦ rw (yes_prefix, missing) h
      | inr (w, there) ↦ rw (yes_prefix, there) (inr h)
    ]
    | inr no_prefix ↦ rw no_prefix h
  ]

  pub scan_from_complete :
      (bucket : Dict Bytes V) (p k : Bytes) (v w : V) (pairs : Dict Bytes V)
      → lookup k pairs ≡ some w
      → lookup k bucket ≡ some v
      → has_prefix p k ≡ true
      → Listed k v (scan_from bucket p pairs)
  unfolding scan_from lookup
  scan_from_complete bucket p k v w [] h there prefixed = absurd (ground arith)
  scan_from_complete bucket p k v w ((j, u) ∷ rest) h there prefixed = elim (Bool-cases (j == k)) [
    | inl same ↦
        let equal : j ≡ k = (bytes_eq.test_iff j k).0 same in
        rw (equal, prefixed, there) (inl (refl, refl))
    | inr other ↦
        Listed-later bucket p k j v (scan_from bucket p rest)
          (scan_from_complete bucket p k v w rest (rw other at h) there prefixed)
  ]

abbrev pub store : Bolt
store = record {
  Bucket = Dict Bytes;
  new_bucket = [];
  get = lookup;
  put = insert;
  delete = erase;
  scan = λ p bucket. scan_from bucket p bucket;
  key_n = length;
  get-new = lookup-nil;
  get-put = λ k j v bucket. lookup-insert k j v bucket;
  get-delete = λ k j bucket. lookup-erase k j bucket;
  scan-sound = λ p bucket. scan_from_sound bucket p bucket;
  scan-complete =
      λ p k v bucket there prefixed. scan_from_complete bucket p k v v bucket there there prefixed;
}

-- ===== src/Metadata/Bolt.antt =====
-- What the metadata service uses of `go.etcd.io/bbolt`: buckets, which are maps ordered by key. A
-- value stands for its encoding by `gob` or `json`, which is read back as it was written.
use sandstore.Base.{ℕ, ◌≡◌, true, Option, none, some, List, [], ◌∷◌, All, if◌then◌else◌, ◌==◌, ◌⊎◌}
use sandstore.Metadata.Bytes.{Bytes, bytes_eq, has_prefix}

-- The pair is one of the list.
abbrev pub Listed : {V : Type 0} → Bytes → V → List (Bytes × V) → Type 0
Listed k v [] = ⊥
Listed k v ((j, w) ∷ rest) = ((j ≡ k) × (w ≡ v)) ⊎ Listed k v rest

-- `scan p b` is the loop of a cursor from `Seek(p)` while the key has the prefix;
-- `key_n` counts the keys.
pub record Bolt : Type 1 where
  pub Bucket : Type 0 → Type 0
  pub new_bucket : {V : Type 0} → Bucket V
  pub get : {V : Type 0} → Bytes → Bucket V → Option V
  pub put : {V : Type 0} → Bytes → V → Bucket V → Bucket V
  pub delete : {V : Type 0} → Bytes → Bucket V → Bucket V
  pub scan : {V : Type 0} → Bytes → Bucket V → List (Bytes × V)
  pub key_n : {V : Type 0} → Bucket V → ℕ
  pub get-new : {V : Type 0} (k : Bytes) → get {V = V} k new_bucket ≡ none
  pub get-put :
      {V : Type 0} (k j : Bytes) (v : V) (b : Bucket V)
      → get j (put k v b) ≡ (if k == j then some v else get j b)
  pub get-delete :
      {V : Type 0} (k j : Bytes) (b : Bucket V)
      → get j (delete k b) ≡ (if k == j then none else get j b)
  pub scan-sound :
      {V : Type 0} (p : Bytes) (b : Bucket V)
      → All (λ (e : Bytes × V). (get e.0 b ≡ some e.1) × (has_prefix p e.0 ≡ true)) (scan p b)
  pub scan-complete :
      {V : Type 0} (p k : Bytes) (v : V) (b : Bucket V)
      → get k b ≡ some v
      → has_prefix p k ≡ true
      → Listed k v (scan p b)

-- ===== src/Metadata/Keys.antt =====
-- The keys of the buckets, of internal/metadata_service/bolt/bolt_metadata_service.go, and that they
-- are read back and kept apart.
use sandstore.Base.{
  ℕ, zero, suc, ◌+◌, ◌-◌, ◌*◌, ◌/◌, ◌%◌, ◌<◌, ◌≡◌, ◌≢◌, ◌↔◌, refl, ap, ◌∙◌, true, none, some, [],
  ◌∷◌, ◌++◌, arith, ltb, if◌then◌else◌, ◌==◌, nat_eq, length, Bool-cases, Option-cases, inl, inr,
}
use sandstore.Metadata.Bytes.{
  Bytes, bytes_eq, has_prefix, put_big_endian, big_endian_from, uint64_size, parse_digits,
  parse_uint, format_digits, format_uint, length-big_endian, big_endian_from-put_big_endian,
}
use sandstore.Metadata.Types.{Result, ok, err, bad_inode_id, ◌>>=◌}

unfoldable pub encode_inode_key : Bytes → Result Bytes
encode_inode_key inode_id = elim (parse_uint inode_id) [
  | none ↦ err bad_inode_id
  | some parsed ↦ ok (put_big_endian 8 parsed)
]

unfoldable pub decode_inode_id : Bytes → Result Bytes
decode_inode_id key =
    if length key == 8 then ok (format_uint (big_endian_from 0 key)) else err bad_inode_id

unfoldable pub encode_dentry_key : Bytes → Bytes → Bytes
encode_dentry_key parent_key name = parent_key ++ name

unfoldable pub encode_chunk_map_key : Bytes → ℕ → Bytes
encode_chunk_map_key inode_key chunk_index = inode_key ++ put_big_endian 8 chunk_index

-- `key[n:]`
unfoldable pub drop : ℕ → Bytes → Bytes
drop zero bs = bs
drop (suc n) [] = []
drop (suc n) (b ∷ bs) = drop n bs

parse_digits-append :
    (acc c : ℕ) (xs : Bytes)
    → parse_digits acc (xs ++ c ∷ [])
      ≡ elim (parse_digits acc xs) [ none ↦ none | some n ↦ parse_digits n (c ∷ []) ]
unfolding parse_digits
parse_digits-append acc c [] = ground arith
parse_digits-append acc c (x ∷ xs) = ground (arith, parse_digits-append (acc * 10 + (x - 48)) c xs)

-- Ten to the number of rounds.
abbrev ten_to : ℕ → ℕ
ten_to zero = 1
ten_to (suc rounds) = 10 * ten_to rounds

one_digit :
    (acc d : ℕ)
    → d < 10
    → acc * 10 + d < uint64_size
    → parse_digits acc ((48 + d) ∷ []) ≡ some (acc * 10 + d)
unfolding parse_digits
one_digit acc d small fits = ground arith

lone_digit :
    (rounds n : ℕ)
    → n < 10
    → n < uint64_size
    → parse_digits 0 (format_digits (suc rounds) n) ≡ some n
unfolding format_digits
lone_digit rounds n small fits =
    let test : ltb n 10 ≡ true = ground arith in
    rw (test, format_digits) (one_digit 0 n small (omega arith) ∙ ap some (omega arith))

digits_round :
    (rounds n : ℕ)
    → n < 10 * ten_to rounds
    → n < uint64_size
    → parse_digits 0 (format_digits (suc rounds) n) ≡ some n
unfolding format_digits
digits_round zero n bound fits = lone_digit zero n (omega arith) fits
digits_round (suc rounds) n bound fits = elim (Bool-cases (ltb n 10)) [
  | inl one ↦ lone_digit (suc rounds) n (ground arith) fits
  | inr more ↦
      rw (more, format_digits)
        (parse_digits-append 0 (48 + n % 10) _
          ∙ rw (digits_round rounds (n / 10) (omega arith) (omega arith))
              (one_digit (n / 10) (n % 10) (omega arith) (omega arith) ∙ ap some (omega arith)))
]

parse_uint-nonempty :
    (xs : Bytes) (n : ℕ) → xs ≢ [] → parse_digits 0 xs ≡ some n → parse_uint xs ≡ some n
unfolding parse_uint
parse_uint-nonempty [] n some_digit h = absurd (some_digit refl)
parse_uint-nonempty (x ∷ xs) n some_digit h = h

append_nonempty : (xs : Bytes) (c : ℕ) → xs ++ c ∷ [] ≢ []
append_nonempty [] c h = cc
append_nonempty (x ∷ xs) c h = cc

format_uint-nonempty : (n : ℕ) → format_uint n ≢ []
unfolding format_uint format_digits
format_uint-nonempty n h = elim (Bool-cases (ltb n 10)) [
  | inl one ↦ absurd (cc (rw one at h))
  | inr more ↦ absurd (append_nonempty _ _ (rw more at h))
]

-- A number is read back from its decimal text.
pub parse_uint-format_uint : (n : ℕ) → n < uint64_size → parse_uint (format_uint n) ≡ some n
parse_uint-format_uint n fits =
    parse_uint-nonempty (format_uint n) n (format_uint-nonempty n)
      (unfold format_uint in digits_round 19 n (omega arith) fits)

-- The decimal text of a number below 2^64 is encoded as a key that is decoded to the same text.
pub decode_inode_id-encode_inode_key :
    (n : ℕ)
    → n < uint64_size
    → (encode_inode_key (format_uint n) >>= decode_inode_id) ≡ ok (format_uint n)
unfolding encode_inode_key decode_inode_id
decode_inode_id-encode_inode_key n fits =
    rw (parse_uint-format_uint n fits, ◌>>=◌)
      (rw (length-big_endian n) (rw (big_endian_from-put_big_endian n fits) refl))

-- The key of an inode has 8 bytes.
pub encode_inode_key-length :
    (inode_id key : Bytes) → encode_inode_key inode_id ≡ ok key → length key ≡ 8
unfolding encode_inode_key
encode_inode_key-length inode_id key h = elim (Option-cases (parse_uint inode_id)) [
  | inl none_read ↦ absurd (ground arith)
  | inr (n, read) ↦
      let same : put_big_endian 8 n ≡ key = ground arith in rw (← same) (length-big_endian n)
]

append_injective : (p q n m : Bytes) → length p ≡ length q → p ++ n ≡ q ++ m → (p ≡ q) × (n ≡ m)
append_injective [] [] n m h e = (refl, e)
append_injective [] (y ∷ q) n m h e = absurd (omega arith)
append_injective (x ∷ p) [] n m h e = absurd (omega arith)
append_injective (x ∷ p) (y ∷ q) n m h e =
    let (ps, ns) = append_injective p q n m (omega arith) (cc) in (cc, ns)

-- Entries of a directory have different keys, and no key is that of another directory's entry.
pub encode_dentry_key-injective :
    (p q n m : Bytes)
    → length p ≡ 8
    → length q ≡ 8
    → encode_dentry_key p n ≡ encode_dentry_key q m
    → (p ≡ q) × (n ≡ m)
unfolding encode_dentry_key
encode_dentry_key-injective p q n m hp hq e = append_injective p q n m (omega arith) e

-- A scan by a directory's key meets that directory's entries only.
pub has_prefix-append :
    (p q n : Bytes) → length p ≡ length q → (has_prefix p (q ++ n) ≡ true) ↔ (p ≡ q)
unfolding has_prefix
has_prefix-append [] [] n h = ground arith
has_prefix-append [] (y ∷ q) n h = absurd (omega arith)
has_prefix-append (x ∷ p) [] n h = absurd (omega arith)
has_prefix-append (x ∷ p) (y ∷ q) n h = ground (arith, has_prefix-append p q n)

-- What follows the prefix.
pub drop-append : (p n : Bytes) → drop (length p) (p ++ n) ≡ n
unfolding drop
drop-append [] n = refl
drop-append (x ∷ p) n = drop-append p n

-- A key with a prefix is the prefix and what follows it.
pub append-drop : (p key : Bytes) → has_prefix p key ≡ true → p ++ drop (length p) key ≡ key
unfolding has_prefix drop
append-drop [] key h = refl
append-drop (x ∷ p) [] h = absurd (ground arith)
append-drop (x ∷ p) (y ∷ key) h = ground (arith, append-drop p key)

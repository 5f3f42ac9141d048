-- ===== src/Metadata/Bytes.antt =====
-- Go strings and byte slices as lists of bytes: equality, prefixes, and numbers in 8 bytes
-- (`encoding/binary`) or as decimal text (`strconv`).
use sandstore.Base.{
  ℕ, zero, suc, ◌+◌, ◌-◌, ◌*◌, ◌/◌, ◌%◌, ◌<◌, ◌≡◌, ◌↔◌, refl, ◌∙◌, Bool, true, false, ◌&&◌, ◌||◌,
  Option, none, some, List, [], ◌∷◌, ◌++◌, arith, ltb, leb, if◌then◌else◌, Key, ◌==◌, nat_eq,
  length, length-append,
}

abbrev pub Bytes : Type 0
Bytes = List ℕ

abbrev pub same_bytes : Bytes → Bytes → Bool
same_bytes [] [] = true
same_bytes [] (b ∷ bs) = false
same_bytes (a ∷ as') [] = false
same_bytes (a ∷ as') (b ∷ bs) = (a == b) && same_bytes as' bs

pub same_bytes_iff : (a b : Bytes) → (same_bytes a b ≡ true) ↔ (a ≡ b)
same_bytes_iff [] [] = ground arith
same_bytes_iff [] (b ∷ bs) = ground arith
same_bytes_iff (a ∷ as') [] = ground arith
same_bytes_iff (a ∷ as') (b ∷ bs) = ground (arith, same_bytes_iff as' bs)

instance abbrev pub bytes_eq : Key Bytes
bytes_eq = record { test = same_bytes; test_iff = same_bytes_iff }

-- `bytes.HasPrefix(key, prefix)`
unfoldable pub has_prefix : Bytes → Bytes → Bool
has_prefix [] key = true
has_prefix (p ∷ ps) [] = false
has_prefix (p ∷ ps) (k ∷ ks) = (p == k) && has_prefix ps ks

-- A number in so many bytes, the largest first: `binary.BigEndian.PutUint64` at 8.
unfoldable pub put_big_endian : ℕ → ℕ → Bytes
put_big_endian zero n = []
put_big_endian (suc count) n = put_big_endian count (n / 256) ++ (n % 256) ∷ []

unfoldable pub big_endian_from : ℕ → Bytes → ℕ
big_endian_from acc [] = acc
big_endian_from acc (b ∷ bs) = big_endian_from (acc * 256 + b) bs

-- `binary.LittleEndian.PutUint64` at 8.
unfoldable pub put_little_endian : ℕ → ℕ → Bytes
put_little_endian zero n = []
put_little_endian (suc count) n = (n % 256) ∷ put_little_endian count (n / 256)

unfoldable pub little_endian : Bytes → ℕ
little_endian [] = 0
little_endian (b ∷ bs) = b + 256 * little_endian bs

abbrev pub uint64_size : ℕ
uint64_size = 0x1_0000_0000_0000_0000

-- The loop of `strconv.ParseUint(s, 10, 64)`; `none` is its error.
unfoldable pub parse_digits : ℕ → Bytes → Option ℕ
parse_digits acc [] = some acc
parse_digits acc (c ∷ cs) =
    let rest = parse_digits (acc * 10 + (c - 48)) cs in
    if ltb c 48 || ltb 57 c
    then none
    else if leb uint64_size (acc * 10 + (c - 48))
    then none
    else rest

unfoldable pub parse_uint : Bytes → Option ℕ
parse_uint [] = none
parse_uint (c ∷ cs) = parse_digits 0 (c ∷ cs)

-- `strconv.FormatUint(n, 10)`: a `uint64` has at most 20 digits.
unfoldable pub format_digits : ℕ → ℕ → Bytes
format_digits zero n = []
format_digits (suc rounds) n =
    let rest = format_digits rounds (n / 10) in
    if ltb n 10 then (48 + n) ∷ [] else rest ++ (48 + n % 10) ∷ []

unfoldable pub format_uint : ℕ → Bytes
format_uint n = format_digits 20 n

length-put_big_endian : (count n : ℕ) → length (put_big_endian count n) ≡ count
unfolding put_big_endian
length-put_big_endian zero n = refl
length-put_big_endian (suc count) n = omega (
  arith,
  length-append (put_big_endian count (n / 256)) ((n % 256) ∷ []),
  length-put_big_endian count (n / 256),
)

-- An inode's key has 8 bytes.
pub length-big_endian : (n : ℕ) → length (put_big_endian 8 n) ≡ 8
length-big_endian n = length-put_big_endian 8 n

big_endian_from-append :
    (acc : ℕ) (xs ys : Bytes)
    → big_endian_from acc (xs ++ ys) ≡ big_endian_from (big_endian_from acc xs) ys
unfolding big_endian_from
big_endian_from-append acc [] ys = refl
big_endian_from-append acc (x ∷ xs) ys = big_endian_from-append (acc * 256 + x) xs ys

-- The number has no more than so many bytes.
abbrev FitsBytes : ℕ → ℕ → Type 0
FitsBytes zero n = n ≡ 0
FitsBytes (suc count) n = FitsBytes count (n / 256)

big_endian_round :
    (count n : ℕ) → FitsBytes count n → big_endian_from 0 (put_big_endian count n) ≡ n
unfolding put_big_endian big_endian_from
big_endian_round zero n h = omega arith
big_endian_round (suc count) n h =
    big_endian_from-append 0 (put_big_endian count (n / 256)) ((n % 256) ∷ [])
    ∙ omega (arith, big_endian_round count (n / 256) h)

uint64_FitsBytes : (n : ℕ) → n < uint64_size → FitsBytes 8 n
uint64_FitsBytes n h = omega arith

pub big_endian_from-put_big_endian :
    (n : ℕ) → n < uint64_size → big_endian_from 0 (put_big_endian 8 n) ≡ n
big_endian_from-put_big_endian n h = big_endian_round 8 n (uint64_FitsBytes n h)

little_endian_round :
    (count n : ℕ) → FitsBytes count n → little_endian (put_little_endian count n) ≡ n
unfolding put_little_endian little_endian
little_endian_round zero n h = omega arith
little_endian_round (suc count) n h = omega (arith, little_endian_round count (n / 256) h)

pub little_endian-put_little_endian :
    (n : ℕ) → n < uint64_size → little_endian (put_little_endian 8 n) ≡ n
little_endian-put_little_endian n h = little_endian_round 8 n (uint64_FitsBytes n h)

pub length-little_endian : (count n : ℕ) → length (put_little_endian count n) ≡ count
unfolding put_little_endian
length-little_endian zero n = refl
length-little_endian (suc count) n = ground (arith, length-little_endian count (n / 256))

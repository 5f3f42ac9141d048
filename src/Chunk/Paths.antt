-- ===== src/Chunk/Paths.antt =====
-- The names of the files of the chunk service, and how `Start` reads them.
use Prim.Native.Char.{Char, code}
use Prim.Native.String.{◌++◌, char_at}
use text.Mathlib.TextLemmas.{nil-append, cons-append, append_assoc}
use sandstore.Base.{
  String, ◌≡◌, ◌↔◌, Bool, true, false, ◌&&◌, Option, none, some, List, [], ◌∷◌, arith, Key, ◌==◌,
  refl, sym, ap, ◌∙◌, Bool-cases, inl, inr, string_eq, nat_eq, str_eq_iff, if◌then◌else◌,
}

pub data File : Type 0 where
  final : String → File
  temp : String → String → File

abbrev pub same_file : File → File → Bool
same_file (final c) (final d) = c == d
same_file (temp c t) (temp d u) = (c == d) && (t == u)
same_file _ _ = false

pub same_file_iff : (a b : File) → (same_file a b ≡ true) ↔ (a ≡ b)
same_file_iff (final c) (final d) = ground (arith, str_eq_iff c d)
same_file_iff (temp c t) (temp d u) = ground (arith, str_eq_iff c d, str_eq_iff t u)
same_file_iff (final c) (temp d u) = ground arith
same_file_iff (temp c t) (final d) = ground arith

instance abbrev pub file_eq : Key File
file_eq = record { test = same_file; test_iff = same_file_iff }

-- The name on disk.
unfoldable pub file_name : File → String
file_name (final chunk_id) = chunk_id
file_name (temp chunk_id txn_id) = chunk_id ++ ("_" ++ (txn_id ++ ".tmp"))

-- `strings.HasSuffix` and `strings.TrimSuffix` with ".tmp".
unfoldable pub trim_tmp : String → Option String
trim_tmp String.[] = none
trim_tmp (String.◌∷◌ c s) = elim (trim_tmp s) [
  | some base ↦ some (String.◌∷◌ c base)
  | none ↦ if String.◌∷◌ c s == ".tmp" then some "" else none
]

abbrev pub is_underscore : Char → Bool
is_underscore c = code c == b'_'

-- A character in front of the first part.
abbrev pub into_first : Char → List String → List String
into_first c [] = String.◌∷◌ c "" ∷ []
into_first c (part ∷ parts) = String.◌∷◌ c part ∷ parts

-- `strings.Split(name, "_")`
unfoldable pub split_underscore : String → List String
split_underscore String.[] = "" ∷ []
split_underscore (String.◌∷◌ c s) =
    let parts = split_underscore s in if is_underscore c then "" ∷ parts else into_first c parts

abbrev pub two_parts : List String → Option (String × String)
two_parts (chunk_id ∷ txn_id ∷ []) = some (chunk_id, txn_id)
two_parts _ = none

-- The chunk and the transaction that `Start` reads from a name, or `none` where it skips the file.
unfoldable pub parse_temp : String → Option (String × String)
parse_temp name = elim (trim_tmp name) [
  | none ↦ none
  | some base ↦ two_parts (split_underscore base)
]

unfoldable pub has_underscore : String → Bool
has_underscore String.[] = false
has_underscore (String.◌∷◌ c s) = if is_underscore c then true else has_underscore s

trim_tmp-alone : trim_tmp ".tmp" ≡ some ""
unfolding trim_tmp
trim_tmp-alone = refl

trim_tmp-append : (s : String) → trim_tmp (s ++ ".tmp") ≡ some s
unfolding trim_tmp
trim_tmp-append String.[] = ap trim_tmp (nil-append ".tmp") ∙ trim_tmp-alone
trim_tmp-append (String.◌∷◌ c s) = rw (cons-append c s ".tmp", trim_tmp, trim_tmp-append s) refl

split_whole : (s : String) → has_underscore s ≡ false → split_underscore s ≡ s ∷ []
unfolding split_underscore has_underscore
split_whole String.[] h = refl
split_whole (String.◌∷◌ c s) h = elim (Bool-cases (is_underscore c)) [
  | inl is ↦ absurd (ground arith)
  | inr other ↦ rw (other, split_underscore, split_whole s (rw (other, has_underscore) at h)) refl
]

split_behind : (t : String) → split_underscore ("_" ++ t) ≡ "" ∷ split_underscore t
unfolding split_underscore
split_behind t =
    ap split_underscore (cons-append (char_at "_" 0) "" t)
    ∙ ap (λ (u : String). split_underscore (String.◌∷◌ (char_at "_" 0) u)) (nil-append t)

split_two :
    (s t : String)
    → has_underscore s ≡ false
    → has_underscore t ≡ false
    → split_underscore (s ++ ("_" ++ t)) ≡ s ∷ t ∷ []
unfolding split_underscore has_underscore
split_two String.[] t h k =
    ap split_underscore (nil-append ("_" ++ t))
    ∙ split_behind t
    ∙ ap (λ (l : List String). "" ∷ l) (split_whole t k)
split_two (String.◌∷◌ c s) t h k = elim (Bool-cases (is_underscore c)) [
  | inl is ↦ absurd (ground arith)
  | inr other ↦
      rw
        (
          cons-append c s ("_" ++ t),
          split_underscore,
          other,
          split_two s t (rw (other, has_underscore) at h) k,
        )
        refl
]

-- The name of a temporary file is read as its parts, where neither holds an underscore.
pub parse_temp-file_name :
    (chunk_id txn_id : String)
    → has_underscore chunk_id ≡ false
    → has_underscore txn_id ≡ false
    → parse_temp (file_name (temp chunk_id txn_id)) ≡ some (chunk_id, txn_id)
unfolding parse_temp file_name
parse_temp-file_name chunk_id txn_id h k =
    let joined : chunk_id ++ ("_" ++ (txn_id ++ ".tmp")) ≡ (chunk_id ++ ("_" ++ txn_id)) ++ ".tmp" =
      ap (λ (u : String). chunk_id ++ u) (sym (append_assoc "_" txn_id ".tmp"))
      ∙ sym (append_assoc chunk_id ("_" ++ txn_id) ".tmp") in
    rw
      (
        joined,
        parse_temp,
        trim_tmp-append (chunk_id ++ ("_" ++ txn_id)),
        split_two chunk_id txn_id h k,
      )
      refl

-- ===== src/Metadata/Paging.antt =====
-- The pages of a directory listing (`ReadDir` of internal/metadata_service/bolt/bolt_metadata_service.go).
use sandstore.Base.{
  ℕ, zero, suc, ◌+◌, ◌-◌, ◌<◌, ◌≤◌, ◌≡◌, refl, sym, ap, ◌∙◌, Bool, true, false, Option, none, some,
  List, [], ◌∷◌, ◌++◌, arith, if◌then◌else◌, ◌==◌, nat_eq, length, ltb, leb, Bool-cases, inl, inr,
}
use sandstore.Metadata.Bytes.{Bytes}
use sandstore.Metadata.Types.{DirEntry, Result, ok, ◌>>=◌}
use sandstore.Metadata.Bolt.{Bolt}
use sandstore.Metadata.State.{Metadata}
use sandstore.Metadata.Read.{slice, page, all_entries, read_dir}

module _ {ℓ} {A : Type ℓ} where
  -- What is left from a cookie on.
  unfoldable pub after : ℕ → List A → List A
  after zero xs = xs
  after (suc n) [] = []
  after (suc n) (x ∷ xs) = after n xs

  after-nil : (n : ℕ) → after n [] ≡ []
  unfolding after
  after-nil zero = refl
  after-nil (suc n) = refl

  slice-after :
      (start count finish : ℕ) (xs : List A)
      → start + count ≡ finish
      → slice start count xs ++ after finish xs ≡ after start xs
  unfolding slice after
  slice-after start count finish [] e = after-nil finish ∙ sym (after-nil start)
  slice-after zero zero zero (x ∷ xs) e = refl
  slice-after zero zero (suc f) (x ∷ xs) e = absurd (omega arith)
  slice-after zero (suc count) zero (x ∷ xs) e = absurd (omega arith)
  slice-after zero (suc count) (suc f) (x ∷ xs) e =
      ap (λ l. x ∷ l) (slice-after zero count f xs (omega arith))
  slice-after (suc start) count zero (x ∷ xs) e = absurd (omega arith)
  slice-after (suc start) count (suc f) (x ∷ xs) e = slice-after start count f xs (omega arith)

  length-slice : (start count : ℕ) (xs : List A) → length (slice start count xs) ≤ count
  unfolding slice
  length-slice start count [] = omega arith
  length-slice zero zero (x ∷ xs) = omega arith
  length-slice zero (suc count) (x ∷ xs) = let rest = length-slice zero count xs in omega arith
  length-slice (suc start) count (x ∷ xs) = length-slice start count xs

  after-end : (n : ℕ) (xs : List A) → length xs ≤ n → after n xs ≡ []
  unfolding after
  after-end zero [] h = refl
  after-end zero (x ∷ xs) h = absurd (omega arith)
  after-end (suc n) [] h = refl
  after-end (suc n) (x ∷ xs) h = after-end n xs (omega arith)

  -- What a page promises.
  pub record Paged (entries : List A) (cookie max_entries : ℕ) (shown : List A) (next : ℕ)
      (eof : Bool) : Type ℓ where
    pub adjacent : shown ++ after next entries ≡ after cookie entries
    pub bounded : length shown ≤ max_entries
    pub finished : eof ≡ true → after next entries ≡ []
    pub advances : eof ≡ false → (cookie < next) × (next < length entries)

  shown-Paged :
      (entries : List A) (cookie max_entries finish : ℕ)
      → cookie < finish
      → finish ≤ cookie + max_entries
      → Paged entries cookie max_entries
          (slice cookie (finish - cookie) entries)
          finish
          (leb (length entries) finish)
  shown-Paged entries cookie max_entries finish later small = record {
    adjacent = slice-after cookie (finish - cookie) finish entries (omega arith);
    bounded = let fits = length-slice cookie (finish - cookie) entries in omega arith;
    finished = λ h. after-end finish entries (ground arith);
    advances = λ h. (later, ground arith);
  }

  pub page-Paged :
      (entries : List A) (cookie max_entries : ℕ)
      → 0 < max_entries
      → let (shown, next, eof) = page entries cookie max_entries in
        Paged entries cookie max_entries shown next eof
  unfolding page
  page-Paged entries cookie max_entries positive =
      let some_wanted : (max_entries == 0) ≡ false = ground arith in
      elim (Bool-cases (leb (length entries) cookie)) [
        | inl past ↦ rw past (record {
          adjacent = refl;
          bounded = omega arith;
          finished = λ _. after-end cookie entries (ground arith);
          advances = λ h. absurd (ground arith);
        })
        | inr more ↦ elim (Bool-cases (ltb (length entries) (cookie + max_entries))) [
          | inl last ↦
              let at_end : (length entries == length entries)
                  ≡ leb (length entries) (length entries) =
                ground arith in
              rw (more, some_wanted, last, at_end)
                (shown-Paged entries cookie max_entries (length entries) (ground arith)
                  (ground arith))
          | inr full ↦
              let at_end : (cookie + max_entries == length entries)
                  ≡ leb (length entries) (cookie + max_entries) =
                ground arith in
              rw (more, some_wanted, full, at_end)
                (shown-Paged entries cookie max_entries (cookie + max_entries) (omega arith)
                  (omega arith))
        ]
      ]

  append-nil : (xs : List A) → xs ++ [] ≡ xs
  append-nil [] = refl
  append-nil (x ∷ xs) = ap (λ l. x ∷ l) (append-nil xs)

-- A page in front of the rest.
abbrev pub with_page {ℓ} : {A : Type ℓ} → List A → Option (List A) → Option (List A)
with_page shown none = none
with_page shown (some rest) = some (shown ++ rest)

module _ (b : Bolt) where
  -- A client that asks for page after page until one says that the listing ends, and the entries
  -- that it has seen; `none` where it has not come to the end within so many pages.
  unfoldable pub read_pages : ℕ → Bytes → ℕ → ℕ → Metadata b → Result (Option (List DirEntry))
  read_pages zero inode_id cookie max_entries db = ok none
  read_pages (suc fuel) inode_id cookie max_entries db =
      read_dir b inode_id cookie max_entries db >>= λ (shown, next, eof).
      if eof
      then ok (some shown)
      else read_pages fuel inode_id next max_entries db >>= λ rest. ok (with_page shown rest)

  pages-after :
      (fuel : ℕ) (inode_id : Bytes) (cookie max_entries : ℕ) (db : Metadata b)
      (entries : List DirEntry)
      → all_entries b inode_id db ≡ ok entries
      → 0 < max_entries
      → 0 < fuel
      → length entries < cookie + fuel
      → read_pages fuel inode_id cookie max_entries db ≡ ok (some (after cookie entries))
  unfolding read_pages read_dir
  pages-after zero inode_id cookie max_entries db entries listed positive fuelled enough =
      absurd (omega arith)
  pages-after (suc fuel) inode_id cookie max_entries db entries listed positive fuelled enough =
      let p = page-Paged entries cookie max_entries positive in
      let (shown, next, eof) = page entries cookie max_entries in
      elim (Bool-cases eof) [
        | inl done ↦
            rw (listed, ◌>>=◌, done)
              (ap (λ l. ok (some l))
                (sym (append-nil shown)
                  ∙ ap (λ l. shown ++ l) (sym (p.finished done))
                  ∙ p.adjacent))
        | inr more ↦
            let (later, inside) = p.advances more in
            let rest =
              pages-after fuel inode_id next max_entries db entries listed positive (omega arith)
                (omega arith) in
            rw (listed, ◌>>=◌, more, rest) (ap (λ l. ok (some l)) p.adjacent)
      ]

  -- A client that asks for page after page, of any size but 0, from the cookie that the last page
  -- gave, is told that the listing ends after at most one page more than there are entries, and
  -- has then seen the entries of the listing once each and in their order.
  pub read_pages-all_entries :
      (fuel : ℕ) (inode_id : Bytes) (max_entries : ℕ) (db : Metadata b) (entries : List DirEntry)
      → all_entries b inode_id db ≡ ok entries
      → 0 < max_entries
      → length entries < fuel
      → read_pages fuel inode_id 0 max_entries db ≡ ok (some entries)
  unfolding after
  read_pages-all_entries fuel inode_id max_entries db entries listed positive enough =
      pages-after fuel inode_id 0 max_entries db entries listed positive (omega arith) (omega arith)

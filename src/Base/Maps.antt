-- ===== src/Base/Maps.antt =====
-- Go maps as association lists, and the laws of their operations.
use mathlib.Core.Path.{◌≡◌, refl}
use mathlib.Core.Bool.{Bool}
use mathlib.Core.Option.{Option, none, some}
use mathlib.Core.List.{List, [], ◌∷◌}
use native.Mathlib.Omega.{arith}
use sandstore.Base.Tests.{if◌then◌else◌}
use sandstore.Base.Equality.{Key, ◌==◌}

abbrev pub Dict {ℓ κ} : Type ℓ → Type κ → Type (ℓ ⊔ κ)
Dict K V = List (K × V)

module _ {ℓ κ} {K : Type ℓ} {V : Type κ} ⦃e : Key K⦄ where
  -- `v, ok := m[k]`
  unfoldable pub lookup : K → Dict K V → Option V
  lookup key [] = none
  lookup key ((k, value) ∷ rest) = if k == key then some value else lookup key rest

  -- `m[k] = v`
  unfoldable pub insert : K → V → Dict K V → Dict K V
  insert key value [] = (key, value) ∷ []
  insert key value ((k, old) ∷ rest) =
      if k == key then (key, value) ∷ rest else (k, old) ∷ insert key value rest

  -- `delete(m, k)`. Every pair with the key goes; a map has at most one.
  unfoldable pub erase : K → Dict K V → Dict K V
  erase k [] = []
  erase k ((j, w) ∷ m) = let rest = erase k m in if j == k then rest else (j, w) ∷ rest

  -- Deletes the keys that a test selects.
  unfoldable pub erase_where : (K → Bool) → Dict K V → Dict K V
  erase_where p [] = []
  erase_where p ((j, w) ∷ m) = let rest = erase_where p m in if p j then rest else (j, w) ∷ rest

  pub lookup-nil : (k : K) → lookup k [] ≡ none
  unfolding lookup
  lookup-nil k = refl

  pub lookup-insert :
      (k j : K) (v : V) (m : Dict K V)
      → lookup j (insert k v m) ≡ (if k == j then some v else lookup j m)
  unfolding lookup insert
  lookup-insert k j v [] = refl
  lookup-insert k j v ((here, _) ∷ rest) =
      ground (arith, lookup-insert k j v rest, e.test_iff here j, e.test_iff here k, e.test_iff k j)

  pub lookup-erase :
      (k j : K) (m : Dict K V) → lookup j (erase k m) ≡ (if k == j then none else lookup j m)
  unfolding lookup erase
  lookup-erase k j [] = ground arith
  lookup-erase k j ((i, w) ∷ m) =
      ground (arith, e.test_iff k j, e.test_iff i k, e.test_iff i j, lookup-erase k j m)

  pub lookup-erase_where :
      (p : K → Bool) (j : K) (m : Dict K V)
      → lookup j (erase_where p m) ≡ (if p j then none else lookup j m)
  unfolding lookup erase_where
  lookup-erase_where p j [] = ground arith
  lookup-erase_where p j ((i, w) ∷ m) = ground (arith, e.test_iff i j, lookup-erase_where p j m)

  pub ruleset dict_laws = (lookup-nil, lookup-insert, lookup-erase, lookup-erase_where)

  -- No key stands twice, as in a Go map.
  abbrev pub NodupKeys : Dict K V → Type κ
  NodupKeys [] = Unit
  NodupKeys ((k, _) ∷ m) = (lookup k m ≡ none) × NodupKeys m

  pub insert-NodupKeys : (k : K) (v : V) (m : Dict K V) → NodupKeys m → NodupKeys (insert k v m)
  unfolding insert
  insert-NodupKeys k v [] _ = (lookup-nil k, tt)
  insert-NodupKeys k v ((j, w) ∷ m) (fresh, u) =
      ground
        (arith, e.test_iff j k, e.test_iff k j, lookup-insert k j v m, insert-NodupKeys k v m u)

  pub erase_where-NodupKeys :
      (p : K → Bool) (m : Dict K V) → NodupKeys m → NodupKeys (erase_where p m)
  unfolding erase_where
  erase_where-NodupKeys p [] _ = tt
  erase_where-NodupKeys p ((j, w) ∷ m) (fresh, u) =
      ground (arith, lookup-erase_where p j m, erase_where-NodupKeys p m u)

-- ===== src/Base/Equality.antt =====
-- Keys of dictionaries: a Boolean test with its law, and instances for numbers and texts.
use mathlib.Core.Bool.{Bool, true}
use mathlib.Core.Logic.{◌↔◌}
use mathlib.Core.Path.{◌≡◌}
use sandstore.Base.Tests.{nat_beq, nat_beq_iff}
use text.Mathlib.TextEquality.{eq_iff}
use text.Mathlib.Text.{◌==◌ as same_text}
use Prim.Native.String.{String}
use Prim.Native.Nat.{ℕ}

pub str_eq_iff : (a b : String) → (same_text a b ≡ true) ↔ (a ≡ b)
str_eq_iff = eq_iff

pub record Key {ℓ} (K : Type ℓ) : Type ℓ where
  pub test : K → K → Bool
  pub test_iff : (k j : K) → (test k j ≡ true) ↔ (k ≡ j)

instance abbrev pub string_eq : Key String
string_eq = record { test_iff = eq_iff; test = same_text }

instance abbrev pub nat_eq : Key ℕ
nat_eq = record { test_iff = nat_beq_iff; test = nat_beq }

infix 50 ◌==◌
abbrev pub ◌==◌ {ℓ} : {K : Type ℓ} ⦃key : Key K⦄ → K → K → Bool
◌==◌ ⦃key⦄ k j = key.test k j

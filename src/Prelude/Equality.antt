-- ===== src/Prelude/Equality.antt =====
-- Go's `==` on the types that serve as map keys.
use Prim.Native.Nat.{ℕ}
use mathlib.Core.Path.{◌≡◌, refl}
use mathlib.Core.Logic.{◌↔◌}
use mathlib.Core.Bool.{Bool, true}
use text.Mathlib.TextEquality.{eq_iff}
use text.Mathlib.Text.{◌==◌ as text_eq}
use Prim.Native.String.{String}
use concert.Prelude.Tests.{nat_beq, nat_beq_iff}

-- A type that serves as a key: a test that decides its equality.
pub record Key {ℓ} (K : Type ℓ) : Type ℓ where
  pub is_same : (j k : K) → Bool
  pub is_same_iff : (j k : K) → (is_same j k ≡ true) ↔ (j ≡ k)

module _ {ℓ} {K : Type ℓ} ⦃key : Key K⦄ where
  infix 50 ◌==◌
  abbrev pub ◌==◌ : K → K → Bool
  j == k = key.is_same j k

  pub ==_iff : (j k : K) → ((j == k) ≡ true) ↔ (j ≡ k)
  ==_iff = key.is_same_iff

  pub ==_refl : (k : K) → (k == k) ≡ true
  ==_refl k = (==_iff k k).1 refl

instance abbrev pub string_eq : Key String
string_eq = record { is_same = text_eq; is_same_iff = eq_iff }

instance abbrev pub nat_eq : Key ℕ
nat_eq = record { is_same = nat_beq; is_same_iff = nat_beq_iff }

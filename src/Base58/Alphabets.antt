-- ===== src/Base58/Alphabets.antt =====
-- internal/chain/base58/base58.go: the alphabets of Bitcoin and of Ripple.
use concert.Prelude.{
  ℕ, zero, suc, ◌<◌, ◌≡◌, refl, sym, Bool, true, false, ◌&&◌, Option, none, some, [], ◌∷◌, arith,
  nat_beq, ◌⊎◌, inl, inr,
}
use concert.Base58.{Alphabet, symbol, new_alphabet}
use mathlib.Core.Path.{subst}
use concert.Base58.Roundtrip.{IsAlphabet}

abbrev from_some : Option Alphabet → Alphabet
from_some none = record { enc = []; dec = λ c. none }
from_some (some a) = a

abbrev pub bitcoin : Alphabet
bitcoin = from_some (
    new_alphabet (
      49 ∷ 50 ∷ 51 ∷ 52 ∷ 53 ∷ 54 ∷ 55 ∷ 56 ∷ 57 ∷ 65 ∷ 66 ∷ 67 ∷ 68 ∷ 69 ∷ 70 ∷ 71 ∷ 72 ∷ 74 ∷ 75
      ∷ 76 ∷ 77 ∷ 78 ∷ 80 ∷ 81 ∷ 82 ∷ 83 ∷ 84 ∷ 85 ∷ 86 ∷ 87 ∷ 88 ∷ 89 ∷ 90 ∷ 97 ∷ 98 ∷ 99 ∷ 100
      ∷ 101 ∷ 102 ∷ 103 ∷ 104 ∷ 105 ∷ 106 ∷ 107 ∷ 109 ∷ 110 ∷ 111 ∷ 112 ∷ 113 ∷ 114 ∷ 115 ∷ 116
      ∷ 117 ∷ 118 ∷ 119 ∷ 120 ∷ 121 ∷ 122 ∷ []))

abbrev pub ripple : Alphabet
ripple = from_some (
    new_alphabet (
      114 ∷ 112 ∷ 115 ∷ 104 ∷ 110 ∷ 97 ∷ 102 ∷ 51 ∷ 57 ∷ 119 ∷ 66 ∷ 85 ∷ 68 ∷ 78 ∷ 69 ∷ 71 ∷ 72 ∷ 74
      ∷ 75 ∷ 76 ∷ 77 ∷ 52 ∷ 80 ∷ 81 ∷ 82 ∷ 83 ∷ 84 ∷ 55 ∷ 86 ∷ 87 ∷ 88 ∷ 89 ∷ 90 ∷ 50 ∷ 98 ∷ 99
      ∷ 100 ∷ 101 ∷ 67 ∷ 103 ∷ 54 ∷ 53 ∷ 106 ∷ 107 ∷ 109 ∷ 56 ∷ 111 ∷ 70 ∷ 113 ∷ 105 ∷ 49 ∷ 116
      ∷ 117 ∷ 118 ∷ 65 ∷ 120 ∷ 121 ∷ 122 ∷ []))

abbrev finds : Alphabet → ℕ → Bool
finds a d = elim (a.dec (symbol a d)) [ none ↦ false | some e ↦ nat_beq e d ]

abbrev all_below : ℕ → (ℕ → Bool) → Bool
all_below zero test = true
all_below (suc n) test = test n && all_below n test

below : (n : ℕ) (test : ℕ → Bool) (d : ℕ) → all_below n test ≡ true → d < n → test d ≡ true
below zero test d h l = absurd (omega arith)
below (suc n) test d h l = elim (last_or_less d n l) [
  | inl e ↦ subst (λ x. test x ≡ true) (sym e) (both (test n) (all_below n test) h).0
  | inr k ↦ below n test d (both (test n) (all_below n test) h).1 k
]
  where
    both : (s t : Bool) → (s && t) ≡ true → (s ≡ true) × (t ≡ true)
    both s t h = ground arith

    last_or_less : (d n : ℕ) → d < suc n → (d ≡ n) ⊎ (d < n)
    last_or_less d n l = ground arith

found :
    (o : Option ℕ) (d : ℕ) → (elim o [ none ↦ false | some e ↦ nat_beq e d ]) ≡ true → o ≡ some d
found none d h = absurd (cc)
found (some e) d h = ground arith

finds-IsAlphabet : (a : Alphabet) → all_below 58 (finds a) ≡ true → IsAlphabet a
finds-IsAlphabet a h d l = found (a.dec (symbol a d)) d (below 58 (finds a) d h l)

pub bitcoin-IsAlphabet : IsAlphabet bitcoin
unfolding new_alphabet symbol
bitcoin-IsAlphabet = finds-IsAlphabet bitcoin refl

pub ripple-IsAlphabet : IsAlphabet ripple
unfolding new_alphabet symbol
ripple-IsAlphabet = finds-IsAlphabet ripple refl

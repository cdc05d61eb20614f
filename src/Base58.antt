-- ===== src/Base58.antt =====
-- internal/chain/base58/base58.go: base58 with a caller-chosen alphabet. A string or a byte slice is
-- the list of its bytes, an entry -1 of the table `dec` is `none`, and a big.Int is a number.
pub mod Digits
pub mod Lists
pub mod Roundtrip
pub mod Alphabets
mod Tests
use concert.Prelude.{
  ℕ, zero, suc, ◌+◌, ◌*◌, ◌/◌, ◌%◌, Bool, true, false, Option, none, some, List, [], ◌∷◌, ◌++◌, ◌⊎◌,
  inl, inr, nat_beq, if◌then◌else◌, length, get_elem?, replicate,
}

pub record Alphabet : Type 0 where
  pub enc : List ℕ
  pub dec : ℕ → Option ℕ

pub data DecodeError : Type 0 where
  empty_string invalid_character : DecodeError

-- for i := …: a.dec[s[i]] = i
unfoldable pub fill : ℕ → List ℕ → (ℕ → Option ℕ) → ℕ → Option ℕ
fill i [] dec = dec
fill i (c ∷ s) dec = fill (i + 1) s (λ x. if nat_beq c x then some i else dec x)

-- NewAlphabet; `none` is its panic
unfoldable pub new_alphabet : List ℕ → Option Alphabet
unfolding fill
new_alphabet s =
    if nat_beq (length s) 58 then some (record { enc = s; dec = fill 0 s (λ x. none) }) else none

-- a.enc[i]
unfoldable pub symbol : Alphabet → ℕ → ℕ
symbol a i = elim (get_elem? a.enc i) [ none ↦ 0 | some c ↦ c ]

-- How many bytes of the front are `c`.
unfoldable pub leading : ℕ → List ℕ → ℕ
leading c [] = 0
leading c (x ∷ s) = let rest = leading c s in if nat_beq x c then rest + 1 else 0

-- The number of the digits, the first the most significant: SetBytes, and the loop of Decode.
unfoldable pub horner : ℕ → ℕ → List ℕ → ℕ
horner base n [] = n
horner base n (d ∷ ds) = horner base (n * base + d) ds

-- The digits of `n`, the first the least significant; `n` is fuel enough.
unfoldable pub digits : ℕ → ℕ → ℕ → List ℕ
digits base fuel zero = []
digits base zero (suc n) = []
digits base (suc fuel) (suc n) = suc n % base ∷ digits base fuel (suc n / base)

unfoldable pub symbols : Alphabet → List ℕ → List ℕ
symbols a [] = []
symbols a (d ∷ ds) = symbol a d ∷ symbols a ds

unfoldable pub reversed : List ℕ → List ℕ
reversed [] = []
reversed (x ∷ xs) = reversed xs ++ x ∷ []

-- Encode
unfoldable pub encode : Alphabet → List ℕ → List ℕ
unfolding leading horner digits symbols reversed
encode a b =
    let n = horner 256 0 b in
    reversed (symbols a (digits 58 n n) ++ replicate (leading 0 b) (symbol a 0))

-- The loop of Decode over the characters.
unfoldable pub read : Alphabet → ℕ → List ℕ → Option ℕ
read a n [] = some n
read a n (c ∷ s) = elim (a.dec c) [ none ↦ none | some d ↦ read a (n * 58 + d) s ]

-- append(make([]byte, zeros), n.Bytes()...)
unfoldable pub padded : ℕ → Option ℕ → DecodeError ⊎ List ℕ
unfolding digits reversed
padded front none = inl invalid_character
padded front (some n) = inr (replicate front 0 ++ reversed (digits 256 n n))

-- Decode
unfoldable pub decode : Alphabet → List ℕ → DecodeError ⊎ List ℕ
unfolding read padded leading
decode a [] = inl empty_string
decode a (c ∷ s) = padded (leading (symbol a 0) (c ∷ s)) (read a 0 (c ∷ s))

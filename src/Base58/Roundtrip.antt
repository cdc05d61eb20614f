-- ===== src/Base58/Roundtrip.antt =====
-- On internal/chain/base58/base58.go: decoding what was encoded.
use concert.Prelude.{
  ℕ, suc, ◌+◌, ◌*◌, ◌<◌, ◌≡◌, ◌≢◌, refl, sym, ap, ◌∙◌, ◌⊎◌, some, List, [], ◌∷◌, ◌++◌, arith,
  nat_beq, replicate, All, inl, inr,
}
use concert.Base58.{
  Alphabet, DecodeError, symbol, symbols, leading, horner, digits, read, reversed, padded, encode,
  decode,
}
use concert.Base58.Digits.{
  zero_or_not, IsBase-at_58, IsBase-at_256, HasTop, value, horner-reversed, value-digits,
  digits-value, digits-low, digits-HasTop,
}
use concert.Base58.Lists.{
  reversed-reversed, reversed-padding, symbols-append, symbols-reversed, symbols-replicate,
  All-append, All-reversed, All-replicate, HasTop-append, horner-padding, leading-padding,
  leading-reversed,
}

-- The table `dec` finds the digit of every symbol.
abbrev pub IsAlphabet : Alphabet → Type 0
IsAlphabet a = (d : ℕ) → d < 58 → a.dec (symbol a d) ≡ some d

-- The digits that a byte string is written with.
abbrev written : List ℕ → List ℕ
written b = replicate (leading 0 b) 0 ++ reversed (digits 58 (horner 256 0 b) (horner 256 0 b))

encode-written : (a : Alphabet) (b : List ℕ) → encode a b ≡ symbols a (written b)
unfolding encode
encode-written a b =
    let n = horner 256 0 b in
    reversed-padding (leading 0 b) (symbol a 0) (symbols a (digits 58 n n))
    ∙ sym (
        symbols-append a (replicate (leading 0 b) 0) (reversed (digits 58 n n))
        ∙ ap (λ xs. xs ++ symbols a (reversed (digits 58 n n)))
            (symbols-replicate a (leading 0 b) 0)
        ∙ ap (λ xs. replicate (leading 0 b) (symbol a 0) ++ xs)
            (symbols-reversed a (digits 58 n n)))

written-low : (b : List ℕ) → All (λ d. d < 58) (written b)
written-low b =
    let n = horner 256 0 b in
    All-append (λ d. d < 58) (replicate (leading 0 b) 0) (reversed (digits 58 n n))
      (All-replicate (λ d. d < 58) (leading 0 b) 0 (omega arith))
      (All-reversed (λ d. d < 58) (digits 58 n n) (digits-low 58 IsBase-at_58 n n))

read-symbols :
    (a : Alphabet) (n : ℕ) (ds : List ℕ)
    → IsAlphabet a
    → All (λ d. d < 58) ds
    → read a n (symbols a ds) ≡ some (horner 58 n ds)
unfolding read symbols horner
read-symbols a n [] ok h = refl
read-symbols a n (d ∷ ds) ok h = rw (ok d h.0) (read-symbols a (n * 58 + d) ds ok h.1)

same_digit :
    (a : Alphabet) (d e : ℕ) → IsAlphabet a → d < 58 → e < 58 → symbol a d ≡ symbol a e → d ≡ e
same_digit a d e ok hd he h = inside (sym (ok d hd) ∙ ap a.dec h ∙ ok e he)
  where
    inside : some d ≡ some e → d ≡ e
    inside p = cc

same_test :
    (a : Alphabet) (d : ℕ) → IsAlphabet a → d < 58 → nat_beq (symbol a d) (symbol a 0) ≡ nat_beq d 0
same_test a d ok h = by_test (same_digit a d 0 ok h (omega arith)) (λ e. ap (symbol a) e)
  where
    by_test : {x y : ℕ} → (x ≡ y → d ≡ 0) → (d ≡ 0 → x ≡ y) → nat_beq x y ≡ nat_beq d 0
    by_test f g = ground arith

leading-symbols :
    (a : Alphabet) (ds : List ℕ)
    → IsAlphabet a
    → All (λ d. d < 58) ds
    → leading (symbol a 0) (symbols a ds) ≡ leading 0 ds
unfolding leading symbols
leading-symbols a [] ok h = refl
leading-symbols a (d ∷ ds) ok h = rw (same_test a d ok h.0) (rw (leading-symbols a ds ok h.1))

horner-written : (b : List ℕ) → horner 58 0 (written b) ≡ horner 256 0 b
horner-written b =
    let n = horner 256 0 b in
    horner-padding 58 (leading 0 b) (reversed (digits 58 n n))
    ∙ horner-reversed 58 (digits 58 n n)
    ∙ value-digits 58 IsBase-at_58 n n (omega arith)

leading-written : (b : List ℕ) → leading 0 (written b) ≡ leading 0 b
leading-written b =
    let n = horner 256 0 b in
    leading-padding (leading 0 b) (reversed (digits 58 n n))
    ∙ ap (λ x. leading 0 b + x)
        (leading-reversed (digits 58 n n) (digits-HasTop 58 IsBase-at_58 n n (omega arith)))
    ∙ omega arith

-- A byte string is its leading zeros and the bytes of a number.
record Split (b : List ℕ) : Type 0 where
  bytes : List ℕ
  low : All (λ x. x < 256) bytes
  top : HasTop bytes
  parts : replicate (leading 0 b) 0 ++ reversed bytes ≡ b

leading_zero : (x : ℕ) (b : List ℕ) → x ≡ 0 → leading 0 (x ∷ b) ≡ suc (leading 0 b)
unfolding leading
leading_zero x b e = ground arith

leading_other : (x : ℕ) (b : List ℕ) → x ≢ 0 → leading 0 (x ∷ b) ≡ 0
unfolding leading
leading_other x b e = ground arith

Split-zero : (x : ℕ) (b : List ℕ) → x ≡ 0 → Split b → Split (x ∷ b)
Split-zero x b e s = record {
  bytes = s.bytes;
  low = s.low;
  top = s.top;
  parts =
      ap (λ z. replicate z 0 ++ reversed s.bytes) (leading_zero x b e)
      ∙ ap (λ ys. 0 ∷ ys) s.parts
      ∙ ap (λ y. y ∷ b) (sym e);
}

Split-other : (x : ℕ) (b : List ℕ) → x ≢ 0 → All (λ y. y < 256) (x ∷ b) → Split (x ∷ b)
Split-other x b e h = record {
  bytes = reversed (x ∷ b);
  low = All-reversed (λ y. y < 256) (x ∷ b) h;
  top = unfold reversed in HasTop-append (reversed b) x e;
  parts =
      ap (λ z. replicate z 0 ++ reversed (reversed (x ∷ b))) (leading_other x b e)
      ∙ reversed-reversed (x ∷ b);
}

make-Split : (b : List ℕ) → All (λ x. x < 256) b → Split b
make-Split [] h = record { bytes = []; low = tt; top = tt; parts = unfold leading reversed in refl }
make-Split (x ∷ b) h = elim (zero_or_not x) [
  | inl e ↦ Split-zero x b e (make-Split b h.1)
  | inr e ↦ Split-other x b e h
]

abbrev decoded : Alphabet → List ℕ → DecodeError ⊎ List ℕ
decoded a s = padded (leading (symbol a 0) s) (read a 0 s)

padded-Split : (b : List ℕ) → Split b → padded (leading 0 b) (some (horner 256 0 b)) ≡ inr b
unfolding padded
padded-Split b s = ap inr (
    ap (λ x. replicate (leading 0 b) 0 ++ reversed (digits 256 x x)) same_number
    ∙ ap (λ ds. replicate (leading 0 b) 0 ++ reversed ds)
        (digits-value 256 IsBase-at_256 (value 256 s.bytes) s.bytes s.low s.top (omega arith))
    ∙ s.parts)
  where
    same_number : horner 256 0 b ≡ value 256 s.bytes
    same_number =
        ap (horner 256 0) (sym s.parts)
        ∙ horner-padding 256 (leading 0 b) (reversed s.bytes)
        ∙ horner-reversed 256 s.bytes

decoded-encode :
    (a : Alphabet) (b : List ℕ)
    → IsAlphabet a
    → All (λ x. x < 256) b
    → decoded a (encode a b) ≡ inr b
decoded-encode a b ok h =
    ap (decoded a) (encode-written a b)
    ∙ ap (λ z. padded z (read a 0 (symbols a (written b))))
        (leading-symbols a (written b) ok (written-low b) ∙ leading-written b)
    ∙ ap (padded (leading 0 b))
        (read-symbols a 0 (written b) ok (written-low b) ∙ ap some (horner-written b))
    ∙ padded-Split b (make-Split b h)

-- With an alphabet whose table finds every symbol, decoding what `encode` makes of a non-empty byte
-- string gives the string back, leading zero bytes included.
pub decode-encode :
    (a : Alphabet) (b : List ℕ)
    → IsAlphabet a
    → All (λ x. x < 256) b
    → b ≢ []
    → decode a (encode a b) ≡ inr b
decode-encode a b ok h n = by_chars (encode a b) (decoded-encode a b ok h)
  where
    nothing : decoded a [] ≡ inr b → b ≡ []
    nothing e = unfold padded read leading digits reversed in cc

    by_chars : (s : List ℕ) → decoded a s ≡ inr b → decode a s ≡ inr b
    by_chars [] e = absurd (n (nothing e))
    by_chars (c ∷ s) e = unfold decode in e

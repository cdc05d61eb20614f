-- ===== src/Base58/Digits.antt =====
-- On internal/chain/base58/base58.go: numbers and their digits.
use concert.Prelude.{
  ℕ, zero, suc, ◌+◌, ◌*◌, ◌/◌, ◌%◌, ◌<◌, ◌≤◌, ◌≡◌, ◌≢◌, refl, sym, ap, ◌∙◌, List, [], ◌∷◌, ◌++◌,
  arith, All, inl, inr, ◌⊎◌,
}
use mathlib.Core.Path.{subst}
use concert.Base58.{horner, digits, reversed}

-- The arithmetic of a base.
pub record IsBase (base : ℕ) : Type 0 where
  pub split : (n : ℕ) → n / base * base + n % base ≡ n
  pub low : (n : ℕ) → n % base < base
  pub less : (n : ℕ) → n ≢ 0 → n / base < n
  pub low_of : (q d : ℕ) → d < base → (q * base + d) % base ≡ d
  pub high_of : (q d : ℕ) → d < base → (q * base + d) / base ≡ q
  pub grows : (q d : ℕ) → q ≢ 0 → q < q * base + d

pub IsBase-at_58 : IsBase 58
IsBase-at_58 = record {
  split = λ n. omega arith;
  low = λ n. omega arith;
  less = λ n h. ground arith;
  low_of = λ q d h. omega arith;
  high_of = λ q d h. omega arith;
  grows = λ q d h. ground arith;
}

pub IsBase-at_256 : IsBase 256
IsBase-at_256 = record {
  split = λ n. omega arith;
  low = λ n. omega arith;
  less = λ n h. ground arith;
  low_of = λ q d h. omega arith;
  high_of = λ q d h. omega arith;
  grows = λ q d h. ground arith;
}

-- No digit, or the most significant digit, which is the last, is not 0.
abbrev pub HasTop : List ℕ → Type 0
HasTop [] = Unit
HasTop (d ∷ []) = d ≢ 0
HasTop (d ∷ e ∷ ds) = HasTop (e ∷ ds)

HasTop-tail : (d : ℕ) (ds : List ℕ) → HasTop (d ∷ ds) → HasTop ds
HasTop-tail d [] h = tt
HasTop-tail d (e ∷ ds) h = h

abbrev pub value : ℕ → List ℕ → ℕ
value base [] = 0
value base (d ∷ ds) = value base ds * base + d

pub horner-append :
    (base n d : ℕ) (xs : List ℕ) → horner base n (xs ++ d ∷ []) ≡ horner base n xs * base + d
unfolding horner
horner-append base n d [] = refl
horner-append base n d (x ∷ xs) = horner-append base (n * base + x) d xs

pub horner-reversed : (base : ℕ) (ds : List ℕ) → horner base 0 (reversed ds) ≡ value base ds
unfolding reversed horner
horner-reversed base [] = refl
horner-reversed base (d ∷ ds) =
    horner-append base 0 d (reversed ds) ∙ ap (λ x. x * base + d) (horner-reversed base ds)

digits_none : (base fuel n : ℕ) → n ≡ 0 → digits base fuel n ≡ []
unfolding digits
digits_none base fuel zero z = refl
digits_none base fuel (suc n) z = absurd (omega arith)

digits_more :
    (base fuel n : ℕ) → n ≢ 0 → digits base (suc fuel) n ≡ n % base ∷ digits base fuel (n / base)
unfolding digits
digits_more base fuel zero z = absurd (z refl)
digits_more base fuel (suc n) z = refl

pub zero_or_not : (n : ℕ) → (n ≡ 0) ⊎ (n ≢ 0)
zero_or_not zero = inl refl
zero_or_not (suc n) = inr (λ e. omega arith)

module _ (base : ℕ) (ok : IsBase base) where
  pub value-digits : (fuel n : ℕ) → n ≤ fuel → value base (digits base fuel n) ≡ n
  value-digits zero n h = ap (value base) (digits_none base zero n (omega arith)) ∙ omega arith
  value-digits (suc fuel) n h = elim (zero_or_not n) [
    | inl z ↦ ap (value base) (digits_none base (suc fuel) n z) ∙ sym z
    | inr z ↦
        let small = ok.less n z in
        ap (value base) (digits_more base fuel n z)
        ∙ ap (λ x. x * base + n % base) (value-digits fuel (n / base) (omega arith))
        ∙ ok.split n
  ]

  pub value-HasTop : (d : ℕ) (ds : List ℕ) → HasTop (d ∷ ds) → value base (d ∷ ds) ≢ 0
  value-HasTop d [] h = λ e. h (omega arith)
  value-HasTop d (e ∷ ds) h =
      λ z. let more = ok.grows (value base (e ∷ ds)) d (value-HasTop e ds h) in absurd (omega arith)

  pub digits-value :
      (fuel : ℕ) (ds : List ℕ)
      → All (λ d. d < base) ds
      → HasTop ds
      → value base ds ≤ fuel
      → digits base fuel (value base ds) ≡ ds
  digits-value fuel [] b t h = digits_none base fuel 0 refl
  digits-value zero (d ∷ ds) b t h = absurd (value-HasTop d ds t (omega arith))
  digits-value (suc fuel) (d ∷ ds) b t h =
      let top = value-HasTop d ds t in
      let small = ok.less (value base (d ∷ ds)) top in
      let above = ok.high_of (value base ds) d b.0 in
      digits_more base fuel (value base (d ∷ ds)) top
      ∙ ap (λ x. x ∷ digits base fuel (value base (d ∷ ds) / base))
          (ok.low_of (value base ds) d b.0)
      ∙ ap (λ x. d ∷ digits base fuel x) above
      ∙ ap (λ xs. d ∷ xs) (digits-value fuel ds b.1 (HasTop-tail d ds t) (omega arith))

  pub digits-low : (fuel n : ℕ) → All (λ d. d < base) (digits base fuel n)
  digits-low zero zero = unfold digits in tt
  digits-low zero (suc n) = unfold digits in tt
  digits-low (suc fuel) n = elim (zero_or_not n) [
    | inl z ↦ subst (All (λ d. d < base)) (sym (digits_none base (suc fuel) n z)) tt
    | inr z ↦
        subst (All (λ d. d < base)) (sym (digits_more base fuel n z))
          (ok.low n, digits-low fuel (n / base))
  ]

  -- The top digit of a number is not 0.
  pub digits-HasTop : (fuel n : ℕ) → n ≤ fuel → HasTop (digits base fuel n)
  digits-HasTop zero n h = subst HasTop (sym (digits_none base zero n (omega arith))) tt
  digits-HasTop (suc fuel) n h = elim (zero_or_not n) [
    | inl z ↦ subst HasTop (sym (digits_none base (suc fuel) n z)) tt
    | inr z ↦
        let small = ok.less n z in
        subst HasTop (sym (digits_more base fuel n z)) (
          joined (n % base) (digits base fuel (n / base))
            (λ e d0.
              let top =
                sym (ok.split n)
                ∙ ap (λ x. x * base + n % base)
                    (sym (value-digits fuel (n / base) (omega arith)) ∙ ap (value base) e) in
              z (omega (arith, top, d0)))
            (digits-HasTop fuel (n / base) (omega arith)))
  ]
    where
      joined : (d : ℕ) (ds : List ℕ) → (ds ≡ [] → d ≢ 0) → HasTop ds → HasTop (d ∷ ds)
      joined d [] h t = h refl
      joined d (e ∷ ds) h t = t

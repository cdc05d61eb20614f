-- ===== src/Base58/Lists.antt =====
-- On internal/chain/base58/base58.go: reversal, leading zeros and symbols of digit lists.
use concert.Prelude.{
  ℕ, zero, suc, ◌+◌, ◌*◌, ◌≡◌, ◌≢◌, refl, sym, ap, ◌∙◌, List, [], ◌∷◌, ◌++◌, arith, replicate, All,
}
use concert.Base58.{Alphabet, symbol, symbols, leading, horner, reversed}
use concert.Base58.Digits.{HasTop}

append_nil : (xs : List ℕ) → xs ++ [] ≡ xs
append_nil [] = refl
append_nil (x ∷ xs) = ap (λ ys. x ∷ ys) (append_nil xs)

append_assoc : (xs ys zs : List ℕ) → (xs ++ ys) ++ zs ≡ xs ++ (ys ++ zs)
append_assoc [] ys zs = refl
append_assoc (x ∷ xs) ys zs = ap (λ ws. x ∷ ws) (append_assoc xs ys zs)

reversed-append : (xs ys : List ℕ) → reversed (xs ++ ys) ≡ reversed ys ++ reversed xs
unfolding reversed
reversed-append [] ys = sym (append_nil (reversed ys))
reversed-append (x ∷ xs) ys =
    ap (λ zs. zs ++ x ∷ []) (reversed-append xs ys)
    ∙ append_assoc (reversed ys) (reversed xs) (x ∷ [])

pub reversed-reversed : (xs : List ℕ) → reversed (reversed xs) ≡ xs
unfolding reversed
reversed-reversed [] = refl
reversed-reversed (x ∷ xs) =
    reversed-append (reversed xs) (x ∷ []) ∙ ap (λ ys. x ∷ ys) (reversed-reversed xs)

replicate_last : (n c : ℕ) → replicate n c ++ c ∷ [] ≡ c ∷ replicate n c
replicate_last zero c = refl
replicate_last (suc n) c = ap (λ xs. c ∷ xs) (replicate_last n c)

reversed-replicate : (n c : ℕ) → reversed (replicate n c) ≡ replicate n c
unfolding reversed
reversed-replicate zero c = refl
reversed-replicate (suc n) c = ap (λ xs. xs ++ c ∷ []) (reversed-replicate n c) ∙ replicate_last n c

pub reversed-padding :
    (n c : ℕ) (xs : List ℕ) → reversed (xs ++ replicate n c) ≡ replicate n c ++ reversed xs
reversed-padding n c xs =
    reversed-append xs (replicate n c) ∙ ap (λ ys. ys ++ reversed xs) (reversed-replicate n c)

pub symbols-append :
    (a : Alphabet) (xs ys : List ℕ) → symbols a (xs ++ ys) ≡ symbols a xs ++ symbols a ys
unfolding symbols
symbols-append a [] ys = refl
symbols-append a (x ∷ xs) ys = ap (λ zs. symbol a x ∷ zs) (symbols-append a xs ys)

pub symbols-reversed :
    (a : Alphabet) (xs : List ℕ) → symbols a (reversed xs) ≡ reversed (symbols a xs)
unfolding symbols reversed
symbols-reversed a [] = refl
symbols-reversed a (x ∷ xs) =
    symbols-append a (reversed xs) (x ∷ [])
    ∙ ap (λ zs. zs ++ symbol a x ∷ []) (symbols-reversed a xs)

pub symbols-replicate :
    (a : Alphabet) (n d : ℕ) → symbols a (replicate n d) ≡ replicate n (symbol a d)
unfolding symbols
symbols-replicate a zero d = refl
symbols-replicate a (suc n) d = ap (λ xs. symbol a d ∷ xs) (symbols-replicate a n d)

module _ {ℓ} (P : ℕ → Type ℓ) where
  pub All-append : (xs ys : List ℕ) → All P xs → All P ys → All P (xs ++ ys)
  All-append [] ys h k = k
  All-append (x ∷ xs) ys h k = (h.0, All-append xs ys h.1 k)

  pub All-reversed : (xs : List ℕ) → All P xs → All P (reversed xs)
  unfolding reversed
  All-reversed [] h = tt
  All-reversed (x ∷ xs) h = All-append (reversed xs) (x ∷ []) (All-reversed xs h.1) (h.0, tt)

  pub All-replicate : (n x : ℕ) → P x → All P (replicate n x)
  All-replicate zero x h = tt
  All-replicate (suc n) x h = (h, All-replicate n x h)

pub HasTop-append : (xs : List ℕ) (x : ℕ) → x ≢ 0 → HasTop (xs ++ x ∷ [])
HasTop-append [] x h = h
HasTop-append (y ∷ []) x h = h
HasTop-append (y ∷ z ∷ xs) x h = HasTop-append (z ∷ xs) x h

pub horner-padding :
    (base n : ℕ) (ds : List ℕ) → horner base 0 (replicate n 0 ++ ds) ≡ horner base 0 ds
unfolding horner
horner-padding base zero ds = refl
horner-padding base (suc n) ds =
    ap (λ x. horner base x (replicate n 0 ++ ds)) (nothing base) ∙ horner-padding base n ds
  where
    nothing : (b : ℕ) → 0 * b + 0 ≡ 0
    nothing b = omega arith

pub leading-padding : (n : ℕ) (ds : List ℕ) → leading 0 (replicate n 0 ++ ds) ≡ n + leading 0 ds
unfolding leading
leading-padding zero ds = omega arith
leading-padding (suc n) ds = omega (arith, leading-padding n ds)

leading-append : (x : ℕ) (xs ys : List ℕ) → leading 0 (x ∷ xs) ≡ 0 → leading 0 ((x ∷ xs) ++ ys) ≡ 0
unfolding leading
leading-append x xs ys h = ground arith

snoc_not_nil : (xs : List ℕ) (x : ℕ) → xs ++ x ∷ [] ≢ []
snoc_not_nil [] x = λ e. cc
snoc_not_nil (y ∷ xs) x = λ e. cc

-- A number is written with no zero in front.
pub leading-reversed : (ds : List ℕ) → HasTop ds → leading 0 (reversed ds) ≡ 0
unfolding reversed
leading-reversed [] t = unfold leading in refl
leading-reversed (d ∷ []) t = unfold leading in ground arith
leading-reversed (d ∷ e ∷ ds) t =
    extended (reversed (e ∷ ds)) (leading-reversed (e ∷ ds) t) (not_nil e ds)
  where
    extended : (xs : List ℕ) → leading 0 xs ≡ 0 → xs ≢ [] → leading 0 (xs ++ d ∷ []) ≡ 0
    extended [] h n = absurd (n refl)
    extended (x ∷ xs) h n = leading-append x xs (d ∷ []) h

    not_nil : (e : ℕ) (ds : List ℕ) → reversed (e ∷ ds) ≢ []
    not_nil e ds = snoc_not_nil (reversed ds) e

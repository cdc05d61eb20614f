-- ===== src/Bytes/Laws.antt =====
-- Laws of byte strings: ranges of a concatenation, and numbers put and read back.
use concert.Prelude.{
  ℕ, zero, suc, ◌+◌, ◌*◌, ◌/◌, ◌%◌, ◌^◌, ◌<◌, ◌≡◌, refl, ap, sym, ◌∙◌, List, [], ◌∷◌, ◌++◌, arith,
  length, take, drop, length-append,
}
use concert.Bytes.{IsBytes, put_be, get_be}

module _ {ℓ} {A : Type ℓ} where
  pub take-append : (xs ys : List A) → take (length xs) (xs ++ ys) ≡ xs
  take-append [] ys = refl
  take-append (x ∷ xs) ys = ap (λ t. x ∷ t) (take-append xs ys)

  pub drop-append : (xs ys : List A) → drop (length xs) (xs ++ ys) ≡ ys
  drop-append [] ys = refl
  drop-append (x ∷ xs) ys = drop-append xs ys

  -- The same at a numeral that is the length.
  pub take-append_at : (n : ℕ) (xs ys : List A) → length xs ≡ n → take n (xs ++ ys) ≡ xs
  take-append_at n xs ys e = ap (λ k. take k (xs ++ ys)) (sym e) ∙ take-append xs ys

  pub drop-append_at : (n : ℕ) (xs ys : List A) → length xs ≡ n → drop n (xs ++ ys) ≡ ys
  drop-append_at n xs ys e = ap (λ k. drop k (xs ++ ys)) (sym e) ∙ drop-append xs ys

  pub take_all : (n : ℕ) (xs : List A) → length xs ≡ n → take n xs ≡ xs
  take_all zero [] e = refl
  take_all zero (x ∷ xs) e = absurd (omega (arith, e))
  take_all (suc n) [] e = refl
  take_all (suc n) (x ∷ xs) e = ap (λ t. x ∷ t) (take_all n xs (omega (arith, e)))

  pub length-take : (n : ℕ) (xs : List A) → n < length xs + 1 → length (take n xs) ≡ n
  length-take zero xs h = refl
  length-take (suc n) [] h = absurd (omega (arith, h))
  length-take (suc n) (x ∷ xs) h = omega (arith, length-take n xs (omega (arith, h)))

  pub take-drop_split : (n : ℕ) (xs : List A) → take n xs ++ drop n xs ≡ xs
  take-drop_split zero xs = refl
  take-drop_split (suc n) [] = refl
  take-drop_split (suc n) (x ∷ xs) = ap (λ t. x ∷ t) (take-drop_split n xs)

pub IsBytes-append : (a b : List ℕ) → IsBytes a → IsBytes b → IsBytes (a ++ b)
IsBytes-append [] b h k = k
IsBytes-append (x ∷ a) b h k = (h.0, IsBytes-append a b h.1 k)

pub IsBytes-take : (n : ℕ) (a : List ℕ) → IsBytes a → IsBytes (take n a)
IsBytes-take zero a h = tt
IsBytes-take (suc n) [] h = tt
IsBytes-take (suc n) (x ∷ a) h = (h.0, IsBytes-take n a h.1)

pub length-put_be : (n x : ℕ) → length (put_be n x) ≡ n
unfolding put_be
length-put_be zero x = refl
length-put_be (suc n) x =
    omega (arith, length-put_be n (x / 256), length-append (put_be n (x / 256)) ((x % 256) ∷ []))

pub put_be-IsBytes : (n x : ℕ) → IsBytes (put_be n x)
unfolding put_be
put_be-IsBytes zero x = tt
put_be-IsBytes (suc n) x =
    IsBytes-append (put_be n (x / 256)) ((x % 256) ∷ []) (put_be-IsBytes n (x / 256))
      (omega arith, tt)

get_be-append : (a : ℕ) (xs ys : List ℕ) → get_be a (xs ++ ys) ≡ get_be (get_be a xs) ys
unfolding get_be
get_be-append a [] ys = refl
get_be-append a (x ∷ xs) ys = get_be-append (a * 256 + x) xs ys

pub get_be-put_be : (n x : ℕ) → x < 256 ^ n → get_be 0 (put_be n x) ≡ x
unfolding get_be put_be
get_be-put_be zero x h = omega (arith, h)
get_be-put_be (suc n) x h =
    get_be-append 0 (put_be n (x / 256)) ((x % 256) ∷ [])
    ∙ ap (λ t. t * 256 + x % 256) (get_be-put_be n (x / 256) (high x h))
    ∙ omega arith
  where
    high : (x : ℕ) → x < 256 ^ suc n → x / 256 < 256 ^ n
    high x h = omega (arith, h)

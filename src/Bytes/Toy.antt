-- ===== src/Bytes/Toy.antt =====
-- A concrete Crypto for runs: the signature is the sum of the bytes, the encoding the bytes themselves.
use concert.Prelude.{
  ℕ, zero, suc, ◌+◌, ◌%◌, ◌<◌, ◌≡◌, refl, ap, some, List, [], ◌∷◌, ◌++◌, length, arith, replicate,
  map, some_injective,
}
use mathlib.Core.Path.{subst}
use concert.Bytes.{IsBytes, Crypto, IsCrypto}

abbrev pub sum : List ℕ → ℕ
sum [] = 0
sum (x ∷ xs) = x + sum xs

abbrev pub toy : Crypto
toy = record {
  mac = λ key message. replicate 32 (sum (key ++ message) % 256);
  encode = λ b. b;
  decode = λ value. some (map (λ x. x % 256) value);
  decoded_len = λ n. n;
}

pub replicate-IsBytes : (n x : ℕ) → x < 256 → IsBytes (replicate n x)
replicate-IsBytes zero x h = tt
replicate-IsBytes (suc n) x h = (h, replicate-IsBytes n x h)

length-replicate : (n x : ℕ) → length (replicate n x) ≡ n
length-replicate zero x = refl
length-replicate (suc n) x = ap suc (length-replicate n x)

map-IsBytes : (b : List ℕ) → IsBytes (map (λ x. x % 256) b)
map-IsBytes [] = tt
map-IsBytes (x ∷ b) = (omega arith, map-IsBytes b)

map-same : (b : List ℕ) → IsBytes b → map (λ x. x % 256) b ≡ b
map-same [] h = refl
map-same (x ∷ b) h = rw (map-same b h.1) (ap (λ y. y ∷ b) (omega (arith, h.0)))

pub toy-IsCrypto : IsCrypto toy
toy-IsCrypto = record {
  mac_length = λ key message. length-replicate 32 (sum (key ++ message) % 256);
  mac_bytes = λ key message. replicate-IsBytes 32 (sum (key ++ message) % 256) (omega arith);
  decode_bytes = decoded;
  decode_encode = λ b h. ap some (map-same b h);
  encoded_len = λ b h. refl;
  decoded_nothing = refl;
}
  where
    decoded : (value b : List ℕ) → some (map (λ x. x % 256) value) ≡ some b → IsBytes b
    decoded value b e = subst IsBytes (some_injective e) (map-IsBytes value)

-- ===== src/Bytes.antt =====
-- Byte strings as pass.go and priority.go lay them out: encoding/binary's big endian numbers, copied
-- ranges, and what both take of crypto/hmac and encoding/base64, which are parameters.
pub mod Laws
pub mod Toy
use concert.Prelude.{
  ℕ, zero, suc, ◌+◌, ◌*◌, ◌/◌, ◌%◌, ◌<◌, ◌≡◌, ◌↔◌, Bool, true, false, ◌&&◌, Option, some, List, [],
  ◌∷◌, ◌++◌, All, arith, nat_beq, Key, length,
}

abbrev pub IsBytes : List ℕ → Type 0
IsBytes b = All (λ x. x < 256) b

unfoldable pub bytes_beq : List ℕ → List ℕ → Bool
bytes_beq [] [] = true
bytes_beq [] (y ∷ ys) = false
bytes_beq (x ∷ xs) [] = false
bytes_beq (x ∷ xs) (y ∷ ys) = nat_beq x y && bytes_beq xs ys

pub bytes_beq_iff : (a b : List ℕ) → (bytes_beq a b ≡ true) ↔ (a ≡ b)
unfolding bytes_beq
bytes_beq_iff [] b = ground arith
bytes_beq_iff (x ∷ xs) [] = ground arith
bytes_beq_iff (x ∷ xs) (y ∷ ys) = ground (arith, bytes_beq_iff xs ys)

instance abbrev pub bytes_eq : Key (List ℕ)
bytes_eq = record { is_same = bytes_beq; is_same_iff = bytes_beq_iff }

-- The last n bytes of a number, most significant first: PutUint64 with n = 8.
unfoldable pub put_be : ℕ → ℕ → List ℕ
put_be zero x = []
put_be (suc n) x = put_be n (x / 256) ++ (x % 256) ∷ []

-- The number that bytes stand for: Uint64 of 8 bytes, with acc = 0.
unfoldable pub get_be : ℕ → List ℕ → ℕ
get_be acc [] = acc
get_be acc (b ∷ bs) = get_be (acc * 256 + b) bs

-- HMAC-SHA256 by key and message, base64.RawURLEncoding, and its DecodedLen.
pub record Crypto : Type 0 where
  pub mac : List ℕ → List ℕ → List ℕ
  pub encode : List ℕ → List ℕ
  pub decode : List ℕ → Option (List ℕ)
  pub decoded_len : ℕ → ℕ

-- What the standard library documents of them.
pub record IsCrypto (c : Crypto) : Type 0 where
  pub mac_length : (key message : List ℕ) → length (c.mac key message) ≡ 32
  pub mac_bytes : (key message : List ℕ) → IsBytes (c.mac key message)
  pub decode_bytes : (value b : List ℕ) → c.decode value ≡ some b → IsBytes b
  pub decode_encode : (b : List ℕ) → IsBytes b → c.decode (c.encode b) ≡ some b
  pub encoded_len : (b : List ℕ) → IsBytes b → c.decoded_len (length (c.encode b)) ≡ length b
  pub decoded_nothing : c.decoded_len 0 ≡ 0

-- ===== src/Base58/Tests.antt =====
-- Byte strings that are encoded and decoded, and the theorem at these runs.
use concert.Prelude.{ℕ, ◌≡◌, ◌≢◌, refl, List, [], ◌∷◌, inr, arith}
use concert.Base58.{encode, decode}
use concert.Base58.Alphabets.{bitcoin, bitcoin-IsAlphabet}
use concert.Base58.Roundtrip.{decode-encode}

abbrev key : List ℕ
key = 0 ∷ 0 ∷ 200 ∷ 17 ∷ []

decode-encode_example : decode bitcoin (encode bitcoin key) ≡ inr key
decode-encode_example =
    decode-encode bitcoin key bitcoin-IsAlphabet
      (omega arith, (omega arith, (omega arith, (omega arith, tt)))) not_empty
  where
    not_empty : key ≢ []
    not_empty = λ e. cc

encoded_key : encode bitcoin (0 ∷ 57 ∷ []) ≡ 49 ∷ 122 ∷ []
unfolding encode concert.Base58.symbol concert.Base58.new_alphabet
encoded_key = refl

-- ===== src/Fastlane/Sessions.antt =====
-- internal/fastlane/service.go: the session tokens "nonce.expiry.mac", issued, renewed and read.
-- Texts are lists of bytes, times nanoseconds since 1970.
use concert.Prelude.{
  ℕ, ◌+◌, ◌*◌, ◌/◌, ◌^◌, ◌<◌, ◌≤◌, ◌≡◌, ◌≢◌, refl, sym, ap, ◌∙◌, Bool, true, false, not, ◌||◌,
  Option, none, some, List, [], ◌∷◌, ◌++◌, ◌==◌, ==_refl, All, nat_beq, nat_beq_iff, if◌then◌else◌,
  length, Bool-cases, inl, inr, arith, none_is_not_some, some_injective,
}
use mathlib.Core.Path.{subst}
use mathlib.Core.List.{append_assoc}
use concert.Int64.{slt}
use concert.Bytes.{bytes_eq, Crypto}
use concert.Fastlane.{second}
use concert.Priority.{split_parts}

-- strconv's ParseInt and FormatInt in base 10, on int64 patterns, and the hash of an id.
pub record Digits : Type 0 where
  pub parse_int : List ℕ → Option ℕ
  pub format_int : ℕ → List ℕ
  pub digest : List ℕ → List ℕ

abbrev pub session_lifetime : ℕ
session_lifetime = 86400 * second

-- "concert/fastlane/v1/"
abbrev pub mac_prefix : List ℕ
mac_prefix =
    b'c' ∷ b'o' ∷ b'n' ∷ b'c' ∷ b'e' ∷ b'r' ∷ b't' ∷ b'/' ∷ b'f' ∷ b'a' ∷ b's' ∷ b't' ∷ b'l' ∷ b'a'
    ∷ b'n' ∷ b'e' ∷ b'/' ∷ b'v' ∷ b'1' ∷ b'/' ∷ []

-- mac
unfoldable pub token_mac : Crypto → List ℕ → List ℕ → List ℕ
token_mac c key text = c.encode (c.mac key (mac_prefix ++ text))

unfoldable pub parse_unix :
    Crypto → List ℕ → ℕ → List ℕ → List ℕ → List ℕ → Option ℕ → Option (List ℕ × ℕ)
unfolding token_mac
parse_unix c key now head expiry mac none = none
parse_unix c key now head expiry mac (some unix) =
    if not (slt (now / second) unix) || slt ((now + session_lifetime + 3600 * second) / second) unix
    then none
    else if not (mac == token_mac c key (head ++ b'.' ∷ expiry))
    then none
    else some (head, unix)

unfoldable pub parse_parts :
    Crypto → Digits → List ℕ → ℕ → List ℕ → List (List ℕ) → Option (List ℕ × ℕ)
unfolding parse_unix
parse_parts c t key now head (expiry ∷ mac ∷ []) =
    if not (nat_beq (length head) 32)
    then none
    else parse_unix c key now head expiry mac (t.parse_int expiry)
parse_parts c t key now head _ = none

-- parseToken: the nonce and the expiry in seconds
unfoldable pub parse_token : Crypto → Digits → List ℕ → ℕ → List ℕ → Option (List ℕ × ℕ)
unfolding parse_parts
parse_token c t key now token =
    let parts = split_parts b'.' token in parse_parts c t key now parts.0 parts.1

-- The session of a token, from what parseToken returns: the hash of "session/" and the nonce.
abbrev pub session_of : Digits → Option (List ℕ × ℕ) → Option (List ℕ)
session_of t none = none
session_of t (some p) =
    some (t.digest ((b's' ∷ b'e' ∷ b's' ∷ b's' ∷ b'i' ∷ b'o' ∷ b'n' ∷ b'/' ∷ []) ++ p.0))

-- The token of a nonce.
unfoldable pub issue_token : Crypto → Digits → List ℕ → ℕ → List ℕ → List ℕ
unfolding token_mac
issue_token c t key now head =
    let body = head ++ b'.' ∷ t.format_int ((now + session_lifetime) / second) in
    body ++ b'.' ∷ token_mac c key body

abbrev pub nonce_of : Option (List ℕ × ℕ) → Option (List ℕ) → Option (List ℕ)
nonce_of none random = random
nonce_of (some p) random = some p.0

abbrev pub issued : Crypto → Digits → List ℕ → ℕ → Option (List ℕ) → Option (List ℕ)
issued c t key now none = none
issued c t key now (some head) = some (issue_token c t key now head)

-- startSession: the token it sets, none where crypto/rand fails
unfoldable pub start_session :
    Crypto → Digits → List ℕ → ℕ → List ℕ → Option (List ℕ) → Option (List ℕ)
unfolding parse_token issue_token
start_session c t key now token random =
    issued c t key now (nonce_of (parse_token c t key now token) random)

-- No byte is a dot.
abbrev pub IsUndotted : List ℕ → Type 0
IsUndotted b = All (λ x. x ≢ b'.') b

-- What the standard library documents of the parts of a token.
pub record IsDigits (c : Crypto) (t : Digits) : Type 0 where
  pub encode_undotted : (b : List ℕ) → IsUndotted (c.encode b)
  pub format_undotted : (n : ℕ) → IsUndotted (t.format_int n)
  pub parse_format : (n : ℕ) → n < 2 ^ 63 → t.parse_int (t.format_int n) ≡ some n

split_parts-dot :
    (a b : List ℕ)
    → IsUndotted a
    → split_parts b'.' (a ++ b'.' ∷ b) ≡ (a, (split_parts b'.' b).0 ∷ (split_parts b'.' b).1)
unfolding split_parts
split_parts-dot [] b h = refl
split_parts-dot (x ∷ a) b h = rw (split_parts-dot a b h.1, plain h.0) refl
  where
    plain : x ≢ b'.' → nat_beq x b'.' ≡ false
    plain n = ground arith

split_parts-undotted : (a : List ℕ) → IsUndotted a → split_parts b'.' a ≡ (a, [])
unfolding split_parts
split_parts-undotted [] h = refl
split_parts-undotted (x ∷ a) h = rw (split_parts-undotted a h.1, plain h.0) refl
  where
    plain : x ≢ b'.' → nat_beq x b'.' ≡ false
    plain n = ground arith

-- The part before the first dot has none.
head-IsUndotted : (a : List ℕ) → IsUndotted (split_parts b'.' a).0
unfolding split_parts
head-IsUndotted [] = tt
head-IsUndotted (x ∷ a) = elim (Bool-cases (nat_beq x b'.')) [
  | inl e ↦ rw e tt
  | inr e ↦ rw e (plain e, head-IsUndotted a)
]
  where
    plain : nat_beq x b'.' ≡ false → x ≢ b'.'
    plain e = ground arith

split_parts-three :
    (a b m : List ℕ)
    → IsUndotted a
    → IsUndotted b
    → IsUndotted m
    → split_parts b'.' ((a ++ b'.' ∷ b) ++ b'.' ∷ m) ≡ (a, b ∷ m ∷ [])
split_parts-three a b m h k l =
    ap (split_parts b'.') (append_assoc a (b'.' ∷ b) (b'.' ∷ m))
    ∙ split_parts-dot a (b ++ b'.' ∷ m) h
    ∙ ap (λ p. (a, p.0 ∷ p.1))
        (split_parts-dot b m k ∙ ap (λ p. (b, p.0 ∷ p.1)) (split_parts-undotted m l))

-- A token with the right signature, read in time.
parse_parts-signed :
    (c : Crypto) (t : Digits) (key : List ℕ) (later : ℕ) (head expiry : List ℕ) (unix : ℕ)
    → length head ≡ 32
    → t.parse_int expiry ≡ some unix
    → slt (later / second) unix ≡ true
    → slt ((later + session_lifetime + 3600 * second) / second) unix ≡ false
    → parse_parts c t key later head (expiry ∷ token_mac c key (head ++ b'.' ∷ expiry) ∷ [])
      ≡ some (head, unix)
unfolding parse_parts parse_unix
parse_parts-signed c t key later head expiry unix n e runs near =
    rw (n, e, runs, near, ==_refl (token_mac c key (head ++ b'.' ∷ expiry))) refl

-- A token that was issued for a nonce of 32 bytes with no dot, at a time below 2^62 nanoseconds, is
-- read as that nonce and its expiry, a day after, until that second; also by a clock up to an hour
-- behind.
pub parse_token-issue_token :
    (c : Crypto) (t : Digits) (key : List ℕ) (now later : ℕ) (head : List ℕ)
    → IsDigits c t
    → IsUndotted head
    → length head ≡ 32
    → now < 2 ^ 62
    → now ≤ later + 3600 * second
    → later / second < (now + session_lifetime) / second
    → parse_token c t key later (issue_token c t key now head)
      ≡ some (head, (now + session_lifetime) / second)
unfolding parse_token issue_token
parse_token-issue_token c t key now later head d u n fits near runs =
    ap (λ p. parse_parts c t key later p.0 p.1)
      (split_parts-three head expiry (token_mac c key (head ++ b'.' ∷ expiry)) u
        (d.format_undotted unix) (undotted (head ++ b'.' ∷ expiry)))
    ∙ parse_parts-signed c t key later head expiry unix n
        (d.parse_format unix (omega (arith, fits))) early far
  where
    unix : ℕ
    unix = (now + session_lifetime) / second

    expiry : List ℕ
    expiry = t.format_int unix

    undotted : (text : List ℕ) → IsUndotted (token_mac c key text)
    undotted text = unfold token_mac in d.encode_undotted (c.mac key (mac_prefix ++ text))

    early : slt (later / second) ((now + session_lifetime) / second) ≡ true
    early = unfold slt in ground arith

    far :
        slt
          ((later + session_lifetime + 3600 * second) / second)
          ((now + session_lifetime) / second)
        ≡ false
    far = unfold slt in ground arith

parse_unix-head :
    (c : Crypto) (key : List ℕ) (now : ℕ) (head expiry mac : List ℕ) (o : Option ℕ) (p : List ℕ × ℕ)
    → parse_unix c key now head expiry mac o ≡ some p
    → p.0 ≡ head
unfolding parse_unix
parse_unix-head c key now head expiry mac none p e = absurd (none_is_not_some e)
parse_unix-head c key now head expiry mac (some unix) p e =
    by_tests
      (not (slt (now / second) unix)
        || slt ((now + session_lifetime + 3600 * second) / second) unix)
      (not (mac == token_mac c key (head ++ b'.' ∷ expiry))) e
  where
    by_tests :
        (a b : Bool)
        → (if a then none else if b then none else some (head, unix)) ≡ some p
        → p.0 ≡ head
    by_tests true b f = absurd (none_is_not_some f)
    by_tests false true f = absurd (none_is_not_some f)
    by_tests false false f = sym (ap (λ q. q.0) (some_injective f))

parse_parts-head :
    (c : Crypto) (t : Digits) (key : List ℕ) (now : ℕ) (head : List ℕ) (parts : List (List ℕ))
    (p : List ℕ × ℕ)
    → parse_parts c t key now head parts ≡ some p
    → (p.0 ≡ head) × (length head ≡ 32)
unfolding parse_parts
parse_parts-head c t key now head [] p e = absurd (none_is_not_some e)
parse_parts-head c t key now head (x ∷ []) p e = absurd (none_is_not_some e)
parse_parts-head c t key now head (x ∷ y ∷ z ∷ zs) p e = absurd (none_is_not_some e)
parse_parts-head c t key now head (x ∷ y ∷ []) p e = by_length (nat_beq (length head) 32) refl e
  where
    by_length :
        (b : Bool)
        → nat_beq (length head) 32 ≡ b
        → (if not b then none else parse_unix c key now head x y (t.parse_int x)) ≡ some p
        → (p.0 ≡ head) × (length head ≡ 32)
    by_length true n f =
        (parse_unix-head c key now head x y (t.parse_int x) p f, (nat_beq_iff (length head) 32).0 n)
    by_length false n f = absurd (none_is_not_some f)

-- A visitor whose token is still read at a time below 2^62 nanoseconds, and who starts a session
-- again, gets a token of the same nonce, and so the same session: it is read as that nonce until a
-- day after, whatever random nonce was at hand.
pub start_session-renewed :
    (c : Crypto) (t : Digits) (key : List ℕ) (now later : ℕ) (token : List ℕ)
    (random : Option (List ℕ)) (p : List ℕ × ℕ)
    → IsDigits c t
    → parse_token c t key now token ≡ some p
    → now < 2 ^ 62
    → now ≤ later + 3600 * second
    → later / second < (now + session_lifetime) / second
    → (renewed : List ℕ) × ((start_session c t key now token random ≡ some renewed)
        × (parse_token c t key later renewed ≡ some (p.0, (now + session_lifetime) / second)))
unfolding start_session
start_session-renewed c t key now later token random p d e fits near runs = (
  issue_token c t key now p.0,
  (
    ap (λ o. issued c t key now (nonce_of o random)) e,
    parse_token-issue_token c t key now later p.0 d undotted own.1 fits near runs,
  ),
)
  where
    read : (p.0 ≡ (split_parts b'.' token).0) × (length (split_parts b'.' token).0 ≡ 32)
    read =
        unfold parse_token in
        parse_parts-head c t key now (split_parts b'.' token).0 (split_parts b'.' token).1 p e

    own : IsUndotted p.0 × (length p.0 ≡ 32)
    own = (subst IsUndotted (sym read.0) (head-IsUndotted token), ap length read.0 ∙ read.1)

    undotted : IsUndotted p.0
    undotted = own.0

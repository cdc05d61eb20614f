-- ===== src/Passes.antt =====
-- pass.go: the admitter, which issues and verifies the signed concert_admit cookie; const.go: its
-- layout. A time is a number of nanoseconds since 1970, a cookie's value the list of its bytes. The
-- random id of a new pass is an argument, with none where crypto/rand fails.
pub mod Roundtrip
pub mod Soundness
pub mod Store
pub mod Guard
pub mod Streams
mod Tests
use concert.Prelude.{
  ℕ, ◌+◌, ◌-◌, ◌*◌, ◌/◌, ◌%◌, ◌^◌, Bool, true, false, not, ◌&&◌, Option, none, some, List, [], ◌∷◌,
  ◌++◌, String, ◌==◌, ltb, leb, nat_beq, if◌then◌else◌, length, take, drop, replicate,
}
use concert.Bytes.{bytes_beq, bytes_eq, put_be, get_be, Crypto}

abbrev pub second : ℕ
second = 1000000000

abbrev pub pass_id_len : ℕ
pass_id_len = 16

abbrev pub pass_exp_off : ℕ
pass_exp_off = 16

abbrev pub pass_kid_off : ℕ
pass_kid_off = 24

abbrev pub pass_kid_len : ℕ
pass_kid_len = 4

abbrev pub pass_body_len : ℕ
pass_body_len = 28

abbrev pub pass_mac_len : ℕ
pass_mac_len = 16

abbrev pub pass_raw_len : ℕ
pass_raw_len = 44

pub data PassStatus : Type 0 where
  pass_missing : PassStatus
  pass_valid : PassStatus
  pass_expired : PassStatus
  pass_stale : PassStatus
  pass_forged : PassStatus

abbrev pub is_pass_valid : PassStatus → Bool
is_pass_valid pass_valid = true
is_pass_valid _ = false

abbrev pub is_pass_forged : PassStatus → Bool
is_pass_forged pass_forged = true
is_pass_forged _ = false

-- admitOpts
pub record AdmitOpts : Type 0 where
  pub ttl : ℕ
  pub path : String
  pub domain : String
  pub is_secure : Bool

pub record Admitter : Type 0 where
  pub secret : List ℕ
  pub kid : List ℕ
  pub opts : AdmitOpts

-- "concert/admit/key-id"
abbrev pub key_id_message : List ℕ
key_id_message =
    b'c' ∷ b'o' ∷ b'n' ∷ b'c' ∷ b'e' ∷ b'r' ∷ b't' ∷ b'/' ∷ b'a' ∷ b'd' ∷ b'm' ∷ b'i' ∷ b't' ∷ b'/'
    ∷ b'k' ∷ b'e' ∷ b'y' ∷ b'-' ∷ b'i' ∷ b'd' ∷ []

abbrev pub configure : Admitter → AdmitOpts → Admitter
configure a opts = record a { opts = opts }

abbrev pub new_admitter : Crypto → List ℕ → AdmitOpts → Admitter
new_admitter c secret opts = record {
  secret = secret;
  kid = take pass_kid_len (c.mac secret key_id_message);
  opts = opts;
}

-- What verify returns: the id, the expiry in seconds (none: the zero time), and the status.
pub record Verdict : Type 0 where
  pub id : List ℕ
  pub exp : Option ℕ
  pub status : PassStatus

abbrev pub zero_id : List ℕ
zero_id = replicate 16 0

abbrev pub refused : PassStatus → Verdict
refused status = record { id = zero_id; exp = none; status = status }

-- now.Before(time.Unix(int64(exp), 0)): the seconds of a time.Time count from the year 1, in an
-- int64 that wraps around; the bias makes the signed order that of ℕ.
abbrev pub biased : ℕ → ℕ
biased s = (s + 62135596800 + 9223372036854775808) % 18446744073709551616

unfoldable pub before : ℕ → ℕ → Bool
before now exp = ltb (biased (now / second)) (biased exp)

-- The first 28 bytes of a pass, and the signature on them.
abbrev pub pass_body : Admitter → List ℕ → ℕ → List ℕ
pass_body a id now = id ++ put_be 8 ((now + a.opts.ttl) / second) ++ a.kid

abbrev pub pass_mac : Crypto → Admitter → List ℕ → List ℕ
pass_mac c a body = take pass_mac_len (c.mac a.secret body)

unfoldable pub mint : Crypto → Admitter → List ℕ → ℕ → List ℕ
mint c a id now = c.encode (pass_body a id now ++ pass_mac c a (pass_body a id now))

-- verify once the value is decoded.
unfoldable pub verify_raw : Crypto → Admitter → ℕ → List ℕ → Verdict
unfolding before
verify_raw c a now buf =
    let body = take pass_body_len buf in
    let exp = get_be 0 (take 8 (drop pass_exp_off buf)) in
    if not (drop pass_kid_off body == a.kid)
    then refused pass_stale
    else if not (drop pass_body_len buf == pass_mac c a body)
    then refused pass_forged
    else if not (before now exp)
    then refused pass_expired
    else record { id = take pass_id_len buf; exp = some exp; status = pass_valid }

unfoldable pub verify_decoded : Crypto → Admitter → ℕ → Option (List ℕ) → Verdict
unfolding verify_raw
verify_decoded c a now none = refused pass_forged
verify_decoded c a now (some buf) =
    if nat_beq (length buf) pass_raw_len then verify_raw c a now buf else refused pass_forged

unfoldable pub verify : Crypto → Admitter → List ℕ → ℕ → Verdict
unfolding verify_decoded
verify c a [] now = refused pass_missing
verify c a (x ∷ xs) now =
    if not (nat_beq (c.decoded_len (length (x ∷ xs))) pass_raw_len)
    then refused pass_forged
    else verify_decoded c a now (c.decode (x ∷ xs))

-- The Set-Cookie of a pass; max_age in seconds.
pub record Cookie : Type 0 where
  pub value : List ℕ
  pub path : String
  pub domain : String
  pub max_age : ℕ
  pub is_secure : Bool

unfoldable pub set : Crypto → Admitter → List ℕ → ℕ → Cookie
unfolding mint
set c a id now = record {
  value = mint c a id now;
  path = a.opts.path;
  domain = a.opts.domain;
  max_age = a.opts.ttl / second;
  is_secure = a.opts.is_secure;
}

-- exp.Sub(now) <= ttl/2, for the expiry of a valid pass
abbrev pub is_past_half : Admitter → ℕ → Option ℕ → Bool
is_past_half a now none = false
is_past_half a now (some exp) = leb (exp * second - now) (a.opts.ttl / 2)

-- What refresh and check return, and the cookie that they set.
abbrev pub Answer : Type 0
Answer = List ℕ × PassStatus × Option Cookie

unfoldable pub renewed : Crypto → Admitter → ℕ → PassStatus → Option (List ℕ) → Answer
unfolding set
renewed c a now status none = (zero_id, status, none)
renewed c a now status (some id) = (id, status, some (set c a id now))

unfoldable pub slid : Crypto → Admitter → ℕ → Verdict → Answer
unfolding set
slid c a now v = (
  v.id,
  v.status,
  if is_pass_valid v.status && is_past_half a now v.exp then some (set c a v.id now) else none,
)

-- `cookie` is the request's concert_admit, `random` what newPassID would return.
unfoldable pub refresh : Crypto → Admitter → Option (List ℕ) → Option (List ℕ) → ℕ → Answer
unfolding slid renewed
refresh c a none random now = renewed c a now pass_missing random
refresh c a (some value) random now =
    let v = verify c a value now in
    if is_pass_valid v.status then slid c a now v else renewed c a now v.status random

unfoldable pub check : Crypto → Admitter → Option (List ℕ) → ℕ → Answer
unfolding slid
check c a none now = (zero_id, pass_missing, none)
check c a (some value) now = slid c a now (verify c a value now)

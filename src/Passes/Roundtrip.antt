-- ===== src/Passes/Roundtrip.antt =====
-- On pass.go: what verify makes of a pass that mint made.
use concert.Prelude.{
  ℕ, ◌+◌, ◌*◌, ◌/◌, ◌^◌, ◌<◌, ◌≡◌, ◌≢◌, refl, ap, ◌∙◌, not, some, List, [], ◌∷◌, ◌++◌, ◌==◌, ltb,
  if◌then◌else◌, length, take, drop, ==_iff, inl, inr, Bool-cases, arith, length-append,
}
use mathlib.Core.List.{append_assoc}
use concert.Bytes.{IsBytes, bytes_eq, put_be, get_be, Crypto, IsCrypto}
use concert.Bytes.Laws.{
  take-append_at, drop-append_at, IsBytes-append, IsBytes-take, length-put_be, put_be-IsBytes,
  get_be-put_be, length-take,
}
use concert.Passes.{
  second, Admitter, AdmitOpts, configure, new_admitter, Verdict, refused, pass_valid, pass_stale,
  pass_forged, pass_expired, before, pass_body, pass_mac, mint, verify, verify_decoded, verify_raw,
  key_id_message,
}

-- The layout of a pass.
pub record IsLaid (id exp kid mac : List ℕ) : Type 0 where
  pub id_length : length id ≡ 16
  pub exp_length : length exp ≡ 8
  pub kid_length : length kid ≡ 4
  pub mac_length : length mac ≡ 16

body-length : (id exp kid mac : List ℕ) → IsLaid id exp kid mac → length ((id ++ exp) ++ kid) ≡ 28
body-length id exp kid mac h = omega (
  arith,
  length-append (id ++ exp) kid,
  length-append id exp,
  h.id_length,
  h.exp_length,
  h.kid_length,
)

laid_exp :
    (id exp kid mac : List ℕ)
    → IsLaid id exp kid mac
    → take 8 (drop 16 (((id ++ exp) ++ kid) ++ mac)) ≡ exp
laid_exp id exp kid mac h =
    ap (λ b. take 8 (drop 16 b))
      (append_assoc (id ++ exp) kid mac ∙ append_assoc id exp (kid ++ mac))
    ∙ ap (take 8) (drop-append_at 16 id (exp ++ (kid ++ mac)) h.id_length)
    ∙ take-append_at 8 exp (kid ++ mac) h.exp_length

laid_id :
    (id exp kid mac : List ℕ) → IsLaid id exp kid mac → take 16 (((id ++ exp) ++ kid) ++ mac) ≡ id
laid_id id exp kid mac h =
    ap (take 16) (append_assoc (id ++ exp) kid mac ∙ append_assoc id exp (kid ++ mac))
    ∙ take-append_at 16 id (exp ++ (kid ++ mac)) h.id_length

-- verify on a value of the right layout.
abbrev judged : Crypto → Admitter → ℕ → (id exp kid mac : List ℕ) → Verdict
judged c a now id exp kid mac =
    if not (kid == a.kid)
    then refused pass_stale
    else if not (mac == pass_mac c a ((id ++ exp) ++ kid))
    then refused pass_forged
    else if not (before now (get_be 0 exp))
    then refused pass_expired
    else record { id = id; exp = some (get_be 0 exp); status = pass_valid }

verify_raw-laid :
    (c : Crypto) (a : Admitter) (now : ℕ) (id exp kid mac : List ℕ)
    → IsLaid id exp kid mac
    → verify_raw c a now (((id ++ exp) ++ kid) ++ mac) ≡ judged c a now id exp kid mac
unfolding verify_raw before
verify_raw-laid c a now id exp kid mac h = rw (
  take-append_at 28 ((id ++ exp) ++ kid) mac (body-length id exp kid mac h),
  drop-append_at 28 ((id ++ exp) ++ kid) mac (body-length id exp kid mac h),
  drop-append_at 24 (id ++ exp) kid
      (omega (arith, length-append id exp, h.id_length, h.exp_length)),
  laid_exp id exp kid mac h,
  laid_id id exp kid mac h,
)

-- verify of a value that encodes 44 bytes reads those bytes.
verify-encoded :
    (c : Crypto) (a : Admitter) (now : ℕ) (buf value : List ℕ)
    → IsCrypto c
    → IsBytes buf
    → length buf ≡ 44
    → value ≡ c.encode buf
    → verify c a value now ≡ verify_raw c a now buf
unfolding verify verify_decoded
verify-encoded c a now buf [] h b n e =
    absurd (
      omega
        (arith, n, h.decoded_nothing, h.encoded_len buf b, ap (λ v. c.decoded_len (length v)) e))
verify-encoded c a now buf (x ∷ xs) h b n e = rw (
  ap c.decode e ∙ h.decode_encode buf b,
  ap (λ v. c.decoded_len (length v)) e ∙ h.encoded_len buf b ∙ n,
  n,
)

-- An admitter as newAdmitter makes it.
pub record IsAdmitter (a : Admitter) : Type 0 where
  pub kid_length : length a.kid ≡ 4
  pub kid_bytes : IsBytes a.kid

pub new_admitter-IsAdmitter :
    (c : Crypto) (secret : List ℕ) (o : AdmitOpts)
    → IsCrypto c
    → IsAdmitter (new_admitter c secret o)
new_admitter-IsAdmitter c secret o h = record {
  kid_length =
      length-take 4 (c.mac secret key_id_message)
        (omega (arith, h.mac_length secret key_id_message));
  kid_bytes = IsBytes-take 4 (c.mac secret key_id_message) (h.mac_bytes secret key_id_message);
}

-- A pass id: 16 bytes.
pub record IsPassId (id : List ℕ) : Type 0 where
  pub id_length : length id ≡ 16
  pub id_bytes : IsBytes id

verify-minted :
    (c : Crypto) (a b : Admitter) (id : List ℕ) (now later : ℕ)
    → IsCrypto c
    → IsAdmitter a
    → IsPassId id
    → verify c b (mint c a id now) later
      ≡ judged c b later id
          (put_be 8 ((now + a.opts.ttl) / second))
          a.kid
          (pass_mac c a (pass_body a id now))
unfolding mint
verify-minted c a b id now later h k p =
    verify-encoded c b later (body ++ signature) (c.encode (body ++ signature)) h
      (IsBytes-append body signature
        (IsBytes-append (id ++ exp) a.kid (IsBytes-append id exp p.id_bytes (put_be-IsBytes 8 _))
          k.kid_bytes)
        (IsBytes-take 16 (c.mac a.secret body) (h.mac_bytes a.secret body)))
      (omega (
        arith,
        length-append body signature,
        body-length id exp a.kid signature laid,
        laid.mac_length,
      ))
      refl
    ∙ verify_raw-laid c b later id exp a.kid signature laid
  where
    exp : List ℕ
    exp = put_be 8 ((now + a.opts.ttl) / second)

    body : List ℕ
    body = pass_body a id now

    signature : List ℕ
    signature = pass_mac c a body

    laid : IsLaid id exp a.kid signature
    laid = record {
      id_length = p.id_length;
      exp_length = length-put_be 8 _;
      kid_length = k.kid_length;
      mac_length = length-take 16 (c.mac a.secret body) (omega (arith, h.mac_length a.secret body));
    }

before-exact :
    (now exp : ℕ) → now / second < 2 ^ 62 → exp < 2 ^ 62 → before now exp ≡ ltb now (exp * second)
unfolding before
before-exact now exp h k = elim (Bool-cases (ltb (now / second) exp)) [
  | inl e ↦ ground arith
  | inr e ↦ ground arith
]

judged-own :
    (c : Crypto) (a : Admitter) (later : ℕ) (id exp kid mac : List ℕ)
    → kid ≡ a.kid
    → mac ≡ pass_mac c a ((id ++ exp) ++ kid)
    → judged c a later id exp kid mac ≡ (
        if not (before later (get_be 0 exp))
        then refused pass_expired
        else record { id = id; exp = some (get_be 0 exp); status = pass_valid })
judged-own c a later id exp kid mac e f =
    rw ((==_iff kid a.kid).1 e, (==_iff mac (pass_mac c a ((id ++ exp) ++ kid))).1 f)

-- For an id of 16 bytes, and times below 2^62 seconds: a pass that the admitter made verifies,
-- whatever lifetime and cookie attributes were configured since, as valid with the same id and the
-- expiry now + ttl, cut to seconds, until that moment, and as expired from it on.
pub verify-mint :
    (c : Crypto) (a : Admitter) (o : AdmitOpts) (id : List ℕ) (now later : ℕ)
    → IsCrypto c
    → IsAdmitter a
    → IsPassId id
    → later / second < 2 ^ 62
    → (now + a.opts.ttl) / second < 2 ^ 62
    → verify c (configure a o) (mint c a id now) later ≡ (
        if ltb later ((now + a.opts.ttl) / second * second)
        then record { id = id; exp = some ((now + a.opts.ttl) / second); status = pass_valid }
        else refused pass_expired)
verify-mint c a o id now later h k p small fits =
    verify-minted c a (configure a o) id now later h k p
    ∙ judged-own c (configure a o) later id (put_be 8 ((now + a.opts.ttl) / second)) a.kid _ refl
        refl
    ∙ rw
        (
          get_be-put_be 8 ((now + a.opts.ttl) / second) (omega (arith, fits)),
          before-exact later ((now + a.opts.ttl) / second) small fits,
        )
        (elim (Bool-cases (ltb later ((now + a.opts.ttl) / second * second))) [
          | inl e ↦ rw e refl
          | inr e ↦ rw e refl
        ])

-- A pass that an admitter with another key id made, for an id of 16 bytes, is stale at every time:
-- neither valid nor forged.
pub verify-mint_stale :
    (c : Crypto) (a b : Admitter) (id : List ℕ) (now later : ℕ)
    → IsCrypto c
    → IsAdmitter a
    → IsPassId id
    → a.kid ≢ b.kid
    → verify c b (mint c a id now) later ≡ refused pass_stale
verify-mint_stale c a b id now later h k p n = elim (Bool-cases (a.kid == b.kid)) [
  | inl e ↦ absurd (n ((==_iff a.kid b.kid).0 e))
  | inr e ↦ verify-minted c a b id now later h k p ∙ rw e
]

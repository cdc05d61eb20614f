-- ===== src/Passes/Soundness.antt =====
-- On pass.go: what a valid verdict says of the value, and what refresh leaves the visitor with.
use concert.Prelude.{
  ℕ, ◌+◌, ◌*◌, ◌/◌, ◌^◌, ◌<◌, ◌≤◌, ◌≡◌, refl, sym, ap, ◌∙◌, Bool, true, false, not, Option, none,
  some, List, [], ◌∷◌, ◌++◌, ◌==◌, ltb, lt→ltb, nat_beq, nat_beq_iff, if◌then◌else◌, length, take,
  drop, ==_iff, inl, inr, Bool-cases, arith,
}
use concert.Bytes.{bytes_eq, get_be, Crypto, IsCrypto}
use mathlib.Core.Path.{subst}
use concert.Bytes.Laws.{take-drop_split, length-take, IsBytes-take}
use concert.Passes.{
  second, Admitter, Verdict, refused, PassStatus, pass_valid, pass_stale, pass_forged, pass_expired,
  pass_missing, is_pass_valid, before, pass_mac, mint, verify, verify_decoded, verify_raw, Cookie,
  set, slid, renewed, refresh, is_past_half,
}
use concert.Passes.Roundtrip.{IsAdmitter, IsPassId, verify-mint}

-- What an accepted value decodes to: 44 bytes of which the last 16 are the signature of the others.
pub record IsSigned (c : Crypto) (a : Admitter) (value : List ℕ) (v : Verdict) (now : ℕ)
    : Type 0 where
  pub buf : List ℕ
  pub decodes : c.decode value ≡ some buf
  pub raw_length : length buf ≡ 44
  pub signed : buf ≡ take 28 buf ++ pass_mac c a (take 28 buf)
  pub own_key : drop 24 (take 28 buf) ≡ a.kid
  pub names : v.id ≡ take 16 buf
  pub expiry : v.exp ≡ some (get_be 0 (take 8 (drop 16 buf)))
  pub in_time : before now (get_be 0 (take 8 (drop 16 buf))) ≡ true

-- A guard that a valid verdict has passed.
passed :
    (t : Bool) (s : PassStatus) (v : Verdict)
    → is_pass_valid s ≡ false
    → is_pass_valid (if not t then refused s else v).status ≡ true
    → (t ≡ true) × (is_pass_valid v.status ≡ true)
passed true s v h k = (refl, k)
passed false s v h k = absurd (apart k h)
  where
    apart : {b : Bool} → b ≡ true → b ≡ false → ⊥
    apart p q = cc

verify_raw-IsSigned :
    (c : Crypto) (a : Admitter) (now : ℕ) (value buf : List ℕ)
    → c.decode value ≡ some buf
    → length buf ≡ 44
    → is_pass_valid (verify_raw c a now buf).status ≡ true
    → IsSigned c a value (verify_raw c a now buf) now
unfolding verify_raw
verify_raw-IsSigned c a now value buf d n h =
    let own = passed (drop 24 (take 28 buf) == a.kid) pass_stale _ refl h in
    let signed = passed (drop 28 buf == pass_mac c a (take 28 buf)) pass_forged _ refl own.1 in
    let in_time =
      passed (before now (get_be 0 (take 8 (drop 16 buf)))) pass_expired _ refl signed.1 in
    rw (own.0, signed.0, in_time.0)
      (record {
        buf = buf;
        decodes = d;
        raw_length = n;
        signed =
            sym (take-drop_split 28 buf)
            ∙ ap (λ m. take 28 buf ++ m)
                ((==_iff (drop 28 buf) (pass_mac c a (take 28 buf))).0 signed.0);
        own_key = (==_iff (drop 24 (take 28 buf)) a.kid).0 own.0;
        names = refl;
        expiry = refl;
        in_time = in_time.0;
      })

verify_decoded-IsSigned :
    (c : Crypto) (a : Admitter) (now : ℕ) (value : List ℕ) (o : Option (List ℕ))
    → c.decode value ≡ o
    → is_pass_valid (verify_decoded c a now o).status ≡ true
    → IsSigned c a value (verify_decoded c a now o) now
unfolding verify_decoded
verify_decoded-IsSigned c a now value none d h = absurd (unaccepted h)
  where
    unaccepted : false ≡ true → ⊥
    unaccepted p = cc
verify_decoded-IsSigned c a now value (some buf) d h =
    let sized = fits (nat_beq (length buf) 44) (verify_raw c a now buf) h in
    rw (sized.0)
      (verify_raw-IsSigned c a now value buf d ((nat_beq_iff (length buf) 44).0 sized.0) sized.1)
  where
    apart : {b : Bool} → b ≡ true → b ≡ false → ⊥
    apart p q = cc

    fits :
        (t : Bool) (v : Verdict)
        → is_pass_valid (if t then v else refused pass_forged).status ≡ true
        → (t ≡ true) × (is_pass_valid v.status ≡ true)
    fits true v k = (refl, k)
    fits false v k = absurd (apart k refl)

-- A value that verifies as valid decodes to 44 bytes of which the last 16 are the admitter's
-- signature of the 28 before them, under its own key id; the id and the expiry of the verdict are
-- read from those 28 bytes, and the expiry is not reached.
pub verify-IsSigned :
    (c : Crypto) (a : Admitter) (value : List ℕ) (now : ℕ)
    → is_pass_valid (verify c a value now).status ≡ true
    → IsSigned c a value (verify c a value now) now
unfolding verify
verify-IsSigned c a [] now h = absurd (unaccepted h)
  where
    unaccepted : false ≡ true → ⊥
    unaccepted p = cc
verify-IsSigned c a (x ∷ xs) now h =
    let sized = passed (nat_beq (c.decoded_len (length (x ∷ xs))) 44) pass_forged _ refl h in
    rw (sized.0) (verify_decoded-IsSigned c a now (x ∷ xs) (c.decode (x ∷ xs)) refl sized.1)

verify-IsPassId :
    (c : Crypto) (a : Admitter) (value : List ℕ) (now : ℕ)
    → IsCrypto c
    → is_pass_valid (verify c a value now).status ≡ true
    → IsPassId (verify c a value now).id
verify-IsPassId c a value now h v =
    let s = verify-IsSigned c a value now v in
    subst IsPassId (sym s.names) (record {
      id_length = length-take 16 s.buf (omega (arith, s.raw_length));
      id_bytes = IsBytes-take 16 s.buf (h.decode_bytes value s.buf s.decodes);
    })

-- The value that the visitor sends next.
abbrev pub held : Option (List ℕ) → Option Cookie → List ℕ
held cookie (some set) = set.value
held (some value) none = value
held none none = []

-- The value verifies as valid, with this id.
abbrev pub IsPassOf : Crypto → Admitter → ℕ → List ℕ → List ℕ → Type 0
IsPassOf c a now id value =
    ((verify c a value now).status ≡ pass_valid) × ((verify c a value now).id ≡ id)

mint-IsPassOf :
    (c : Crypto) (a : Admitter) (id : List ℕ) (now : ℕ)
    → IsCrypto c
    → IsAdmitter a
    → IsPassId id
    → second ≤ a.opts.ttl
    → (now + a.opts.ttl) / second < 2 ^ 62
    → IsPassOf c a now id (mint c a id now)
mint-IsPassOf c a id now h k p lasts fits =
    (ap (λ v. v.status) (accepted ∙ in_time), ap (λ v. v.id) (accepted ∙ in_time))
  where
    exp : ℕ
    exp = (now + a.opts.ttl) / second

    accepted : verify c a (mint c a id now) now ≡ (
        if ltb now (exp * second)
        then record { id = id; exp = some exp; status = pass_valid }
        else refused pass_expired)
    accepted = verify-mint c a a.opts id now now h k p (omega (arith, fits)) fits

    in_time :
        (if ltb now (exp * second)
          then record { id = id; exp = some exp; status = pass_valid }
          else refused pass_expired)
        ≡ record { id = id; exp = some exp; status = pass_valid }
    in_time = rw (lt→ltb now (exp * second) (omega (arith, lasts))) refl

valid_status : (s : PassStatus) → is_pass_valid s ≡ true → s ≡ pass_valid
valid_status pass_valid h = refl
valid_status pass_missing h = cc
valid_status pass_expired h = cc
valid_status pass_stale h = cc
valid_status pass_forged h = cc

-- While crypto/rand works, for a lifetime of a second or more and times below 2^62 seconds:
-- whatever cookie came, the one that the visitor holds after refresh, new or kept, verifies as valid
-- with the id that refresh returns.
pub refresh-IsPassOf :
    (c : Crypto) (a : Admitter) (cookie : Option (List ℕ)) (id : List ℕ) (now : ℕ)
    → IsCrypto c
    → IsAdmitter a
    → IsPassId id
    → second ≤ a.opts.ttl
    → (now + a.opts.ttl) / second < 2 ^ 62
    → let answer = refresh c a cookie (some id) now in
      IsPassOf c a now answer.0 (held cookie answer.2)
unfolding refresh renewed set slid
refresh-IsPassOf c a none id now h k p lasts fits = mint-IsPassOf c a id now h k p lasts fits
refresh-IsPassOf c a (some value) id now h k p lasts fits =
    elim (Bool-cases (is_pass_valid (verify c a value now).status)) [
      | inl v ↦ elim (Bool-cases (is_past_half a now (verify c a value now).exp)) [
        | inl s ↦
            rw (v, s)
              (mint-IsPassOf c a (verify c a value now).id now h k
                (verify-IsPassId c a value now h v) lasts fits)
        | inr s ↦ rw (v, s) (valid_status (verify c a value now).status v, refl)
      ]
      | inr v ↦ rw v (mint-IsPassOf c a id now h k p lasts fits)
    ]

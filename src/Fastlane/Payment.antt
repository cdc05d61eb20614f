-- ===== src/Fastlane/Payment.antt =====
-- internal/fastlane/service.go: payment, cut where it waits for the policy service or the gateway.
-- `admit` is what it does before the first such call, `reserve` and `rescreen` what it does after
-- the first, and `settle` what it does after the gateway's /settle.
use Prim.Native.String.{◌++◌ as join}
use concert.Prelude.{
  ℕ, ◌+◌, ◌*◌, Bool, true, false, not, ◌&&◌, ◌||◌, Option, none, some, List, [], ◌∷◌, String, ◌==◌,
  string_eq, nat_beq, ltb, length, map, if◌then◌else◌,
}
use concert.Ledger.{
  Requirements, Settlement, Receipt, LedgerError, Ledger, Append, write, get, fingerprint_of,
  healthy,
}
use concert.Fastlane.{Resource, Payload, Verification, Offer, Config, second, max_body, prefix}

-- What the handler answers.
pub data Reply (J : Type 0) : Type 0 where
  receipt : Bool → ℕ → Option Settlement → Reply J
  required : List (Requirements J) → Reply J
  failure : ℕ → String → Reply J

-- What the handler does next: answer, have a new authorization verified, or screen a retry.
pub data Next (J : Type 0) : Type 0 where
  answer : Reply J → Next J
  verify : String → Requirements J → Next J
  screen : Receipt J → Requirements J → Next J

-- What the standard library makes of a request: strict base64, the JSON of a payload, its canonical
-- form, the hash, and whether two terms marshal alike.
pub record Codec (J : Type 0) : Type 0 where
  pub base64 : List ℕ → Option (List ℕ)
  pub payload_of : List ℕ → Option (Payload J)
  pub canonical : List ℕ → Option (List ℕ)
  pub fingerprint : String → String → List ℕ → String
  pub is_same : Requirements J → Requirements J → Bool

abbrev pub is_empty {ℓ} : {A : Type ℓ} → List A → Bool
is_empty [] = true
is_empty (x ∷ xs) = false

-- exists && prior.State == "settled"
abbrev pub is_settled : {J : Type 0} → Option (Receipt J) → Bool
is_settled none = false
is_settled (some prior) = prior.state == "settled"

-- exists && prior.Fingerprint == fp
abbrev pub is_same_payment : {J : Type 0} → String → Option (Receipt J) → Bool
is_same_payment fp none = false
is_same_payment fp (some prior) = prior.fingerprint == fp

abbrev pub is_other_resource : String → Option Resource → Bool
is_other_resource origin none = false
is_other_resource origin (some r) = not (r.url == join origin (join prefix "/payment"))

abbrev pub transaction_of : Option Settlement → String
transaction_of none = ""
transaction_of (some s) = s.transaction

module _ {J : Type 0} where
  -- receipt: eligible only if the ledger is healthy and the pass runs
  unfoldable pub receipt_of : Ledger J → Receipt J → ℕ → Reply J
  receipt_of l x now = receipt (healthy l && ltb now x.expires) x.expires x.response

  -- required
  unfoldable pub required_of : List (Offer J) → Reply J
  required_of offers =
      if is_empty offers
      then failure 404 "payments_disabled"
      else required (map (λ o. o.requirements) offers)

  -- The offer that the payload accepts.
  unfoldable pub find_offer : Codec J → Requirements J → List (Offer J) → Option (Requirements J)
  find_offer c accepted [] = none
  find_offer c accepted (o ∷ os) =
      if c.is_same accepted o.requirements then some o.requirements else find_offer c accepted os

  -- The rest once the session's own receipt is known: `prior` is ledger.get(id).
  unfoldable pub admit_unresolved : String → Requirements J → Option (Receipt J) → Next J
  admit_unresolved fp req none = verify fp req
  admit_unresolved fp req (some prior) =
      if not (prior.state == "settled") && not (prior.fingerprint == fp)
      then answer (failure 409 "previous_payment_unresolved_do_not_pay_again")
      else if prior.fingerprint == fp
      then screen prior req
      else verify fp req

  unfoldable pub admit_prior : Ledger J → ℕ → String → Requirements J → Option (Receipt J) → Next J
  unfolding admit_unresolved
  admit_prior l now fp req none = admit_unresolved fp req none
  admit_prior l now fp req (some prior) =
      if (prior.fingerprint == fp) && (prior.state == "settled")
      then answer (receipt_of l prior now)
      else admit_unresolved fp req (some prior)

  -- `used` is ledger.fingerprint(fp)
  unfoldable pub admit_used :
      Ledger J
      → String
      → ℕ
      → String
      → Requirements J
      → Option (Receipt J)
      → Option (Receipt J)
      → Next J
  unfolding admit_prior
  admit_used l id now fp req prior none = admit_prior l now fp req prior
  admit_used l id now fp req prior (some used) =
      if not (used.session == id)
      then answer (failure 409 "payment_already_redeemed")
      else if used.state == "settled"
      then answer (receipt_of l used now)
      else admit_prior l now fp req prior

  unfoldable pub admit_canonical :
      Codec J
      → Ledger J
      → String
      → ℕ
      → Requirements J
      → Option (Receipt J)
      → Option (List ℕ)
      → Next J
  unfolding admit_used
  admit_canonical c l id now req prior none = answer (failure 400 "invalid_payment")
  admit_canonical c l id now req prior (some canonical) =
      let fp = c.fingerprint req.network req.scheme canonical in
      admit_used l id now fp req prior (fingerprint_of l fp)

  unfoldable pub admit_offer :
      Codec J
      → Ledger J
      → String
      → ℕ
      → Payload J
      → Option (Receipt J)
      → Option (Requirements J)
      → Next J
  unfolding admit_canonical
  admit_offer c l id now p prior none = answer (failure 400 "payment_terms_mismatch")
  admit_offer c l id now p prior (some req) =
      admit_canonical c l id now req prior (c.canonical p.payload)

  unfoldable pub admit_payload :
      Codec J → Config J → Ledger J → String → ℕ → Option (Receipt J) → Option (Payload J) → Next J
  unfolding admit_offer
  admit_payload c cfg l id now prior none = answer (failure 400 "invalid_payment_payload")
  admit_payload c cfg l id now prior (some p) =
      if not (nat_beq p.version 2) || is_empty p.payload
      then answer (failure 400 "invalid_payment_payload")
      else if is_other_resource cfg.origin p.resource
      then answer (failure 400 "wrong_resource")
      else admit_offer c l id now p prior (find_offer c p.accepted cfg.offers)

  unfoldable pub admit_decoded :
      Codec J → Config J → Ledger J → String → ℕ → Option (Receipt J) → Option (List ℕ) → Next J
  unfolding admit_payload
  admit_decoded c cfg l id now prior none = answer (failure 400 "invalid_payment_encoding")
  admit_decoded c cfg l id now prior (some b) = admit_payload c cfg l id now prior (c.payload_of b)

  unfoldable pub admit_header :
      Codec J → Config J → Ledger J → String → ℕ → List ℕ → Option (Receipt J) → Next J
  unfolding admit_decoded
  admit_header c cfg l id now header prior =
      if is_empty header
      then answer (required_of cfg.offers)
      else if ltb max_body (length header)
      then answer (failure 413 "payment_header_too_large")
      else admit_decoded c cfg l id now prior (c.base64 header)

  -- A pass that still runs is answered at once.
  unfoldable pub admit_paid :
      Codec J → Config J → Ledger J → String → ℕ → List ℕ → Option (Receipt J) → Next J
  unfolding admit_header
  admit_paid c cfg l id now header none = admit_header c cfg l id now header none
  admit_paid c cfg l id now header (some prior) =
      if (prior.state == "settled") && ltb now prior.expires
      then answer (receipt_of l prior now)
      else admit_header c cfg l id now header (some prior)

  -- payment up to the first call of another service
  unfoldable pub admit : Codec J → Config J → Ledger J → String → ℕ → List ℕ → Next J
  unfolding admit_paid
  admit c cfg l id now header = admit_paid c cfg l id now header (get l id)

  -- The receipt that reserves the payment before it is settled.
  abbrev pub pending : String → String → Requirements J → String → String → ℕ → Receipt J
  pending id fp req who policy now = record {
    session = id;
    fingerprint = fp;
    state = "pending";
    kind = "payment";
    network = req.network;
    payer = who;
    requirements = req;
    transaction = "";
    policy_id = policy;
    started = now;
    settled = 0;
    expires = 0;
    response = none;
  }

  abbrev pub reserved :
      Receipt J → Option LedgerError × Ledger J → Option (Receipt J) × Option (Reply J) × Ledger J
  reserved x (none, l) = (some x, none, l)
  reserved x (some err, l) = (none, some (failure 409 "payment_reservation_failed"), l)

  -- From the answers of /verify and of the policy service on: the receipt to settle, or an answer.
  unfoldable pub reserve :
      Ledger J
      → String
      → String
      → Requirements J
      → Option Verification
      → Option String
      → ℕ
      → Append
      → Option (Receipt J) × Option (Reply J) × Ledger J
  reserve l id fp req none policy now disk =
      (none, some (failure 503 "payment_verification_unavailable"), l)
  reserve l id fp req (some v) none now disk =
      if not v.valid || (v.payer == "")
      then (none, some (failure 402 "payment_not_verified"), l)
      else (none, some (failure 403 "policy_not_approved"), l)
  reserve l id fp req (some v) (some policy) now disk =
      if not v.valid || (v.payer == "")
      then (none, some (failure 402 "payment_not_verified"), l)
      else reserved (pending id fp req v.payer policy now)
          (write l (pending id fp req v.payer policy now) disk)

  -- The test of the gateway's answer to /settle.
  unfoldable pub is_confirmed : Requirements J → Receipt J → Option Settlement → Bool
  is_confirmed req x none = false
  is_confirmed req x (some s) =
      s.success
      && (not (s.transaction == "") && ((s.network == req.network) && (s.payer == x.payer)))

  -- x with State "settled"
  abbrev pub settled_receipt : Config J → Receipt J → Option Settlement → ℕ → Receipt J
  settled_receipt cfg x outcome now = record x {
    state = "settled";
    transaction = transaction_of outcome;
    settled = now;
    expires = now + cfg.pass_seconds * second;
    response = outcome;
  }

  abbrev pub saved : Receipt J → ℕ → Option LedgerError × Ledger J → Reply J × Ledger J
  saved x now (none, l) = (receipt_of l x now, l)
  saved x now (some err, l) = (failure 503 "receipt_not_saved_contact_merchant_do_not_pay_again", l)

  -- From the gateway's answer to /settle on; `now` is the time of settlement, `later` that of the reply.
  unfoldable pub settle :
      Config J
      → Ledger J
      → Receipt J
      → Requirements J
      → Option Settlement
      → ℕ
      → ℕ
      → Append
      → Reply J × Ledger J
  unfolding is_confirmed
  settle cfg l x req outcome now later disk =
      if not (is_confirmed req x outcome)
      then (
        failure 503 "settlement_unresolved_retry_identical_payment_do_not_pay_again",
        (write l (record x { state = "unknown" }) disk).1,
      )
      else saved (settled_receipt cfg x outcome now) later
          (write l (settled_receipt cfg x outcome now) disk)

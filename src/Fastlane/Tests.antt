-- ===== src/Fastlane/Tests.antt =====
-- Two visitors, one payment: the requests of the fast lane at a concrete configuration.
use concert.Prelude.{
  ℕ, ◌≡◌, ◌≤◌, refl, Bool, true, false, ◌&&◌, Option, none, some, List, [], ◌∷◌, String, ◌==◌,
  string_eq, inr, arith, map, replicate, ap, zero, suc, ◌+◌, ◌-◌, ◌*◌, ◌/◌,
}
use concert.Prelude.Table.{lookup}
use concert.Ledger.{
  Requirements, Settlement, Receipt, JournalFile, Ledger, durable, open_ledger, empty_ledger,
}
use concert.Bytes.{Crypto}
use concert.Fastlane.Sessions.{
  Digits, IsDigits, IsUndotted, session_lifetime, issue_token, parse_token, parse_token-issue_token,
  start_session, start_session-renewed,
}
use concert.Fastlane.{second, Payload, Verification, Offer, Config}
use concert.Fastlane.Payment.{Codec, pending}
use concert.Fastlane.Flights.{
  settling, World, quiet, begin, verified, resolved, begins, verifies, settles, Reach, here, next,
}
use concert.Fastlane.Flights.Changes.{Change}
use concert.Fastlane.Limits.Windows.{passed, missing}
use concert.Fastlane.Limits.Laws.{passed-le}
use concert.Fastlane.Leases.{Leases, Wallets, make_challenge}
use concert.Fastlane.Leases.Laws.{
  IsTidy, asks, opened as no_leases, next as then_leases, Reach-IsTidy,
}
use concert.Fastlane.Flights.Offers.{IsOffered}
use concert.Fastlane.Flights.Waiting.{Reach-IsOffered}
use concert.Fastlane.Flights.Safety.{Reach-Change, IsSamePayment, Reach-IsSamePayment}

abbrev price : Requirements ℕ
price = record {
  scheme = "exact";
  network = "base";
  amount = "100";
  asset = "usdc";
  pay_to = "venue";
  max_timeout_seconds = 60;
  extra = [];
}

-- Every header carries one payment.
abbrev codec : Codec ℕ
codec = record {
  base64 = λ header. some header;
  payload_of = λ bytes.
      some (record {
        version = 2;
        resource = none;
        accepted = price;
        payload = bytes;
        extensions = [];
      });
  canonical = λ bytes. some bytes;
  fingerprint = λ network scheme bytes. "f1";
  is_same = λ p q. p.amount == q.amount;
}

abbrev config : Config ℕ
config = record {
  enabled = true;
  origin = "https://venue";
  gateway_url = "";
  policy_url = "";
  test_mode = false;
  pass_seconds = 3600;
  nft_pass_seconds = 600;
  max_records = 10;
  merchant = "venue";
  terms_url = "";
  privacy_url = "";
  refund_url = "";
  offers = record { label = "An hour"; requirements = price } ∷ [];
  collections = [];
}

abbrev blank_file : JournalFile ℕ
blank_file = record { lines = []; has_partial = false }

abbrev opened : Ledger ℕ
opened = empty_ledger 10 blank_file

opened_result : open_ledger (λ r. 400) 10 blank_file ≡ inr opened
unfolding open_ledger
opened_result = refl

abbrev approval : Verification
approval = record { valid = true; payer = "alice"; reason = "" }

-- Alice's browser begins a payment, it is verified and screened, and the gateway's answer is lost.
abbrev begun : World ℕ
begun = (begin codec config (quiet opened) "alice" 5 (7 ∷ [])).1

abbrev reserved : World ℕ
reserved =
    (verified begun "alice" (some approval) (some "policy1") 6 durable
      (lookup "alice" begun.flights)).1

abbrev lost : World ℕ
lost = (resolved config reserved "alice" none 7 7 durable (lookup "alice" reserved.flights)).1

lost-Reach : Reach codec config (quiet opened) lost
lost-Reach =
    next
      (next (next here (begins "alice" 5 (7 ∷ [])))
        (verifies "alice" (some approval) (some "policy1") 6 durable))
      (settles "alice" none 7 7 durable)

abbrev unknown : Receipt ℕ
unknown = record (pending "alice" "f1" price "alice" "policy1" 6) { state = "unknown" }

lost_receipt : lookup "alice" lost.ledger.by_session ≡ some unknown
unfolding lookup resolved verified begin concert.Fastlane.Payment.admit concert.Ledger.get
    concert.Fastlane.Payment.find_offer concert.Ledger.fingerprint_of concert.Prelude.Table.insert
    concert.Fastlane.Payment.reserve concert.Ledger.write concert.Ledger.validate
    concert.Fastlane.Payment.settle concert.Ledger.apply
lost_receipt = refl

-- She tries again.
abbrev again : World ℕ
again = (begin codec config lost "alice" 8 (7 ∷ [])).1

-- Or the gateway answers.
abbrev payment : Settlement
payment = record {
  success = true;
  error_reason = "";
  transaction = "t1";
  network = price.network;
  payer = "alice";
}

abbrev paid : World ℕ
paid =
    (resolved config reserved "alice" (some payment) 7 7 durable
      (lookup "alice" reserved.flights)).1

reserved-Reach : Reach codec config (quiet opened) reserved
reserved-Reach =
    next (next here (begins "alice" 5 (7 ∷ [])))
      (verifies "alice" (some approval) (some "policy1") 6 durable)

Reach-Change_example :
    Change config
      (lookup "alice" reserved.flights)
      (lookup "alice" reserved.ledger.by_session)
      (lookup "alice" paid.ledger.by_session)
Reach-Change_example =
    Reach-Change codec config (λ r. 400) 10 blank_file opened reserved paid "alice" opened_result
      reserved-Reach (settles "alice" (some payment) 7 7 durable)

abbrev reservation : Receipt ℕ
reservation = pending "alice" "f1" price "alice" "policy1" 6

paid_receipt :
    lookup "alice" paid.ledger.by_session
    ≡ some (record reservation {
      state = "settled";
      transaction = "t1";
      settled = 7;
      expires = 7 + 3600 * 1000000000;
      response = some payment;
    })
unfolding lookup resolved verified begin concert.Fastlane.Payment.admit concert.Ledger.get
    concert.Fastlane.Payment.find_offer concert.Ledger.fingerprint_of concert.Prelude.Table.insert
    concert.Fastlane.Payment.reserve concert.Ledger.write concert.Ledger.validate
    concert.Fastlane.Payment.settle concert.Ledger.apply
paid_receipt = refl

reserved_flight : lookup "alice" reserved.flights ≡ some (settling reservation price)
unfolding lookup resolved verified begin concert.Fastlane.Payment.admit concert.Ledger.get
    concert.Fastlane.Payment.find_offer concert.Ledger.fingerprint_of concert.Prelude.Table.insert
    concert.Fastlane.Payment.reserve concert.Ledger.write concert.Ledger.validate
    concert.Fastlane.Payment.settle concert.Ledger.apply
reserved_flight = refl

Reach-IsOffered_example : IsOffered config.offers price
Reach-IsOffered_example =
    Reach-IsOffered codec config opened reserved "alice" (settling reservation price) reserved-Reach
      reserved_flight

Reach-IsSamePayment_run : IsSamePayment "f1" (lookup "alice" again.ledger.by_session)
Reach-IsSamePayment_run =
    Reach-IsSamePayment codec config (λ r. 400) 10 blank_file opened lost again unknown "alice"
      opened_result lost-Reach (begins "alice" 8 (7 ∷ [])) lost_receipt refl

-- Three POSTs, two of one address.
abbrev posts : List (String × ℕ)
posts = ("1.2.3.4", 100) ∷ ("5.6.7.8", 200) ∷ ("1.2.3.4", 300) ∷ []

passed-le_example : (passed "1.2.3.4" posts []).0 ≤ 60
unfolding lookup
passed-le_example =
    passed-le "1.2.3.4" 100 posts [] tt
      ((omega arith, omega arith), ((omega arith, omega arith), ((omega arith, omega arith), tt)))
      (missing refl refl)

abbrev wallets : Wallets
wallets = record {
  len = λ s. 10;
  before = λ s sep. "xrpl";
  is_sol_address = λ s. false;
  has_control = λ s. false;
  message = λ rule address token id the_nonce now expires. "sign";
}

abbrev no_maps : Leases
no_maps = record { challenges = []; nfts = [] }

abbrev asked : Leases
asked =
    (make_challenge wallets
      (record { id = "r1"; label = ""; network = "xrpl:0"; collection = "c1" } ∷ []) no_maps "alice"
      (some (record { rule = "r1"; address = "rAlice"; token = "" })) (some "n1") 5).1

Reach-IsTidy_example : IsTidy asked
Reach-IsTidy_example = Reach-IsTidy asked (
    then_leases no_leases (
      asks wallets (record { id = "r1"; label = ""; network = "xrpl:0"; collection = "c1" } ∷ [])
        "alice" (some (record { rule = "r1"; address = "rAlice"; token = "" })) (some "n1") 5))

-- A printing of bytes and numbers that has no dot.
abbrev dotless : Crypto
dotless = record {
  mac = λ key message. key;
  encode = λ b. map (λ x. x + 100) b;
  decode = λ value. none;
  decoded_len = λ n. n;
}

abbrev read_number : List ℕ → Option ℕ
read_number (x ∷ []) = some (x - 100)
read_number _ = none

abbrev digits : Digits
digits = record { parse_int = read_number; format_int = λ n. (n + 100) ∷ []; digest = λ b. b }

dotless-IsDigits : IsDigits dotless digits
dotless-IsDigits = record {
  encode_undotted = undotted;
  format_undotted = λ n. (λ e. absurd (omega (arith, e)), tt);
  parse_format = λ n h. ap some (omega arith);
}
  where
    undotted : (b : List ℕ) → IsUndotted (map (λ x. x + 100) b)
    undotted [] = tt
    undotted (x ∷ b) = (λ e. absurd (omega (arith, e)), undotted b)

abbrev visitor : List ℕ
visitor = replicate 32 7

visitor-IsUndotted : (n : ℕ) → IsUndotted (replicate n 7)
visitor-IsUndotted zero = tt
visitor-IsUndotted (suc n) = (λ e. absurd (omega (arith, e)), visitor-IsUndotted n)

abbrev noon : ℕ
noon = 43200 * second

abbrev day_token : List ℕ
day_token = issue_token dotless digits (1 ∷ []) noon visitor

day_token_read :
    parse_token dotless digits (1 ∷ []) noon day_token
    ≡ some (visitor, (noon + session_lifetime) / second)
day_token_read =
    parse_token-issue_token dotless digits (1 ∷ []) noon noon visitor dotless-IsDigits
      (visitor-IsUndotted 32) refl (omega arith) (omega arith) (omega arith)

start_session-renewed_example :
    (renewed : List ℕ) × ((start_session dotless digits (1 ∷ []) noon day_token none ≡ some renewed)
      × (parse_token dotless digits (1 ∷ []) (noon + second) renewed
          ≡ some (visitor, (noon + session_lifetime) / second)))
start_session-renewed_example =
    start_session-renewed dotless digits (1 ∷ []) noon (noon + second) day_token none
      (visitor, (noon + session_lifetime) / second) dotless-IsDigits day_token_read (omega arith)
      (omega arith) (omega arith)

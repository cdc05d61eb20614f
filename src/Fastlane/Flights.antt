-- ===== src/Fastlane/Flights.antt =====
-- internal/fastlane/service.go: the payment requests under way. `active` lets one request of a
-- session in; between its waits the requests of other sessions run, so the ledger may change.
pub mod Ownership
pub mod Agreement
pub mod Changes
pub mod Safety
pub mod Offers
pub mod Waiting
use concert.Prelude.{ℕ, Bool, true, false, Option, none, some, List, [], String, string_eq}
use concert.Prelude.Table.{Table, lookup, insert, delete}
use concert.Ledger.{Requirements, Settlement, Receipt, Ledger, Append}
use concert.Fastlane.{Verification, Config}
use concert.Fastlane.Payment.{
  Codec, Reply, failure, Next, answer, verify, screen, admit, reserve, settle,
}

-- Where the request of a session waits.
pub data Flight (J : Type 0) : Type 0 where
  verifying : String → Requirements J → Flight J
  screening : Receipt J → Requirements J → Flight J
  settling : Receipt J → Requirements J → Flight J

-- The ledger, and `active` with what each request waits for.
pub record World (J : Type 0) : Type 0 where
  pub ledger : Ledger J
  pub flights : Table String (Flight J)

module _ {J : Type 0} where
  abbrev pub takes_off : World J → String → Flight J → World J
  takes_off w id f = record w { flights = insert id f w.flights }

  abbrev pub lands : World J → String → Ledger J → World J
  lands w id l = record { ledger = l; flights = delete id w.flights }

  unfoldable pub started : World J → String → Next J → Option (Reply J) × World J
  started w id (answer r) = (some r, w)
  started w id (verify fp req) = (none, takes_off w id (verifying fp req))
  started w id (screen x req) = (none, takes_off w id (screening x req))

  unfoldable pub begin_unless :
      Codec J
      → Config J
      → World J
      → String
      → ℕ
      → List ℕ
      → Option (Flight J)
      → Option (Reply J) × World J
  unfolding started
  begin_unless c cfg w id now header (some f) = (some (failure 409 "request_in_progress"), w)
  begin_unless c cfg w id now header none = started w id (admit c cfg w.ledger id now header)

  -- The `active` test of ServeHTTP, and payment up to its first wait.
  unfoldable pub begin :
      Codec J → Config J → World J → String → ℕ → List ℕ → Option (Reply J) × World J
  unfolding begin_unless
  begin c cfg w id now header = begin_unless c cfg w id now header (lookup id w.flights)

  unfoldable pub reserved_world :
      World J
      → String
      → Requirements J
      → Option (Receipt J) × Option (Reply J) × Ledger J
      → Option (Reply J) × World J
  reserved_world w id req (some x, r, l) =
      (r, takes_off (record w { ledger = l }) id (settling x req))
  reserved_world w id req (none, r, l) = (r, lands w id l)

  -- The answers of /verify and of the policy service to a new payment.
  unfoldable pub verified :
      World J
      → String
      → Option Verification
      → Option String
      → ℕ
      → Append
      → Option (Flight J)
      → Option (Reply J) × World J
  unfolding reserved_world
  verified w id v policy now disk (some (verifying fp req)) =
      reserved_world w id req (reserve w.ledger id fp req v policy now disk)
  verified w id v policy now disk _ = (none, w)

  -- The answer of the policy service to a retry.
  unfoldable pub rescreened :
      World J → String → Option String → Option (Flight J) → Option (Reply J) × World J
  rescreened w id none (some (screening x req)) =
      (some (failure 403 "policy_not_approved"), lands w id w.ledger)
  rescreened w id (some policy) (some (screening x req)) = (none, takes_off w id (settling x req))
  rescreened w id policy _ = (none, w)

  -- The answer of the gateway to /settle.
  unfoldable pub resolved :
      Config J
      → World J
      → String
      → Option Settlement
      → ℕ
      → ℕ
      → Append
      → Option (Flight J)
      → Option (Reply J) × World J
  resolved cfg w id outcome now later disk (some (settling x req)) =
      let done = settle cfg w.ledger x req outcome now later disk in
      (some done.0, lands w id done.1)
  resolved cfg w id outcome now later disk _ = (none, w)

-- What any client, the policy service or the gateway does, at any time.
pub data Step {J : Type 0} (c : Codec J) (cfg : Config J) (w : World J) : World J → Type 0 where
  begins : (id : String) (now : ℕ) (header : List ℕ) → Step c cfg w (begin c cfg w id now header).1
  verifies :
      (id : String) (v : Option Verification) (policy : Option String) (now : ℕ) (disk : Append)
      → Step c cfg w (verified w id v policy now disk (lookup id w.flights)).1
  screens :
      (id : String) (policy : Option String)
      → Step c cfg w (rescreened w id policy (lookup id w.flights)).1
  settles :
      (id : String) (outcome : Option Settlement) (now later : ℕ) (disk : Append)
      → Step c cfg w (resolved cfg w id outcome now later disk (lookup id w.flights)).1

pub data Reach {J : Type 0} (c : Codec J) (cfg : Config J) (w : World J) : World J → Type 0 where
  here : Reach c cfg w w
  next : {u v : World J} → Reach c cfg w u → Step c cfg u v → Reach c cfg w v

abbrev pub quiet : {J : Type 0} → Ledger J → World J
quiet l = record { ledger = l; flights = [] }

-- ===== src/Fastlane/Flights/Safety.antt =====
-- On internal/fastlane: every step of a payment request keeps the invariant.
use concert.Prelude.{
  ℕ, ◌≡◌, refl, sym, ap, ◌∙◌, inl, inr, Bool, true, false, not, Option, none, some, [], String,
  ◌==◌, string_eq, Bool-cases, ◌||◌, ◌≢◌, ==_iff, both,
}
use mathlib.Core.Path.{subst}
use concert.Prelude.Table.{lookup, delete}
use concert.Ledger.{
  Requirements, Settlement, Receipt, LedgerError, JournalFile, Ledger, Append, write, open_ledger,
}
use concert.Fastlane.{Verification, Config}
use concert.Fastlane.Payment.{
  Codec, Reply, failure, reserve, is_confirmed, settle, saved, settled_receipt, is_settled,
}
use concert.Fastlane.Flights.{
  Flight, verifying, screening, settling, World, begin, reserved_world, verified, rescreened,
  resolved, Step, begins, verifies, screens, settles, Reach, here, next, quiet,
}
use concert.Fastlane.Flights.Ownership.{some_same, write-IsOwnSession, open_ledger-IsOwnSession}
use concert.Fastlane.Flights.Agreement.{
  IsSound, write-IsElsewhere, takes_off-IsSound, lands-IsSound,
}
use concert.Fastlane.Flights.Changes.{
  Change, kept, reserves, gives_up, confirms, IsFine, begin_unless-IsFine, write-Change,
  reserve_world-IsFine,
}

module _ {J : Type 0} where
  lands-IsFine :
      (cfg : Config J) (w : World J) (id : String)
      → IsSound w
      → IsFine cfg w (record { ledger = w.ledger; flights = delete id w.flights })
  lands-IsFine cfg w id v = (lands-IsSound w w.ledger id v v.own (λ j n. refl), λ j. kept refl)

  verified-IsFine :
      (cfg : Config J) (w : World J) (id : String) (v : Option Verification)
      (policy : Option String) (now : ℕ) (disk : Append) (o : Option (Flight J))
      → lookup id w.flights ≡ o
      → IsSound w
      → IsFine cfg w (verified w id v policy now disk o).1
  unfolding verified
  verified-IsFine cfg w id v policy now disk none e s = (s, λ j. kept refl)
  verified-IsFine cfg w id v policy now disk (some (screening x req)) e s = (s, λ j. kept refl)
  verified-IsFine cfg w id v policy now disk (some (settling x req)) e s = (s, λ j. kept refl)
  verified-IsFine cfg w id v policy now disk (some (verifying fp req)) e s = by_answers v policy
    where
      refused : (r : Reply J) → IsFine cfg w (reserved_world w id req (none, some r, w.ledger)).1
      refused r = unfold reserved_world in lands-IsFine cfg w id s

      by_answers :
          (v : Option Verification) (policy : Option String)
          → IsFine cfg w (reserved_world w id req (reserve w.ledger id fp req v policy now disk)).1
      by_answers none policy =
          unfold reserve in refused (failure 503 "payment_verification_unavailable")
      by_answers (some v) none =
          unfold reserve in
          elim (Bool-cases (not v.valid || (v.payer == ""))) [
            | inl f ↦ rw f (refused (failure 402 "payment_not_verified"))
            | inr f ↦ rw f (refused (failure 403 "policy_not_approved"))
          ]
      by_answers (some v) (some policy) =
          unfold reserve in
          elim (Bool-cases (not v.valid || (v.payer == ""))) [
            | inl f ↦ rw f (refused (failure 402 "payment_not_verified"))
            | inr f ↦ rw f (
                reserve_world-IsFine cfg w id fp v.payer policy req now disk s
                  (s.agrees id (verifying fp req) e))
          ]

  rescreened-IsFine :
      (cfg : Config J) (w : World J) (id : String) (policy : Option String) (o : Option (Flight J))
      → lookup id w.flights ≡ o
      → IsSound w
      → IsFine cfg w (rescreened w id policy o).1
  unfolding rescreened
  rescreened-IsFine cfg w id none none e s = (s, λ j. kept refl)
  rescreened-IsFine cfg w id (some policy) none e s = (s, λ j. kept refl)
  rescreened-IsFine cfg w id none (some (verifying fp req)) e s = (s, λ j. kept refl)
  rescreened-IsFine cfg w id (some policy) (some (verifying fp req)) e s = (s, λ j. kept refl)
  rescreened-IsFine cfg w id none (some (settling x req)) e s = (s, λ j. kept refl)
  rescreened-IsFine cfg w id (some policy) (some (settling x req)) e s = (s, λ j. kept refl)
  rescreened-IsFine cfg w id none (some (screening x req)) e s = lands-IsFine cfg w id s
  rescreened-IsFine cfg w id (some policy) (some (screening x req)) e s = (
    takes_off-IsSound w w.ledger id (settling x req) s s.own (λ j n. refl)
        (s.agrees id (screening x req) e),
    λ j. kept refl,
  )

  -- A write of `r` for the request that settles `x`, after which the request ends.
  resolve-IsFine :
      (cfg : Config J) (w : World J) (id : String) (r : Receipt J) (disk : Append)
      → IsSound w
      → r.session ≡ id
      → Change cfg (lookup id w.flights) (lookup id w.ledger.by_session) (some r)
      → IsFine cfg w (record { ledger = (write w.ledger r disk).1; flights = delete id w.flights })
  resolve-IsFine cfg w id r disk s e h = (
    lands-IsSound w (write w.ledger r disk).1 id s (write-IsOwnSession w.ledger r disk s.own)
        (write-IsElsewhere id w.ledger r disk e),
    λ j. write-Change cfg w.flights w.ledger r disk j (
        subst (λ k. Change cfg (lookup k w.flights) (lookup k w.ledger.by_session) (some r)) (sym e)
          h),
  )

  saved_ledger :
      (x : Receipt J) (now : ℕ) (p : Option LedgerError × Ledger J) → (saved x now p).1 ≡ p.1
  saved_ledger x now (none, l) = refl
  saved_ledger x now (some err, l) = refl

  none-unconfirmed : (req : Requirements J) (x : Receipt J) → is_confirmed req x none ≡ false
  unfolding is_confirmed
  none-unconfirmed req x = refl

  confirmed-facts :
      (req : Requirements J) (x : Receipt J) (s : Settlement)
      → is_confirmed req x (some s) ≡ true
      → (s.success ≡ true) × (s.transaction ≢ "") × (s.network ≡ req.network) × (s.payer ≡ x.payer)
  unfolding is_confirmed
  confirmed-facts req x s c =
      let a = both s.success _ c in
      let b = both (not (s.transaction == "")) _ a.1 in
      let d = both (s.network == req.network) _ b.1 in
      (
        a.0,
        λ e. absurd (apart ((==_iff s.transaction "").1 e) b.0),
        (==_iff s.network req.network).0 d.0,
        (==_iff s.payer x.payer).0 d.1,
      )
    where
      apart : {t : Bool} → t ≡ true → not t ≡ true → ⊥
      apart p q = cc

  resolved-IsFine :
      (cfg : Config J) (w : World J) (id : String) (outcome : Option Settlement) (now later : ℕ)
      (disk : Append) (o : Option (Flight J))
      → lookup id w.flights ≡ o
      → IsSound w
      → IsFine cfg w (resolved cfg w id outcome now later disk o).1
  unfolding resolved settle
  resolved-IsFine cfg w id outcome now later disk none e s = (s, λ j. kept refl)
  resolved-IsFine cfg w id outcome now later disk (some (verifying fp req)) e s =
      (s, λ j. kept refl)
  resolved-IsFine cfg w id outcome now later disk (some (screening x req)) e s = (s, λ j. kept refl)
  resolved-IsFine cfg w id outcome now later disk (some (settling x req)) e s =
      elim (Bool-cases (is_confirmed req x outcome)) [
        | inl c ↦
            rw
              (
                c,
                saved_ledger (settled_receipt cfg x outcome now) later
                    (write w.ledger (settled_receipt cfg x outcome now) disk),
              )
              (resolve-IsFine cfg w id (settled_receipt cfg x outcome now) disk s own
                (by_outcome outcome c))
        | inr c ↦ rw c (
            resolve-IsFine cfg w id (record x { state = "unknown" }) disk s own
              (gives_up x req e a.0 (unsettled x a) refl))
      ]
    where
      a : (lookup id w.ledger.by_session ≡ some x) × ((x.state == "settled") ≡ false)
      a = s.agrees id (settling x req) e

      own : x.session ≡ id
      own = s.own id x a.0

      unsettled :
          (y : Receipt J)
          → (lookup id w.ledger.by_session ≡ some y) × ((y.state == "settled") ≡ false)
          → is_settled (lookup id w.ledger.by_session) ≡ false
      unsettled y b = ap is_settled b.0 ∙ b.1

      apart : {t : Bool} → t ≡ true → t ≡ false → ⊥
      apart p q = cc

      by_outcome :
          (o : Option Settlement)
          → is_confirmed req x o ≡ true
          → Change cfg
              (lookup id w.flights)
              (lookup id w.ledger.by_session)
              (some (settled_receipt cfg x o now))
      by_outcome none c = absurd (apart c (none-unconfirmed req x))
      by_outcome (some t) c =
          let facts = confirmed-facts req x t c in
          confirms x req t now e a.0 (unsettled x a) facts.0 facts.1 facts.2 facts.3 refl

  Step-IsFine :
      (c : Codec J) (cfg : Config J) (w v : World J) → IsSound w → Step c cfg w v → IsFine cfg w v
  unfolding begin
  Step-IsFine c cfg w _ s (begins id now header) =
      begin_unless-IsFine c cfg w id now header (lookup id w.flights) s
  Step-IsFine c cfg w _ s (verifies id v policy now disk) =
      verified-IsFine cfg w id v policy now disk (lookup id w.flights) refl s
  Step-IsFine c cfg w _ s (screens id policy) =
      rescreened-IsFine cfg w id policy (lookup id w.flights) refl s
  Step-IsFine c cfg w _ s (settles id outcome now later disk) =
      resolved-IsFine cfg w id outcome now later disk (lookup id w.flights) refl s

  Reach-IsSound :
      (c : Codec J) (cfg : Config J) (w v : World J) → IsSound w → Reach c cfg w v → IsSound v
  Reach-IsSound c cfg w _ s here = s
  Reach-IsSound c cfg w v s (next {u} r t) =
      (Step-IsFine c cfg u v (Reach-IsSound c cfg w u s r) t).0

  quiet-IsSound :
      (size : Receipt J → ℕ) (most : ℕ) (f : JournalFile J) (l : Ledger J)
      → open_ledger size most f ≡ inr l
      → IsSound (quiet l)
  quiet-IsSound size most f l e = record {
    own = open_ledger-IsOwnSession size most f l e;
    agrees = λ id g h. absurd (nothing id g h);
  }
    where
      nothing : (id : String) (g : Flight J) → lookup id [] ≡ some g → ⊥
      nothing id g h = unfold lookup in cc

  -- From a ledger opened at the start, whatever requests of any sessions came, waited and ended since:
  -- a step of a request leaves each session's receipt as it was, or reserves a new one as pending where
  -- there was none or a settled one, or turns one that is not settled into "unknown" or into the
  -- settled receipt of a gateway answer. In the last two cases the session's request waits for the
  -- gateway with this very receipt; and the answer that settles it succeeded, names a transaction, is
  -- on the network of the requirements that this request waits with, and names the receipt's payer.
  pub Reach-Change :
      (c : Codec J) (cfg : Config J) (size : Receipt J → ℕ) (most : ℕ) (f : JournalFile J)
      (l : Ledger J) (w v : World J) (j : String)
      → open_ledger size most f ≡ inr l
      → Reach c cfg (quiet l) w
      → Step c cfg w v
      → Change cfg
          (lookup j w.flights)
          (lookup j w.ledger.by_session)
          (lookup j v.ledger.by_session)
  Reach-Change c cfg size most f l w v j e r t =
      (Step-IsFine c cfg w v (Reach-IsSound c cfg (quiet l) w (quiet-IsSound size most f l e) r)
          t).1
        j

  -- The session has a receipt, of the payment with this fingerprint.
  abbrev pub IsSamePayment : String → Option (Receipt J) → Type 0
  IsSamePayment fp o = (r : Receipt J) × ((o ≡ some r) × (r.fingerprint ≡ fp))

  Change-same :
      (cfg : Config J) (waits : Option (Flight J)) (old new : Option (Receipt J)) (x : Receipt J)
      → old ≡ some x
      → is_settled old ≡ false
      → Change cfg waits old new
      → IsSamePayment x.fingerprint new
  Change-same cfg waits old new x e u (kept h) = (x, (h ∙ e, refl))
  Change-same cfg waits old new x e u (reserves r (inl n) h p) = absurd (no (sym n ∙ e))
    where
      no : {y : Receipt J} → none ≡ some y → ⊥
      no q = cc
  Change-same cfg waits old new x e u (reserves r (inr t) h p) = absurd (apart t u)
    where
      apart : {b : Bool} → b ≡ true → b ≡ false → ⊥
      apart p q = cc
  Change-same cfg waits old new x e u (gives_up y req q a b h) =
      (record y { state = "unknown" }, (h, ap (λ z. z.fingerprint) (some_same a e)))
  Change-same cfg waits old new x e u (confirms y req s now q a b c1 c2 c3 c4 h) =
      (settled_receipt cfg y (some s) now, (h, ap (λ z. z.fingerprint) (some_same a e)))

  -- From a ledger opened at the start: while a session's payment is not settled, pending or
  -- unknown, no step of any request replaces its receipt by that of another payment.
  pub Reach-IsSamePayment :
      (c : Codec J) (cfg : Config J) (size : Receipt J → ℕ) (most : ℕ) (f : JournalFile J)
      (l : Ledger J) (w v : World J) (x : Receipt J) (j : String)
      → open_ledger size most f ≡ inr l
      → Reach c cfg (quiet l) w
      → Step c cfg w v
      → lookup j w.ledger.by_session ≡ some x
      → (x.state == "settled") ≡ false
      → IsSamePayment x.fingerprint (lookup j v.ledger.by_session)
  Reach-IsSamePayment c cfg size most f l w v x j e r t h u =
      Change-same cfg (lookup j w.flights) (lookup j w.ledger.by_session)
        (lookup j v.ledger.by_session) x h (ap is_settled h ∙ u)
        (Reach-Change c cfg size most f l w v j e r t)

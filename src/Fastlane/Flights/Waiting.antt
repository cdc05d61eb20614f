-- ===== src/Fastlane/Flights/Waiting.antt =====
-- On internal/fastlane: in every step, what the waiting requests are for.
use concert.Prelude.{
  ℕ, ◌≡◌, refl, sym, ◌∙◌, inl, inr, Option, none, some, List, [], String, ◌==◌, string_eq,
  Bool-cases,
}
use mathlib.Core.Path.{subst}
use concert.Prelude.Table.{Table, lookup, insert, delete}
use concert.Prelude.Table.Laws.{lookup-insert, lookup-delete}
use concert.Ledger.{Requirements, Receipt, Settlement, Ledger, Append}
use concert.Fastlane.{Offer, Config, Verification}
use concert.Fastlane.Payment.{Codec, Next, Reply, answer, verify, screen, admit, reserve}
use concert.Fastlane.Flights.{
  Flight, verifying, screening, settling, World, started, begin, begin_unless, reserved_world,
  verified, rescreened, resolved, Step, begins, verifies, screens, settles, Reach, here, next,
  quiet,
}
use concert.Fastlane.Flights.Ownership.{some_same}
use concert.Fastlane.Flights.Offers.{IsOffered, requirements_of, NextOffered, admit-offered}

module _ {J : Type 0} where
  -- Every waiting request is for an offer.
  abbrev pub AllOffered : List (Offer J) → Table String (Flight J) → Type 0
  AllOffered os t =
      (j : String) (f : Flight J) → lookup j t ≡ some f → IsOffered os (requirements_of f)

  insert-AllOffered :
      (os : List (Offer J)) (id : String) (f : Flight J) (t : Table String (Flight J))
      → AllOffered os t
      → IsOffered os (requirements_of f)
      → AllOffered os (insert id f t)
  insert-AllOffered os id f t h o j g e = elim (Bool-cases (id == j)) [
    | inl s ↦
        subst (λ x. IsOffered os (requirements_of x)) {x = f}
          (some_same (lookup-insert id j f t ∙ rw s) e) o
    | inr s ↦ h j g (sym (lookup-insert id j f t ∙ rw s) ∙ e)
  ]

  delete-AllOffered :
      (os : List (Offer J)) (id : String) (t : Table String (Flight J))
      → AllOffered os t
      → AllOffered os (delete id t)
  delete-AllOffered os id t h j g e = elim (Bool-cases (id == j)) [
    | inl s ↦ absurd (apart (lookup-delete id j t ∙ rw s) e)
    | inr s ↦ h j g (sym (lookup-delete id j t ∙ rw s) ∙ e)
  ]
    where
      apart : {o : Option (Flight J)} {g : Flight J} → o ≡ none → o ≡ some g → ⊥
      apart a b = cc

  started-AllOffered :
      (os : List (Offer J)) (w : World J) (id : String) (n : Next J)
      → AllOffered os w.flights
      → NextOffered os n
      → AllOffered os (started w id n).1.flights
  unfolding started
  started-AllOffered os w id (answer r) h o = h
  started-AllOffered os w id (verify fp req) h o =
      insert-AllOffered os id (verifying fp req) w.flights h o
  started-AllOffered os w id (screen x req) h o =
      insert-AllOffered os id (screening x req) w.flights h o

  begin_unless-AllOffered :
      (c : Codec J) (cfg : Config J) (w : World J) (id : String) (now : ℕ) (header : List ℕ)
      (o : Option (Flight J))
      → AllOffered cfg.offers w.flights
      → AllOffered cfg.offers (begin_unless c cfg w id now header o).1.flights
  unfolding begin_unless
  begin_unless-AllOffered c cfg w id now header (some f) h = h
  begin_unless-AllOffered c cfg w id now header none h =
      started-AllOffered cfg.offers w id (admit c cfg w.ledger id now header) h
        (admit-offered c cfg w.ledger id now header)

  reserved_world-AllOffered :
      (os : List (Offer J)) (w : World J) (id : String) (req : Requirements J)
      (p : Option (Receipt J) × Option (Reply J) × Ledger J)
      → AllOffered os w.flights
      → IsOffered os req
      → AllOffered os (reserved_world w id req p).1.flights
  unfolding reserved_world
  reserved_world-AllOffered os w id req (some x, r, l) h o =
      insert-AllOffered os id (settling x req) w.flights h o
  reserved_world-AllOffered os w id req (none, r, l) h o = delete-AllOffered os id w.flights h

  verified-AllOffered :
      (os : List (Offer J)) (w : World J) (id : String) (v : Option Verification)
      (policy : Option String) (now : ℕ) (disk : Append) (o : Option (Flight J))
      → lookup id w.flights ≡ o
      → AllOffered os w.flights
      → AllOffered os (verified w id v policy now disk o).1.flights
  unfolding verified
  verified-AllOffered os w id v policy now disk none e h = h
  verified-AllOffered os w id v policy now disk (some (screening x req)) e h = h
  verified-AllOffered os w id v policy now disk (some (settling x req)) e h = h
  verified-AllOffered os w id v policy now disk (some (verifying fp req)) e h =
      reserved_world-AllOffered os w id req (reserve w.ledger id fp req v policy now disk) h
        (h id (verifying fp req) e)

  rescreened-AllOffered :
      (os : List (Offer J)) (w : World J) (id : String) (policy : Option String)
      (o : Option (Flight J))
      → lookup id w.flights ≡ o
      → AllOffered os w.flights
      → AllOffered os (rescreened w id policy o).1.flights
  unfolding rescreened
  rescreened-AllOffered os w id none none e h = h
  rescreened-AllOffered os w id (some policy) none e h = h
  rescreened-AllOffered os w id none (some (verifying fp req)) e h = h
  rescreened-AllOffered os w id (some policy) (some (verifying fp req)) e h = h
  rescreened-AllOffered os w id none (some (settling x req)) e h = h
  rescreened-AllOffered os w id (some policy) (some (settling x req)) e h = h
  rescreened-AllOffered os w id none (some (screening x req)) e h =
      delete-AllOffered os id w.flights h
  rescreened-AllOffered os w id (some policy) (some (screening x req)) e h =
      insert-AllOffered os id (settling x req) w.flights h (h id (screening x req) e)

  resolved-AllOffered :
      (cfg : Config J) (w : World J) (id : String) (outcome : Option Settlement) (now later : ℕ)
      (disk : Append) (o : Option (Flight J))
      → AllOffered cfg.offers w.flights
      → AllOffered cfg.offers (resolved cfg w id outcome now later disk o).1.flights
  unfolding resolved
  resolved-AllOffered cfg w id outcome now later disk none h = h
  resolved-AllOffered cfg w id outcome now later disk (some (verifying fp req)) h = h
  resolved-AllOffered cfg w id outcome now later disk (some (screening x req)) h = h
  resolved-AllOffered cfg w id outcome now later disk (some (settling x req)) h =
      delete-AllOffered cfg.offers id w.flights h

  Step-AllOffered :
      (c : Codec J) (cfg : Config J) (w v : World J)
      → AllOffered cfg.offers w.flights
      → Step c cfg w v
      → AllOffered cfg.offers v.flights
  unfolding begin
  Step-AllOffered c cfg w _ h (begins id now header) =
      begin_unless-AllOffered c cfg w id now header (lookup id w.flights) h
  Step-AllOffered c cfg w _ h (verifies id v policy now disk) =
      verified-AllOffered cfg.offers w id v policy now disk (lookup id w.flights) refl h
  Step-AllOffered c cfg w _ h (screens id policy) =
      rescreened-AllOffered cfg.offers w id policy (lookup id w.flights) refl h
  Step-AllOffered c cfg w _ h (settles id outcome now later disk) =
      resolved-AllOffered cfg w id outcome now later disk (lookup id w.flights) h

  quiet-AllOffered : (os : List (Offer J)) (l : Ledger J) → AllOffered os (quiet l).flights
  quiet-AllOffered os l j f e = absurd (nothing j f e)
    where
      nothing : (j : String) (f : Flight J) → lookup j [] ≡ some f → ⊥
      nothing j f e = unfold lookup in cc

  Reach-AllOffered :
      (c : Codec J) (cfg : Config J) (l : Ledger J) (w : World J)
      → Reach c cfg (quiet l) w
      → AllOffered cfg.offers w.flights
  Reach-AllOffered c cfg l _ here = quiet-AllOffered cfg.offers l
  Reach-AllOffered c cfg l w (next {u} r t) =
      Step-AllOffered c cfg u w (Reach-AllOffered c cfg l u r) t

  -- Whatever requests of any sessions came, waited and ended since the start, from any ledger: a
  -- request that waits, be it for the verification, the policy service or the settlement, waits with
  -- the requirements of one of the configured offers.
  pub Reach-IsOffered :
      (c : Codec J) (cfg : Config J) (l : Ledger J) (w : World J) (j : String) (f : Flight J)
      → Reach c cfg (quiet l) w
      → lookup j w.flights ≡ some f
      → IsOffered cfg.offers (requirements_of f)
  Reach-IsOffered c cfg l w j f r e = Reach-AllOffered c cfg l w r j f e

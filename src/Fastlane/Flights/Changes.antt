-- ===== src/Fastlane/Flights/Changes.antt =====
-- On internal/fastlane: how a step of any payment request may change the receipt of a session.
use concert.Prelude.{
  ℕ, ◌≡◌, ◌≢◌, refl, sym, ◌⊎◌, inl, inr, true, false, Option, none, some, List, String, string_eq,
}
use mathlib.Core.Path.{subst}
use concert.Prelude.Table.{Table, lookup}
use concert.Ledger.{Requirements, Settlement, Receipt, LedgerError, Ledger, Append, write, get}
use concert.Fastlane.{Config}
use concert.Fastlane.Payment.{
  Codec, Next, answer, verify, screen, admit, reserved, pending, settled_receipt, is_settled,
}
use concert.Fastlane.Flights.{
  Flight, verifying, screening, settling, World, started, begin_unless, reserved_world,
}
use concert.Fastlane.Flights.Ownership.{write-IsOldOrNew, IsOwnSession, write-IsOwnSession}
use concert.Ledger.Answers.{get-write}
use concert.Fastlane.Flights.Agreement.{
  Agrees, IsSound, NextAgrees, admit-Agrees, IsElsewhere, write-IsElsewhere, takes_off-IsSound,
  lands-IsSound,
}

-- The life of a session's receipt: it is reserved as pending where there is none or a settled one;
-- then its payment is given up as unknown, or settled by the answer of the gateway to the request
-- of the session that waits with this receipt and these requirements.
pub data Change {J : Type 0} (cfg : Config J) (waits : Option (Flight J))
    (old new : Option (Receipt J)) : Type 0 where
  kept : new ≡ old → Change cfg waits old new
  reserves :
      (r : Receipt J)
      → (old ≡ none) ⊎ (is_settled old ≡ true)
      → new ≡ some r
      → r.state ≡ "pending"
      → Change cfg waits old new
  gives_up :
      (x : Receipt J) (req : Requirements J)
      → waits ≡ some (settling x req)
      → old ≡ some x
      → is_settled old ≡ false
      → new ≡ some (record x { state = "unknown" })
      → Change cfg waits old new
  confirms :
      (x : Receipt J) (req : Requirements J) (s : Settlement) (now : ℕ)
      → waits ≡ some (settling x req)
      → old ≡ some x
      → is_settled old ≡ false
      → s.success ≡ true
      → s.transaction ≢ ""
      → s.network ≡ req.network
      → s.payer ≡ x.payer
      → new ≡ some (settled_receipt cfg x (some s) now)
      → Change cfg waits old new

module _ {J : Type 0} where
  -- A step keeps the invariant, and changes each session's receipt in one of these ways.
  abbrev pub IsFine : Config J → World J → World J → Type 0
  IsFine cfg w v =
      IsSound v
      × ((j : String)
          → Change cfg (lookup j w.flights) (lookup j w.ledger.by_session)
              (lookup j v.ledger.by_session))

  started-IsFine :
      (cfg : Config J) (w : World J) (id : String) (n : Next J)
      → IsSound w
      → NextAgrees id n (lookup id w.ledger.by_session)
      → IsFine cfg w (started w id n).1
  unfolding started
  started-IsFine cfg w id (answer r) v a = (v, λ j. kept refl)
  started-IsFine cfg w id (verify fp req) v a =
      (takes_off-IsSound w w.ledger id (verifying fp req) v v.own (λ j n. refl) a, λ j. kept refl)
  started-IsFine cfg w id (screen x req) v a =
      (takes_off-IsSound w w.ledger id (screening x req) v v.own (λ j n. refl) a, λ j. kept refl)

  pub begin_unless-IsFine :
      (c : Codec J) (cfg : Config J) (w : World J) (id : String) (now : ℕ) (header : List ℕ)
      (o : Option (Flight J))
      → IsSound w
      → IsFine cfg w (begin_unless c cfg w id now header o).1
  unfolding begin_unless
  begin_unless-IsFine c cfg w id now header (some f) v = (v, λ j. kept refl)
  begin_unless-IsFine c cfg w id now header none v =
      started-IsFine cfg w id (admit c cfg w.ledger id now header) v
        (admit-Agrees c cfg w.ledger id now header)

  -- A write for the session changes no other session, and its own to the receipt if at all.
  pub write-Change :
      (cfg : Config J) (t : Table String (Flight J)) (l : Ledger J) (r : Receipt J) (disk : Append)
      (j : String)
      → Change cfg (lookup r.session t) (lookup r.session l.by_session) (some r)
      → Change cfg (lookup j t) (lookup j l.by_session) (lookup j (write l r disk).1.by_session)
  write-Change cfg t l r disk j h = elim (write-IsOldOrNew j l r disk) [
    | inl old ↦ kept old
    | inr new ↦
        subst (Change cfg (lookup j t) (lookup j l.by_session)) (sym new.1)
          (subst (λ k. Change cfg (lookup k t) (lookup k l.by_session) (some r)) new.0 h)
  ]

  pub reserve_world-IsFine :
      (cfg : Config J) (w : World J) (id fp who policy : String) (req : Requirements J) (now : ℕ)
      (disk : Append)
      → IsSound w
      → Agrees id (verifying fp req) (lookup id w.ledger.by_session)
      → IsFine cfg w
          (reserved_world w id req (
            reserved
              (pending id fp req who policy now)
              (write w.ledger (pending id fp req who policy now) disk))).1
  reserve_world-IsFine cfg w id fp who policy req now disk v a =
      by_answer (write w.ledger x disk).0 (write w.ledger x disk).1
        (λ e. (get-write w.ledger x disk e).0) (write-IsOwnSession w.ledger x disk v.own)
        (write-IsElsewhere id w.ledger x disk refl)
        (λ j. write-Change cfg w.flights w.ledger x disk j (reserves x a refl refl))
    where
      x : Receipt J
      x = pending id fp req who policy now

      by_answer :
          (o : Option LedgerError) (m : Ledger J)
          → (o ≡ none → get m id ≡ some x)
          → IsOwnSession m
          → IsElsewhere id w.ledger m
          → ((j : String)
              → Change cfg
                  (lookup j w.flights)
                  (lookup j w.ledger.by_session)
                  (lookup j m.by_session))
          → IsFine cfg w (reserved_world w id req (reserved x (o, m))).1
      by_answer none m g own other ch =
          unfold reserved_world get in
          (takes_off-IsSound w m id (settling x req) v own other (g refl, refl), ch)
      by_answer (some err) m g own other ch =
          unfold reserved_world in (lands-IsSound w m id v own other, ch)

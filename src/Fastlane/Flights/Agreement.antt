-- ===== src/Fastlane/Flights/Agreement.antt =====
-- On internal/fastlane: what the receipt of a session is while one of its requests waits.
use concert.Prelude.{
  ℕ, ◌≡◌, refl, sym, ◌∙◌, ◌⊎◌, inl, inr, Bool, true, false, not, ◌&&◌, Option, none, some, List,
  String, ◌==◌, ==_iff, string_eq, Bool-cases, ltb, nat_beq, ◌||◌, length,
}
use mathlib.Core.Path.{subst}
use concert.Prelude.Table.{lookup, insert, delete}
use concert.Prelude.Table.Laws.{lookup-insert, lookup-delete}
use concert.Ledger.{Requirements, Receipt, Ledger, Append, write, get}
use concert.Fastlane.{max_body, Payload, Config}
use concert.Fastlane.Payment.{
  is_empty, is_other_resource, Codec, Next, answer, verify, screen, admit, admit_unresolved,
  admit_prior, admit_used, admit_canonical, admit_offer, admit_payload, admit_decoded, admit_header,
  admit_paid, find_offer, is_settled,
}
use concert.Fastlane.Flights.{Flight, verifying, screening, settling, World}
use concert.Fastlane.Flights.Ownership.{some_same, write-IsOldOrNew, IsOwnSession}

module _ {J : Type 0} where
  -- What the receipt of its session is while a request waits.
  abbrev pub Agrees : String → Flight J → Option (Receipt J) → Type 0
  Agrees id (verifying fp req) o = (o ≡ none) ⊎ (is_settled o ≡ true)
  Agrees id (screening x req) o = (o ≡ some x) × ((x.state == "settled") ≡ false)
  Agrees id (settling x req) o = (o ≡ some x) × ((x.state == "settled") ≡ false)

  pub record IsSound (w : World J) : Type 0 where
    pub own : IsOwnSession w.ledger
    pub agrees :
        (id : String) (f : Flight J)
        → lookup id w.flights ≡ some f
        → Agrees id f (lookup id w.ledger.by_session)

  -- What `admit` asks for next agrees with the session's receipt.
  abbrev pub NextAgrees : String → Next J → Option (Receipt J) → Type 0
  NextAgrees id (answer r) o = Unit
  NextAgrees id (verify fp req) o = Agrees id (verifying fp req) o
  NextAgrees id (screen x req) o = Agrees id (screening x req) o

  admit_unresolved-Agrees :
      (id fp : String) (l : Ledger J) (now : ℕ) (req : Requirements J) (o : Option (Receipt J))
      → NextAgrees id (admit_prior l now fp req o) o
  unfolding admit_prior admit_unresolved
  admit_unresolved-Agrees id fp l now req none = inl refl
  admit_unresolved-Agrees id fp l now req (some prior) =
      elim (Bool-cases (prior.state == "settled")) [
        | inl s ↦ elim (Bool-cases (prior.fingerprint == fp)) [
          | inl f ↦ rw (s, f) tt
          | inr f ↦ rw (s, f) (inr s)
        ]
        | inr s ↦ elim (Bool-cases (prior.fingerprint == fp)) [
          | inl f ↦ rw (s, f) (refl, s)
          | inr f ↦ rw (s, f) tt
        ]
      ]

  admit_used-Agrees :
      (l : Ledger J) (id : String) (now : ℕ) (fp : String) (req : Requirements J)
      (prior used : Option (Receipt J))
      → NextAgrees id (admit_used l id now fp req prior used) prior
  unfolding admit_used
  admit_used-Agrees l id now fp req prior none = admit_unresolved-Agrees id fp l now req prior
  admit_used-Agrees l id now fp req prior (some used) =
      elim (Bool-cases (not (used.session == id))) [
        | inl e ↦ rw e tt
        | inr e ↦ rw e (elim (Bool-cases (used.state == "settled")) [
          | inl f ↦ rw f tt
          | inr f ↦ rw f (admit_unresolved-Agrees id fp l now req prior)
        ])
      ]

  admit_payload-Agrees :
      (c : Codec J) (cfg : Config J) (l : Ledger J) (id : String) (now : ℕ)
      (prior : Option (Receipt J)) (p : Option (Payload J))
      → NextAgrees id (admit_payload c cfg l id now prior p) prior
  unfolding admit_payload admit_offer admit_canonical
  admit_payload-Agrees c cfg l id now prior none = tt
  admit_payload-Agrees c cfg l id now prior (some p) =
      elim (Bool-cases (not (nat_beq p.version 2) || is_empty p.payload)) [
        | inl e ↦ rw e tt
        | inr e ↦ rw e (elim (Bool-cases (is_other_resource cfg.origin p.resource)) [
          | inl f ↦ rw f tt
          | inr f ↦ rw f (by_offer p (find_offer c p.accepted cfg.offers))
        ])
      ]
    where
      by_canonical :
          (req : Requirements J) (b : Option (List ℕ))
          → NextAgrees id (admit_canonical c l id now req prior b) prior
      by_canonical req none = tt
      by_canonical req (some b) = admit_used-Agrees l id now _ req prior _

      by_offer :
          (p : Payload J) (o : Option (Requirements J))
          → NextAgrees id (admit_offer c l id now p prior o) prior
      by_offer p none = tt
      by_offer p (some req) = by_canonical req (c.canonical p.payload)

  admit_header-Agrees :
      (c : Codec J) (cfg : Config J) (l : Ledger J) (id : String) (now : ℕ) (header : List ℕ)
      (prior : Option (Receipt J))
      → NextAgrees id (admit_header c cfg l id now header prior) prior
  unfolding admit_header admit_decoded
  admit_header-Agrees c cfg l id now header prior = elim (Bool-cases (is_empty header)) [
    | inl e ↦ rw e tt
    | inr e ↦ rw e (elim (Bool-cases (ltb max_body (length header))) [
      | inl f ↦ rw f tt
      | inr f ↦ rw f (by_bytes (c.base64 header))
    ])
  ]
    where
      by_bytes : (b : Option (List ℕ)) → NextAgrees id (admit_decoded c cfg l id now prior b) prior
      by_bytes none = tt
      by_bytes (some b) = admit_payload-Agrees c cfg l id now prior (c.payload_of b)

  pub admit-Agrees :
      (c : Codec J) (cfg : Config J) (l : Ledger J) (id : String) (now : ℕ) (header : List ℕ)
      → NextAgrees id (admit c cfg l id now header) (lookup id l.by_session)
  unfolding admit get
  admit-Agrees c cfg l id now header = by_prior (lookup id l.by_session)
    where
      by_prior : (o : Option (Receipt J)) → NextAgrees id (admit_paid c cfg l id now header o) o
      by_prior none = unfold admit_paid in admit_header-Agrees c cfg l id now header none
      by_prior (some prior) =
          unfold admit_paid in
          elim (Bool-cases ((prior.state == "settled") && ltb now prior.expires)) [
            | inl e ↦ rw e tt
            | inr e ↦ rw e (admit_header-Agrees c cfg l id now header (some prior))
          ]

  -- The receipts of every session but one are as they were.
  abbrev pub IsElsewhere : String → Ledger J → Ledger J → Type 0
  IsElsewhere id l m =
      (j : String) → (id == j) ≡ false → lookup j m.by_session ≡ lookup j l.by_session

  pub write-IsElsewhere :
      (id : String) (l : Ledger J) (r : Receipt J) (disk : Append)
      → r.session ≡ id
      → IsElsewhere id l (write l r disk).1
  write-IsElsewhere id l r disk s j n = elim (write-IsOldOrNew j l r disk) [
    | inl old ↦ old
    | inr new ↦ absurd (apart ((==_iff id j).1 (sym s ∙ new.0)) n)
  ]
    where
      apart : {t : Bool} → t ≡ true → t ≡ false → ⊥
      apart a b = cc

  pub takes_off-IsSound :
      (w : World J) (m : Ledger J) (id : String) (f : Flight J)
      → IsSound w
      → IsOwnSession m
      → IsElsewhere id w.ledger m
      → Agrees id f (lookup id m.by_session)
      → IsSound (record { ledger = m; flights = insert id f w.flights })
  takes_off-IsSound w m id f v own other a = record { own = own; agrees = by_id }
    where
      by_id :
          (j : String) (g : Flight J)
          → lookup j (insert id f w.flights) ≡ some g
          → Agrees j g (lookup j m.by_session)
      by_id j g e = elim (Bool-cases (id == j)) [
        | inl s ↦
            subst (λ k. Agrees k g (lookup k m.by_session)) ((==_iff id j).0 s)
              (subst (λ x. Agrees id x (lookup id m.by_session))
                (some_same (lookup-insert id j f w.flights ∙ rw s) e) a)
        | inr o ↦
            subst (Agrees j g) (sym (other j o))
              (v.agrees j g (sym (lookup-insert id j f w.flights ∙ rw o) ∙ e))
      ]

  pub lands-IsSound :
      (w : World J) (m : Ledger J) (id : String)
      → IsSound w
      → IsOwnSession m
      → IsElsewhere id w.ledger m
      → IsSound (record { ledger = m; flights = delete id w.flights })
  lands-IsSound w m id v own other = record { own = own; agrees = by_id }
    where
      apart : {o : Option (Flight J)} {g : Flight J} → o ≡ none → o ≡ some g → ⊥
      apart a b = cc

      by_id :
          (j : String) (g : Flight J)
          → lookup j (delete id w.flights) ≡ some g
          → Agrees j g (lookup j m.by_session)
      by_id j g e = elim (Bool-cases (id == j)) [
        | inl s ↦ absurd (apart (lookup-delete id j w.flights ∙ rw s) e)
        | inr o ↦
            subst (Agrees j g) (sym (other j o))
              (v.agrees j g (sym (lookup-delete id j w.flights ∙ rw o) ∙ e))
      ]

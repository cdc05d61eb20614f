-- ===== src/Fastlane/Flights/Offers.antt =====
-- On internal/fastlane/service.go: what a waiting request may ask the gateway for.
use concert.Prelude.{
  ℕ, suc, ◌≡◌, refl, ◌∙◌, ◌⊎◌, inl, inr, not, ◌&&◌, ◌||◌, true, false, Option, none, some, List, [],
  ◌∷◌, String, ◌==◌, string_eq, Bool-cases, get_elem?, nat_beq, ltb, length,
}
use concert.Ledger.{Requirements, Receipt, Ledger, get}
use concert.Fastlane.{max_body, Payload, Offer, Config}
use concert.Fastlane.Payment.{
  is_empty, is_other_resource, Codec, Next, answer, verify, screen, admit, admit_unresolved,
  admit_prior, admit_used, admit_canonical, admit_offer, admit_payload, admit_decoded, admit_header,
  admit_paid, find_offer,
}
use concert.Fastlane.Flights.{Flight, verifying, screening, settling}
use concert.Fastlane.Flights.Ownership.{some_same}

module _ {J : Type 0} where
  -- The requirements of one of the offers.
  pub data IsOffered (offers : List (Offer J)) (req : Requirements J) : Type 0 where
    offered :
        (i : ℕ) (o : Offer J)
        → get_elem? offers i ≡ some o
        → o.requirements ≡ req
        → IsOffered offers req

  -- What a waiting request asks the gateway to settle.
  abbrev pub requirements_of : Flight J → Requirements J
  requirements_of (verifying fp req) = req
  requirements_of (screening x req) = req
  requirements_of (settling x req) = req

  abbrev pub NextOffered : List (Offer J) → Next J → Type 0
  NextOffered offers (answer r) = Unit
  NextOffered offers (verify fp req) = IsOffered offers req
  NextOffered offers (screen x req) = IsOffered offers req

  IsOffered-later :
      (o : Offer J) (os : List (Offer J)) (req : Requirements J)
      → IsOffered os req
      → IsOffered (o ∷ os) req
  IsOffered-later o os req (offered i p e h) = offered (suc i) p e h

  find_offer-IsOffered :
      (c : Codec J) (accepted : Requirements J) (os : List (Offer J)) (req : Requirements J)
      → find_offer c accepted os ≡ some req
      → IsOffered os req
  unfolding find_offer
  find_offer-IsOffered c accepted [] req e = absurd (cc)
  find_offer-IsOffered c accepted (o ∷ os) req e =
      by_test (Bool-cases (c.is_same accepted o.requirements))
        (λ h. IsOffered-later o os req (find_offer-IsOffered c accepted os req h)) e
    where
      by_test :
          (c.is_same accepted o.requirements ≡ true) ⊎ (c.is_same accepted o.requirements ≡ false)
          → (find_offer c accepted os ≡ some req → IsOffered (o ∷ os) req)
          → find_offer c accepted (o ∷ os) ≡ some req
          → IsOffered (o ∷ os) req
      by_test (inl s) ih h =
          offered 0 o refl
            (some_same {o = find_offer c accepted (o ∷ os)} (unfold find_offer in rw s) h)
      by_test (inr s) ih h = ih ((unfold find_offer in rw s) ∙ h)

  admit_unresolved-offered :
      (os : List (Offer J)) (fp : String) (req : Requirements J) (prior : Option (Receipt J))
      → IsOffered os req
      → NextOffered os (admit_unresolved fp req prior)
  unfolding admit_unresolved
  admit_unresolved-offered os fp req none h = h
  admit_unresolved-offered os fp req (some prior) h =
      elim (Bool-cases (not (prior.state == "settled") && not (prior.fingerprint == fp))) [
        | inl s ↦ rw s tt
        | inr s ↦
            rw s (elim (Bool-cases (prior.fingerprint == fp)) [ inl f ↦ rw f h | inr f ↦ rw f h ])
      ]

  admit_prior-offered :
      (os : List (Offer J)) (l : Ledger J) (now : ℕ) (fp : String) (req : Requirements J)
      (prior : Option (Receipt J))
      → IsOffered os req
      → NextOffered os (admit_prior l now fp req prior)
  unfolding admit_prior
  admit_prior-offered os l now fp req none h = admit_unresolved-offered os fp req none h
  admit_prior-offered os l now fp req (some prior) h =
      elim (Bool-cases ((prior.fingerprint == fp) && (prior.state == "settled"))) [
        | inl s ↦ rw s tt
        | inr s ↦ rw s (admit_unresolved-offered os fp req (some prior) h)
      ]

  admit_used-offered :
      (os : List (Offer J)) (l : Ledger J) (id : String) (now : ℕ) (fp : String)
      (req : Requirements J) (prior used : Option (Receipt J))
      → IsOffered os req
      → NextOffered os (admit_used l id now fp req prior used)
  unfolding admit_used
  admit_used-offered os l id now fp req prior none h = admit_prior-offered os l now fp req prior h
  admit_used-offered os l id now fp req prior (some used) h =
      elim (Bool-cases (not (used.session == id))) [
        | inl s ↦ rw s tt
        | inr s ↦ rw s (elim (Bool-cases (used.state == "settled")) [
          | inl f ↦ rw f tt
          | inr f ↦ rw f (admit_prior-offered os l now fp req prior h)
        ])
      ]

  admit_payload-offered :
      (c : Codec J) (cfg : Config J) (l : Ledger J) (id : String) (now : ℕ)
      (prior : Option (Receipt J)) (p : Option (Payload J))
      → NextOffered cfg.offers (admit_payload c cfg l id now prior p)
  unfolding admit_payload admit_offer admit_canonical
  admit_payload-offered c cfg l id now prior none = tt
  admit_payload-offered c cfg l id now prior (some p) =
      elim (Bool-cases (not (nat_beq p.version 2) || is_empty p.payload)) [
        | inl e ↦ rw e tt
        | inr e ↦ rw e (elim (Bool-cases (is_other_resource cfg.origin p.resource)) [
          | inl f ↦ rw f tt
          | inr f ↦ rw f (
              by_offer p (find_offer c p.accepted cfg.offers)
                (λ req g. find_offer-IsOffered c p.accepted cfg.offers req g))
        ])
      ]
    where
      by_canonical :
          (req : Requirements J) (b : Option (List ℕ))
          → IsOffered cfg.offers req
          → NextOffered cfg.offers (admit_canonical c l id now req prior b)
      by_canonical req none h = tt
      by_canonical req (some b) h = admit_used-offered cfg.offers l id now _ req prior _ h

      by_offer :
          (p : Payload J) (o : Option (Requirements J))
          → ((req : Requirements J) → o ≡ some req → IsOffered cfg.offers req)
          → NextOffered cfg.offers (admit_offer c l id now p prior o)
      by_offer p none h = tt
      by_offer p (some req) h = by_canonical req (c.canonical p.payload) (h req refl)

  admit_header-offered :
      (c : Codec J) (cfg : Config J) (l : Ledger J) (id : String) (now : ℕ) (header : List ℕ)
      (prior : Option (Receipt J))
      → NextOffered cfg.offers (admit_header c cfg l id now header prior)
  unfolding admit_header admit_decoded
  admit_header-offered c cfg l id now header prior = elim (Bool-cases (is_empty header)) [
    | inl e ↦ rw e tt
    | inr e ↦ rw e (elim (Bool-cases (ltb max_body (length header))) [
      | inl f ↦ rw f tt
      | inr f ↦ rw f (by_bytes (c.base64 header))
    ])
  ]
    where
      by_bytes :
          (b : Option (List ℕ)) → NextOffered cfg.offers (admit_decoded c cfg l id now prior b)
      by_bytes none = tt
      by_bytes (some b) = admit_payload-offered c cfg l id now prior (c.payload_of b)

  -- What `admit` asks for next is for an offer.
  pub admit-offered :
      (c : Codec J) (cfg : Config J) (l : Ledger J) (id : String) (now : ℕ) (header : List ℕ)
      → NextOffered cfg.offers (admit c cfg l id now header)
  unfolding admit
  admit-offered c cfg l id now header = by_prior (get l id)
    where
      by_prior :
          (o : Option (Receipt J)) → NextOffered cfg.offers (admit_paid c cfg l id now header o)
      by_prior none = unfold admit_paid in admit_header-offered c cfg l id now header none
      by_prior (some prior) =
          unfold admit_paid in
          elim (Bool-cases ((prior.state == "settled") && ltb now prior.expires)) [
            | inl e ↦ rw e tt
            | inr e ↦ rw e (admit_header-offered c cfg l id now header (some prior))
          ]

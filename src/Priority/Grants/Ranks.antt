-- ===== src/Priority/Grants/Ranks.antt =====
-- On priorityGrants: what a rank above guest shows, and the rank that a header brings.
use concert.Prelude.{
  ℕ, ◌+◌, ◌*◌, ◌/◌, ◌^◌, ◌<◌, ◌≤◌, ◌≡◌, ◌≢◌, refl, sym, ap, ◌∙◌, Bool, true, false, not, ◌||◌,
  Option, none, some, List, [], ◌∷◌, ◌++◌, ◌==◌, ltb, lt→ltb, leb, nat_beq, nat_beq_iff,
  if◌then◌else◌, length, take, drop, ==_iff, ==_refl, inl, inr, Bool-cases, arith, none_is_not_some,
  some_injective,
}
use mathlib.Core.Path.{subst}
use concert.Int64.{slt}
use concert.Bytes.{bytes_eq, get_be, Crypto, IsCrypto}
use concert.Bytes.Laws.{take-drop_split}
use concert.Passes.{Admitter, pass_valid, is_pass_valid, verify}
use concert.Passes.Roundtrip.{IsPassId}
use concert.Passes.Soundness.{IsSigned, verify-IsSigned}
use concert.Priority.{second, rank_guest, rank_count, Text, parse_priority_header}
use concert.Priority.Grants.{
  PriorityGrants, grant_mac, mint_grant, first_byte, verify_grant_raw, verify_grant_decoded,
  verify_grant, rank_or_guest, rank_of_pass, rank_of, grants, granted, modify_response, last_or,
}
use concert.Priority.Grants.Laws.{verify_grant-mint_grant}

-- A grant of the rank, signed under the key, for the pass id.
pub record IsGranted (c : Crypto) (key value id : List ℕ) (rank now : ℕ) : Type 0 where
  pub buf : List ℕ
  pub decodes : c.decode value ≡ some buf
  pub raw_length : length buf ≡ 41
  pub signed : buf ≡ take 25 buf ++ grant_mac c key (take 25 buf)
  pub bound : take 16 buf ≡ id
  pub granted : first_byte (drop 16 buf) ≡ rank
  pub in_time : slt (now / second) (get_be 0 (take 8 (drop 17 buf))) ≡ true

-- A guard that an accepted grant has passed.
passed :
    (t : Bool) (o : Option ℕ) (rank : ℕ)
    → (if not t then none else o) ≡ some rank
    → (t ≡ true) × (o ≡ some rank)
passed true o rank h = (refl, h)
passed false o rank h = absurd (none_is_not_some h)

verify_grant_raw-IsGranted :
    (c : Crypto) (key value id buf : List ℕ) (now rank : ℕ)
    → c.decode value ≡ some buf
    → length buf ≡ 41
    → verify_grant_raw c key id now buf ≡ some rank
    → IsGranted c key value id rank now
unfolding verify_grant_raw
verify_grant_raw-IsGranted c key value id buf now rank d n h =
    let signed = passed (drop 25 buf == grant_mac c key (take 25 buf)) _ rank h in
    let own = passed (take 16 buf == id) _ rank signed.1 in
    let last =
      running (leb rank_count (first_byte (drop 16 buf)))
        (slt (now / second) (get_be 0 (take 8 (drop 17 buf)))) own.1 in
    record {
      buf = buf;
      decodes = d;
      raw_length = n;
      signed =
          sym (take-drop_split 25 buf)
          ∙ ap (λ m. take 25 buf ++ m)
              ((==_iff (drop 25 buf) (grant_mac c key (take 25 buf))).0 signed.0);
      bound = (==_iff (take 16 buf) id).0 own.0;
      granted = last.1;
      in_time = last.0;
    }
  where
    running :
        (t u : Bool)
        → (if t || not u then none else some (first_byte (drop 16 buf))) ≡ some rank
        → (u ≡ true) × (first_byte (drop 16 buf) ≡ rank)
    running true u k = absurd (none_is_not_some k)
    running false true k = (refl, some_injective k)
    running false false k = absurd (none_is_not_some k)

verify_grant-IsGranted :
    (c : Crypto) (key value id : List ℕ) (now rank : ℕ)
    → verify_grant c key value id now ≡ some rank
    → IsGranted c key value id rank now
unfolding verify_grant
verify_grant-IsGranted c key value id now rank h =
    by_bytes (c.decode value) refl (passed (nat_beq (c.decoded_len (length value)) 41) _ rank h).1
  where
    fits :
        (t : Bool) (o : Option ℕ)
        → (if t then o else none) ≡ some rank
        → (t ≡ true) × (o ≡ some rank)
    fits true o k = (refl, k)
    fits false o k = absurd (none_is_not_some k)

    by_bytes :
        (o : Option (List ℕ))
        → c.decode value ≡ o
        → verify_grant_decoded c key id now o ≡ some rank
        → IsGranted c key value id rank now
    by_bytes none e k = absurd (none_is_not_some (unfold verify_grant_decoded in k))
    by_bytes (some buf) e k =
        let sized =
          fits (nat_beq (length buf) 41) (verify_grant_raw c key id now buf)
            (unfold verify_grant_decoded in k) in
        verify_grant_raw-IsGranted c key value id buf now rank e
          ((nat_beq_iff (length buf) 41).0 sized.0) sized.1

-- What a rank above guest rests on.
pub record IsRanked (c : Crypto) (key : List ℕ) (a : Admitter) (grant admit : Option (List ℕ))
    (rank now : ℕ) : Type 0 where
  pub value : List ℕ
  pub pass : List ℕ
  pub has_grant : grant ≡ some value
  pub has_pass : admit ≡ some pass
  pub is_granted : IsGranted c key value (verify c a pass now).id rank now
  pub is_signed : IsSigned c a pass (verify c a pass now) now

-- A request whose rank is above guest carries both cookies: an admission pass that the admitter
-- signed and that runs, and a grant of just that rank, signed under the grants' key, that runs and
-- names the id of that pass.
pub rank_of-IsRanked :
    (c : Crypto) (key : List ℕ) (a : Admitter) (grant admit : Option (List ℕ)) (now : ℕ)
    → rank_of c key a grant admit now ≢ rank_guest
    → IsRanked c key a grant admit (rank_of c key a grant admit now) now
unfolding rank_of rank_of_pass
rank_of-IsRanked c key a none admit now h = absurd (h refl)
rank_of-IsRanked c key a (some []) admit now h = absurd (h refl)
rank_of-IsRanked c key a (some (x ∷ xs)) none now h = absurd (h refl)
rank_of-IsRanked c key a (some (x ∷ xs)) (some pass) now h =
    elim (Bool-cases (is_pass_valid (verify c a pass now).status)) [
      | inl v ↦ rw v (
          by_grant v (verify_grant c key (x ∷ xs) (verify c a pass now).id now) refl
            (subst (λ n. n ≢ 0) (rw v refl) h))
      | inr v ↦ absurd (h (rw v refl))
    ]
  where
    by_grant :
        is_pass_valid (verify c a pass now).status ≡ true
        → (o : Option ℕ) → verify_grant c key (x ∷ xs) (verify c a pass now).id now ≡ o
        → rank_or_guest o ≢ 0
        → IsRanked c key a (some (x ∷ xs)) (some pass) (rank_or_guest o) now
    by_grant v none e n = absurd (n refl)
    by_grant v (some rank) e n = record {
      value = x ∷ xs;
      pass = pass;
      has_grant = refl;
      has_pass = refl;
      is_granted = verify_grant-IsGranted c key (x ∷ xs) (verify c a pass now).id now rank e;
      is_signed = verify-IsSigned c a pass now v;
    }

-- rankOf on a grant that is not empty and a valid pass.
rank_of-valid :
    (c : Crypto) (key : List ℕ) (a : Admitter) (value admit id : List ℕ) (now : ℕ)
    → value ≢ []
    → (verify c a admit now).status ≡ pass_valid
    → (verify c a admit now).id ≡ id
    → rank_of c key a (some value) (some admit) now
      ≡ rank_or_guest (verify_grant c key value id now)
unfolding rank_of rank_of_pass
rank_of-valid c key a [] admit id now n v e = absurd (n refl)
rank_of-valid c key a (x ∷ xs) admit id now n v e = rw (v, e) refl

mint_grant_filled :
    (c : Crypto) (key id : List ℕ) (rank exp : ℕ)
    → IsCrypto c
    → verify_grant c key (mint_grant c key id rank exp) id 0 ≢ none
    → mint_grant c key id rank exp ≢ []
unfolding verify_grant
mint_grant_filled c key id rank exp h n e =
    n (ap (λ v. verify_grant c key v id 0) e ∙ rw (h.decoded_nothing) refl)

-- A grant together with its own pass.
verify_grant-own :
    (c : Crypto) (key id : List ℕ) (rank exp now : ℕ)
    → IsCrypto c
    → IsPassId id
    → rank < rank_count
    → exp / second < 2 ^ 62
    → now / second < 2 ^ 62
    → verify_grant c key (mint_grant c key id rank exp) id now
      ≡ (if ltb now (exp / second * second) then some rank else none)
verify_grant-own c key id rank exp now h p known fits small =
    verify_grant-mint_grant c key id id rank exp now h p known fits small ∙ rw (==_refl id) refl

granted-grants :
    (c : Crypto) (g : PriorityGrants) (id : List ℕ) (now rank ttl : ℕ)
    → rank ≢ 0
    → (granted c g id now (some (rank, ttl))).0
      ≡ some (grants (mint_grant c g.key id rank (now + ttl)) (ttl / second))
unfolding granted
granted-grants c g id now rank ttl n = elim (Bool-cases (nat_beq rank 0)) [
  | inl e ↦ absurd (n ((nat_beq_iff rank 0).0 e))
  | inr e ↦ rw e refl
]

-- A page response whose last Concert-Priority header is accepted with a rank above guest sets a
-- grant: at any later time, for pass ids of 16 bytes and times below 2^62 seconds, a request that
-- carries it with a valid pass of the same id has that rank until the header's lifetime, cut to
-- seconds, is over, and none from then on.
pub rank_of-modify_response :
    (c : Crypto) (t : Text) (g : PriorityGrants) (a : Admitter) (id admit v : List ℕ)
    (vs : List (List ℕ)) (rank ttl now later : ℕ)
    → IsCrypto c
    → IsPassId id
    → parse_priority_header t (last_or v vs) ≡ some (rank, ttl)
    → rank ≢ 0
    → rank < rank_count
    → (now + ttl) / second < 2 ^ 62
    → later / second < 2 ^ 62
    → second ≤ now + ttl
    → (verify c a admit later).status ≡ pass_valid
    → (verify c a admit later).id ≡ id
    → (value : List ℕ) × (((modify_response c t g (some id) now (v ∷ vs)).0
          ≡ some (grants value (ttl / second)))
        × (rank_of c g.key a (some value) (some admit) later
            ≡ (if ltb later ((now + ttl) / second * second) then rank else rank_guest)))
unfolding modify_response
rank_of-modify_response c t g a id admit v vs rank ttl now later h p e n known fits small lasts s
      i =
    (
      value,
      (
        ap (λ o. (granted c g id now o).0) e ∙ granted-grants c g id now rank ttl n,
        rank_of-valid c g.key a value admit id later filled s i
            ∙ ap rank_or_guest
                (verify_grant-own c g.key id rank (now + ttl) later h p known fits small)
            ∙ by_time (ltb later ((now + ttl) / second * second)),
      ),
    )
  where
    value : List ℕ
    value = mint_grant c g.key id rank (now + ttl)

    by_time :
        (b : Bool)
        → rank_or_guest (if b then some rank else none) ≡ (if b then rank else rank_guest)
    by_time true = refl
    by_time false = refl

    fresh : verify_grant c g.key value id 0 ≡ some rank
    fresh =
        verify_grant-own c g.key id rank (now + ttl) 0 h p known fits (omega arith)
        ∙ rw (lt→ltb 0 ((now + ttl) / second * second) (omega (arith, lasts))) refl

    filled : value ≢ []
    filled = mint_grant_filled c g.key id rank (now + ttl) h (λ q. none_is_not_some (sym q ∙ fresh))

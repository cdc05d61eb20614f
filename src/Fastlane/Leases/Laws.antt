-- ===== src/Fastlane/Leases/Laws.antt =====
-- On makeChallenge and proveNFT: one outstanding challenge per session, and bounded maps.
use concert.Prelude.{
  ℕ, ◌≤◌, ◌<◌, ◌≡◌, inl, inr, refl, Bool, true, false, ◌||◌, Option, none, some, List, [], String,
  ◌==◌, string_eq, ltb, leb, length, Bool-cases, arith,
}
use concert.Prelude.Table.{Table, lookup, delete, sweep, IsMap}
use concert.Prelude.Table.Laws.{insert-IsMap, delete-IsMap, length-delete_le}
use concert.Prelude.Table.Sweep.{sweep-IsMap, length-sweep_le}
use concert.Fastlane.{Collection}
use concert.Fastlane.Leases.{
  Challenge, Leases, capacity, WalletRequest, Wallets, find_rule, token_refusal, chain, is_spent,
  is_ended, is_of, issue, issue_nonce, refused_token, challenge_rule, make_challenge, Proof, taken,
  provable, proof_begun, begin_proof, is_owner, lease, finish_screened, finish_proof,
}
use concert.Fastlane.Leases.Challenges.{
  IsSingle, IsPart-IsSingle, sweep-IsPart, delete-IsPart, insert-IsSingle, length-insert_le,
}

-- The maps of the service: within their capacity, and one challenge per session.
pub record IsTidy (s : Leases) : Type 0 where
  pub challenge_map : IsMap s.challenges
  pub lease_map : IsMap s.nfts
  pub single : IsSingle s.challenges
  pub few_challenges : length s.challenges ≤ capacity
  pub few_leases : length s.nfts ≤ capacity

issue-IsTidy :
    (s : Leases) (id the_nonce : String) (ch : Challenge) (now : ℕ)
    → ch.session ≡ id
    → IsTidy s
    → IsTidy (issue s id the_nonce ch now).1
unfolding issue
issue-IsTidy s id the_nonce ch now own v = elim (Bool-cases (leb capacity (length swept))) [
  | inl c ↦ rw c (record {
    challenge_map = swept-map;
    lease_map = sweep-IsMap (is_ended now) s.nfts v.lease_map;
    single = swept-single;
    few_challenges = omega (arith, v.few_challenges, length-sweep_le (is_spent now) s.challenges);
    few_leases = omega (arith, v.few_leases, length-sweep_le (is_ended now) s.nfts);
  })
  | inr c ↦ rw c (record {
    challenge_map =
        insert-IsMap the_nonce ch (sweep (is_of id) swept) (sweep-IsMap (is_of id) swept swept-map);
    lease_map = sweep-IsMap (is_ended now) s.nfts v.lease_map;
    single = insert-IsSingle id the_nonce ch swept swept-map own swept-single;
    few_challenges = omega (
      arith,
      room c,
      length-insert_le the_nonce ch (sweep (is_of id) swept),
      length-sweep_le (is_of id) swept,
    );
    few_leases = omega (arith, v.few_leases, length-sweep_le (is_ended now) s.nfts);
  })
]
  where
    swept : Table String Challenge
    swept = sweep (is_spent now) s.challenges

    swept-map : IsMap swept
    swept-map = sweep-IsMap (is_spent now) s.challenges v.challenge_map

    swept-single : IsSingle swept
    swept-single =
        IsPart-IsSingle swept s.challenges
          (sweep-IsPart (is_spent now) s.challenges v.challenge_map) v.single

    room : leb capacity (length swept) ≡ false → length swept < capacity
    room c = ground arith

make_challenge-IsTidy :
    (t : Wallets) (cs : List Collection) (s : Leases) (id : String) (r : Option WalletRequest)
    (the_nonce : Option String) (now : ℕ)
    → IsTidy s
    → IsTidy (make_challenge t cs s id r the_nonce now).1
unfolding make_challenge
make_challenge-IsTidy t cs s id none the_nonce now v = v
make_challenge-IsTidy t cs s id (some r) the_nonce now v =
    elim (Bool-cases
      (ltb (t.len r.address) 3 || (ltb 100 (t.len r.address) || ltb 128 (t.len r.token)))) [
        | inl e ↦ rw e v
        | inr e ↦ rw e (by_rule (find_rule r.rule none cs))
      ]
  where
    by_nonce : (rule : Collection) (o : Option String) → IsTidy (issue_nonce t s id r rule o now).1
    by_nonce rule none = unfold issue_nonce in v
    by_nonce rule (some n) = unfold issue_nonce in issue-IsTidy s id n _ now refl v

    by_refusal :
        (rule : Collection) (o : Option String)
        → IsTidy (refused_token t s id r rule the_nonce now o).1
    by_refusal rule (some why) = v
    by_refusal rule none = elim (Bool-cases (t.has_control r.address || t.has_control r.token)) [
      | inl e ↦ rw e v
      | inr e ↦ rw e (by_nonce rule the_nonce)
    ]

    by_rule : (o : Option Collection) → IsTidy (challenge_rule t s id r the_nonce now o).1
    by_rule none = unfold challenge_rule in v
    by_rule (some rule) =
        unfold challenge_rule in by_refusal rule (token_refusal t (chain t rule.network) r.token)

taken-IsTidy :
    (s : Leases) (id the_nonce : String) (o : Option Challenge)
    → IsTidy s
    → IsTidy (taken s id the_nonce o)
unfolding taken
taken-IsTidy s id the_nonce none v = v
taken-IsTidy s id the_nonce (some ch) v = elim (Bool-cases (ch.session == id)) [
  | inl e ↦ rw e (record {
    challenge_map = delete-IsMap the_nonce s.challenges v.challenge_map;
    lease_map = v.lease_map;
    single =
        IsPart-IsSingle (delete the_nonce s.challenges) s.challenges
          (delete-IsPart the_nonce s.challenges) v.single;
    few_challenges = omega (arith, v.few_challenges, length-delete_le the_nonce s.challenges);
    few_leases = v.few_leases;
  })
  | inr e ↦ rw e v
]

begin_proof-IsTidy :
    (s : Leases) (id : String) (body : Option String) (now : ℕ)
    → IsTidy s
    → IsTidy (begin_proof s id body now).1.1
unfolding begin_proof
begin_proof-IsTidy s id none now v = v
begin_proof-IsTidy s id (some n) now v = by_challenge (provable id now (lookup n s.challenges))
  where
    by_challenge :
        (o : Option Challenge) → IsTidy (proof_begun (taken s id n (lookup n s.challenges)) o).1.1
    by_challenge none = taken-IsTidy s id n (lookup n s.challenges) v
    by_challenge (some ch) = taken-IsTidy s id n (lookup n s.challenges) v

lease-IsTidy :
    (s : Leases) (id : String) (ch : Challenge) (seconds now : ℕ)
    → IsTidy s
    → IsTidy (lease s id ch seconds now).1
unfolding lease
lease-IsTidy s id ch seconds now v = elim (Bool-cases (leb capacity (length s.nfts))) [
  | inl e ↦ rw e v
  | inr e ↦ rw e (record {
    challenge_map = v.challenge_map;
    lease_map = insert-IsMap id _ s.nfts v.lease_map;
    single = v.single;
    few_challenges = v.few_challenges;
    few_leases = omega (arith, room e, length-insert_le id _ s.nfts);
  })
]
  where
    room : leb capacity (length s.nfts) ≡ false → length s.nfts < capacity
    room c = ground arith

finish_proof-IsTidy :
    (s : Leases) (id : String) (ch : Challenge) (proof : Option Proof) (is_approved : Bool)
    (seconds now : ℕ)
    → IsTidy s
    → IsTidy (finish_proof s id ch proof is_approved seconds now).1
unfolding finish_proof finish_screened
finish_proof-IsTidy s id ch none is_approved seconds now v = v
finish_proof-IsTidy s id ch (some p) true seconds now v = elim (Bool-cases (is_owner ch p)) [
  | inl e ↦ rw e (lease-IsTidy s id ch seconds now v)
  | inr e ↦ rw e v
]
finish_proof-IsTidy s id ch (some p) false seconds now v = elim (Bool-cases (is_owner ch p)) [
  | inl e ↦ rw e v
  | inr e ↦ rw e v
]

-- One stretch of a request under the mutex.
pub data Step (s : Leases) : Leases → Type 0 where
  asks :
      (t : Wallets) (cs : List Collection) (id : String) (r : Option WalletRequest)
      (n : Option String) (now : ℕ)
      → Step s (make_challenge t cs s id r n now).1
  answers : (id : String) (body : Option String) (now : ℕ) → Step s (begin_proof s id body now).1.1
  proves :
      (id : String) (ch : Challenge) (proof : Option Proof) (is_approved : Bool) (seconds now : ℕ)
      → Step s (finish_proof s id ch proof is_approved seconds now).1

pub data Reach : Leases → Type 0 where
  opened : Reach (record { challenges = []; nfts = [] })
  next : {s t : Leases} → Reach s → Step s t → Reach t

Step-IsTidy : (s t : Leases) → Step s t → IsTidy s → IsTidy t
Step-IsTidy s _ (asks t cs id r n now) v = make_challenge-IsTidy t cs s id r n now v
Step-IsTidy s _ (answers id body now) v = begin_proof-IsTidy s id body now v
Step-IsTidy s _ (proves id ch proof is_approved seconds now) v =
    finish_proof-IsTidy s id ch proof is_approved seconds now v

-- Whatever sessions asked for challenges and answered them, in any order and at any times, with any
-- answers of the gateway and the policy service: a session has at most one outstanding challenge,
-- and there are at most 10000 challenges and 10000 leases.
pub Reach-IsTidy : (s : Leases) → Reach s → IsTidy s
Reach-IsTidy _ opened = record {
  challenge_map = tt;
  lease_map = tt;
  single = λ a b x y e f h. absurd (nothing a x e);
  few_challenges = omega arith;
  few_leases = omega arith;
}
  where
    nothing : (a : String) (x : Challenge) → lookup a [] ≡ some x → ⊥
    nothing a x e = unfold lookup in cc
Reach-IsTidy t (next {s} r p) = Step-IsTidy s t p (Reach-IsTidy s r)

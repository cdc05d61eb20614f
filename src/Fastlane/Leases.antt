-- ===== src/Fastlane/Leases.antt =====
-- internal/fastlane/service.go: the NFT leases of makeChallenge and proveNFT, and Eligible. Each
-- stretch under the service's mutex is one step. The gateway's and the policy service's answers, the
-- random the_nonce and the reading of the request's JSON are arguments. Times are nanoseconds.
pub mod Challenges
pub mod Laws
use concert.Prelude.{
  ℕ, ◌+◌, ◌*◌, Bool, true, false, not, ◌&&◌, ◌||◌, Option, none, some, List, [], ◌∷◌, String, ◌==◌,
  string_eq, ltb, leb, if◌then◌else◌, length,
}
use concert.Prelude.Table.{Table, lookup, insert, delete, sweep}
use concert.Ledger.{Receipt, Ledger, get, healthy}
use concert.Fastlane.{Collection, second}

pub record Challenge : Type 0 where
  pub session : String
  pub rule : Collection
  pub address : String
  pub token : String
  pub message : String
  pub expires : ℕ

pub record NftLease : Type 0 where
  pub network : String
  pub payer : String
  pub rule : String
  pub expires : ℕ

-- The maps of the service.
pub record Leases : Type 0 where
  pub challenges : Table String Challenge
  pub nfts : Table String NftLease

pub data Answer : Type 0 where
  challenged : String → String → ℕ → Answer
  leased : ℕ → Answer
  failure : ℕ → String → Answer

abbrev pub capacity : ℕ
capacity = 10000

-- The body of /nft/challenge.
pub record WalletRequest : Type 0 where
  pub rule : String
  pub address : String
  pub token : String

-- What the checks take of strings and regexp, and the message to sign.
pub record Wallets : Type 0 where
  pub len : String → ℕ
  pub before : String → String → String
  pub is_sol_address : String → Bool
  pub has_control : String → Bool
  pub message : Collection → String → String → String → String → ℕ → ℕ → String

-- The last collection with the id.
unfoldable pub find_rule : String → Option Collection → List Collection → Option Collection
find_rule id found [] = found
find_rule id found (x ∷ xs) = find_rule id (if x.id == id then some x else found) xs

-- config.go: chain, the part of the network before the colon
abbrev pub chain : Wallets → String → String
chain t network = t.before network ":"

-- The refusal of a token that the chain does not take.
unfoldable pub token_refusal : Wallets → String → String → Option String
token_refusal t network token =
    if (network == "solana") && not (t.is_sol_address token)
    then some "nft_mint_required"
    else if (network == "stellar") && not (token == "")
    then some "token_not_supported_for_collection"
    else none

abbrev pub is_spent : ℕ → String → Challenge → Bool
is_spent now the_nonce ch = not (ltb now ch.expires)

abbrev pub is_ended : ℕ → String → NftLease → Bool
is_ended now id x = not (ltb now x.expires)

abbrev pub is_of : String → String → Challenge → Bool
is_of id the_nonce ch = ch.session == id

-- makeChallenge under the mutex.
unfoldable pub issue : Leases → String → String → Challenge → ℕ → Answer × Leases
issue s id the_nonce ch now =
    let challenges = sweep (is_spent now) s.challenges in
    let nfts = sweep (is_ended now) s.nfts in
    if leb capacity (length challenges)
    then (failure 503 "challenge_capacity", record { challenges = challenges; nfts = nfts })
    else (
      challenged the_nonce ch.message ch.expires,
      record { challenges = insert the_nonce ch (sweep (is_of id) challenges); nfts = nfts },
    )

unfoldable pub issue_nonce :
    Wallets → Leases → String → WalletRequest → Collection → Option String → ℕ → Answer × Leases
unfolding issue
issue_nonce t s id r rule none now = (failure 503 "entropy_unavailable", s)
issue_nonce t s id r rule (some the_nonce) now =
    let expires = now + 120 * second in
    issue s id the_nonce
      (record {
        session = id;
        rule = rule;
        address = r.address;
        token = r.token;
        message = t.message rule r.address r.token id the_nonce now expires;
        expires = expires;
      })
      now

abbrev pub refused_token :
    Wallets
    → Leases
    → String
    → WalletRequest
    → Collection
    → Option String
    → ℕ
    → Option String
    → Answer × Leases
refused_token t s id r rule the_nonce now (some why) = (failure 400 why, s)
refused_token t s id r rule the_nonce now none =
    if t.has_control r.address || t.has_control r.token
    then (failure 400 "invalid_wallet_request", s)
    else issue_nonce t s id r rule the_nonce now

unfoldable pub challenge_rule :
    Wallets
    → Leases
    → String
    → WalletRequest
    → Option String
    → ℕ
    → Option Collection
    → Answer × Leases
unfolding issue_nonce token_refusal
challenge_rule t s id r the_nonce now none = (failure 400 "unknown_collection_rule", s)
challenge_rule t s id r the_nonce now (some rule) =
    refused_token t s id r rule the_nonce now (token_refusal t (chain t rule.network) r.token)

-- makeChallenge
unfoldable pub make_challenge :
    Wallets
    → List Collection
    → Leases
    → String
    → Option WalletRequest
    → Option String
    → ℕ
    → Answer × Leases
unfolding challenge_rule find_rule
make_challenge t collections s id none the_nonce now = (failure 400 "invalid_wallet_request", s)
make_challenge t collections s id (some r) the_nonce now =
    if ltb (t.len r.address) 3 || (ltb 100 (t.len r.address) || ltb 128 (t.len r.token))
    then (failure 400 "invalid_wallet_request", s)
    else challenge_rule t s id r the_nonce now (find_rule r.rule none collections)

-- The gateway's answer to /nft/verify.
pub record Proof : Type 0 where
  pub valid : Bool
  pub owner : String
  pub network : String
  pub collection : String
  pub token : String

-- proveNFT under its first lock: a challenge of the session itself is taken out, used or not.
unfoldable pub taken : Leases → String → String → Option Challenge → Leases
taken s id the_nonce none = s
taken s id the_nonce (some ch) =
    if ch.session == id then record s { challenges = delete the_nonce s.challenges } else s

-- The challenge to prove, or the refusal.
unfoldable pub provable : String → ℕ → Option Challenge → Option Challenge
provable id now none = none
provable id now (some ch) =
    if not (ch.session == id) || not (ltb now ch.expires) then none else some ch

abbrev pub proof_begun : Leases → Option Challenge → Option Challenge × (Option Answer × Leases)
proof_begun s none = (none, (some (failure 401 "challenge_expired_or_used"), s))
proof_begun s (some ch) = (some ch, (none, s))

-- proveNFT up to the gateway's call: what waits for it, the refusal, and the maps. `body` is the nonce,
-- with none where the JSON or a length is refused.
unfoldable pub begin_proof :
    Leases → String → Option String → ℕ → Option Challenge × (Option Answer × Leases)
unfolding taken provable
begin_proof s id none now = (none, (some (failure 400 "invalid_proof"), s))
begin_proof s id (some the_nonce) now =
    let found = lookup the_nonce s.challenges in
    proof_begun (taken s id the_nonce found) (provable id now found)

-- The test of the proof.
unfoldable pub is_owner : Challenge → Proof → Bool
is_owner ch proof =
    proof.valid
    && ((proof.owner == ch.address)
        && ((proof.network == ch.rule.network)
            && ((proof.collection == ch.rule.collection)
                && ((ch.token == "") || (proof.token == ch.token)))))

-- proveNFT under its second lock.
unfoldable pub lease : Leases → String → Challenge → ℕ → ℕ → Answer × Leases
lease s id ch pass_seconds now =
    let expires = now + pass_seconds * second in
    if leb capacity (length s.nfts) then (failure 503 "lease_capacity", s) else (
      leased expires,
      record s {
        nfts =
            insert id
              (record {
                network = ch.rule.network;
                payer = ch.address;
                rule = ch.rule.id;
                expires = expires;
              })
              s.nfts;
      },
    )

unfoldable pub finish_screened : Leases → String → Challenge → Bool → ℕ → ℕ → Answer × Leases
unfolding lease
finish_screened s id ch is_approved pass_seconds now =
    if not is_approved
    then (failure 403 "policy_not_approved", s)
    else lease s id ch pass_seconds now

-- proveNFT from the gateway's answer on; `is_approved` is what screen returns.
unfoldable pub finish_proof :
    Leases → String → Challenge → Option Proof → Bool → ℕ → ℕ → Answer × Leases
unfolding finish_screened is_owner
finish_proof s id ch none is_approved pass_seconds now =
    (failure 503 "nft_verification_unavailable", s)
finish_proof s id ch (some proof) is_approved pass_seconds now =
    if not (is_owner ch proof)
    then (failure 403 "ownership_not_verified", s)
    else finish_screened s id ch is_approved pass_seconds now

-- The policy service's answer.
pub record Assessment : Type 0 where
  pub decision : String
  pub id : String
  pub expires : ℕ

-- screen: `answer` is what the call returns; the result is the assessment's id
unfoldable pub screen : String → Bool → Option Assessment → ℕ → Option String
screen policy_url test_mode answer now =
    if (policy_url == "") && test_mode then some "test-mode-no-screening" else elim answer [
      | none ↦ none
      | some a ↦
          if not (a.decision == "allow")
            || ((a.id == "") || (not (ltb now a.expires) || ltb (now + 600 * second) a.expires))
          then none
          else some a.id
    ]

abbrev pub has_lease : Option NftLease → ℕ → Bool
has_lease none now = false
has_lease (some x) now = ltb now x.expires

module _ {J : Type 0} where
  abbrev pub is_paid : Option (Receipt J) → ℕ → Bool
  is_paid none now = false
  is_paid (some x) now = (x.state == "settled") && ltb now x.expires

  -- Eligible; `session` is what session returns, none where the token is refused
  unfoldable pub eligible : Ledger J → Leases → Option String → ℕ → Bool
  eligible l s session now = elim session [
    | none ↦ false
    | some id ↦ healthy l && (is_paid (get l id) now || has_lease (lookup id s.nfts) now)
  ]

-- ===== src/Priority/Grants.antt =====
-- priority.go: priorityGrants, which signs, verifies and issues the concert_priority cookie. Each
-- grant is bound to an admission pass. Times are nanoseconds since 1970.
pub mod Laws
pub mod Ranks
use concert.Prelude.{
  ℕ, ◌+◌, ◌*◌, ◌/◌, ◌%◌, ◌^◌, Bool, true, false, not, ◌&&◌, ◌||◌, Option, none, some, List, [], ◌∷◌,
  ◌++◌, String, ◌==◌, ltb, leb, nat_beq, if◌then◌else◌, length, take, drop,
}
use concert.Int64.{slt}
use concert.Bytes.{bytes_beq, bytes_eq, put_be, get_be, Crypto}
use concert.Passes.{Admitter, AdmitOpts, Verdict, PassStatus, is_pass_valid, verify}
use concert.Priority.{second, rank_guest, rank_count, Text, parse_priority_header}

abbrev pub grant_rank_off : ℕ
grant_rank_off = 16

abbrev pub grant_exp_off : ℕ
grant_exp_off = 17

abbrev pub grant_body_len : ℕ
grant_body_len = 25

abbrev pub grant_mac_len : ℕ
grant_mac_len = 16

abbrev pub grant_raw_len : ℕ
grant_raw_len = 41

-- "concert/priority/grant-key"
abbrev pub grant_key_message : List ℕ
grant_key_message =
    b'c' ∷ b'o' ∷ b'n' ∷ b'c' ∷ b'e' ∷ b'r' ∷ b't' ∷ b'/' ∷ b'p' ∷ b'r' ∷ b'i' ∷ b'o' ∷ b'r' ∷ b'i'
    ∷ b't' ∷ b'y' ∷ b'/' ∷ b'g' ∷ b'r' ∷ b'a' ∷ b'n' ∷ b't' ∷ b'-' ∷ b'k' ∷ b'e' ∷ b'y' ∷ []

pub record PriorityGrants : Type 0 where
  pub key : List ℕ
  pub issued : ℕ
  pub cleared : ℕ
  pub rejected : ℕ

abbrev pub new_priority_grants : Crypto → List ℕ → PriorityGrants
new_priority_grants c secret = record {
  key = c.mac secret grant_key_message;
  issued = 0;
  cleared = 0;
  rejected = 0;
}

-- mac
abbrev pub grant_mac : Crypto → List ℕ → List ℕ → List ℕ
grant_mac c key body = take grant_mac_len (c.mac key body)

-- The first 25 bytes of a grant; the rank is a byte, `exp` a time.
abbrev pub grant_body : List ℕ → ℕ → ℕ → List ℕ
grant_body id rank exp = id ++ (rank % 256) ∷ [] ++ put_be 8 (exp / second)

-- mint
unfoldable pub mint_grant : Crypto → List ℕ → List ℕ → ℕ → ℕ → List ℕ
mint_grant c key id rank exp =
    c.encode (grant_body id rank exp ++ grant_mac c key (grant_body id rank exp))

abbrev pub first_byte : List ℕ → ℕ
first_byte [] = 0
first_byte (b ∷ bs) = b

-- verify once the value is decoded; none: (rankGuest, false). The expiry is compared as an int64.
unfoldable pub verify_grant_raw : Crypto → List ℕ → List ℕ → ℕ → List ℕ → Option ℕ
verify_grant_raw c key id now buf =
    let rank = first_byte (drop grant_rank_off buf) in
    if not (drop grant_body_len buf == grant_mac c key (take grant_body_len buf))
    then none
    else if not (take 16 buf == id)
    then none
    else if leb rank_count rank
        || not (slt (now / second) (get_be 0 (take 8 (drop grant_exp_off buf))))
    then none
    else some rank

unfoldable pub verify_grant_decoded : Crypto → List ℕ → List ℕ → ℕ → Option (List ℕ) → Option ℕ
unfolding verify_grant_raw
verify_grant_decoded c key id now none = none
verify_grant_decoded c key id now (some buf) =
    if nat_beq (length buf) grant_raw_len then verify_grant_raw c key id now buf else none

-- verify
unfoldable pub verify_grant : Crypto → List ℕ → List ℕ → List ℕ → ℕ → Option ℕ
unfolding verify_grant_decoded
verify_grant c key value id now =
    if not (nat_beq (c.decoded_len (length value)) grant_raw_len)
    then none
    else verify_grant_decoded c key id now (c.decode value)

abbrev pub rank_or_guest : Option ℕ → ℕ
rank_or_guest none = rank_guest
rank_or_guest (some rank) = rank

unfoldable pub rank_of_pass : Crypto → List ℕ → Verdict → List ℕ → ℕ → ℕ
unfolding verify_grant
rank_of_pass c key v value now =
    if not (is_pass_valid v.status)
    then rank_guest
    else rank_or_guest (verify_grant c key value v.id now)

-- rankOf: `grant` and `admit` are the values of the two cookies, where the request has them.
unfoldable pub rank_of : Crypto → List ℕ → Admitter → Option (List ℕ) → Option (List ℕ) → ℕ → ℕ
unfolding rank_of_pass
rank_of c key a none admit now = rank_guest
rank_of c key a (some []) admit now = rank_guest
rank_of c key a (some (x ∷ xs)) none now = rank_guest
rank_of c key a (some (x ∷ xs)) (some admit) now =
    rank_of_pass c key (verify c a admit now) (x ∷ xs) now

-- admitter.valid
unfoldable pub valid : Crypto → Admitter → Option (List ℕ) → ℕ → Bool
valid c a none now = false
valid c a (some admit) now = is_pass_valid (verify c a admit now).status

-- What modifyResponse sets: concert_priority with its lifetime, or its removal (MaxAge = -1).
pub data GrantCookie : Type 0 where
  clears : GrantCookie
  grants : List ℕ → ℕ → GrantCookie

unfoldable pub granted :
    Crypto → PriorityGrants → List ℕ → ℕ → Option (ℕ × ℕ) → Option GrantCookie × PriorityGrants
unfolding mint_grant
granted c g id now none = (none, record g { rejected = g.rejected + 1 })
granted c g id now (some (rank, ttl)) =
    if nat_beq rank rank_guest then (some clears, record g { cleared = g.cleared + 1 }) else (
      some (grants (mint_grant c g.key id rank (now + ttl)) (ttl / second)),
      record g { issued = g.issued + 1 },
    )

abbrev pub last_or : List ℕ → List (List ℕ) → List ℕ
last_or v [] = v
last_or v (w ∷ ws) = last_or w ws

-- modifyResponse: `id` is the pass of a page response, `values` the response's Concert-Priority
-- headers, which are removed in any case. The log of bad values is left out.
unfoldable pub modify_response :
    Crypto
    → Text
    → PriorityGrants
    → Option (List ℕ)
    → ℕ
    → List (List ℕ)
    → Option GrantCookie × PriorityGrants
unfolding granted
modify_response c t g id now [] = (none, g)
modify_response c t g none now (v ∷ vs) = (none, g)
modify_response c t g (some id) now (v ∷ vs) =
    granted c g id now (parse_priority_header t (last_or v vs))

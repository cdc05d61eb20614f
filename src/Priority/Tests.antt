-- ===== src/Priority/Tests.antt =====
-- Grants, headers and the gate at concrete keys, times and requests.
use concert.Prelude.{
  ℕ, ◌+◌, ◌*◌, ◌/◌, ◌≡◌, ◌⊎◌, refl, Bool, true, false, ◌&&◌, Option, none, some, List, [], ◌∷◌,
  ◌==◌, ltb, leb, if◌then◌else◌, arith, replicate,
}
use concert.Bytes.{IsBytes, Crypto, IsCrypto, bytes_eq, bytes_beq}
use concert.Bytes.Toy.{toy, toy-IsCrypto, replicate-IsBytes}
use concert.Passes.{Admitter, new_admitter, mint, verify, pass_valid}
use concert.Passes.Roundtrip.{IsPassId}
use concert.Priority.{
  second, rank_guest, rank_customer, Text, IsText, parse_priority_header, PrioritySettings,
}
use concert.Priority.Header.{IsGrant, parse_priority_header-IsGrant}
use concert.Priority.Grants.{
  PriorityGrants, new_priority_grants, mint_grant, verify_grant, rank_of, grants, modify_response,
  last_or,
}
use concert.Priority.Grants.Laws.{verify_grant-mint_grant}
use concert.Priority.Grants.Ranks.{IsRanked, rank_of-IsRanked, rank_of-modify_response}
use concert.Priority.Gate.{
  PageRequest, Answers, PriorityState, new_priority_state, over_lane, to_room, priority_gate,
  gate_rank, is_lane_form,
}
use concert.Priority.Gate.Laws.{
  is_kept_form, priority_gate-kept_form, IsLaneRanked, priority_gate-over_lane,
}

-- Texts in lower case and with no spaces; one duration.
abbrev plain : Text
plain = record {
  trim = λ v. v;
  lower = λ v. v;
  equal_fold = bytes_beq;
  atoi = λ v. none;
  parse_duration = λ v. some 7200000000000;
}

plain-IsText : IsText plain
plain-IsText = record { duration_fits = λ v d e. omega (arith, fits d e) }
  where
    fits : (d : ℕ) → some 7200000000000 ≡ some d → 7200000000000 ≡ d
    fits d e = cc

-- "staff;ttl=2h"
abbrev header : List ℕ
header = b's' ∷ b't' ∷ b'a' ∷ b'f' ∷ b'f' ∷ b';' ∷ b't' ∷ b't' ∷ b'l' ∷ b'=' ∷ b'2' ∷ b'h' ∷ []

header_staff : parse_priority_header plain header ≡ some (6, 7200000000000)
unfolding parse_priority_header bytes_beq concert.Int64.slt
header_staff = refl

parse_priority_header-IsGrant_example : IsGrant plain header 6 7200000000000
parse_priority_header-IsGrant_example =
    parse_priority_header-IsGrant plain header 6 7200000000000 plain-IsText header_staff

abbrev start : ℕ
start = 1700000000 * second

abbrev admitter : Admitter
admitter =
    new_admitter toy (1 ∷ 2 ∷ [])
      (record { ttl = 3600 * second; path = "/"; domain = ""; is_secure = true })

abbrev lane_grants : PriorityGrants
lane_grants = new_priority_grants toy (1 ∷ 2 ∷ [])

abbrev visitor : List ℕ
visitor = replicate 16 7

visitor-IsPassId : IsPassId visitor
visitor-IsPassId = record { id_length = refl; id_bytes = replicate-IsBytes 16 7 (omega arith) }

verify_grant-mint_grant_run :
    verify_grant toy lane_grants.key
      (mint_grant toy lane_grants.key visitor 6 (start + 60 * second))
      (replicate 16 8)
      start
    ≡ (if (visitor == replicate 16 8) && ltb start ((start + 60 * second) / second * second)
        then some 6
        else none)
verify_grant-mint_grant_run =
    verify_grant-mint_grant toy lane_grants.key visitor (replicate 16 8) 6 (start + 60 * second)
      start toy-IsCrypto visitor-IsPassId (omega arith) (omega arith) (omega arith)

abbrev pass : List ℕ
pass = mint toy admitter visitor start

abbrev staff_grant : List ℕ
staff_grant = mint_grant toy lane_grants.key visitor 6 (start + 60 * second)

staff_ranked : rank_of toy lane_grants.key admitter (some staff_grant) (some pass) start ≡ 6
unfolding rank_of mint_grant concert.Bytes.put_be verify mint bytes_beq concert.Bytes.get_be
    concert.Int64.slt
staff_ranked = refl

rank_of-IsRanked_example :
    IsRanked toy lane_grants.key admitter
      (some staff_grant)
      (some pass)
      (rank_of toy lane_grants.key admitter (some staff_grant) (some pass) start)
      start
rank_of-IsRanked_example =
    rank_of-IsRanked toy lane_grants.key admitter (some staff_grant) (some pass) start
      (λ e. absurd (omega (arith, staff_ranked, e)))

pass-valid : (verify toy admitter pass start).status ≡ pass_valid
unfolding verify mint concert.Bytes.put_be bytes_beq concert.Bytes.get_be
pass-valid = refl

pass-id : (verify toy admitter pass start).id ≡ visitor
unfolding verify mint concert.Bytes.put_be bytes_beq concert.Bytes.get_be
pass-id = refl

rank_of-modify_response_example :
    (value : List ℕ) × (((modify_response toy plain lane_grants
          (some visitor)
          start
          (header ∷ [])).0
        ≡ some (grants value (7200000000000 / second)))
      × (rank_of toy lane_grants.key admitter (some value) (some pass) start
          ≡ (if ltb start ((start + 7200000000000) / second * second) then 6 else rank_guest)))
rank_of-modify_response_example =
    rank_of-modify_response toy plain lane_grants admitter visitor pass header [] 6 7200000000000
      start start toy-IsCrypto visitor-IsPassId header_staff (λ e. absurd (omega (arith, e)))
      (omega arith) (omega arith) (omega arith) (omega arith) pass-valid pass-id

abbrev settings : PrioritySettings
settings = record {
  capacity = 100;
  priority_cap = 0;
  priority_wait = second;
  priority_lane_rank = rank_customer;
  priority_forms = true;
}

-- A submission of a visitor who holds a pass, with or without the grant of staff.
abbrev submission : Option (List ℕ) → PageRequest
submission grant = record {
  has_route = false;
  is_form = true;
  is_eligible = false;
  grant = grant;
  admit = some pass;
  ticket = none;
}

abbrev busy : Bool → Answers
busy has_slot = record {
  is_busy = true;
  has_slot = has_slot;
  is_admitted = false;
  issued = [];
  position = λ t. 0;
  promoted = false;
}

abbrev state : PriorityState
state = new_priority_state lane_grants

staff_queued :
    (priority_gate toy admitter settings state (submission (some staff_grant)) (busy false) start).0
    ≡ to_room
unfolding priority_gate rank_of mint_grant verify mint concert.Bytes.put_be bytes_beq
    concert.Bytes.get_be concert.Int64.slt concert.Priority.Grants.valid
staff_queued = refl

priority_gate-kept_form_example :
    is_kept_form
      (leb settings.priority_lane_rank
        (gate_rank toy admitter lane_grants (submission (some staff_grant)) start))
      (is_lane_form toy admitter settings (submission (some staff_grant)) start)
      false
      true
    ≡ false
priority_gate-kept_form_example =
    priority_gate-kept_form toy admitter settings state (submission (some staff_grant)) (busy false)
      start refl refl staff_queued

staff_over_lane :
    (priority_gate toy admitter settings state (submission (some staff_grant)) (busy true) start).0
    ≡ over_lane
unfolding priority_gate rank_of mint_grant verify mint concert.Bytes.put_be bytes_beq
    concert.Bytes.get_be concert.Int64.slt
staff_over_lane = refl

priority_gate-over_lane_example :
    ((true ≡ true) × (true ≡ true))
    × ((false ≡ true)
        ⊎ ((is_lane_form toy admitter settings (submission (some staff_grant)) start ≡ true)
            ⊎ IsLaneRanked toy admitter settings state (submission (some staff_grant)) start))
priority_gate-over_lane_example =
    priority_gate-over_lane toy admitter settings state (submission (some staff_grant)) (busy true)
      start (omega arith) staff_over_lane

-- ===== src/Priority/Gate.antt =====
-- priority.go: priorityGate, which runs ahead of room's middleware on every page request. What room,
-- the lane, the fast lane and the later handlers answer is an argument; what the gate leaves the
-- request to is its passage. The lane's slot is released when the passage ends.
pub mod Laws
use concert.Prelude.{
  ℕ, ◌+◌, Bool, true, false, not, ◌&&◌, ◌||◌, Option, none, some, List, [], ◌∷◌, ◌==◌, ltb, leb,
  nat_beq, if◌then◌else◌,
}
use concert.Bytes.{bytes_eq, Crypto}
use concert.Passes.{Admitter}
use concert.Priority.{PrioritySettings, rank_guest, rank_customer}
use concert.Priority.Grants.{PriorityGrants, rank_of, valid}
use concert.Priority.Line.{RankedLine, place}

-- What the gate reads of a request. `is_form`: the method is neither GET nor HEAD; `has_route`: one
-- of the registered routes matches; `is_eligible`: fastlane.Eligible, false with no fast lane.
pub record PageRequest : Type 0 where
  pub has_route : Bool
  pub is_form : Bool
  pub is_eligible : Bool
  pub grant : Option (List ℕ)
  pub admit : Option (List ℕ)
  pub ticket : Option (List ℕ)

-- What the others answer: room (`is_busy` is roomBusy), the lane's acquire, and after c.Next the
-- gate's own context and the ticket that the response set (empty: none), then room once more.
pub record Answers : Type 0 where
  pub is_busy : Bool
  pub has_slot : Bool
  pub is_admitted : Bool
  pub issued : List ℕ
  pub position : List ℕ → ℕ
  pub promoted : Bool

-- priorityState, with the grants
pub record PriorityState : Type 0 where
  pub grants : PriorityGrants
  pub line : RankedLine
  pub requests : ℕ → ℕ
  pub lane_served : ℕ
  pub lane_full : ℕ
  pub placed : ℕ
  pub forms : ℕ
  pub forms_refused : ℕ

-- Registered routes, the page itself over the lane, the two answers 503, or room's line.
pub data Passage : Type 0 where
  elsewhere : Passage
  over_lane : Passage
  refused_paid : Passage
  refused_form : Passage
  to_room : Passage

-- newPriorityState
abbrev pub new_priority_state : PriorityGrants → PriorityState
new_priority_state grants = record {
  grants = grants;
  line = [];
  requests = λ rank. 0;
  lane_served = 0;
  lane_full = 0;
  placed = 0;
  forms = 0;
  forms_refused = 0;
}

abbrev pub counted : ℕ → (ℕ → ℕ) → ℕ → ℕ
counted rank requests r = if nat_beq rank r then requests r + 1 else requests r

-- The rank from the cookies, at least customer for a paid pass.
unfoldable pub gate_rank : Crypto → Admitter → PriorityGrants → PageRequest → ℕ → ℕ
gate_rank c a g r now =
    let rank = rank_of c g.key a r.grant r.admit now in
    if r.is_eligible && ltb rank rank_customer then rank_customer else rank

-- A form that may use the lane.
unfoldable pub is_lane_form : Crypto → Admitter → PrioritySettings → PageRequest → ℕ → Bool
is_lane_form c a cfg r now = cfg.priority_forms && (r.is_form && valid c a r.admit now)

abbrev pub token_of : PageRequest → Answers → List ℕ
token_of r answers =
    if not (answers.issued == []) then answers.issued else elim r.ticket [ none ↦ [] | some t ↦ t ]

unfoldable pub placed_state : PriorityState → ℕ → List ℕ → Answers → PriorityState
placed_state s rank token answers =
    let moved = place answers.position answers.promoted token rank s.line in
    record s { line = moved.1; placed = if moved.0 then s.placed + 1 else s.placed }

-- From c.Next on.
unfoldable pub after_room : PriorityState → ℕ → PageRequest → Answers → PriorityState
unfolding placed_state
after_room s rank r answers =
    if nat_beq rank rank_guest || answers.is_admitted
    then s
    else if token_of r answers == []
    then s
    else placed_state s rank (token_of r answers) answers

-- The lane once it is tried: `has_rank` is rank >= laneRank.
unfoldable pub try_lane :
    PriorityState → ℕ → Bool → Bool → PageRequest → Answers → Passage × PriorityState
unfolding after_room
try_lane s rank has_rank form r answers =
    let full = record s { lane_full = s.lane_full + 1 } in
    if answers.has_slot
    then (
      over_lane,
      record s {
        lane_served = s.lane_served + 1;
        forms = if form && not has_rank then s.forms + 1 else s.forms;
      },
    )
    else if r.is_eligible && r.is_form
    then (refused_paid, full)
    else if form && not has_rank
    then (refused_form, record full { forms_refused = s.forms_refused + 1 })
    else (to_room, after_room full rank r answers)

unfoldable pub gate_ranked :
    PriorityState → PrioritySettings → ℕ → Bool → PageRequest → Answers → Passage × PriorityState
unfolding try_lane after_room
gate_ranked s cfg rank form r answers =
    let has_rank = leb cfg.priority_lane_rank rank in
    if answers.is_busy && (has_rank || form || r.is_eligible)
    then try_lane s rank has_rank form r answers
    else (to_room, after_room s rank r answers)

-- priorityGate
unfoldable pub priority_gate :
    Crypto
    → Admitter
    → PrioritySettings
    → PriorityState
    → PageRequest
    → Answers
    → ℕ
    → Passage × PriorityState
unfolding gate_ranked gate_rank is_lane_form
priority_gate c a cfg s r answers now =
    let rank = gate_rank c a s.grants r now in
    if r.has_route
    then (elsewhere, s)
    else gate_ranked (record s { requests = counted rank s.requests }) cfg rank
        (is_lane_form c a cfg r now) r answers

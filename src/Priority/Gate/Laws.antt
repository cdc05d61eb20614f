-- ===== src/Priority/Gate/Laws.antt =====
-- On priorityGate: which requests room's line gets, and whom the lane serves.
use concert.Prelude.{
  ℕ, ◌≤◌, ◌<◌, ◌≡◌, ◌⊎◌, inl, inr, refl, sym, ap, ◌∙◌, Bool, true, false, not, ◌&&◌, ◌||◌, leb,
  leb→le, if◌then◌else◌, Bool-cases, arith,
}
use concert.Bytes.{bytes_eq, Crypto}
use concert.Passes.{Admitter}
use concert.Priority.{PrioritySettings}
use concert.Priority.Grants.{PriorityGrants, rank_of}
use concert.Priority.Grants.Ranks.{IsRanked, rank_of-IsRanked}
use concert.Priority.Gate.{
  PageRequest, Answers, PriorityState, Passage, elsewhere, over_lane, refused_paid, refused_form,
  to_room, counted, gate_rank, is_lane_form, try_lane, gate_ranked, priority_gate,
}

-- Where a page request goes while the room is busy, from its rank (at least the lane's or not), whether
-- it is a form that may use the lane, and whether it has a paid pass.
abbrev pub expected : Bool → Bool → Bool → Bool → Bool → Passage
expected has_rank lane_form is_eligible is_form has_slot =
    if not (has_rank || lane_form || is_eligible)
    then to_room
    else if has_slot
    then over_lane
    else if is_eligible && is_form
    then refused_paid
    else if lane_form && not has_rank
    then refused_form
    else to_room

gate_ranked_busy :
    (s : PriorityState) (cfg : PrioritySettings) (rank : ℕ) (form : Bool) (r : PageRequest)
    (answers : Answers)
    → answers.is_busy ≡ true
    → (gate_ranked s cfg rank form r answers).0
      ≡ expected (leb cfg.priority_lane_rank rank) form r.is_eligible r.is_form answers.has_slot
unfolding gate_ranked try_lane
gate_ranked_busy s cfg rank form r answers b =
    elim (Bool-cases (leb cfg.priority_lane_rank rank || form || r.is_eligible)) [
      | inl l ↦
          rw (b, l)
            (elim (Bool-cases answers.has_slot) [
              | inl o ↦ rw o refl
              | inr o ↦ rw o (elim (Bool-cases (r.is_eligible && r.is_form)) [
                | inl e ↦ rw e refl
                | inr e ↦ rw e (elim (Bool-cases (form && not (leb cfg.priority_lane_rank rank))) [
                  | inl f ↦ rw f refl
                  | inr f ↦ rw f refl
                ])
              ])
            ])
      | inr l ↦ rw (b, l) refl
    ]

gate_ranked_calm :
    (s : PriorityState) (cfg : PrioritySettings) (rank : ℕ) (form : Bool) (r : PageRequest)
    (answers : Answers)
    → answers.is_busy ≡ false
    → (gate_ranked s cfg rank form r answers).0 ≡ to_room
unfolding gate_ranked
gate_ranked_calm s cfg rank form r answers b = rw b refl

gate_ranked_passage :
    (s : PriorityState) (cfg : PrioritySettings) (rank : ℕ) (form : Bool) (r : PageRequest)
    (answers : Answers)
    → (gate_ranked s cfg rank form r answers).0 ≡ (
        if answers.is_busy
        then expected
            (leb cfg.priority_lane_rank rank)
            form
            r.is_eligible
            r.is_form
            answers.has_slot
        else to_room)
gate_ranked_passage s cfg rank form r answers = elim (Bool-cases answers.is_busy) [
  | inl b ↦ gate_ranked_busy s cfg rank form r answers b ∙ rw b refl
  | inr b ↦ gate_ranked_calm s cfg rank form r answers b ∙ rw b refl
]

-- Where the gate sends a page request.
abbrev pub passage_of :
    Crypto → Admitter → PrioritySettings → PriorityState → PageRequest → Answers → ℕ → Passage
passage_of c a cfg s r answers now =
    if answers.is_busy
    then expected (leb cfg.priority_lane_rank (gate_rank c a s.grants r now))
        (is_lane_form c a cfg r now) r.is_eligible r.is_form answers.has_slot
    else to_room

gate_passage :
    (c : Crypto) (a : Admitter) (cfg : PrioritySettings) (s : PriorityState) (r : PageRequest)
    (answers : Answers) (now : ℕ)
    → r.has_route ≡ false
    → (priority_gate c a cfg s r answers now).0 ≡ passage_of c a cfg s r answers now
unfolding priority_gate
gate_passage c a cfg s r answers now n = rw n (
    gate_ranked_passage (record s { requests = counted (gate_rank c a s.grants r now) s.requests })
      cfg (gate_rank c a s.grants r now) (is_lane_form c a cfg r now) r answers)

-- A form that room's line must not get: with a paid pass, or one that may use the lane, of a visitor
-- below the lane's rank.
abbrev pub is_kept_form : Bool → Bool → Bool → Bool → Bool
is_kept_form has_rank lane_form is_eligible is_form =
    (is_eligible && is_form) || (lane_form && not has_rank)

to_room-is_kept_form :
    (has_rank lane_form is_eligible is_form has_slot : Bool)
    → expected has_rank lane_form is_eligible is_form has_slot ≡ to_room
    → is_kept_form has_rank lane_form is_eligible is_form ≡ false
to_room-is_kept_form h f e m o = ground arith

-- While the room is busy, room's line gets no form with a paid pass, and no form that may use the
-- lane (-priority-forms, and a valid admission pass) of a visitor below the lane's rank: it goes over
-- the lane, or is refused.
pub priority_gate-kept_form :
    (c : Crypto) (a : Admitter) (cfg : PrioritySettings) (s : PriorityState) (r : PageRequest)
    (answers : Answers) (now : ℕ)
    → r.has_route ≡ false
    → answers.is_busy ≡ true
    → (priority_gate c a cfg s r answers now).0 ≡ to_room
    → is_kept_form
        (leb cfg.priority_lane_rank (gate_rank c a s.grants r now))
        (is_lane_form c a cfg r now)
        r.is_eligible
        r.is_form
      ≡ false
priority_gate-kept_form c a cfg s r answers now n b t =
    to_room-is_kept_form (leb cfg.priority_lane_rank (gate_rank c a s.grants r now))
      (is_lane_form c a cfg r now) r.is_eligible r.is_form answers.has_slot
      (sym (rw b refl) ∙ sym (gate_passage c a cfg s r answers now n) ∙ t)

-- A page request that was ranked by its cookies, at least as the lane asks.
abbrev pub IsLaneRanked :
    Crypto → Admitter → PrioritySettings → PriorityState → PageRequest → ℕ → Type 0
IsLaneRanked c a cfg s r now =
    (cfg.priority_lane_rank ≤ rank_of c s.grants.key a r.grant r.admit now)
    × IsRanked c s.grants.key a r.grant r.admit (rank_of c s.grants.key a r.grant r.admit now) now

over_lane-entitled :
    (h f e m o : Bool)
    → expected h f e m o ≡ over_lane
    → (o ≡ true) × ((e ≡ true) ⊎ ((f ≡ true) ⊎ ((e ≡ false) × (h ≡ true))))
over_lane-entitled h f true m true p = (refl, inl refl)
over_lane-entitled h true false m true p = (refl, inr (inl refl))
over_lane-entitled true false false m true p = (refl, inr (inr (refl, refl)))
over_lane-entitled false false false m true p = cc
over_lane-entitled h f e m false p = absurd (ground arith)

unpaid_rank :
    (c : Crypto) (a : Admitter) (g : PriorityGrants) (r : PageRequest) (now : ℕ)
    → r.is_eligible ≡ false
    → gate_rank c a g r now ≡ rank_of c g.key a r.grant r.admit now
unfolding gate_rank
unpaid_rank c a g r now e = rw e refl

-- A page request goes over the lane only while the room is busy and the lane gives it a slot, and
-- only with a paid pass, as a form that may use the lane, or with a grant, of at least the lane's
-- rank, that is signed for its own signed admission pass; for any lane rank but 0.
pub priority_gate-over_lane :
    (c : Crypto) (a : Admitter) (cfg : PrioritySettings) (s : PriorityState) (r : PageRequest)
    (answers : Answers) (now : ℕ)
    → 0 < cfg.priority_lane_rank
    → (priority_gate c a cfg s r answers now).0 ≡ over_lane
    → ((answers.is_busy ≡ true) × (answers.has_slot ≡ true))
      × ((r.is_eligible ≡ true)
          ⊎ ((is_lane_form c a cfg r now ≡ true) ⊎ IsLaneRanked c a cfg s r now))
priority_gate-over_lane c a cfg s r answers now positive t = elim (Bool-cases r.has_route) [
  | inl n ↦ absurd (routed (unfold priority_gate in rw n refl))
  | inr n ↦ elim (Bool-cases answers.is_busy) [
    | inl b ↦ entitled b (
        over_lane-entitled (leb cfg.priority_lane_rank (gate_rank c a s.grants r now))
          (is_lane_form c a cfg r now) r.is_eligible r.is_form answers.has_slot
          (sym (rw b refl) ∙ sym (gate_passage c a cfg s r answers now n) ∙ t))
    | inr b ↦ absurd (apart (sym (rw b refl) ∙ sym (gate_passage c a cfg s r answers now n) ∙ t))
  ]
]
  where
    routed : (priority_gate c a cfg s r answers now).0 ≡ elsewhere → ⊥
    routed p = differs (sym p ∙ t)
      where
        differs : elsewhere ≡ over_lane → ⊥
        differs q = cc

    apart : to_room ≡ over_lane → ⊥
    apart q = cc

    ranked :
        r.is_eligible ≡ false
        → leb cfg.priority_lane_rank (gate_rank c a s.grants r now) ≡ true
        → IsLaneRanked c a cfg s r now
    ranked e h =
        let at_least =
          leb→le cfg.priority_lane_rank (rank_of c s.grants.key a r.grant r.admit now)
            (ap (leb cfg.priority_lane_rank) (sym (unpaid_rank c a s.grants r now e)) ∙ h) in
        (
          at_least,
          rank_of-IsRanked c s.grants.key a r.grant r.admit now
              (λ z. absurd (omega (arith, at_least, positive, z))),
        )

    entitled :
        answers.is_busy ≡ true
        → (answers.has_slot ≡ true)
          × ((r.is_eligible ≡ true)
              ⊎ ((is_lane_form c a cfg r now ≡ true)
                  ⊎ ((r.is_eligible ≡ false)
                      × (leb cfg.priority_lane_rank (gate_rank c a s.grants r now) ≡ true))))
        → ((answers.is_busy ≡ true) × (answers.has_slot ≡ true))
          × ((r.is_eligible ≡ true)
              ⊎ ((is_lane_form c a cfg r now ≡ true) ⊎ IsLaneRanked c a cfg s r now))
    entitled b (o, inl e) = ((b, o), inl e)
    entitled b (o, inr (inl f)) = ((b, o), inr (inl f))
    entitled b (o, inr (inr (e, h))) = ((b, o), inr (inr (ranked e h)))

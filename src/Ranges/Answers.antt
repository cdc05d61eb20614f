-- ===== src/Ranges/Answers.antt =====
-- On ranges.go: what `range_banned` answers after a range ban and after a sweep.
use concert.Prelude.{
  ℕ, ◌+◌, ◌-◌, ◌≤◌, ◌≡◌, refl, sym, ap, ◌∙◌, Bool, true, false, not, ◌||◌, Option, none, some, [],
  ◌∷◌, arith, nat_beq, leb, length, if◌then◌else◌, Bool-cases, inl, inr,
}
use mathlib.Core.Path.{subst}
use concert.Prelude.Table.{Table, lookup, sweep}
use concert.Prelude.Table.Laws.{lookup-insert_self}
use concert.Prelude.Table.Sweep.{length-sweep_le}
use concert.Int64.{slt, NonNegative}
use concert.Net.{Addr, Prefix, prefix_eq, contains, contains_addr, is_valid, unmap}
use concert.Abuse.{RangeBan, Registry, notify_ban}
use concert.Abuse.Shape.{IsShape}
use concert.Abuse.Operations.{set_range-IsCounted}
use concert.Ranges.{
  BanError, range_limit, max_range_bans, latest, range_left, range_banned, ban_end, renew_range,
  range_found, set_range, range_set, ban_range, has_ended, sweep_ranges,
}
use concert.Ranges.Laws.{NotLater, latest_bounds, latest-sweep}

-- The answer with no look at the counter.
abbrev answer : Bool → Bool → ℕ → Addr → Table Prefix RangeBan → ℕ × Bool
answer valid exempt t ip m = if not valid then (0, false) else range_left t exempt (latest t ip 0 m)

not_empty : (x : Prefix × RangeBan) (m : Table Prefix RangeBan) → nat_beq (length (x ∷ m)) 0 ≡ false
not_empty x m = ground arith

skip_empty :
    (valid exempt : Bool) (t k : ℕ) (ip : Addr) (m : Table Prefix RangeBan)
    → k ≡ length m
    → (if nat_beq k 0 || not valid then (0, false) else range_left t exempt (latest t ip 0 m))
      ≡ answer valid exempt t ip m
unfolding range_left latest
skip_empty true exempt t k ip [] e = rw e
skip_empty false exempt t k ip [] e = rw e
skip_empty valid exempt t k ip ((p, b) ∷ m) e = rw e (rw (not_empty (p, b) m))

range_banned-eq-answer :
    (r : Registry) (ip : Addr) (t : ℕ)
    → r.ranges_n ≡ length r.ranges
    → range_banned r ip t
      ≡ answer (is_valid ip) (contains_addr r.params.exempt (unmap ip)) t (unmap ip) r.ranges
unfolding range_banned
range_banned-eq-answer r ip t e = skip_empty _ _ t r.ranges_n (unmap ip) r.ranges e

abbrev swept_ranges : ℕ → Registry → Registry
swept_ranges n r =
    let left = sweep (has_ended n) r.ranges in
    record r { ranges = left; ranges_n = r.ranges_n - (length r.ranges - length left) }

swept_same :
    (n t : ℕ) (ip : Addr) (r : Registry)
    → r.ranges_n ≡ length r.ranges
    → NonNegative t
    → n ≤ t
    → range_banned (swept_ranges n r) ip t ≡ range_banned r ip t
swept_same n t ip r e ht h =
    range_banned-eq-answer (swept_ranges n r) ip t
      (omega (arith, e, length-sweep_le (has_ended n) r.ranges))
    ∙ ap
        (λ x.
          if not (is_valid ip)
          then (0, false)
          else range_left t (contains_addr r.params.exempt (unmap ip)) x)
        (latest-sweep n t (unmap ip) 0 r.ranges ht h)
    ∙ sym (range_banned-eq-answer r ip t e)

-- In a registry with the invariant, sweepRanges at `n` changes no answer about a range ban from
-- `n` on, for any address; permanent bans stay.
pub range_banned-sweep_ranges :
    (n t : ℕ) (ip : Addr) (r last : Registry)
    → IsShape r
    → NonNegative t
    → n ≤ t
    → (sweep_ranges n (some r)).1 ≡ some last
    → range_banned last ip t ≡ range_banned r ip t
unfolding sweep_ranges
range_banned-sweep_ranges n t ip r last v ht h = elim (Bool-cases (nat_beq r.ranges_n 0)) [
  | inl z ↦ rw z (λ e. ap (λ x. range_banned x ip t) (sym (same e)))
  | inr z ↦
      rw z (λ e. ap (λ x. range_banned x ip t) (sym (same e)) ∙ swept_same n t ip r v.mirrored ht h)
]
  where
    same : {a b : Registry} → some a ≡ some b → a ≡ b
    same e = cc

-- A ban of the range `p` at `n` is recorded with its end.
IsRecorded : Prefix → ℕ → Registry → Type 0
IsRecorded p u r = (b : RangeBan) × (lookup p r.ranges ≡ some b) × (b.until ≡ u)

renew_range-IsRecorded :
    (p : Prefix) (d n : ℕ) (b : RangeBan) (r : Registry)
    → IsRecorded p (ban_end d n) (renew_range p d n b r)
unfolding renew_range IsRecorded
renew_range-IsRecorded p d n b r = elim (Bool-cases (slt n b.until)) [
  | inl c ↦
      rw c (
        record { until = ban_end d n; offenses = b.offenses },
        lookup-insert_self p _ r.ranges,
        refl,
      )
  | inr c ↦ rw c (
    record { until = ban_end d n; offenses = b.offenses + 1 },
    lookup-insert_self p _ r.ranges,
    refl,
  )
]

range_found-IsRecorded :
    (p : Prefix) (d n : ℕ) (r : Registry) (o : Option RangeBan)
    → (range_found p d n r o).0 ≡ none
    → IsRecorded p (ban_end d n) (range_found p d n r o).1
unfolding range_found
range_found-IsRecorded p d n r (some b) = λ _. renew_range-IsRecorded p d n b r
range_found-IsRecorded p d n r none = elim (Bool-cases (leb max_range_bans (length r.ranges))) [
  | inl c ↦ rw c (λ h. absurd (some_apart h))
  | inr c ↦ rw c (λ _.
      renew_range-IsRecorded p d n (record { until = 0; offenses = 0 })
        (record r { ranges_n = r.ranges_n + 1 }))
]
  where
    some_apart : some range_limit ≡ none → ⊥
    some_apart h = cc

params-range_found :
    (p : Prefix) (d n : ℕ) (r : Registry) (o : Option RangeBan)
    → (range_found p d n r o).1.params ≡ r.params
unfolding range_found renew_range
params-range_found p d n r (some b) = ground arith
params-range_found p d n r none = ground arith

left-true :
    (t u w : ℕ) → NonNegative t → slt t u ≡ true → NotLater u w → (range_left t false w).1 ≡ true
unfolding range_left slt
left-true t u w ht h k = ground arith

recorded-banned :
    (p : Prefix) (u t : ℕ) (ip : Addr) (r : Registry)
    → IsRecorded p u r
    → r.ranges_n ≡ length r.ranges
    → NonNegative t
    → slt t u ≡ true
    → is_valid ip ≡ true
    → contains p (unmap ip) ≡ true
    → contains_addr r.params.exempt (unmap ip) ≡ false
    → (range_banned r ip t).1 ≡ true
unfolding IsRecorded
recorded-banned p u t ip r (b, l, e) len ht h v c x =
    ap (λ y. y.1) (range_banned-eq-answer r ip t len)
    ∙ rw v (
        rw x (
          left-true t u (latest t (unmap ip) 0 r.ranges) ht h (
            subst (λ y. NotLater y (latest t (unmap ip) 0 r.ranges)) e
              (latest_bounds t (unmap ip) 0 r.ranges p b l (rw e (rw h (rw c)))))))

-- An accepted ban of the range `p` for `d` at `n` is in force for every valid address of the range
-- that is not exempt, at every time before its end, whatever other range bans there are.
pub ban_range-banned :
    (p : Prefix) (d n t : ℕ) (ip : Addr) (r last : Registry)
    → IsShape r
    → ban_range p d n (some r) ≡ (none, some last)
    → NonNegative t
    → slt t (ban_end d n) ≡ true
    → is_valid ip ≡ true
    → contains p (unmap ip) ≡ true
    → contains_addr r.params.exempt (unmap ip) ≡ false
    → (range_banned last ip t).1 ≡ true
unfolding ban_range set_range range_set notify_ban IsRecorded
ban_range-banned p d n t ip r last v e ht h a c x =
    by_result (set_range p d n r).0 (set_range p d n r).1
      (range_found-IsRecorded p d n r (lookup p r.ranges))
      ((set_range-IsCounted p d n r v).mirrored)
      (rw (params-range_found p d n r (lookup p r.ranges)) x) e
  where
    same :
        (r2 : Registry)
        → ◌≡◌ {A = Option BanError × Option Registry}
            (none, some (notify_ban p r2))
            (none, some last)
        → notify_ban p r2 ≡ last
    same r2 q = cc

    by_result :
        (o : Option BanError) (r2 : Registry)
        → (o ≡ none → IsRecorded p (ban_end d n) r2)
        → r2.ranges_n ≡ length r2.ranges
        → contains_addr r2.params.exempt (unmap ip) ≡ false
        → range_set p (o, r2) ≡ (none, some last)
        → (range_banned last ip t).1 ≡ true
    by_result (some err) r2 rec len y q = absurd (cc)
    by_result none r2 rec len y q =
        subst (λ z. (range_banned z ip t).1 ≡ true) (same r2 q)
          (recorded-banned p (ban_end d n) t ip (notify_ban p r2) (rec refl) len ht h a c y)

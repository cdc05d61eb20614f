-- ===== src/Lane/Safety.antt =====
-- On priority.go, rankedSem: the invariant under any interleaving of callers.
use concert.Prelude.{
  ℕ, suc, ◌+◌, ◌%◌, ◌^◌, ◌≤◌, ◌≡◌, refl, sym, ap, ◌⊎◌, Bool, true, false, ◌&&◌, inl, inr, List, [],
  ◌∷◌, ◌++◌, arith, length, Bool-cases, ltb,
}
use mathlib.Core.Path.{subst}
use concert.Lane.{
  SemWaiter, RankedSem, Entry, acquired, refused, waiting, enter, leave, release, remove,
  is_granted, is_empty, next_waiter,
}
use concert.Lane.Laws.{ungranted}
use concert.Lane.System.{
  System, start, arrived, returned, Step, arrive, come_back, finish, Reach, here, next, IsSafe,
}
use concert.Lane.Keeps.{
  is_empty-eq, acquired-IsSafe, full, waiting-IsSafe, granted-IsSafe, given_up-IsSafe, freed-IsSafe,
  passed-IsSafe,
}

List-cases :
    (ws : List SemWaiter)
    → (ws ≡ []) ⊎ ((w : SemWaiter) × (rest : List SemWaiter) × (ws ≡ w ∷ rest))
List-cases [] = inl refl
List-cases (w ∷ ws) = inr (w, ws, refl)

-- The three ways out of the first critical section.
enter_acquired :
    (rank : ℕ) (has_wait : Bool) (s : RankedSem)
    → (ltb s.used s.cap && is_empty s.waiters) ≡ true
    → enter rank has_wait s ≡ (acquired, record s { used = s.used + 1 })
unfolding enter
enter_acquired rank has_wait s e = rw e

enter-refused :
    (rank : ℕ) (s : RankedSem)
    → (ltb s.used s.cap && is_empty s.waiters) ≡ false
    → enter rank false s ≡ (refused, s)
unfolding enter
enter-refused rank s e = rw e

enter_waiting :
    (rank : ℕ) (s : RankedSem)
    → (ltb s.used s.cap && is_empty s.waiters) ≡ false
    → enter rank true s ≡ (
      waiting (next_waiter s rank),
      record s {
        seq = (s.seq + 1) % 2 ^ 64;
        waiters = s.waiters ++ next_waiter s rank ∷ [];
        next_ref = s.next_ref + 1;
      },
    )
unfolding enter
enter_waiting rank s e = rw e

leave_granted :
    (w : SemWaiter) (s : RankedSem) → is_granted w.ref s.granted ≡ true → leave w s ≡ (true, s)
unfolding leave
leave_granted w s g = rw g

leave_given_up :
    (w : SemWaiter) (s : RankedSem)
    → is_granted w.ref s.granted ≡ false
    → leave w s ≡ (false, record s { waiters = remove w.ref s.waiters })
unfolding leave
leave_given_up w s g = rw g

abbrev arrival : System → Entry × RankedSem → System
arrival s r = arrived s r.0 r.1

abbrev return : System → List SemWaiter → Bool × RankedSem → System
return s rest r = returned s rest r.0 r.1

arrive-IsSafe :
    (cap : ℕ) (s : System) (rank : ℕ) (has_wait : Bool)
    → IsSafe cap s
    → IsSafe cap (arrival s (enter rank has_wait s.sem))
arrive-IsSafe cap s rank has_wait v =
    elim (Bool-cases (ltb s.sem.used s.sem.cap && is_empty s.sem.waiters)) [
      | inl e ↦
          subst (λ r. IsSafe cap (arrival s r)) (sym (enter_acquired rank has_wait s.sem e))
            (acquired-IsSafe cap s v (and_left _ _ e) (is_empty-eq (and_right _ _ e)))
      | inr e ↦ later has_wait e
    ]
  where
    and_left : (a b : Bool) → (a && b) ≡ true → a ≡ true
    and_left a b h = ground arith

    and_right : (a b : Bool) → (a && b) ≡ true → b ≡ true
    and_right a b h = ground arith

    later :
        (hw : Bool)
        → (ltb s.sem.used s.sem.cap && is_empty s.sem.waiters) ≡ false
        → IsSafe cap (arrival s (enter rank hw s.sem))
    later false e = subst (λ r. IsSafe cap (arrival s r)) (sym (enter-refused rank s.sem e)) v
    later true e =
        subst (λ r. IsSafe cap (arrival s r)) (sym (enter_waiting rank s.sem e))
          (waiting-IsSafe cap s v rank ((s.sem.seq + 1) % 2 ^ 64) (full cap s v e))

return-IsSafe :
    (cap : ℕ) (s : System) (pre post : List SemWaiter) (w : SemWaiter)
    → IsSafe cap s
    → s.blocked ≡ pre ++ w ∷ post
    → IsSafe cap (return s (pre ++ post) (leave w s.sem))
return-IsSafe cap s pre post w v e = elim (Bool-cases (is_granted w.ref s.sem.granted)) [
  | inl g ↦
      subst (λ r. IsSafe cap (return s (pre ++ post) r)) (sym (leave_granted w s.sem g))
        (granted-IsSafe cap s v pre post w e g)
  | inr g ↦
      subst (λ r. IsSafe cap (return s (pre ++ post) r)) (sym (leave_given_up w s.sem g))
        (given_up-IsSafe cap s v pre post w e g)
]

finish-IsSafe :
    (cap : ℕ) (s : System) (n : ℕ)
    → IsSafe cap s
    → s.running ≡ suc n
    → IsSafe cap (record s { sem = release s.sem; running = n })
finish-IsSafe cap s n v r = elim (List-cases s.sem.waiters) [
  | inl e ↦ freed-IsSafe cap s v n r e
  | inr (w, ws, e) ↦ passed-IsSafe cap s v n w ws r e
]

Step-IsSafe : (cap : ℕ) {s t : System} → Step s t → IsSafe cap s → IsSafe cap t
Step-IsSafe cap {s} (arrive rank has_wait t e) v =
    subst (IsSafe cap) (sym e) (arrive-IsSafe cap s rank has_wait v)
Step-IsSafe cap {s} (come_back pre post w t b e) v =
    subst (IsSafe cap) (sym e) (return-IsSafe cap s pre post w v b)
Step-IsSafe cap {s} (finish n t r e) v = subst (IsSafe cap) (sym e) (finish-IsSafe cap s n v r)

start-IsSafe : (cap : ℕ) → IsSafe cap (start cap)
unfolding ungranted
start-IsSafe cap = record {
  same_cap = refl;
  bounded = omega arith;
  queue = refl;
  slots = refl;
  busy = λ h. absurd (h refl);
  distinct = tt;
  made = tt;
  made_granted = tt;
}

-- Every state that callers of a lane of `cap` slots reach, in any order of their critical
-- sections, satisfies the invariant `IsSafe`: the slots in use are those of the callers that
-- run and of the waiters that were granted one, they are at most `cap`, the waiters are the
-- blocked callers with no slot, in order, and while one waits every slot is in use.
pub Reach-IsSafe : (cap : ℕ) {s : System} → Reach (start cap) s → IsSafe cap s
Reach-IsSafe cap here = start-IsSafe cap
Reach-IsSafe cap (next r st) = Step-IsSafe cap st (Reach-IsSafe cap r)

length-ungranted : (g : List ℕ) (ws : List SemWaiter) → length (ungranted g ws) ≤ length ws
unfolding ungranted
length-ungranted g [] = omega arith
length-ungranted g (w ∷ ws) = elim (Bool-cases (is_granted w.ref g)) [
  | inl e ↦ rw e (omega (arith, length-ungranted g ws))
  | inr e ↦ rw e (omega (arith, length-ungranted g ws))
]

-- In every reachable state at most `cap` callers run with a slot of the lane.
pub running-le-cap : (cap : ℕ) {s : System} → Reach (start cap) s → s.running ≤ cap
running-le-cap cap {s} r =
    let v = Reach-IsSafe cap r in
    omega (arith, v.slots, v.bounded, ap length v.queue, length-ungranted s.sem.granted s.blocked)

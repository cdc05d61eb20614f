-- ===== src/Lane/Keeps.antt =====
-- On priority.go, rankedSem: the invariant under each critical section, case by case.
use concert.Prelude.{
  ℕ, suc, ◌+◌, ◌-◌, ◌<◌, ◌≡◌, ◌≢◌, refl, sym, ap, ◌∙◌, true, false, ◌&&◌, inl, inr, List, [], ◌∷◌,
  ◌++◌, arith, All, length, length-append, Bool-cases, lt→ltb, ltb,
}
use mathlib.Core.Path.{subst}
use concert.Lane.{
  SemWaiter, RankedSem, acquired, waiting, release, release_to, remove, best_of, is_granted,
  is_empty, next_waiter,
}
use concert.Lane.Best.{IsIn, best_of-IsIn}
use concert.Lane.Laws.{
  Distinct, ungranted, ungranted-Fresh, ungranted-grant, ungranted-append, ungranted-cons_yes,
  ungranted-cons_no, remove-append, remove-cons_self,
}
use concert.Lane.System.{System, arrived, returned, Allocated, IsSafe}
use concert.Lane.Parts.{
  Allocated-Fresh, Allocated-suc, below-suc, is_granted-new, All-append, All-middle, Distinct-snoc,
  Distinct-middle, length-middle, length-remove,
}

pub is_empty-eq : {ws : List SemWaiter} → is_empty ws ≡ true → ws ≡ []
is_empty-eq {ws = []} e = refl
is_empty-eq {ws = x ∷ xs} e = cc

release-freed :
    (s : RankedSem)
    → s.waiters ≡ []
    → ltb 0 s.used ≡ true
    → release s ≡ record s { used = s.used - 1 }
unfolding release
release-freed s e u = rw (e, release_to) (rw u)

release-passed :
    (s : RankedSem) (w : SemWaiter) (ws : List SemWaiter)
    → s.waiters ≡ w ∷ ws
    → release s ≡ record s {
      waiters = remove (best_of w ws).ref (w ∷ ws);
      granted = (best_of w ws).ref ∷ s.granted;
    }
unfolding release
release-passed s w ws e = rw (e, release_to)

remove-nil : (r : ℕ) → remove r [] ≡ []
unfolding remove
remove-nil r = refl

cons_ne : {w : SemWaiter} {ws : List SemWaiter} → w ∷ ws ≢ []
cons_ne e = cc

ungranted-Allocated :
    (n : ℕ) (g : List ℕ) (ws : List SemWaiter) → Allocated n ws → Allocated n (ungranted g ws)
unfolding ungranted
ungranted-Allocated n g [] h = tt
ungranted-Allocated n g (w ∷ ws) h = elim (Bool-cases (is_granted w.ref g)) [
  | inl e ↦ rw e (ungranted-Allocated n g ws h.1)
  | inr e ↦ rw e (h.0, ungranted-Allocated n g ws h.1)
]

All-IsIn :
    (P : SemWaiter → Type 0) (b : SemWaiter) (ws : List SemWaiter) → All P ws → IsIn b ws → P b
All-IsIn P b [] h m = absurd m
All-IsIn P b (w ∷ ws) h (inl e) = subst P (sym e) h.0
All-IsIn P b (w ∷ ws) h (inr m) = All-IsIn P b ws h.1 m

module _ (cap : ℕ) (s : System) (v : IsSafe cap s) where
  pub acquired-IsSafe :
      ltb s.sem.used s.sem.cap ≡ true
      → s.sem.waiters ≡ []
      → IsSafe cap (arrived s acquired (record s.sem { used = s.sem.used + 1 }))
  acquired-IsSafe free none_wait = record {
    same_cap = v.same_cap;
    bounded = let h = v.same_cap in ground arith;
    queue = v.queue;
    slots = let h = v.slots in omega arith;
    busy = λ h. absurd (h none_wait);
    distinct = v.distinct;
    made = v.made;
    made_granted = v.made_granted;
  }

  pub full : (ltb s.sem.used s.sem.cap && is_empty s.sem.waiters) ≡ false → s.sem.used ≡ cap
  full h = elim (Bool-cases (is_empty s.sem.waiters)) [
    | inl e ↦ let b = v.bounded in let c = v.same_cap in ground arith
    | inr e ↦ v.busy (λ p. not_empty (ap is_empty p) e)
  ]
    where
      not_empty : is_empty s.sem.waiters ≡ true → is_empty s.sem.waiters ≡ false → ⊥
      not_empty p q = cc

  pub waiting-IsSafe :
      (rank seq : ℕ)
      → s.sem.used ≡ cap
      → IsSafe cap (
          arrived s (waiting (next_waiter s.sem rank)) (record s.sem {
            seq = seq;
            waiters = s.sem.waiters ++ next_waiter s.sem rank ∷ [];
            next_ref = s.sem.next_ref + 1;
          }))
  unfolding ungranted
  waiting-IsSafe rank seq used =
      let w = next_waiter s.sem rank in
      record {
        same_cap = v.same_cap;
        bounded = v.bounded;
        queue =
            ap (λ l. l ++ w ∷ []) v.queue
            ∙ ap (λ l. ungranted s.sem.granted s.blocked ++ l)
                (sym (
                  ungranted-cons_no s.sem.granted w []
                    (is_granted-new s.sem.next_ref s.sem.granted v.made_granted)))
            ∙ sym (ungranted-append s.sem.granted s.blocked (w ∷ []));
        slots = omega (
          arith,
          v.slots,
          length-append s.sem.waiters (w ∷ []),
          length-append s.blocked (w ∷ []),
        );
        busy = λ _. used;
        distinct =
            Distinct-snoc s.blocked w v.distinct (Allocated-Fresh s.sem.next_ref s.blocked v.made);
        made =
            All-append (λ x. x.ref < s.sem.next_ref + 1) s.blocked (w ∷ [])
              (Allocated-suc s.sem.next_ref s.blocked v.made) (omega arith, tt);
        made_granted = below-suc s.sem.next_ref s.sem.granted v.made_granted;
      }

  pub granted-IsSafe :
      (pre post : List SemWaiter) (w : SemWaiter)
      → s.blocked ≡ pre ++ w ∷ post
      → is_granted w.ref s.sem.granted ≡ true
      → IsSafe cap (returned s (pre ++ post) true s.sem)
  granted-IsSafe pre post w e g =
      let rest = Distinct-middle pre post w (subst Distinct e v.distinct) in
      record {
        same_cap = v.same_cap;
        bounded = v.bounded;
        queue =
            v.queue
            ∙ ap (ungranted s.sem.granted) e
            ∙ ungranted-append s.sem.granted pre (w ∷ post)
            ∙ ap (λ l. ungranted s.sem.granted pre ++ l) (ungranted-cons_yes s.sem.granted w post g)
            ∙ sym (ungranted-append s.sem.granted pre post);
        slots = omega (arith, v.slots, ap length e, length-middle pre post w);
        busy = v.busy;
        distinct = rest.0;
        made =
            (All-middle (λ x. x.ref < s.sem.next_ref) pre post w
              (subst (Allocated s.sem.next_ref) e v.made)).1;
        made_granted = v.made_granted;
      }

  pub given_up-IsSafe :
      (pre post : List SemWaiter) (w : SemWaiter)
      → s.blocked ≡ pre ++ w ∷ post
      → is_granted w.ref s.sem.granted ≡ false
      → IsSafe cap
          (returned s (pre ++ post) false (record s.sem { waiters = remove w.ref s.sem.waiters }))
  given_up-IsSafe pre post w e g =
      let rest = Distinct-middle pre post w (subst Distinct e v.distinct) in
      let before = ungranted s.sem.granted pre in
      let after = ungranted s.sem.granted post in
      let split : s.sem.waiters ≡ before ++ w ∷ after =
        v.queue
        ∙ ap (ungranted s.sem.granted) e
        ∙ ungranted-append s.sem.granted pre (w ∷ post)
        ∙ ap (λ l. before ++ l) (ungranted-cons_no s.sem.granted w post g) in
      let removed : remove w.ref s.sem.waiters ≡ before ++ after =
        ap (remove w.ref) split
        ∙ remove-append w.ref before (w ∷ after) (ungranted-Fresh w.ref s.sem.granted pre rest.1)
        ∙ ap (λ l. before ++ l) (remove-cons_self w after) in
      record {
        same_cap = v.same_cap;
        bounded = v.bounded;
        queue = removed ∙ sym (ungranted-append s.sem.granted pre post);
        slots = omega (
          arith,
          v.slots,
          ap length e,
          length-middle pre post w,
          ap length split,
          ap length removed,
          length-middle before after w,
        );
        busy = λ h. v.busy (λ p. h (ap (remove w.ref) p ∙ remove-nil w.ref));
        distinct = rest.0;
        made =
            (All-middle (λ x. x.ref < s.sem.next_ref) pre post w
              (subst (Allocated s.sem.next_ref) e v.made)).1;
        made_granted = v.made_granted;
      }

  pub freed-IsSafe :
      (n : ℕ)
      → s.running ≡ suc n
      → s.sem.waiters ≡ []
      → IsSafe cap (record s { sem = release s.sem; running = n })
  freed-IsSafe n r none_wait =
      let some_used : ltb 0 s.sem.used ≡ true =
        lt→ltb 0 s.sem.used (omega (arith, v.slots, ap length none_wait)) in
      subst (λ t. IsSafe cap (record s { sem = t; running = n }))
        (sym (release-freed s.sem none_wait some_used))
        (record {
          same_cap = v.same_cap;
          bounded = let b = v.bounded in omega arith;
          queue = v.queue;
          slots = let b = v.slots in omega (arith, ap length none_wait);
          busy = λ h. absurd (h none_wait);
          distinct = v.distinct;
          made = v.made;
          made_granted = v.made_granted;
        })

  pub passed-IsSafe :
      (n : ℕ) (w : SemWaiter) (ws : List SemWaiter)
      → s.running ≡ suc n
      → s.sem.waiters ≡ w ∷ ws
      → IsSafe cap (record s { sem = release s.sem; running = n })
  passed-IsSafe n w ws r e =
      let b = best_of w ws in
      let used : s.sem.used ≡ cap = v.busy (λ p. cons_ne (sym e ∙ p)) in
      let chosen = subst (IsIn b) (sym e) (best_of-IsIn w ws) in
      let queued =
        subst (Allocated s.sem.next_ref) (sym v.queue)
          (ungranted-Allocated s.sem.next_ref s.sem.granted s.blocked v.made) in
      subst (λ t. IsSafe cap (record s { sem = t; running = n }))
        (sym (release-passed s.sem w ws e))
        (record {
          same_cap = v.same_cap;
          bounded = v.bounded;
          queue =
              ap (remove b.ref) (sym e ∙ v.queue)
              ∙ sym (ungranted-grant b.ref s.sem.granted s.blocked v.distinct);
          slots = omega (arith, v.slots, ap length e, length-remove b (w ∷ ws) (best_of-IsIn w ws));
          busy = λ _. used;
          distinct = v.distinct;
          made = v.made;
          made_granted = (
            All-IsIn (λ x. x.ref < s.sem.next_ref) b s.sem.waiters queued chosen,
            v.made_granted,
          );
        })

-- ===== src/Lane/Best.antt =====
-- On priority.go, rankedSem.release: which waiter is served.
use concert.Prelude.{
  ◌≤◌, ◌<◌, ◌≡◌, ◌≢◌, refl, sym, ap, ◌⊎◌, inl, inr, Bool, true, false, List, [], ◌∷◌, arith, All,
  if◌then◌else◌, Bool-cases,
}
use mathlib.Core.Path.{subst}
use concert.Lane.{SemWaiter, RankedSem, ahead, best_of, remove, release_to, release}

-- `b` may be served before `x`.
abbrev pub Precedes : SemWaiter → SemWaiter → Type 0
Precedes b x = (x.rank < b.rank) ⊎ ((x.rank ≡ b.rank) × (b.seq ≤ x.seq))

Precedes-refl : (b : SemWaiter) → Precedes b b
Precedes-refl b = inr (refl, omega arith)

Precedes-trans : (a b c : SemWaiter) → Precedes a b → Precedes b c → Precedes a c
Precedes-trans a b c (inl h) (inl k) = inl (omega arith)
Precedes-trans a b c (inl h) (inr k) = inl (omega (arith, k.0))
Precedes-trans a b c (inr h) (inl k) = inl (omega (arith, h.0))
Precedes-trans a b c (inr h) (inr k) = inr (omega (arith, h.0, k.0), omega (arith, h.1, k.1))

ahead-Precedes : (w b : SemWaiter) → ahead w b ≡ true → Precedes w b
ahead-Precedes w b h = ground arith

not_ahead-Precedes : (w b : SemWaiter) → ahead w b ≡ false → Precedes b w
not_ahead-Precedes w b h = ground arith

-- Whether `b` is one of the waiters.
abbrev pub IsIn : SemWaiter → List SemWaiter → Type 0
IsIn b [] = ⊥
IsIn b (x ∷ xs) = (b ≡ x) ⊎ IsIn b xs

best_of-ahead :
    (b w : SemWaiter) (ws : List SemWaiter) → ahead w b ≡ true → best_of b (w ∷ ws) ≡ best_of w ws
unfolding best_of
best_of-ahead b w ws e = ap (λ (c : Bool). best_of (if c then w else b) ws) e

best_of-behind :
    (b w : SemWaiter) (ws : List SemWaiter) → ahead w b ≡ false → best_of b (w ∷ ws) ≡ best_of b ws
unfolding best_of
best_of-behind b w ws e = ap (λ (c : Bool). best_of (if c then w else b) ws) e

best_of-nil : (b : SemWaiter) → best_of b [] ≡ b
unfolding best_of
best_of-nil b = refl

best_of-Precedes :
    (b : SemWaiter) (ws : List SemWaiter)
    → Precedes (best_of b ws) b × All (Precedes (best_of b ws)) ws
best_of-Precedes b [] = rw (best_of-nil b) (Precedes-refl b, tt)
best_of-Precedes b (w ∷ ws) = elim (Bool-cases (ahead w b)) [
  | inl e ↦
      subst (λ x. Precedes x b × All (Precedes x) (w ∷ ws)) (sym (best_of-ahead b w ws e))
        (let h = best_of-Precedes w ws in
          (Precedes-trans (best_of w ws) w b h.0 (ahead-Precedes w b e), h))
  | inr e ↦
      subst (λ x. Precedes x b × All (Precedes x) (w ∷ ws)) (sym (best_of-behind b w ws e))
        (let h = best_of-Precedes b ws in
          (h.0, (Precedes-trans (best_of b ws) b w h.0 (not_ahead-Precedes w b e), h.1)))
]

pub best_of-IsIn : (b : SemWaiter) (ws : List SemWaiter) → IsIn (best_of b ws) (b ∷ ws)
best_of-IsIn b [] = inl (best_of-nil b)
best_of-IsIn b (w ∷ ws) = elim (Bool-cases (ahead w b)) [
  | inl e ↦
      subst (λ x. IsIn x (b ∷ w ∷ ws)) (sym (best_of-ahead b w ws e)) (inr (best_of-IsIn w ws))
  | inr e ↦
      subst (λ x. IsIn x (b ∷ w ∷ ws)) (sym (best_of-behind b w ws e)) (skip (best_of-IsIn b ws))
]
  where
    skip : IsIn (best_of b ws) (b ∷ ws) → IsIn (best_of b ws) (b ∷ w ∷ ws)
    skip (inl p) = inl p
    skip (inr p) = inr (inr p)

by_waiters :
    (s : RankedSem) (ws : List SemWaiter)
    → s.waiters ≡ ws
    → ws ≢ []
    → (b : SemWaiter) × IsIn b ws
      × All (Precedes b) ws
      × ((release s).granted ≡ b.ref ∷ s.granted)
      × ((release s).waiters ≡ remove b.ref ws)
      × ((release s).used ≡ s.used)
unfolding release
by_waiters s [] e h = absurd (h refl)
by_waiters s (w ∷ ws) e h =
    let first = best_of-Precedes w ws in
    (
      best_of w ws,
      best_of-IsIn w ws,
      first,
      rw (e, release_to),
      rw (e, release_to),
      rw (e, release_to),
    )

-- A release with visitors waiting hands the slot to one of them, a waiter that no other precedes
-- (none of a higher rank, none of the same rank with a lower number); that waiter leaves the
-- queue, and the number of slots in use does not change.
pub release_serves_best :
    (s : RankedSem)
    → s.waiters ≢ []
    → (b : SemWaiter) × IsIn b s.waiters
      × All (Precedes b) s.waiters
      × ((release s).granted ≡ b.ref ∷ s.granted)
      × ((release s).waiters ≡ remove b.ref s.waiters)
      × ((release s).used ≡ s.used)
release_serves_best s h = by_waiters s s.waiters refl h

-- ===== src/Lane/Parts.antt =====
-- On priority.go, rankedSem: the lists of blocked callers, when one joins, leaves, or is
-- granted a slot.
use concert.Prelude.{
  ℕ, suc, ◌+◌, ◌<◌, ◌≡◌, ◌≢◌, refl, ap, false, inl, inr, List, [], ◌∷◌, ◌++◌, arith, All, length,
  Bool-cases, ◌∙◌, sym, nat_beq,
}
use concert.Lane.{SemWaiter, remove, is_granted}
use concert.Lane.Best.{IsIn}
use concert.Lane.Laws.{Fresh, Distinct, remove-cons_self, remove-cons_ne}
use concert.Lane.System.{Allocated}

pub Allocated-Fresh : (n : ℕ) (ws : List SemWaiter) → Allocated n ws → Fresh n ws
Allocated-Fresh n [] h = tt
Allocated-Fresh n (w ∷ ws) h = (omega (arith, h.0), Allocated-Fresh n ws h.1)

pub Allocated-suc : (n : ℕ) (ws : List SemWaiter) → Allocated n ws → Allocated (n + 1) ws
Allocated-suc n [] h = tt
Allocated-suc n (w ∷ ws) h = (omega (arith, h.0), Allocated-suc n ws h.1)

pub below-suc : (n : ℕ) (g : List ℕ) → All (λ r. r < n) g → All (λ r. r < n + 1) g
below-suc n [] h = tt
below-suc n (r ∷ g) h = (omega (arith, h.0), below-suc n g h.1)

pub is_granted-new : (n : ℕ) (g : List ℕ) → All (λ r. r < n) g → is_granted n g ≡ false
unfolding is_granted
is_granted-new n [] h = refl
is_granted-new n (r ∷ g) h = ground (arith, is_granted-new n g)

pub All-append {ℓ κ} :
    {A : Type ℓ} (P : A → Type κ) (xs ys : List A) → All P xs → All P ys → All P (xs ++ ys)
All-append P [] ys h k = k
All-append P (x ∷ xs) ys h k = (h.0, All-append P xs ys h.1 k)

-- Taking an element out of the middle keeps what holds of all, and it holds of the element.
pub All-middle {ℓ κ} :
    {A : Type ℓ} (P : A → Type κ) (xs ys : List A) (x : A)
    → All P (xs ++ x ∷ ys)
    → P x × All P (xs ++ ys)
All-middle P [] ys x h = h
All-middle P (z ∷ xs) ys x h = let k = All-middle P xs ys x h.1 in (k.0, (h.0, k.1))

pub Distinct-snoc :
    (ws : List SemWaiter) (w : SemWaiter) → Distinct ws → Fresh w.ref ws → Distinct (ws ++ w ∷ [])
Distinct-snoc [] w d f = (tt, tt)
Distinct-snoc (x ∷ ws) w d f = (
  All-append (λ y. y.ref ≢ x.ref) ws (w ∷ []) d.0 (λ e. f.0 (sym e), tt),
  Distinct-snoc ws w d.1 f.1,
)

pub Distinct-middle :
    (xs ys : List SemWaiter) (w : SemWaiter)
    → Distinct (xs ++ w ∷ ys)
    → Distinct (xs ++ ys) × Fresh w.ref xs
Distinct-middle [] ys w d = (d.1, tt)
Distinct-middle (x ∷ xs) ys w d =
    let k = Distinct-middle xs ys w d.1 in
    let m = All-middle (λ (y : SemWaiter). y.ref ≢ x.ref) xs ys w d.0 in
    ((m.1, k.0), (λ e. m.0 (sym e), k.1))

pub length-middle :
    (xs ys : List SemWaiter) (w : SemWaiter) → length (xs ++ w ∷ ys) ≡ suc (length (xs ++ ys))
length-middle [] ys w = refl
length-middle (x ∷ xs) ys w = ap suc (length-middle xs ys w)

pub length-remove :
    (b : SemWaiter) (ws : List SemWaiter) → IsIn b ws → suc (length (remove b.ref ws)) ≡ length ws
length-remove b [] h = elim h [ ]
length-remove b (x ∷ ws) (inl e) = ap suc (ap length (rw e (remove-cons_self x ws)))
length-remove b (x ∷ ws) (inr h) = elim (Bool-cases (nat_beq x.ref b.ref)) [
  | inl e ↦ ap suc (ap length (same x b ws (ground arith)))
  | inr e ↦
      ap (λ l. suc (length l)) (remove-cons_ne b.ref x ws (ground arith))
      ∙ ap suc (length-remove b ws h)
]
  where
    same : (x b : SemWaiter) (ws : List SemWaiter) → x.ref ≡ b.ref → remove b.ref (x ∷ ws) ≡ ws
    same x b ws p = rw (← p) (remove-cons_self x ws)

-- ===== src/Lane/Laws.antt =====
-- On priority.go, rankedSem: the waiters as the blocked callers that have not been granted a
-- slot.
use concert.Prelude.{
  ℕ, ◌≡◌, ◌≢◌, refl, sym, ap, ◌∙◌, true, false, not, inl, inr, List, [], ◌∷◌, ◌++◌, arith, All,
  keep, if◌then◌else◌, Bool-cases, nat_beq,
}
use mathlib.Core.Path.{subst}
use concert.Lane.{SemWaiter, is_granted, remove}

-- No waiter of the list is `r`.
abbrev pub Fresh : ℕ → List SemWaiter → Type 0
Fresh r ws = All (λ w. w.ref ≢ r) ws

-- Every waiter of the list is another allocation.
abbrev pub Distinct : List SemWaiter → Type 0
Distinct [] = Unit
Distinct (w ∷ ws) = Fresh w.ref ws × Distinct ws

unfoldable pub ungranted : List ℕ → List SemWaiter → List SemWaiter
ungranted g ws = keep (λ w. not (is_granted w.ref g)) ws

pub remove-Fresh : (r : ℕ) (ws : List SemWaiter) → Fresh r ws → remove r ws ≡ ws
unfolding remove
remove-Fresh r [] h = refl
remove-Fresh r (w ∷ ws) h = ground (arith, remove-Fresh r ws)

pub ungranted-Fresh :
    (r : ℕ) (g : List ℕ) (ws : List SemWaiter) → Fresh r ws → Fresh r (ungranted g ws)
unfolding ungranted
ungranted-Fresh r g [] h = tt
ungranted-Fresh r g (w ∷ ws) h = elim (Bool-cases (is_granted w.ref g)) [
  | inl e ↦ rw e (ungranted-Fresh r g ws h.1)
  | inr e ↦ rw e (h.0, ungranted-Fresh r g ws h.1)
]

is_granted-cons :
    (x r : ℕ) (g : List ℕ) → is_granted x (r ∷ g) ≡ (if nat_beq r x then true else is_granted x g)
unfolding is_granted
is_granted-cons x r g = refl

pub ungranted-cons_yes :
    (g : List ℕ) (w : SemWaiter) (ws : List SemWaiter)
    → is_granted w.ref g ≡ true
    → ungranted g (w ∷ ws) ≡ ungranted g ws
unfolding ungranted
ungranted-cons_yes g w ws e = rw e

pub ungranted-cons_no :
    (g : List ℕ) (w : SemWaiter) (ws : List SemWaiter)
    → is_granted w.ref g ≡ false
    → ungranted g (w ∷ ws) ≡ w ∷ ungranted g ws
unfolding ungranted
ungranted-cons_no g w ws e = rw e

pub remove-cons_self : (w : SemWaiter) (ws : List SemWaiter) → remove w.ref (w ∷ ws) ≡ ws
unfolding remove
remove-cons_self w ws = ground arith

pub remove-cons_ne :
    (r : ℕ) (w : SemWaiter) (ws : List SemWaiter) → w.ref ≢ r → remove r (w ∷ ws) ≡ w ∷ remove r ws
unfolding remove
remove-cons_ne r w ws h = ground arith

-- To grant a slot to `r` is to take it off the waiters that have none.
pub ungranted-grant :
    (r : ℕ) (g : List ℕ) (ws : List SemWaiter)
    → Distinct ws
    → ungranted (r ∷ g) ws ≡ remove r (ungranted g ws)
ungranted-grant r g [] d = unfold ungranted remove in refl
ungranted-grant r g (w ∷ ws) d = elim (Bool-cases (nat_beq r w.ref)) [
  | inl same ↦
      let p : w.ref ≡ r = ground arith in
      let gone =
        remove-Fresh r (ungranted g ws) (ungranted-Fresh r g ws (subst (λ x. Fresh x ws) p d.0)) in
      ungranted-cons_yes (r ∷ g) w ws (rw (is_granted-cons w.ref r g) (rw same))
      ∙ ungranted-grant r g ws d.1
      ∙ elim (Bool-cases (is_granted w.ref g)) [
        | inl e ↦ ap (remove r) (sym (ungranted-cons_yes g w ws e))
        | inr e ↦
            gone
            ∙ sym (remove-cons_self w (ungranted g ws))
            ∙ ap (λ x. remove x (w ∷ ungranted g ws)) p
            ∙ ap (remove r) (sym (ungranted-cons_no g w ws e))
      ]
  | inr other ↦
      let p : w.ref ≢ r = ground arith in
      elim (Bool-cases (is_granted w.ref g)) [
        | inl e ↦
            ungranted-cons_yes (r ∷ g) w ws (rw (is_granted-cons w.ref r g) (rw other e))
            ∙ ungranted-grant r g ws d.1
            ∙ ap (remove r) (sym (ungranted-cons_yes g w ws e))
        | inr e ↦
            ungranted-cons_no (r ∷ g) w ws (rw (is_granted-cons w.ref r g) (rw other e))
            ∙ ap (λ x. w ∷ x) (ungranted-grant r g ws d.1)
            ∙ sym (remove-cons_ne r w (ungranted g ws) p)
            ∙ ap (remove r) (sym (ungranted-cons_no g w ws e))
      ]
]

pub ungranted-append :
    (g : List ℕ) (xs ys : List SemWaiter)
    → ungranted g (xs ++ ys) ≡ ungranted g xs ++ ungranted g ys
ungranted-append g [] ys = unfold ungranted in refl
ungranted-append g (x ∷ xs) ys = elim (Bool-cases (is_granted x.ref g)) [
  | inl e ↦
      ungranted-cons_yes g x (xs ++ ys) e
      ∙ ungranted-append g xs ys
      ∙ ap (λ l. l ++ ungranted g ys) (sym (ungranted-cons_yes g x xs e))
  | inr e ↦
      ungranted-cons_no g x (xs ++ ys) e
      ∙ ap (λ l. x ∷ l) (ungranted-append g xs ys)
      ∙ ap (λ l. l ++ ungranted g ys) (sym (ungranted-cons_no g x xs e))
]

pub remove-append :
    (r : ℕ) (xs ys : List SemWaiter) → Fresh r xs → remove r (xs ++ ys) ≡ xs ++ remove r ys
remove-append r [] ys h = refl
remove-append r (x ∷ xs) ys h =
    remove-cons_ne r x (xs ++ ys) h.0 ∙ ap (λ l. x ∷ l) (remove-append r xs ys h.1)

-- ===== src/Fastlane/Limits/Windows.antt =====
-- On allow: the window of an address, and what counting a POST does to it.
use concert.Prelude.{
  ℕ, ◌+◌, ◌-◌, ◌≤◌, ◌<◌, ◌≡◌, inl, inr, refl, sym, ◌∙◌, Bool, true, false, ◌&&◌, Option, none, some,
  List, [], ◌∷◌, String, ◌==◌, ==_iff, string_eq, leb, leb→le, if◌then◌else◌, Bool-cases,
  true_is_not_false, both, arith,
}
use mathlib.Core.Path.{subst}
use concert.Prelude.Table.{Table, lookup, sweep, IsMap}
use concert.Prelude.Table.Laws.{lookup-insert, lookup-insert_self}
use concert.Prelude.Table.Sweep.{lookup-sweep}
use concert.Fastlane.Limits.{RateWindow, posts_per_minute, minute, is_over, count_post, allow}

-- The POSTs of one address, at the given times, while others come in between: how many passed.
unfoldable pub passed :
    String → List (String × ℕ) → Table String RateWindow → ℕ × Table String RateWindow
passed key [] limits = (0, limits)
passed key ((k, now) ∷ posts) limits =
    let step = allow k now limits in
    let rest = passed key posts step.1 in
    ((if (k == key) && step.0 then rest.0 + 1 else rest.0), rest.1)

-- All times lie in the minute from a start on.
abbrev pub IsWithin : ℕ → List (String × ℕ) → Type 0
IsWithin start [] = Unit
IsWithin start ((k, now) ∷ posts) = ((start ≤ now) × (now < start + minute)) × IsWithin start posts

-- The window of the address, when all times lie in the minute from `start` on: none or one that is
-- over by then, or one that began since, with its number of POSTs.
pub data Window (start : ℕ) (o : Option RateWindow) (n : ℕ) : Type 0 where
  missing : o ≡ none → n ≡ 0 → Window start o n
  stale : (w : RateWindow) → o ≡ some w → w.start + minute ≤ start → n ≡ 0 → Window start o n
  live : (w : RateWindow) → o ≡ some w → start ≤ w.start → n ≡ w.n → Window start o n

-- A sweep within the minute removes no window that is live.
pub sweep-Window :
    (key : String) (start now n : ℕ) (limits : Table String RateWindow)
    → IsMap limits
    → now < start + minute
    → Window start (lookup key limits) n
    → Window start (lookup key (sweep (is_over now) limits)) n
sweep-Window key start now n limits d t (missing e z) =
    missing (lookup-sweep (is_over now) key limits d ∙ rw e refl) z
sweep-Window key start now n limits d t (stale w e old z) = elim (Bool-cases (is_over now key w)) [
  | inl o ↦ missing (lookup-sweep (is_over now) key limits d ∙ rw (e, o) refl) z
  | inr o ↦ stale w (lookup-sweep (is_over now) key limits d ∙ rw (e, o) refl) old z
]
sweep-Window key start now n limits d t (live w e young z) =
    live w
      (lookup-sweep (is_over now) key limits d
        ∙ rw (e, le→ltb_over now w.start (omega (arith, t, young))) refl)
      young z
  where
    le→ltb_over : (now s : ℕ) → now < s + minute → leb minute (now - s) ≡ false
    le→ltb_over now s h = ground arith

-- A POST of another address leaves the window.
other-Window :
    (key k : String) (start at m n : ℕ) (limits : Table String RateWindow)
    → (k == key) ≡ false
    → Window start (lookup key limits) n
    → Window start (lookup key (count_post k at m limits).1) n
unfolding count_post
other-Window key k start at m n limits o v =
    subst (λ x. Window start x n)
      (sym (lookup-insert k key (record { start = at; n = m + 1 }) limits ∙ rw o refl)) v

-- A POST that is counted, of the address itself.
own-Window :
    (key : String) (start at m : ℕ) (limits : Table String RateWindow)
    → start ≤ at
    → Window start (lookup key (count_post key at m limits).1) (m + 1)
unfolding count_post
own-Window key start at m limits h =
    live (record { start = at; n = m + 1 })
      (lookup-insert_self key (record { start = at; n = m + 1 }) limits) h refl

-- What one POST does: one of another address nothing, one that passes adds to the window and finds
-- fewer than the limit, one that does not may add.
abbrev pub Counted : String → String → ℕ → ℕ → Bool × Table String RateWindow → Type 0
Counted key k start n step =
    (m : ℕ) × (Window start (lookup key step.1) m
      × (n ≤ m)
      × (((k == key) && step.0) ≡ true → (n + 1 ≤ m) × (m ≤ posts_per_minute)))

pub count_post-Counted :
    (key k : String) (start at m n : ℕ) (limits : Table String RateWindow)
    → (k ≡ key → start ≤ at)
    → (k ≡ key → n ≡ m)
    → Window start (lookup key limits) n
    → Counted key k start n (count_post k at m limits)
unfolding count_post
count_post-Counted key k start at m n limits h same v = elim (Bool-cases (k == key)) [
  | inl e ↦ (
    m + 1,
    (
      subst (λ j. Window start (lookup j (count_post k at m limits).1) (m + 1)) ((==_iff k key).0 e)
          (own-Window k start at m limits (h ((==_iff k key).0 e))),
      omega (arith, same ((==_iff k key).0 e)),
      λ p. (
        omega (arith, same ((==_iff k key).0 e)),
        leb→le (m + 1) 60 (both (k == key) (leb (m + 1) 60) p).1,
      ),
    ),
  )
  | inr e ↦ (
    n,
    (
      other-Window key k start at m n limits e v,
      omega arith,
      λ p. absurd (true_is_not_false (both (k == key) (leb (m + 1) 60) p).0 e),
    ),
  )
]

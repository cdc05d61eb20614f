-- ===== src/Fastlane/Limits/Laws.antt =====
-- On allow: how many POSTs of one address pass in a window.
use concert.Prelude.{
  ℕ, ◌+◌, ◌-◌, ◌≤◌, ◌<◌, ◌≡◌, ◌⊎◌, inl, inr, refl, sym, ap, ◌∙◌, true, false, ◌&&◌, Option, none,
  some, List, [], ◌∷◌, String, ◌==◌, string_eq, leb, length, Bool-cases, none_is_not_some,
  some_injective, true_is_not_false, both, arith,
}
use concert.Prelude.Table.{Table, lookup, sweep, IsMap}
use concert.Prelude.Table.Laws.{insert-IsMap}
use concert.Prelude.Table.Sweep.{sweep-IsMap}
use concert.Fastlane.Limits.{
  RateWindow, posts_per_minute, max_rate_entries, minute, is_over, count_post, first_post,
  allow_found, allow,
}
use concert.Fastlane.Limits.Windows.{
  passed, IsWithin, Window, sweep-Window, Counted, count_post-Counted, missing, stale, live,
}

-- A POST that is refused for want of room.
refused-Counted :
    (key k : String) (start n : ℕ) (limits : Table String RateWindow)
    → Window start (lookup key limits) n
    → Counted key k start n (false, limits)
refused-Counted key k start n limits v =
    (n, (v, omega arith, λ p. absurd (true_is_not_false (both (k == key) false p).1 refl)))

Window-missing : (start n : ℕ) (o : Option RateWindow) → o ≡ none → Window start o n → n ≡ 0
Window-missing start n o e (missing q z) = z
Window-missing start n o e (stale w q old z) = z
Window-missing start n o e (live w q young z) = absurd (none_is_not_some (sym e ∙ q))

first_post-Counted :
    (key k : String) (start now n : ℕ) (limits : Table String RateWindow)
    → IsMap limits
    → start ≤ now
    → now < start + minute
    → lookup k limits ≡ none
    → Window start (lookup key limits) n
    → Counted key k start n (first_post k now limits)
unfolding first_post
first_post-Counted key k start now n limits d h t e v =
    elim (Bool-cases (leb max_rate_entries (length limits))) [
      | inl c ↦
          rw c (elim (Bool-cases (leb max_rate_entries (length (sweep (is_over now) limits)))) [
            | inl f ↦ rw f (
                refused-Counted key k start n (sweep (is_over now) limits)
                  (sweep-Window key start now n limits d t v))
            | inr f ↦ rw f (
                count_post-Counted key k start now 0 n (sweep (is_over now) limits) (λ s. h) zero
                  (sweep-Window key start now n limits d t v))
          ])
      | inr c ↦ rw c (count_post-Counted key k start now 0 n limits (λ s. h) zero v)
    ]
  where
    zero : k ≡ key → n ≡ 0
    zero s = Window-missing start n (lookup key limits) (ap (λ j. lookup j limits) (sym s) ∙ e) v

-- A window found for the address itself is stale, and over, or live, and running.
Window-found :
    (start now n : ℕ) (o : Option RateWindow) (w : RateWindow)
    → now < start + minute
    → start ≤ now
    → o ≡ some w
    → Window start o n
    → ((is_over now "" w ≡ true) × (n ≡ 0))
      ⊎ ((is_over now "" w ≡ false) × ((n ≡ w.n) × (start ≤ w.start)))
Window-found start now n o w t h e (missing q z) = absurd (none_is_not_some (sym q ∙ e))
Window-found start now n o w t h e (stale v q old z) =
    inl (over (ap (λ x. x.start) (some_injective (sym q ∙ e))), z)
  where
    over : v.start ≡ w.start → leb minute (now - w.start) ≡ true
    over s = ground arith
Window-found start now n o w t h e (live v q young z) = inr (
  running (ap (λ x. x.start) (some_injective (sym q ∙ e))),
  (
    z ∙ ap (λ x. x.n) (some_injective (sym q ∙ e)),
    omega (arith, young, ap (λ x. x.start) (some_injective (sym q ∙ e))),
  ),
)
  where
    running : v.start ≡ w.start → leb minute (now - w.start) ≡ false
    running s = ground arith

allow_found-Counted :
    (key k : String) (start now n : ℕ) (limits : Table String RateWindow) (o : Option RateWindow)
    → IsMap limits
    → start ≤ now
    → now < start + minute
    → lookup k limits ≡ o
    → Window start (lookup key limits) n
    → Counted key k start n (allow_found k now limits o)
unfolding allow_found
allow_found-Counted key k start now n limits none d h t e v =
    first_post-Counted key k start now n limits d h t e v
allow_found-Counted key k start now n limits (some w) d h t e v =
    elim (Bool-cases (is_over now k w)) [
      | inl o ↦
          rw o (count_post-Counted key k start now 0 n limits (λ s. h) (λ s. over o (own s)) v)
      | inr o ↦ rw o (
          count_post-Counted key k start w.start w.n n limits (λ s. (running o (own s)).1)
            (λ s. (running o (own s)).0) v)
    ]
  where
    own :
        k ≡ key
        → ((is_over now "" w ≡ true) × (n ≡ 0))
          ⊎ ((is_over now "" w ≡ false) × ((n ≡ w.n) × (start ≤ w.start)))
    own s =
        Window-found start now n (lookup key limits) w t h (ap (λ j. lookup j limits) (sym s) ∙ e) v

    over :
        is_over now k w ≡ true
        → ((is_over now "" w ≡ true) × (n ≡ 0))
          ⊎ ((is_over now "" w ≡ false) × ((n ≡ w.n) × (start ≤ w.start)))
        → n ≡ 0
    over o (inl p) = p.1
    over o (inr p) = absurd (true_is_not_false o p.0)

    running :
        is_over now k w ≡ false
        → ((is_over now "" w ≡ true) × (n ≡ 0))
          ⊎ ((is_over now "" w ≡ false) × ((n ≡ w.n) × (start ≤ w.start)))
        → (n ≡ w.n) × (start ≤ w.start)
    running o (inl p) = absurd (true_is_not_false p.0 o)
    running o (inr p) = p.1

count_post-IsMap :
    (key : String) (at m : ℕ) (limits : Table String RateWindow)
    → IsMap limits
    → IsMap (count_post key at m limits).1
unfolding count_post
count_post-IsMap key at m limits d = insert-IsMap key (record { start = at; n = m + 1 }) limits d

first_post-IsMap :
    (key : String) (now : ℕ) (limits : Table String RateWindow)
    → IsMap limits
    → IsMap (first_post key now limits).1
unfolding first_post
first_post-IsMap key now limits d = elim (Bool-cases (leb max_rate_entries (length limits))) [
  | inl c ↦ rw c (elim (Bool-cases (leb max_rate_entries (length (sweep (is_over now) limits)))) [
    | inl f ↦ rw f (sweep-IsMap (is_over now) limits d)
    | inr f ↦ rw f (
        count_post-IsMap key now 0 (sweep (is_over now) limits)
          (sweep-IsMap (is_over now) limits d))
  ])
  | inr c ↦ rw c (count_post-IsMap key now 0 limits d)
]

allow_found-IsMap :
    (key : String) (now : ℕ) (limits : Table String RateWindow) (o : Option RateWindow)
    → IsMap limits
    → IsMap (allow_found key now limits o).1
unfolding allow_found
allow_found-IsMap key now limits none d = first_post-IsMap key now limits d
allow_found-IsMap key now limits (some w) d = elim (Bool-cases (is_over now key w)) [
  | inl o ↦ rw o (count_post-IsMap key now 0 limits d)
  | inr o ↦ rw o (count_post-IsMap key w.start w.n limits d)
]

-- With n POSTs in the window, at most 60 - n more pass.
passed-Window :
    (key : String) (start n : ℕ) (posts : List (String × ℕ)) (limits : Table String RateWindow)
    → IsMap limits
    → IsWithin start posts
    → Window start (lookup key limits) n
    → (passed key posts limits).0 ≤ posts_per_minute - n
unfolding passed allow
passed-Window key start n [] limits d t v = omega arith
passed-Window key start n ((k, now) ∷ posts) limits d t v =
    let step =
      allow_found-Counted key k start now n limits (lookup k limits) d t.0.0 t.0.1 refl v in
    let rest =
      passed-Window key start step.0 posts (allow_found k now limits (lookup k limits)).1
        (allow_found-IsMap k now limits (lookup k limits) d) t.1 step.1.0 in
    elim (Bool-cases ((k == key) && (allow_found k now limits (lookup k limits)).0)) [
      | inl p ↦ rw p (omega (arith, rest, step.1.2 p))
      | inr p ↦ rw p (omega (arith, rest, step.1.1))
    ]

-- Of any POSTs of any addresses within the minute from a start on, at most 60 of one address pass,
-- where the address has at the start no window or one that is over; whatever the capacity of the
-- table sweeps away in between.
pub passed-le :
    (key : String) (start : ℕ) (posts : List (String × ℕ)) (limits : Table String RateWindow)
    → IsMap limits
    → IsWithin start posts
    → Window start (lookup key limits) 0
    → (passed key posts limits).0 ≤ posts_per_minute
passed-le key start posts limits d t v = passed-Window key start 0 posts limits d t v

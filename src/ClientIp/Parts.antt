-- ===== src/ClientIp/Parts.antt =====
-- On clientIP: the loop goes through the entries of a value, separated by commas, from the last one.
use concert.Prelude.{
  ℕ, zero, suc, ◌≤◌, ◌<◌, ◌≡◌, refl, sym, ap, ◌∙◌, Bool, true, false, Option, none, some, List, [],
  ◌∷◌, ◌++◌, nat_beq, if◌then◌else◌, length, Bool-cases, inl, inr, arith, none_is_not_some,
  some_injective, true_is_not_false,
}
use mathlib.Core.Path.{subst}
use concert.Net.{Addr, Prefix}
use concert.Priority.{split_parts}
use concert.ClientIp.{
  Names, Scan, goes_on, stops, resume, cut_last, cut_step, check_part, last_part, rest_of, scan,
}

-- The entries of a value, the first one first.
abbrev pub entries : List ℕ → List (List ℕ)
entries s = (split_parts b',' s).0 ∷ (split_parts b',' s).1

-- The walk over entries from the last to the first.
unfoldable pub walk : Names → List Prefix → Addr → List (List ℕ) → Addr → Scan
walk t trusted remote [] hop = goes_on hop
walk t trusted remote (p ∷ ps) hop =
    resume (walk t trusted remote ps hop) (λ h. check_part t trusted remote h (t.trim p))

cut_last-none : (s : List ℕ) → cut_last s ≡ none → split_parts b',' s ≡ (s, [])
unfolding cut_last split_parts
cut_last-none [] e = refl
cut_last-none (x ∷ xs) e = by_rest (cut_last xs) refl e (cut_last-none xs)
  where
    comma : (b : Bool) (v : List ℕ × List ℕ) → (if b then some v else none) ≡ none → b ≡ true → ⊥
    comma true v g q = none_is_not_some (sym g)
    comma false v g q = true_is_not_false q refl

    by_rest :
        (o : Option (List ℕ × List ℕ))
        → cut_last xs ≡ o
        → cut_step x xs o ≡ none
        → (cut_last xs ≡ none → split_parts b',' xs ≡ (xs, []))
        → split_parts b',' (x ∷ xs) ≡ (x ∷ xs, [])
    by_rest none f g ih = elim (Bool-cases (nat_beq x b',')) [
      | inl q ↦ absurd (comma (nat_beq x b',') ([], xs) g q)
      | inr q ↦ rw (q, ih f) refl
    ]
    by_rest (some p) f g ih = absurd (none_is_not_some (sym g))

-- Cutting the last entry off leaves the entries before it.
cut_last-some :
    (s : List ℕ) (p : List ℕ × List ℕ)
    → cut_last s ≡ some p
    → (split_parts b',' s ≡ ((split_parts b',' p.0).0, (split_parts b',' p.0).1 ++ p.1 ∷ []))
      × (length p.0 < length s)
unfolding cut_last split_parts
cut_last-some [] p e = absurd (none_is_not_some e)
cut_last-some (x ∷ xs) p e = by_rest (cut_last xs) refl e (cut_last-some xs)
  where
    first :
        (p : List ℕ × List ℕ)
        → ([], xs) ≡ p
        → cut_last xs ≡ none
        → nat_beq x b',' ≡ true
        → (split_parts b',' (x ∷ xs)
            ≡ ((split_parts b',' p.0).0, (split_parts b',' p.0).1 ++ p.1 ∷ []))
          × (length p.0 < suc (length xs))
    first p e f q =
        subst
          (λ p.
            (split_parts b',' (x ∷ xs)
              ≡ ((split_parts b',' p.0).0, (split_parts b',' p.0).1 ++ p.1 ∷ []))
            × (length p.0 < suc (length xs)))
          e (rw (q, cut_last-none xs f) refl, omega arith)

    later :
        (q p : List ℕ × List ℕ)
        → (x ∷ q.0, q.1) ≡ p
        → (split_parts b',' xs ≡ ((split_parts b',' q.0).0, (split_parts b',' q.0).1 ++ q.1 ∷ []))
          × (length q.0 < length xs)
        → (split_parts b',' (x ∷ xs)
            ≡ ((split_parts b',' p.0).0, (split_parts b',' p.0).1 ++ p.1 ∷ []))
          × (length p.0 < suc (length xs))
    later q p e ih =
        subst
          (λ p.
            (split_parts b',' (x ∷ xs)
              ≡ ((split_parts b',' p.0).0, (split_parts b',' p.0).1 ++ p.1 ∷ []))
            × (length p.0 < suc (length xs)))
          e
          (
            elim (Bool-cases (nat_beq x b',')) [
              | inl c ↦ rw (c, ih.0) refl
              | inr c ↦ rw (c, ih.0) refl
            ],
            omega (arith, ih.1),
          )

    by_rest :
        (o : Option (List ℕ × List ℕ))
        → cut_last xs ≡ o
        → cut_step x xs o ≡ some p
        → ((q : List ℕ × List ℕ)
            → cut_last xs ≡ some q
            → (split_parts b',' xs
                ≡ ((split_parts b',' q.0).0, (split_parts b',' q.0).1 ++ q.1 ∷ []))
              × (length q.0 < length xs))
        → (split_parts b',' (x ∷ xs)
            ≡ ((split_parts b',' p.0).0, (split_parts b',' p.0).1 ++ p.1 ∷ []))
          × (length p.0 < suc (length xs))
    by_rest none f g ih = elim (Bool-cases (nat_beq x b',')) [
      | inl q ↦ first p (some_injective (sym (rw q refl) ∙ g)) f q
      | inr q ↦ absurd (none_is_not_some (sym (rw q refl) ∙ g))
    ]
    by_rest (some q) f g ih = later q p (some_injective g) (ih q f)

resume_assoc :
    (s : Scan) (f g : Addr → Scan) → resume (resume s f) g ≡ resume s (λ h. resume (f h) g)
resume_assoc (goes_on h) f g = refl
resume_assoc (stops a) f g = refl

-- The walk over more entries begins with those that stand last.
pub walk-append :
    (t : Names) (trusted : List Prefix) (remote : Addr) (ps qs : List (List ℕ)) (hop : Addr)
    → walk t trusted remote (ps ++ qs) hop
      ≡ resume (walk t trusted remote qs hop) (λ h. walk t trusted remote ps h)
unfolding walk
walk-append t trusted remote [] qs hop = resume_same (walk t trusted remote qs hop)
  where
    resume_same : (s : Scan) → s ≡ resume s (λ h. goes_on h)
    resume_same (goes_on h) = refl
    resume_same (stops a) = refl
walk-append t trusted remote (p ∷ ps) qs hop =
    ap (λ s. resume s (λ h. check_part t trusted remote h (t.trim p)))
      (walk-append t trusted remote ps qs hop)
    ∙ resume_assoc (walk t trusted remote qs hop) (λ h. walk t trusted remote ps h)
        (λ h. check_part t trusted remote h (t.trim p))

resume_same : (s : Scan) (f : Addr → Scan) → ((h : Addr) → f h ≡ goes_on h) → resume s f ≡ s
resume_same (goes_on h) f e = e h
resume_same (stops a) f e = refl

pub resume_ext : (s : Scan) (f g : Addr → Scan) → ((h : Addr) → f h ≡ g h) → resume s f ≡ resume s g
resume_ext (goes_on h) f g e = e h
resume_ext (stops a) f g e = refl

scan_nothing :
    (t : Names) (trusted : List Prefix) (remote : Addr) (n : ℕ) (hop : Addr)
    → scan t trusted remote n [] hop ≡ goes_on hop
unfolding scan
scan_nothing t trusted remote zero hop = refl
scan_nothing t trusted remote (suc n) hop = refl

-- One round: the last entry is checked, and the loop goes on with what stands before its comma.
round-walk :
    (t : Names) (trusted : List Prefix) (remote : Addr) (n : ℕ) (s : List ℕ) (hop : Addr)
    (o : Option (List ℕ × List ℕ))
    → cut_last s ≡ o
    → length s ≤ suc n
    → ((b : List ℕ) (h : Addr)
        → length b ≤ n
        → scan t trusted remote n b h ≡ walk t trusted remote (entries b) h)
    → resume
        (check_part t trusted remote hop (t.trim (last_part s o)))
        (λ h. scan t trusted remote n (rest_of o) h)
      ≡ walk t trusted remote (entries s) hop
unfolding walk
round-walk t trusted remote n s hop none e h ih =
    resume_same (check_part t trusted remote hop (t.trim s)) (λ h. scan t trusted remote n [] h)
      (λ h. scan_nothing t trusted remote n h)
    ∙ ap (λ q. walk t trusted remote (q.0 ∷ q.1) hop) (sym (cut_last-none s e))
round-walk t trusted remote n s hop (some p) e h ih =
    let cut = cut_last-some s p e in
    resume_ext (check_part t trusted remote hop (t.trim p.1)) (λ h. scan t trusted remote n p.0 h)
      (λ h. walk t trusted remote (entries p.0) h) (λ j. ih p.0 j (omega (arith, cut.1, h)))
    ∙ sym (walk-append t trusted remote (entries p.0) (p.1 ∷ []) hop)
    ∙ ap (λ q. walk t trusted remote (q.0 ∷ q.1) hop) (sym cut.0)

walk_nothing :
    (t : Names) (trusted : List Prefix) (remote : Addr) (hop : Addr)
    → t.trim [] ≡ []
    → walk t trusted remote (entries []) hop ≡ goes_on hop
unfolding walk split_parts check_part
walk_nothing t trusted remote hop e = rw e refl

-- With the length of the value as fuel, the loop is the walk over its entries.
pub scan-walk :
    (t : Names) (trusted : List Prefix) (remote : Addr) (n : ℕ) (s : List ℕ) (hop : Addr)
    → t.trim [] ≡ []
    → length s ≤ n
    → scan t trusted remote n s hop ≡ walk t trusted remote (entries s) hop
unfolding scan
scan-walk t trusted remote zero [] hop e h = sym (walk_nothing t trusted remote hop e)
scan-walk t trusted remote zero (x ∷ xs) hop e h = absurd (omega (arith, h))
scan-walk t trusted remote (suc n) [] hop e h = sym (walk_nothing t trusted remote hop e)
scan-walk t trusted remote (suc n) (x ∷ xs) hop e h =
    round-walk t trusted remote n (x ∷ xs) hop (cut_last (x ∷ xs)) refl h
      (λ b j k. scan-walk t trusted remote n b j e k)

-- ===== src/Priority/Header.antt =====
-- On priority.go: what the header's parser accepts.
use concert.Prelude.{
  ℕ, zero, suc, ◌+◌, ◌-◌, ◌*◌, ◌^◌, ◌<◌, ◌≤◌, ◌≡◌, ◌≢◌, refl, sym, ap, ◌∙◌, true, false, ◌||◌,
  none_is_not_some, some_injective, Option, none, some, List, [], ◌∷◌, nat_beq, nat_beq_iff,
  if◌then◌else◌, Bool-cases, inl, inr, arith, length, ◌==◌, ==_iff, get_elem?,
}
use mathlib.Core.Path.{subst}
use native.Mathlib.Numerals.{unary_clauses}
use concert.Int64.{mul64, slt}
use concert.Bytes.{bytes_eq}
use concert.Priority.{
  second, rank_count, rank_names, rank_default_ttl, Text, IsText, find_rank, parse_rank, cut,
  read_ttl, option_ttl, options_ttl, clamp, clamped, parse_ranked, parse_priority_header,
  split_parts, ttl_name,
}

clamp-bounds : (ttl : ℕ) → ttl < 2 ^ 64 → (60 * second ≤ clamp ttl) × (clamp ttl ≤ 86400 * second)
unfolding clamp slt
clamp-bounds ttl h = ground arith

-- The index that is found names the text.
find_rank-named :
    (i : ℕ) (ns : List (List ℕ)) (s : List ℕ) (rank : ℕ)
    → find_rank i ns s ≡ some rank
    → (i ≤ rank) × (get_elem? ns (rank - i) ≡ some s)
unfolding find_rank
find_rank-named i [] s rank h = absurd (none_is_not_some h)
find_rank-named i (n ∷ ns) s rank h = elim (Bool-cases (n == s)) [
  | inl e ↦ first (at_once h e) ((==_iff n s).0 e)
  | inr e ↦ later (find_rank-named (i + 1) ns s rank (onwards h e))
]
  where
    at_once :
        (if n == s then some i else find_rank (i + 1) ns s) ≡ some rank → (n == s) ≡ true → i ≡ rank
    at_once p q = ground arith

    onwards :
        (if n == s then some i else find_rank (i + 1) ns s) ≡ some rank
        → (n == s) ≡ false
        → find_rank (i + 1) ns s ≡ some rank
    onwards p q = sym (rw q refl) ∙ p

    first : i ≡ rank → n ≡ s → (i ≤ rank) × (get_elem? (n ∷ ns) (rank - i) ≡ some s)
    first p q = (omega (arith, p), ap (get_elem? (n ∷ ns)) (zero_left p) ∙ ap some q)
      where
        zero_left : i ≡ rank → rank - i ≡ 0
        zero_left p = omega (arith, p)

    later :
        (i + 1 ≤ rank) × (get_elem? ns (rank - (i + 1)) ≡ some s)
        → (i ≤ rank) × (get_elem? (n ∷ ns) (rank - i) ≡ some s)
    later p = (omega (arith, p.0), ap (get_elem? (n ∷ ns)) (one_more p.0) ∙ p.1)
      where
        one_more : i + 1 ≤ rank → rank - i ≡ suc (rank - (i + 1))
        one_more q = omega (arith, q)

get_elem?-lt {ℓ} :
    {A : Type ℓ} (xs : List A) (i : ℕ) (a : A) → get_elem? xs i ≡ some a → i < length xs
get_elem?-lt [] i a h = absurd (none_is_not_some h)
get_elem?-lt (x ∷ xs) zero a h = omega arith
get_elem?-lt (x ∷ xs) (suc i) a h = omega (arith, get_elem?-lt xs i a h)

-- The value, if there is one, fits an int64.
abbrev AllFit : Option ℕ → Type 0
AllFit none = Unit
AllFit (some d) = d < 2 ^ 64

read_ttl-AllFit : (t : Text) (val : List ℕ) (o : Option ℕ) → IsText t → AllFit (read_ttl t val o)
unfolding read_ttl mul64
read_ttl-AllFit t val (some n) h = omega arith
read_ttl-AllFit t val none h = by_duration (t.parse_duration val) refl
  where
    by_duration : (o : Option ℕ) → t.parse_duration val ≡ o → AllFit o
    by_duration none e = tt
    by_duration (some d) e = h.duration_fits val d e

option_ttl-AllFit :
    (t : Text) (ttl : ℕ) (o : Option (List ℕ × List ℕ))
    → IsText t
    → ttl < 2 ^ 64
    → AllFit (option_ttl t ttl o)
unfolding option_ttl
option_ttl-AllFit t ttl none h f = f
option_ttl-AllFit t ttl (some (k, val)) h f = elim (Bool-cases (t.equal_fold (t.trim k) ttl_name)) [
  | inl e ↦ rw e (read_ttl-AllFit t (t.trim val) (t.atoi (t.trim val)) h)
  | inr e ↦ rw e f
]

options_ttl-AllFit :
    (t : Text) (ps : List (List ℕ)) (o : Option ℕ)
    → IsText t
    → AllFit o
    → AllFit (options_ttl t ps o)
unfolding options_ttl
options_ttl-AllFit t [] o h f = f
options_ttl-AllFit t (p ∷ ps) none h f = tt
options_ttl-AllFit t (p ∷ ps) (some ttl) h f =
    options_ttl-AllFit t ps (option_ttl t ttl (cut b'=' (t.trim p))) h
      (option_ttl-AllFit t ttl (cut b'=' (t.trim p)) h f)

default-fits : (rank : ℕ) → rank_default_ttl rank < 2 ^ 64
default-fits rank = elim (Bool-cases (nat_beq rank 0)) [
  | inl e ↦ rw e (omega arith)
  | inr e ↦ elim (Bool-cases (nat_beq rank 2 || nat_beq rank 5)) [
    | inl f ↦ rw (e, f) (omega arith)
    | inr f ↦ rw (e, f) (omega arith)
  ]
]

-- What an accepted header grants.
pub record IsGrant (t : Text) (v : List ℕ) (rank ttl : ℕ) : Type 0 where
  pub named : get_elem? rank_names rank ≡ some (t.lower (t.trim (split_parts b';' v).0))
  pub known : rank < rank_count
  pub least : rank ≢ 0 → 60 * second ≤ ttl
  pub most : rank ≢ 0 → ttl ≤ 86400 * second

clamped-bounds :
    (rank : ℕ) (o : Option ℕ) (r ttl : ℕ)
    → AllFit o
    → clamped rank o ≡ some (r, ttl)
    → (r ≡ rank) × (rank ≢ 0 → (60 * second ≤ ttl) × (ttl ≤ 86400 * second))
unfolding clamped
clamped-bounds rank none r ttl f h = absurd (none_is_not_some h)
clamped-bounds rank (some d) r ttl f h = elim (Bool-cases (nat_beq rank 0)) [
  | inl e ↦ (sym (ap (λ p. p.0) (some_injective h)), λ n. absurd (n ((nat_beq_iff rank 0).0 e)))
  | inr e ↦ (
    sym (ap (λ p. p.0) (some_injective h)),
    λ n.
        subst (λ x. (60 * second ≤ x) × (x ≤ 86400 * second))
          (sym (rw e refl) ∙ ap (λ p. p.1) (some_injective h)) (clamp-bounds d f),
  )
]

-- A header that is accepted, where a parsed duration is an int64: its rank is one of the seven, with
-- the name that its first part spells in any case; and, but for guest, the lifetime is from one
-- minute to 24 hours, whatever ttl options it has, with values that are negative or overflow too.
pub parse_priority_header-IsGrant :
    (t : Text) (v : List ℕ) (rank ttl : ℕ)
    → IsText t
    → parse_priority_header t v ≡ some (rank, ttl)
    → IsGrant t v rank ttl
unfolding parse_priority_header parse_rank
parse_priority_header-IsGrant t v rank ttl h e =
    by_rank (find_rank 0 rank_names (t.lower (t.trim (split_parts b';' v).0))) refl
      (unfold parse_ranked in e)
  where
    by_rank :
        (o : Option ℕ)
        → find_rank 0 rank_names (t.lower (t.trim (split_parts b';' v).0)) ≡ o
        → parse_ranked t (split_parts b';' v).1 o ≡ some (rank, ttl)
        → IsGrant t v rank ttl
    by_rank none f g = absurd (none_is_not_some (unfold parse_ranked in g))
    by_rank (some r) f g =
        let b =
          clamped-bounds r (options_ttl t (split_parts b';' v).1 (some (rank_default_ttl r))) rank
            ttl
            (options_ttl-AllFit t (split_parts b';' v).1 (some (rank_default_ttl r)) h
              (default-fits r))
            (unfold parse_ranked in g) in
        let named =
          simp unary_clauses at
            ((find_rank-named 0 rank_names (t.lower (t.trim (split_parts b';' v).0)) r f).1) in
        subst (λ k. IsGrant t v k ttl) (sym b.0)
          (record {
            named = named;
            known = get_elem?-lt rank_names r (t.lower (t.trim (split_parts b';' v).0)) named;
            least = λ n. (b.1 n).0;
            most = λ n. (b.1 n).1;
          })

-- ===== src/Ranges/Laws.antt =====
-- On ranges.go: the look-up of the latest ban that holds an address, and the sweep.
use concert.Prelude.{
  ℕ, ◌≤◌, ◌≡◌, refl, sym, ap, ◌∙◌, inl, inr, Bool, true, false, ◌&&◌, none, some, [], ◌∷◌, arith,
  if◌then◌else◌, ◌==◌, ==_iff, ==_refl, Bool-cases,
}
use concert.Prelude.Table.{Table, lookup, sweep, IsMap}
use concert.Int64.{slt, NonNegative}
use concert.Net.{Addr, Prefix, prefix_eq, contains}
use concert.Abuse.{RangeBan}
use concert.Ranges.{latest, has_ended}

-- The ban counts for the address now.
abbrev pub applies : ℕ → Addr → Prefix → RangeBan → Bool
applies now ip p b = slt now b.until && contains p ip

slt_irrefl : (a : ℕ) → slt a a ≡ false
unfolding slt
slt_irrefl a = ground arith

-- `a` is not later than `b`.
abbrev pub NotLater : ℕ → ℕ → Type 0
NotLater a b = slt b a ≡ false

pub NotLater-trans : (a b c : ℕ) → NotLater a b → NotLater b c → NotLater a c
unfolding slt
NotLater-trans a b c h k = ground arith

later-NotLater : (a b : ℕ) → slt a b ≡ true → NotLater a b
unfolding slt
later-NotLater a b h = ground arith

abbrev step : ℕ → Addr → ℕ → Prefix → RangeBan → ℕ
step now ip until p b =
    if slt now b.until && (slt until b.until && contains p ip) then b.until else until

step_grows :
    (now : ℕ) (ip : Addr) (until : ℕ) (p : Prefix) (b : RangeBan)
    → NotLater until (step now ip until p b)
step_grows now ip until p b = ground (arith, slt_irrefl until, later-NotLater until b.until)

step_takes :
    (now : ℕ) (ip : Addr) (until : ℕ) (p : Prefix) (b : RangeBan)
    → applies now ip p b ≡ true
    → NotLater b.until (step now ip until p b)
step_takes now ip until p b h = ground (arith, slt_irrefl b.until)

latest_grows :
    (now : ℕ) (ip : Addr) (until : ℕ) (m : Table Prefix RangeBan)
    → NotLater until (latest now ip until m)
unfolding latest
latest_grows now ip until [] = slt_irrefl until
latest_grows now ip until ((p, b) ∷ m) =
    NotLater-trans until (step now ip until p b) (latest now ip (step now ip until p b) m)
      (step_grows now ip until p b) (latest_grows now ip (step now ip until p b) m)

-- No active ban of the table that holds the address ends after what the loop finds.
pub latest_bounds :
    (now : ℕ) (ip : Addr) (until : ℕ) (m : Table Prefix RangeBan) (p : Prefix) (b : RangeBan)
    → lookup p m ≡ some b
    → applies now ip p b ≡ true
    → NotLater b.until (latest now ip until m)
unfolding latest lookup
latest_bounds now ip until [] p b e h = cc
latest_bounds now ip until ((q, c) ∷ m) p b e h = elim (Bool-cases (q == p)) [
  | inl same ↦
      let first = step_takes now ip until q c (is_first ((==_iff q p).0 same) (rw same at e)) in
      NotLater-trans b.until (step now ip until q c) (latest now ip (step now ip until q c) m)
        (at_head (rw same at e) first) (latest_grows now ip (step now ip until q c) m)
  | inr other ↦ latest_bounds now ip (step now ip until q c) m p b (rw other at e) h
]
  where
    is_first : q ≡ p → some c ≡ some b → applies now ip q c ≡ true
    is_first s t = ground arith

    at_head :
        some c ≡ some b
        → NotLater c.until (step now ip until q c)
        → NotLater b.until (step now ip until q c)
    at_head t n = ground arith

-- What the loop finds is where it started, or the end of an active ban that holds the address.
pub data Found (now : ℕ) (ip : Addr) (until : ℕ) (m : Table Prefix RangeBan) (x : ℕ) : Type 0 where
  start : x ≡ until → Found now ip until m x
  ban :
      (p : Prefix) (b : RangeBan)
      → lookup p m ≡ some b
      → applies now ip p b ≡ true
      → x ≡ b.until
      → Found now ip until m x

lookup-head :
    (q : Prefix) (c : RangeBan) (m : Table Prefix RangeBan) → lookup q ((q, c) ∷ m) ≡ some c
unfolding lookup
lookup-head q c m = rw (==_refl q)

lookup-tail :
    (p q : Prefix) (b c : RangeBan) (m : Table Prefix RangeBan)
    → lookup q m ≡ none
    → lookup p m ≡ some b
    → lookup p ((q, c) ∷ m) ≡ some b
unfolding lookup
lookup-tail p q b c m d l = elim (Bool-cases (q == p)) [
  | inl same ↦ absurd (none_apart (sym d ∙ ap (λ x. lookup x m) ((==_iff q p).0 same) ∙ l))
  | inr other ↦ rw other l
]
  where
    none_apart : {x : RangeBan} → none ≡ some x → ⊥
    none_apart h = cc

-- In a table that holds a prefix once, the loop's end is its start value, or the end of a ban in the
-- table that is active and holds the address: the answer is never invented.
pub latest-Found :
    (now : ℕ) (ip : Addr) (until : ℕ) (m : Table Prefix RangeBan)
    → IsMap m
    → Found now ip until m (latest now ip until m)
unfolding latest
latest-Found now ip until [] d = start refl
latest-Found now ip until ((q, c) ∷ m) d =
    by_rest (latest-Found now ip (step now ip until q c) m d.1)
  where
    by_test : (x : ℕ) → x ≡ step now ip until q c → Found now ip until ((q, c) ∷ m) x
    by_test x e = elim (Bool-cases (slt now c.until && (slt until c.until && contains q ip))) [
      | inl t ↦ ban q c (lookup-head q c m) (ground arith) (rw t at e)
      | inr t ↦ start (rw t at e)
    ]

    by_rest :
        Found now ip (step now ip until q c) m (latest now ip (step now ip until q c) m)
        → Found now ip until ((q, c) ∷ m) (latest now ip (step now ip until q c) m)
    by_rest (start e) = by_test (latest now ip (step now ip until q c) m) e
    by_rest (ban p b l a e) = ban p b (lookup-tail p q b c m d.0 l) a e

ended_later :
    (n t u : ℕ) → NonNegative n → NonNegative t → n ≤ t → slt n u ≡ false → slt t u ≡ false
unfolding slt
ended_later n t u hn ht h e = ground arith

pub latest-sweep :
    (n t : ℕ) (ip : Addr) (until : ℕ) (m : Table Prefix RangeBan)
    → NonNegative t
    → n ≤ t
    → latest t ip until (sweep (has_ended n) m) ≡ latest t ip until m
unfolding latest sweep
latest-sweep n t ip until [] ht h = refl
latest-sweep n t ip until ((p, b) ∷ m) ht h = elim (Bool-cases (slt n b.until)) [
  | inl e ↦ rw e (latest-sweep n t ip (step t ip until p b) m ht h)
  | inr e ↦
      rw e (rw (ended_later n t b.until (omega arith) ht h e) (latest-sweep n t ip until m ht h))
]

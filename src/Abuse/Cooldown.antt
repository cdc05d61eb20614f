-- ===== src/Abuse/Cooldown.antt =====
-- On abuse.go: the length of a ban.
use native.Mathlib.Nat.{pow-suc}
use concert.Prelude.{
  ℕ, zero, suc, ◌-◌, ◌*◌, ◌^◌, ◌<◌, ◌≤◌, min, ◌≡◌, sym, ap, ◌∙◌, true, arith, ltb, inl, inr,
  Bool-cases, le→ltb, ltb→lt,
}
use concert.Int64.{mul64, mul64_exact, slt, slt_nonneg}
use concert.Abuse.{AbuseParams}
use concert.Abuse.Strikes.{escalate, cooldown}

-- A first ban that is positive and at most the maximum, and a maximum under half the int64 range.
pub record IsSane (p : AbuseParams) : Type 0 where
  pub positive : 0 < p.base
  pub ordered : p.base ≤ p.max
  pub modest : p.max < 2 ^ 62

one-le-pow : (k : ℕ) → 1 ≤ 2 ^ k
one-le-pow zero = omega arith
one-le-pow (suc k) = rw (pow-suc 2 k) (omega (arith, one-le-pow k))

times_pow : (d k : ℕ) → d * 2 ^ suc k ≡ d * 2 * 2 ^ k
times_pow d k = rw (pow-suc 2 k) (grind arith)

le-times_pow : (d k : ℕ) → d ≤ d * 2 ^ k
le-times_pow d k = let h = one-le-pow k in grind arith

escalate-eq-min : (cap k d : ℕ) → cap < 2 ^ 62 → d ≤ cap → escalate cap k d ≡ min (d * 2 ^ k) cap
unfolding escalate
escalate-eq-min cap zero d h le =
    rw (slt_nonneg cap d (omega arith) (omega arith)) (rw (le→ltb cap d le) (omega arith))
escalate-eq-min cap (suc k) d h le = rw (mul64_exact d 2 (omega arith)) (
    rw (slt_nonneg (d * 2) cap (omega arith) (omega arith)) (elim (Bool-cases (ltb (d * 2) cap)) [
      | inl b ↦ rw b (
          escalate-eq-min cap k (d * 2) h (omega (arith, ltb→lt _ _ b))
          ∙ ap (λ (x : ℕ). min x cap) (sym (times_pow d k)))
      | inr b ↦ rw b (
          let reached : cap ≤ d * 2 = ground arith in
          rw (times_pow d k) (omega (arith, le-times_pow (d * 2) k)))
    ]))

-- With sane settings, the cooldown of offense number `k + 1` is the base doubled `k` times, and
-- never more than the maximum.
pub cooldown-eq-min :
    (p : AbuseParams) (k : ℕ) → IsSane p → cooldown p (suc k) ≡ min (p.base * 2 ^ k) p.max
unfolding cooldown
cooldown-eq-min p k s = rw (rounds k) (escalate-eq-min p.max k p.base s.modest s.ordered)
  where
    rounds : (n : ℕ) → suc n - 1 ≡ n
    rounds n = omega arith

pub cooldown_bounds :
    (p : AbuseParams) (k : ℕ) → IsSane p → (0 < cooldown p (suc k)) × (cooldown p (suc k) ≤ p.max)
cooldown_bounds p k s =
    let e = cooldown-eq-min p k s in
    let le = le-times_pow p.base k in
    let b = s.positive in let o = s.ordered in (omega arith, omega arith)

-- With a first ban of at least 2 ^ 62 nanoseconds (146 years), which the settings' validation
-- accepts under any maximum that is not smaller, the second ban's length wraps to a negative one.
pub cooldown_wraps :
    (p : AbuseParams)
    → 2 ^ 62 ≤ p.base
    → p.base ≤ p.max
    → p.max < 2 ^ 63
    → slt (cooldown p 2) 0 ≡ true
unfolding cooldown escalate slt mul64
cooldown_wraps p b o m = ground arith

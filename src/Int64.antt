-- ===== src/Int64.antt =====
-- Go's int64 as its bit pattern, a number below 2 ^ 64: addition and subtraction that wrap, and
-- the signed comparison. The patterns below 2 ^ 63 are the integers that are not negative.
use concert.Prelude.{ℕ, ◌+◌, ◌-◌, ◌*◌, ◌%◌, ◌^◌, ◌<◌, ◌≤◌, ◌≡◌, Bool, ltb, arith}

unfoldable pub add64 : ℕ → ℕ → ℕ
add64 a b = (a + b) % 2 ^ 64

unfoldable pub sub64 : ℕ → ℕ → ℕ
sub64 a b = (a + 2 ^ 64 - b) % 2 ^ 64

unfoldable pub mul64 : ℕ → ℕ → ℕ
mul64 a b = (a * b) % 2 ^ 64

-- a < b on int64
unfoldable pub slt : ℕ → ℕ → Bool
slt a b = ltb ((a + 2 ^ 63) % 2 ^ 64) ((b + 2 ^ 63) % 2 ^ 64)

abbrev pub max_int64 : ℕ
max_int64 = 2 ^ 63 - 1

-- The integer is not negative.
abbrev pub NonNegative : ℕ → Type 0
NonNegative a = a < 2 ^ 63

pub slt_nonneg : (a b : ℕ) → NonNegative a → NonNegative b → slt a b ≡ ltb a b
unfolding slt
slt_nonneg a b ha hb = ground arith

pub add64_exact : (a b : ℕ) → NonNegative (a + b) → add64 a b ≡ a + b
unfolding add64
add64_exact a b h = omega arith

pub sub64_exact : (a b : ℕ) → NonNegative a → b ≤ a → sub64 a b ≡ a - b
unfolding sub64
sub64_exact a b ha h = omega arith

-- left > 0 for left = a - b
pub slt_zero-sub64 : (a b : ℕ) → NonNegative a → NonNegative b → slt 0 (sub64 a b) ≡ ltb b a
unfolding slt sub64
slt_zero-sub64 a b ha hb = ground arith

-- a - b > w
pub slt-sub64 :
    (w a b : ℕ) → NonNegative w → NonNegative a → NonNegative b → slt w (sub64 a b) ≡ ltb w (a - b)
unfolding slt sub64
slt-sub64 w a b hw ha hb = ground arith

pub mul64_exact : (a b : ℕ) → NonNegative (a * b) → mul64 a b ≡ a * b
unfolding mul64
mul64_exact a b h = omega arith

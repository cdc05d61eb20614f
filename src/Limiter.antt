-- ===== src/Limiter.antt =====
-- limiter.go: failed portal sign-ins by client address, with a lockout after too many.
-- A time.Time is a number of nanoseconds since the zero Time; `-` stops at 0, and a clock that
-- went backwards passes none of the tests below, as in the source.
pub mod Laws
pub mod Burst
mod Tests
use concert.Prelude.{
  ℕ, ◌+◌, ◌-◌, ◌*◌, Bool, true, false, ◌&&◌, Option, none, some, ltb, leb, if◌then◌else◌, length,
}
use concert.Prelude.Table.{Table, lookup, insert, delete, sweep}
use concert.Net.{Addr, addr_eq}

-- portal.go
abbrev pub login_max_failures : ℕ
login_max_failures = 5

abbrev pub login_window : ℕ
login_window = 15 * 60 * 1000000000

abbrev pub login_lockout : ℕ
login_lockout = 15 * 60 * 1000000000

-- loginState
pub record LoginState : Type 0 where
  pub fails : ℕ
  pub first : ℕ
  pub locked_until : ℕ

-- loginLimiter
abbrev pub LoginLimiter : Type 0
LoginLimiter = Table Addr LoginState

-- How long the state still locks its address out.
abbrev pub lock_left : ℕ → Option LoginState → ℕ × Bool
lock_left now none = (0, false)
lock_left now (some s) = if ltb now s.locked_until then (s.locked_until - now, true) else (0, false)

unfoldable pub locked : Addr → ℕ → LoginLimiter → ℕ × Bool
locked ip now l = lock_left now (lookup ip l)

-- The state that a failure counts in: a new one when there is none or its window is over.
abbrev pub current : ℕ → Option LoginState → LoginState
current now none = record { fails = 0; first = now; locked_until = 0 }
current now (some s) =
    if ltb login_window (now - s.first)
    then record { fails = 0; first = now; locked_until = 0 }
    else s

abbrev pub count_failure : ℕ → LoginState → LoginState
count_failure now s =
    if leb login_max_failures (s.fails + 1)
    then record { fails = 0; first = now; locked_until = now + login_lockout }
    else record s { fails = s.fails + 1 }

unfoldable pub fail : Addr → ℕ → LoginLimiter → LoginLimiter
fail ip now l = insert ip (count_failure now (current now (lookup ip l))) l

unfoldable pub reset : Addr → LoginLimiter → LoginLimiter
reset ip l = delete ip l

abbrev pub is_stale : ℕ → Addr → LoginState → Bool
is_stale now ip s = ltb s.locked_until now && ltb login_window (now - s.first)

-- sweep
unfoldable pub purge : ℕ → LoginLimiter → LoginLimiter
purge now l = sweep (is_stale now) l

unfoldable pub count : LoginLimiter → ℕ
count l = length l

-- ===== src/KickList.antt =====
-- kick.go: room tickets that an administrator kicked, each until its lockout ends.
-- A time.Time is a number of nanoseconds; the mutex makes every method one step.
pub mod Laws
mod Tests
use concert.Prelude.{
  ℕ, String, Bool, true, false, not, Option, none, some, ltb, if◌then◌else◌, length, string_eq,
}
use concert.Prelude.Table.{Table, lookup, insert, delete, sweep}

-- kickList
abbrev pub KickList : Type 0
KickList = Table String ℕ

unfoldable pub add : String → ℕ → KickList → KickList
add token until k = insert token until k

has_found : String → ℕ → Option ℕ → KickList → Bool × KickList
has_found token now none k = (false, k)
has_found token now (some until) k =
    if not (ltb now until) then (false, delete token k) else (true, k)

-- The look at a ticket drops its entry once it has expired.
unfoldable pub has : String → ℕ → KickList → Bool × KickList
unfolding has_found
has token now k = has_found token now (lookup token k) k

unfoldable pub count : KickList → ℕ
count k = length k

abbrev pub is_over : ℕ → String → ℕ → Bool
is_over now token until = not (ltb now until)

-- sweep
unfoldable pub purge : ℕ → KickList → KickList
purge now k = sweep (is_over now) k

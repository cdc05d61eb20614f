-- ===== src/Limiter/Burst.antt =====
-- On limiter.go: runs of failed sign-ins from one address.
use concert.Prelude.{
  ℕ, ◌+◌, ◌≤◌, ◌<◌, ◌≡◌, refl, ◌∙◌, ap, false, Option, none, some, List, [], ◌∷◌, arith, ==_refl,
  length, ◌==◌, ◌⊎◌, inl, inr, true, ==_iff, Bool-cases, if◌then◌else◌,
}
use concert.Prelude.Table.{lookup}
use concert.Net.{Addr, addr_eq}
use concert.Limiter.{
  LoginState, LoginLimiter, login_max_failures, login_window, login_lockout, lock_left, locked,
  current, count_failure, fail,
}
use concert.Limiter.Laws.{lookup-fail}

-- Failures at the given times, in that order.
abbrev pub fail_all : Addr → List ℕ → LoginLimiter → LoginLimiter
fail_all ip [] l = l
fail_all ip (t ∷ ts) l = fail_all ip ts (fail ip t l)

-- The same on the address's state alone.
fail_state : List ℕ → Option LoginState → Option LoginState
fail_state [] o = o
fail_state (t ∷ ts) o = fail_state ts (some (count_failure t (current t o)))

lookup-fail_all :
    (ip : Addr) (ts : List ℕ) (l : LoginLimiter)
    → lookup ip (fail_all ip ts l) ≡ fail_state ts (lookup ip l)
unfolding fail_state
lookup-fail_all ip [] l = refl
lookup-fail_all ip (t ∷ ts) l =
    lookup-fail_all ip ts (fail ip t l)
    ∙ ap (fail_state ts) (rw (lookup-fail ip ip t l) (rw (==_refl ip)))

-- No lock yet, and at most `n` failures counted.
abbrev AtMost : ℕ → Option LoginState → Type 0
AtMost n none = Unit
AtMost n (some s) = (s.fails ≤ n) × (s.locked_until ≡ 0)

one_more :
    (n t : ℕ) (o : Option LoginState)
    → n + 1 < login_max_failures
    → AtMost n o
    → AtMost (n + 1) (some (count_failure t (current t o)))
one_more n t none h a = ground arith
one_more n t (some s) h a = ground arith

fail_state-AtMost :
    (n now : ℕ) (ts : List ℕ) (o : Option LoginState)
    → n + length ts < login_max_failures
    → AtMost n o
    → (lock_left now (fail_state ts o)).1 ≡ false
unfolding fail_state
fail_state-AtMost n now [] none h a = refl
fail_state-AtMost n now [] (some s) h a = ground arith
fail_state-AtMost n now (t ∷ ts) o h a =
    fail_state-AtMost (n + 1) now ts (some (count_failure t (current t o))) (omega arith)
      (one_more n t o (omega arith) a)

-- An address with no entry is not locked out, at any time, after fewer failures than lock,
-- whenever they came.
pub few_failures_do_not_lock :
    (ip : Addr) (ts : List ℕ) (now : ℕ) (l : LoginLimiter)
    → lookup ip l ≡ none
    → length ts < login_max_failures
    → (locked ip now (fail_all ip ts l)).1 ≡ false
unfolding locked
few_failures_do_not_lock ip ts now l e h =
    rw (lookup-fail_all ip ts l) (rw e (fail_state-AtMost 0 now ts none (omega arith) tt))

abbrev counted : ℕ → ℕ → LoginState
counted a k = record { fails = k; first = a; locked_until = 0 }

fail_state-counted :
    (a k t : ℕ) (ts : List ℕ)
    → k + 1 < login_max_failures
    → t ≤ a + login_window
    → fail_state (t ∷ ts) (some (counted a k)) ≡ fail_state ts (some (counted a (k + 1)))
unfolding fail_state
fail_state-counted a k t ts h w = ap (fail_state ts) {x = some _} {y = some _} (ground arith)

first_failure :
    (a : ℕ) (ts : List ℕ) → fail_state (a ∷ ts) none ≡ fail_state ts (some (counted a 1))
unfolding fail_state
first_failure a ts = refl

last_failure :
    (a t : ℕ)
    → t ≤ a + login_window
    → fail_state (t ∷ []) (some (counted a 4))
      ≡ some (record { fails = 0; first = t; locked_until = t + login_lockout })
unfolding fail_state
last_failure a t w = ground arith

-- Failures of any addresses, in that order.
abbrev pub fail_each : List (Addr × ℕ) → LoginLimiter → LoginLimiter
fail_each [] l = l
fail_each ((ip, t) ∷ es) l = fail_each es (fail ip t l)

-- The times of the failures of one address among them.
abbrev pub times_of : Addr → List (Addr × ℕ) → List ℕ
times_of ip [] = []
times_of ip ((k, t) ∷ es) = if k == ip then t ∷ times_of ip es else times_of ip es

lookup-fail_each :
    (ip : Addr) (es : List (Addr × ℕ)) (l : LoginLimiter)
    → lookup ip (fail_each es l) ≡ fail_state (times_of ip es) (lookup ip l)
unfolding fail_state
lookup-fail_each ip [] l = refl
lookup-fail_each ip ((k, t) ∷ es) l =
    lookup-fail_each ip es (fail k t l) ∙ by_address (Bool-cases (k == ip))
  where
    own :
        (k : Addr) (t : ℕ) (l : LoginLimiter)
        → (k == ip) ≡ true
        → lookup ip (fail k t l) ≡ some (count_failure t (current t (lookup ip l)))
    own k t l h = rw (lookup-fail k ip t l) (rw (h, (==_iff k ip).0 h))

    other :
        (k : Addr) (t : ℕ) (l : LoginLimiter)
        → (k == ip) ≡ false
        → lookup ip (fail k t l) ≡ lookup ip l
    other k t l h = rw (lookup-fail k ip t l) (rw h)

    by_address :
        ((k == ip) ≡ true) ⊎ ((k == ip) ≡ false)
        → fail_state (times_of ip es) (lookup ip (fail k t l))
          ≡ fail_state (times_of ip ((k, t) ∷ es)) (lookup ip l)
    by_address (inl h) = rw h (ap (fail_state (times_of ip es)) (own k t l h))
    by_address (inr h) = rw h (ap (fail_state (times_of ip es)) (other k t l h))

-- For an address with no entry: whatever failures of other addresses come before, between and
-- after, four more failures of its own within the window of its first, and the last of the five
-- starts a lock that holds for the lockout and not longer.
pub fifth_failure_locks :
    (ip : Addr) (a b c d e now : ℕ) (es : List (Addr × ℕ)) (l : LoginLimiter)
    → lookup ip l ≡ none
    → times_of ip es ≡ a ∷ b ∷ c ∷ d ∷ e ∷ []
    → b ≤ a + login_window
    → c ≤ a + login_window
    → d ≤ a + login_window
    → e ≤ a + login_window
    → locked ip now (fail_each es l)
      ≡ lock_left now (some (record { fails = 0; first = e; locked_until = e + login_lockout }))
unfolding locked
fifth_failure_locks ip a b c d e now es l h own hb hc hd he = ap (lock_left now) (
    lookup-fail_each ip es l
    ∙ ap (λ ts. fail_state ts (lookup ip l)) own
    ∙ ap (fail_state (a ∷ b ∷ c ∷ d ∷ e ∷ [])) h
    ∙ first_failure a (b ∷ c ∷ d ∷ e ∷ [])
    ∙ fail_state-counted a 1 b (c ∷ d ∷ e ∷ []) (omega arith) hb
    ∙ fail_state-counted a 2 c (d ∷ e ∷ []) (omega arith) hc
    ∙ fail_state-counted a 3 d (e ∷ []) (omega arith) hd
    ∙ last_failure a e he)

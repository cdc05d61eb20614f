-- ===== src/Limiter/Tests.antt =====
-- Runs of the sign-in limiter, and its theorems at these runs.
use concert.Prelude.{
  ℕ, ◌+◌, ◌≤◌, ◌≡◌, refl, Bool, true, false, ◌==◌, Option, none, some, List, [], ◌∷◌, arith,
}
use concert.Prelude.Table.{IsMap, lookup}
use concert.Net.{Addr, v4, addr_eq}
use concert.Limiter.{LoginState, LoginLimiter, locked, lock_left, fail, purge, login_lockout}
use concert.Limiter.Laws.{IsValid, fail-IsValid, purge_invisible, fail_keeps_lock}
use concert.Limiter.Burst.{fail_all, fail_each, few_failures_do_not_lock, fifth_failure_locks}

abbrev home : Addr
home = v4 0xc0000201

abbrev neighbour : Addr
neighbour = v4 0xc0000202

abbrev five_failures : LoginLimiter
five_failures = fail_all home (100 ∷ 200 ∷ 300 ∷ 400 ∷ 500 ∷ []) []

empty-IsValid : IsValid []
empty-IsValid = record { is_map = tt; sound = λ ip s e. absurd (nobody ip s e) }
  where
    nobody : (ip : Addr) (s : LoginState) → lookup ip [] ≡ some s → ⊥
    nobody ip s e = unfold lookup in cc

five_failures-IsValid : IsValid five_failures
five_failures-IsValid = fail-IsValid home 500 _ (
    fail-IsValid home 400 _
      (fail-IsValid home 300 _ (fail-IsValid home 200 _ (fail-IsValid home 100 [] empty-IsValid))))

five_lock : (locked home 600 five_failures).1 ≡ true
unfolding locked lookup fail concert.Prelude.Table.insert concert.Net.addr_beq
five_lock = refl

purge_invisible_run :
    (locked home 700 (purge 600 five_failures) ≡ locked home 700 five_failures)
    × (lookup home (fail home 700 (purge 600 five_failures))
        ≡ lookup home (fail home 700 five_failures))
purge_invisible_run = purge_invisible 600 700 home five_failures five_failures-IsValid (omega arith)

fail_keeps_lock_example :
    ((locked home 700 (fail home 600 five_failures)).1 ≡ true)
    × ((locked home 700 five_failures).0 ≤ (locked home 700 (fail home 600 five_failures)).0)
unfolding locked lookup fail concert.Prelude.Table.insert concert.Net.addr_beq
fail_keeps_lock_example =
    fail_keeps_lock home home 600 700 five_failures five_failures-IsValid first_before (omega arith)
      still
  where
    first_before : 500 ≤ 600
    first_before = omega arith

    still : (locked home 700 five_failures).1 ≡ true
    still = refl

few_failures_do_not_lock_run :
    (locked home 450 (fail_all home (100 ∷ 200 ∷ 300 ∷ 400 ∷ []) [])).1 ≡ false
unfolding lookup
few_failures_do_not_lock_run =
    few_failures_do_not_lock home (100 ∷ 200 ∷ 300 ∷ 400 ∷ []) 450 [] refl (omega arith)

-- A neighbour fails in between.
abbrev failures : List (Addr × ℕ)
failures =
    (home, 100)
    ∷ (neighbour, 150)
    ∷ (home, 200)
    ∷ (home, 300)
    ∷ (neighbour, 350)
    ∷ (home, 400)
    ∷ (home, 500)
    ∷ []

fifth_failure_locks_example :
    locked home 600 (fail_each failures [])
    ≡ lock_left 600 (some (record { fails = 0; first = 500; locked_until = 500 + login_lockout }))
unfolding lookup concert.Net.addr_beq
fifth_failure_locks_example =
    fifth_failure_locks home 100 200 300 400 500 600 failures [] refl refl (omega arith)
      (omega arith) (omega arith) (omega arith)

-- ===== src/Limiter/Laws.antt =====
-- On limiter.go: invariants of the limiter, and its sweep.
use concert.Prelude.{
  ℕ, ◌+◌, ◌≤◌, ◌<◌, ◌≡◌, refl, true, Option, none, some, arith, if◌then◌else◌, ◌==◌, ==_iff,
  ==_refl, Bool-cases, inl, inr,
}
use concert.Prelude.Table.{lookup, sweep, IsMap}
use concert.Prelude.Table.Laws.{lookup-insert, lookup-delete, insert-IsMap, delete-IsMap}
use concert.Prelude.Table.Sweep.{survivor, lookup-sweep, sweep-IsMap}
use concert.Net.{Addr, addr_eq}
use concert.Limiter.{
  LoginState, LoginLimiter, login_max_failures, login_lockout, lock_left, locked, current,
  count_failure, fail, reset, is_stale, purge,
}

-- Fewer failures than lock are counted, and a lock ends within the lockout from its start.
pub record IsSound (s : LoginState) : Type 0 where
  pub few : s.fails < login_max_failures
  pub bounded : s.locked_until ≤ s.first + login_lockout

pub record IsValid (l : LoginLimiter) : Type 0 where
  pub is_map : IsMap l
  pub sound : (ip : Addr) (s : LoginState) → lookup ip l ≡ some s → IsSound s

count_failure-IsSound : (now : ℕ) (s : LoginState) → IsSound s → IsSound (count_failure now s)
count_failure-IsSound now s h = ground arith

current-IsSound :
    (now : ℕ) (o : Option LoginState)
    → ((s : LoginState) → o ≡ some s → IsSound s)
    → IsSound (current now o)
current-IsSound now none h = ground arith
current-IsSound now (some s) h = let k = h s refl in ground arith

pub fail-IsValid : (ip : Addr) (now : ℕ) (l : LoginLimiter) → IsValid l → IsValid (fail ip now l)
unfolding fail
fail-IsValid ip now l v = record {
  is_map = insert-IsMap ip _ l v.is_map;
  sound = λ j s e.
      let new = count_failure-IsSound now _ (current-IsSound now (lookup ip l) (v.sound ip)) in
      ground
        (arith, lookup-insert ip j (count_failure now (current now (lookup ip l))) l, v.sound j s);
}

pub reset-IsValid : (ip : Addr) (l : LoginLimiter) → IsValid l → IsValid (reset ip l)
unfolding reset
reset-IsValid ip l v = record {
  is_map = delete-IsMap ip l v.is_map;
  sound = λ j s e. ground (arith, lookup-delete ip j l, v.sound j s);
}

pub purge-IsValid : (now : ℕ) (l : LoginLimiter) → IsValid l → IsValid (purge now l)
unfolding purge
purge-IsValid now l v = record {
  is_map = sweep-IsMap (is_stale now) l v.is_map;
  sound = λ j s e. ground (arith, lookup-sweep (is_stale now) j l v.is_map, v.sound j s);
}

-- A stale entry locks nobody, and its window is over.
lock_left-survivor :
    (now t : ℕ) (ip : Addr) (o : Option LoginState)
    → now ≤ t
    → lock_left t (survivor (is_stale now) ip o) ≡ lock_left t o
lock_left-survivor now t ip none h = refl
lock_left-survivor now t ip (some s) h = ground arith

current-survivor :
    (now t : ℕ) (ip : Addr) (o : Option LoginState)
    → now ≤ t
    → current t (survivor (is_stale now) ip o) ≡ current t o
current-survivor now t ip none h = refl
current-survivor now t ip (some s) h = ground arith

pub lookup-fail :
    (ip j : Addr) (now : ℕ) (l : LoginLimiter)
    → lookup j (fail ip now l)
      ≡ (if ip == j then some (count_failure now (current now (lookup ip l))) else lookup j l)
unfolding fail
lookup-fail ip j now l = lookup-insert ip j _ l

-- A sweep at `now` never shows from `now` on: every address is locked out for as long as without
-- it, and a failure at a later time leaves the address with the same state.
pub purge_invisible :
    (now t : ℕ) (ip : Addr) (l : LoginLimiter)
    → IsValid l
    → now ≤ t
    → (locked ip t (purge now l) ≡ locked ip t l)
      × (lookup ip (fail ip t (purge now l)) ≡ lookup ip (fail ip t l))
unfolding locked purge
purge_invisible now t ip l v h =
    let swept = lookup-sweep (is_stale now) ip l v.is_map in
    (
      rw swept (lock_left-survivor now t ip (lookup ip l) h),
      rw (lookup-fail ip ip t (sweep (is_stale now) l)) (
          rw (lookup-fail ip ip t l)
            (rw swept (rw (current-survivor now t ip (lookup ip l) h) (rw (==_refl ip))))),
    )

-- The clock has not gone back behind the start of the state's window.
abbrev pub NotBefore : ℕ → Option LoginState → Type 0
NotBefore now none = Unit
NotBefore now (some s) = s.first ≤ now

keeps_lock :
    (now t : ℕ) (o : Option LoginState)
    → ((s : LoginState) → o ≡ some s → IsSound s)
    → NotBefore now o
    → now ≤ t
    → (lock_left t o).1 ≡ true
    → ((lock_left t (some (count_failure now (current now o)))).1 ≡ true)
      × ((lock_left t o).0 ≤ (lock_left t (some (count_failure now (current now o)))).0)
keeps_lock now t none h b le e = cc
keeps_lock now t (some s) h b le e = let k = h s refl in ground arith

-- In a limiter that satisfies the invariant, and with a clock that has not gone back, a failure
-- of any address at `now` never ends or shortens a lock: an address locked out at some later `t`
-- is still locked out, for at least as long.
pub fail_keeps_lock :
    (ip j : Addr) (now t : ℕ) (l : LoginLimiter)
    → IsValid l
    → NotBefore now (lookup j l)
    → now ≤ t
    → (locked j t l).1 ≡ true
    → ((locked j t (fail ip now l)).1 ≡ true) × ((locked j t l).0 ≤ (locked j t (fail ip now l)).0)
unfolding locked
fail_keeps_lock ip j now t l v b h e = rw (lookup-fail ip j now l) (elim (Bool-cases (ip == j)) [
  | inl same ↦ rw (same, (==_iff ip j).0 same) (keeps_lock now t (lookup j l) (v.sound j) b h e)
  | inr other ↦ rw other (e, omega arith)
])

-- ===== src/Lane.antt =====
-- priority.go: rankedSem, the priority lane's semaphore. Its waiters are served highest rank
-- first, first come first served within a rank, and a freed slot passes straight to a waiter.
--
-- The mutex makes each critical section one step: `enter` is acquire up to its first Unlock, `leave`
-- is what acquire does after its timer or its context ended the wait, and `release` is release.
-- A *semWaiter is an allocation number, `ref`, which no two waiters share; `granted` lists the
-- waiters whose ready channel is closed. `seq` is a uint64.
pub mod Best
pub mod Laws
pub mod System
pub mod Parts
pub mod Keeps
pub mod Safety
mod Tests
use concert.Prelude.{
  ℕ, suc, ◌+◌, ◌-◌, ◌%◌, ◌^◌, ◌<◌, ◌≤◌, Bool, true, false, not, ◌&&◌, ◌||◌, List, [], ◌∷◌, ◌++◌,
  ltb, leb, nat_beq, if◌then◌else◌, length, keep, any,
}

-- semWaiter
pub record SemWaiter : Type 0 where
  pub ref : ℕ
  pub rank : ℕ
  pub seq : ℕ

-- rankedSem
pub record RankedSem : Type 0 where
  pub cap : ℕ
  pub used : ℕ
  pub seq : ℕ
  pub waiters : List SemWaiter
  pub granted : List ℕ
  pub next_ref : ℕ

-- newRankedSem
abbrev pub new_ranked_sem : ℕ → RankedSem
new_ranked_sem n = record { cap = n; used = 0; seq = 0; waiters = []; granted = []; next_ref = 0 }

-- What the first critical section of acquire ends in.
pub data Entry : Type 0 where
  acquired : Entry
  refused : Entry
  waiting : SemWaiter → Entry

abbrev pub is_empty {ℓ} : {A : Type ℓ} → List A → Bool
is_empty [] = true
is_empty (x ∷ xs) = false

abbrev pub next_waiter : RankedSem → ℕ → SemWaiter
next_waiter s rank = record { ref = s.next_ref; rank = rank; seq = s.seq }

-- `has_wait` is wait > 0.
unfoldable pub enter : ℕ → Bool → RankedSem → Entry × RankedSem
enter rank has_wait s =
    if ltb s.used s.cap && is_empty s.waiters
    then (acquired, record s { used = s.used + 1 })
    else if not has_wait
    then (refused, s)
    else (
      waiting (next_waiter s rank),
      record s {
        seq = (s.seq + 1) % 2 ^ 64;
        waiters = s.waiters ++ next_waiter s rank ∷ [];
        next_ref = s.next_ref + 1;
      },
    )

-- The waiters without the first that is `w`.
unfoldable pub remove : ℕ → List SemWaiter → List SemWaiter
remove ref [] = []
remove ref (x ∷ xs) = if nat_beq x.ref ref then xs else x ∷ remove ref xs

-- The waiter's granted flag.
unfoldable pub is_granted : ℕ → List ℕ → Bool
is_granted ref g = any (λ r. nat_beq r ref) g

unfoldable pub leave : SemWaiter → RankedSem → Bool × RankedSem
unfolding is_granted remove
leave w s =
    if is_granted w.ref s.granted
    then (true, s)
    else (false, record s { waiters = remove w.ref s.waiters })

-- Whether `w` goes ahead of `b`.
abbrev pub ahead : SemWaiter → SemWaiter → Bool
ahead w b = ltb b.rank w.rank || (nat_beq w.rank b.rank && ltb w.seq b.seq)

-- The scan of release over the waiters behind the best so far.
unfoldable pub best_of : SemWaiter → List SemWaiter → SemWaiter
best_of b [] = b
best_of b (w ∷ ws) = best_of (if ahead w b then w else b) ws

release_to : List SemWaiter → RankedSem → RankedSem
unfolding best_of remove
release_to [] s = if ltb 0 s.used then record s { used = s.used - 1 } else s
release_to (w ∷ ws) s = record s {
  waiters = remove (best_of w ws).ref (w ∷ ws);
  granted = (best_of w ws).ref ∷ s.granted;
}

unfoldable pub release : RankedSem → RankedSem
unfolding release_to
release s = release_to s.waiters s

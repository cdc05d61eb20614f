-- ===== src/Lane/Tests.antt =====
-- A lane of one slot with callers, and the theorems at this run.
use concert.Prelude.{ℕ, ◌≤◌, ◌≡◌, ◌≢◌, refl, ap, sym, ◌∙◌, true, List, [], ◌∷◌, All, arith}
use concert.Lane.{SemWaiter, enter, release, remove}
use concert.Lane.Best.{IsIn, Precedes, release_serves_best}
use concert.Lane.System.{System, start, arrived, arrive, Reach, here, next, IsSafe}
use concert.Lane.Safety.{Reach-IsSafe, running-le-cap}

abbrev came : ℕ → System → System
came rank s = arrived s (enter rank true s.sem).0 (enter rank true s.sem).1

-- Three callers come, of ranks 1, 2 and 3: the first runs, the others wait.
abbrev three_callers : System
three_callers = came 3 (came 2 (came 1 (start 1)))

three_callers-Reach : Reach (start 1) three_callers
three_callers-Reach =
    next (next (next here (arrive 1 true _ refl)) (arrive 2 true _ refl)) (arrive 3 true _ refl)

three_callers_run : three_callers.running ≡ 1
unfolding enter
three_callers_run = refl

Reach-IsSafe_example : IsSafe 1 three_callers
Reach-IsSafe_example = Reach-IsSafe 1 three_callers-Reach

running-le-cap_example : three_callers.running ≤ 1
running-le-cap_example = running-le-cap 1 three_callers-Reach

release_serves_best_example :
    (b : SemWaiter) × IsIn b three_callers.sem.waiters
    × All (Precedes b) three_callers.sem.waiters
    × ((release three_callers.sem).granted ≡ b.ref ∷ three_callers.sem.granted)
    × ((release three_callers.sem).waiters ≡ remove b.ref three_callers.sem.waiters)
    × ((release three_callers.sem).used ≡ three_callers.sem.used)
unfolding enter
release_serves_best_example = release_serves_best three_callers.sem someone_waits
  where
    head_rank : List SemWaiter → ℕ
    head_rank [] = 0
    head_rank (w ∷ ws) = w.rank

    waits :
        three_callers.sem.waiters
        ≡ record { ref = 0; rank = 2; seq = 0 } ∷ record { ref = 1; rank = 3; seq = 1 } ∷ []
    waits = refl

    someone_waits : three_callers.sem.waiters ≢ []
    someone_waits e = omega (arith, ap head_rank (sym waits ∙ e))

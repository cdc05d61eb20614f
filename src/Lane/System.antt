-- ===== src/Lane/System.antt =====
-- Every interleaving of callers of the lane. A caller is blocked between its two critical
-- sections, and runs from a successful acquire to its release.
use concert.Prelude.{
  ℕ, suc, ◌+◌, ◌<◌, ◌≤◌, ◌≡◌, ◌≢◌, Bool, true, false, List, [], ◌∷◌, ◌++◌, All, length,
}
use concert.Lane.{
  SemWaiter, RankedSem, Entry, acquired, refused, waiting, new_ranked_sem, enter, leave, release,
}
use concert.Lane.Laws.{Distinct, ungranted}

pub record System : Type 0 where
  pub sem : RankedSem
  pub running : ℕ
  pub blocked : List SemWaiter

abbrev pub start : ℕ → System
start cap = record { sem = new_ranked_sem cap; running = 0; blocked = [] }

-- What a caller does after its first critical section.
abbrev pub arrived : System → Entry → RankedSem → System
arrived s acquired sem' = record s { sem = sem'; running = s.running + 1 }
arrived s refused sem' = record s { sem = sem' }
arrived s (waiting w) sem' = record s { sem = sem'; blocked = s.blocked ++ w ∷ [] }

-- What it does after its second: it runs with a slot, or gives up.
abbrev pub returned : System → List SemWaiter → Bool → RankedSem → System
returned s rest true sem' = record { sem = sem'; running = s.running + 1; blocked = rest }
returned s rest false sem' = record { sem = sem'; running = s.running; blocked = rest }

pub data Step (s : System) : System → Type 0 where
  arrive :
      (rank : ℕ) (has_wait : Bool) (t : System)
      → t ≡ arrived s (enter rank has_wait s.sem).0 (enter rank has_wait s.sem).1
      → Step s t
  come_back :
      (pre post : List SemWaiter) (w : SemWaiter) (t : System)
      → s.blocked ≡ pre ++ w ∷ post
      → t ≡ returned s (pre ++ post) (leave w s.sem).0 (leave w s.sem).1
      → Step s t
  finish :
      (n : ℕ) (t : System)
      → s.running ≡ suc n
      → t ≡ record s { sem = release s.sem; running = n }
      → Step s t

pub data Reach (s : System) : System → Type 0 where
  here : Reach s s
  next : {t u : System} → Reach s t → Step t u → Reach s u

-- Every reference is an allocation that was made.
abbrev pub Allocated : ℕ → List SemWaiter → Type 0
Allocated n ws = All (λ w. w.ref < n) ws

pub record IsSafe (cap : ℕ) (s : System) : Type 0 where
  pub same_cap : s.sem.cap ≡ cap
  pub bounded : s.sem.used ≤ cap
  pub queue : s.sem.waiters ≡ ungranted s.sem.granted s.blocked
  pub slots : s.sem.used + length s.sem.waiters ≡ s.running + length s.blocked
  pub busy : s.sem.waiters ≢ [] → s.sem.used ≡ cap
  pub distinct : Distinct s.blocked
  pub made : Allocated s.sem.next_ref s.blocked
  pub made_granted : All (λ r. r < s.sem.next_ref) s.sem.granted

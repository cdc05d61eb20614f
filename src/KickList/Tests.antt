-- ===== src/KickList/Tests.antt =====
-- Runs of the kick list, and its theorems at these runs.
use concert.Prelude.{
  ℕ, ◌≡◌, refl, String, Bool, true, false, ◌==◌, string_eq, if◌then◌else◌, ltb, List, [], ◌∷◌,
  arith,
}
use concert.Prelude.Table.{IsMap}
use concert.KickList.{KickList, add, has, count, purge}
use concert.KickList.Laws.{has-add, has-purge}

abbrev same : String → String → Bool
same a b = a == b

abbrev two_kicks : KickList
two_kicks = ("alice", 50) ∷ ("bob", 90) ∷ []

two_kicks-IsMap : IsMap two_kicks
unfolding concert.Prelude.Table.lookup
two_kicks-IsMap = (refl, (refl, tt))

has-add_run :
    (has "bob" 70 (add "alice" 80 two_kicks)).0
    ≡ (if same "alice" "bob" then ltb 70 80 else (has "bob" 70 two_kicks).0)
has-add_run = has-add "alice" "bob" 80 70 two_kicks

has-purge_run : (has "bob" 70 (purge 60 two_kicks)).0 ≡ (has "bob" 70 two_kicks).0
has-purge_run = has-purge 60 70 "bob" two_kicks two_kicks-IsMap (omega arith)

purged_count : count (purge 60 two_kicks) ≡ 1
unfolding count purge concert.Prelude.Table.sweep
purged_count = refl

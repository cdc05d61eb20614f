-- ===== src/KickList/Laws.antt =====
-- On kick.go: what `has` answers after a kick and after the sweep.
use concert.Prelude.{
  ℕ, ◌≤◌, String, ◌≡◌, refl, Bool, false, Option, none, some, ltb, if◌then◌else◌, arith, ◌==◌,
  ==_iff, string_eq,
}
use concert.Prelude.Table.{lookup, insert, sweep, IsMap}
use concert.Prelude.Table.Laws.{lookup-insert}
use concert.Prelude.Table.Sweep.{survivor, lookup-sweep}
use concert.KickList.{KickList, add, has, is_over, purge}

-- A ticket counts as kicked exactly while the end of its entry lies in the future.
abbrev pub kicked : ℕ → Option ℕ → Bool
kicked now none = false
kicked now (some until) = ltb now until

has-eq-kicked :
    (token : String) (now : ℕ) (k : KickList) → (has token now k).0 ≡ kicked now (lookup token k)
unfolding has
has-eq-kicked token now k = ground arith

-- After `add token until`, at any time: that ticket is kicked exactly until `until`, whatever was
-- recorded of it before, and the answer for every other ticket is what it was.
pub has-add :
    (token other : String) (until now : ℕ) (k : KickList)
    → (has other now (add token until k)).0
      ≡ (if token == other then ltb now until else (has other now k).0)
unfolding add
has-add token other until now k = rw (has-eq-kicked other now (insert token until k)) (
    rw (has-eq-kicked other now k)
      (rw (lookup-insert token other until k) (ground (arith, ==_iff token other))))

later : (now t until : ℕ) → now ≤ t → ltb now until ≡ false → ltb t until ≡ false
later now t until h e = ground arith

kicked-survivor :
    (now t : ℕ) (token : String) (o : Option ℕ)
    → now ≤ t
    → kicked t (survivor (is_over now) token o) ≡ kicked t o
kicked-survivor now t token none h = refl
kicked-survivor now t token (some until) h = ground (arith, later now t until)

-- A sweep at `now` changes no answer about any ticket from `now` on.
pub has-purge :
    (now t : ℕ) (token : String) (k : KickList)
    → IsMap k
    → now ≤ t
    → (has token t (purge now k)).0 ≡ (has token t k).0
unfolding purge
has-purge now t token k d h = rw (has-eq-kicked token t (sweep (is_over now) k)) (
    rw (has-eq-kicked token t k)
      (rw (lookup-sweep (is_over now) token k d) (kicked-survivor now t token (lookup token k) h)))

-- ===== src/Prelude/Table/Sweep.antt =====
-- Laws of `sweep`: it keeps exactly the entries that are not to go.
use Prim.Native.Nat.{◌≤◌}
use mathlib.Core.Path.{◌≡◌, refl}
use mathlib.Core.Bool.{Bool}
use mathlib.Core.Option.{Option, none, some}
use mathlib.Core.List.{[], ◌∷◌}
use native.Mathlib.Omega.{arith}
use concert.Prelude.Tests.{if◌then◌else◌}
use concert.Prelude.Lists.{length}
use concert.Prelude.Equality.{Key, ==_iff}
use concert.Prelude.Table.{Table, lookup, sweep, IsMap}

-- What is left of an entry's value.
abbrev pub survivor {ℓ} : {K V : Type ℓ} → (K → V → Bool) → K → Option V → Option V
survivor drop k none = none
survivor drop k (some v) = if drop k v then none else some v

module _ {ℓ} {K V : Type ℓ} ⦃e : Key K⦄ (drop : K → V → Bool) where
  pub lookup-sweep_missing :
      (k : K) (m : Table K V) → lookup k m ≡ none → lookup k (sweep drop m) ≡ none
  unfolding lookup sweep
  lookup-sweep_missing k [] h = refl
  lookup-sweep_missing k ((i, w) ∷ m) h = ground (arith, lookup-sweep_missing k m)

  pub lookup-sweep :
      (k : K) (m : Table K V) → IsMap m → lookup k (sweep drop m) ≡ survivor drop k (lookup k m)
  unfolding lookup sweep
  lookup-sweep k [] d = refl
  lookup-sweep k ((i, w) ∷ m) d =
      ground (arith, ==_iff i k, lookup-sweep k m, lookup-sweep_missing k m)

  pub sweep-IsMap : (m : Table K V) → IsMap m → IsMap (sweep drop m)
  unfolding sweep
  sweep-IsMap [] d = d
  sweep-IsMap ((i, w) ∷ m) d = ground (arith, sweep-IsMap m, lookup-sweep_missing i m)

  pub length-sweep_le : (m : Table K V) → length (sweep drop m) ≤ length m
  unfolding sweep
  length-sweep_le [] = omega arith
  length-sweep_le ((i, w) ∷ m) = ground (arith, length-sweep_le m)

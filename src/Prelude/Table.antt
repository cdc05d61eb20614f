-- ===== src/Prelude/Table.antt =====
-- A Go map as an association list: lookup, insert, delete, and their laws.
pub mod Laws
pub mod Sweep
use mathlib.Core.Path.{◌≡◌}
use mathlib.Core.Bool.{Bool}
use mathlib.Core.Option.{Option, none, some}
use mathlib.Core.List.{List, [], ◌∷◌}
use concert.Prelude.Tests.{if◌then◌else◌}
use concert.Prelude.Equality.{Key, ◌==◌}

abbrev pub Table {ℓ} : Type ℓ → Type ℓ → Type ℓ
Table K V = List (K × V)

module _ {ℓ} {K V : Type ℓ} ⦃e : Key K⦄ where
  -- m[k]
  unfoldable pub lookup : K → Table K V → Option V
  lookup a [] = none
  lookup a ((b, x) ∷ t) = if b == a then some x else lookup a t

  -- m[k] = v
  unfoldable pub insert : K → V → Table K V → Table K V
  insert a x [] = (a, x) ∷ []
  insert a x ((b, y) ∷ t) = if b == a then (a, x) ∷ t else (b, y) ∷ insert a x t

  -- delete(m, k): every entry of the key goes, whether the table is well formed or not
  unfoldable pub delete : K → Table K V → Table K V
  delete a [] = []
  delete a ((b, x) ∷ t) = let rest = delete a t in if b == a then rest else (b, x) ∷ rest

  -- for k, v := range m { if drop(k, v) { delete(m, k) } }
  unfoldable pub sweep : (K → V → Bool) → Table K V → Table K V
  sweep drop [] = []
  sweep drop ((b, x) ∷ t) = let rest = sweep drop t in if drop b x then rest else (b, x) ∷ rest

  -- A key stands at most once: what every Go map satisfies.
  abbrev pub IsMap : Table K V → Type ℓ
  IsMap [] = Unit
  IsMap ((b, x) ∷ t) = (lookup b t ≡ none) × IsMap t

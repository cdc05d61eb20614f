-- ===== src/Prelude/Shards.antt =====
-- A map in shards: a function from the shard's index to its map.
use Prim.Native.Nat.{ℕ, zero, suc, ◌+◌, ◌<◌, ◌≤◌}
use mathlib.Core.Path.{◌≡◌, refl}
use native.Mathlib.Omega.{arith}
use concert.Prelude.Tests.{if◌then◌else◌, nat_beq}
use concert.Prelude.Lists.{length}
use concert.Prelude.Table.{Table}

module _ {K V : Type 0} where
  unfoldable pub replace_shard : ℕ → Table K V → (ℕ → Table K V) → ℕ → Table K V
  replace_shard i t f j = if nat_beq i j then t else f j

  -- The number of entries of the first n shards.
  unfoldable pub entries : ℕ → (ℕ → Table K V) → ℕ
  entries zero f = 0
  entries (suc n) f = length (f n) + entries n f

  entries-replace_same :
      (n i : ℕ) (t : Table K V) (f : ℕ → Table K V)
      → n ≤ i
      → entries n (replace_shard i t f) ≡ entries n f
  unfolding entries replace_shard
  entries-replace_same zero i t f h = refl
  entries-replace_same (suc n) i t f h = ground (arith, entries-replace_same n i t f)

  -- Replacing one shard changes the number by the difference of the two.
  pub entries-replace :
      (n i : ℕ) (t : Table K V) (f : ℕ → Table K V)
      → i < n
      → entries n (replace_shard i t f) + length (f i) ≡ entries n f + length t
  unfolding entries replace_shard
  entries-replace zero i t f h = elim h [ ]
  entries-replace (suc n) i t f h =
      ground (arith, entries-replace n i t f, entries-replace_same n i t f)

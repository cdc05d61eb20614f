-- ===== src/Prelude/Table/Laws.antt =====
-- Laws of lookup, insert and delete, and of the number of entries.
use Prim.Native.Nat.{suc, ◌≤◌}
use mathlib.Core.Path.{◌≡◌, refl}
use mathlib.Core.Option.{none, some}
use mathlib.Core.List.{[], ◌∷◌}
use native.Mathlib.Omega.{arith}
use concert.Prelude.Tests.{if◌then◌else◌}
use concert.Prelude.Lists.{length}
use concert.Prelude.Equality.{Key, ◌==◌, ==_iff, ==_refl}
use concert.Prelude.Table.{Table, lookup, insert, delete, IsMap}

module _ {ℓ} {K V : Type ℓ} ⦃e : Key K⦄ where
  pub lookup-insert :
      (a b : K) (x : V) (t : Table K V)
      → lookup b (insert a x t) ≡ (if a == b then some x else lookup b t)
  unfolding lookup insert
  lookup-insert a b x [] = refl
  lookup-insert a b x ((c, y) ∷ t) =
      ground (arith, ==_iff a b, ==_iff c a, ==_iff c b, lookup-insert a b x t)

  pub lookup-delete :
      (a b : K) (t : Table K V) → lookup b (delete a t) ≡ (if a == b then none else lookup b t)
  unfolding lookup delete
  lookup-delete a b [] = ground arith
  lookup-delete a b ((c, y) ∷ t) =
      ground (arith, ==_iff a b, ==_iff c a, ==_iff c b, lookup-delete a b t)

  pub lookup-insert_self : (a : K) (x : V) (t : Table K V) → lookup a (insert a x t) ≡ some x
  lookup-insert_self a x t = simp (lookup-insert, ==_refl)

  pub lookup-delete_self : (a : K) (t : Table K V) → lookup a (delete a t) ≡ none
  lookup-delete_self a t = simp (lookup-delete, ==_refl)

  pub insert-IsMap : (a : K) (x : V) (t : Table K V) → IsMap t → IsMap (insert a x t)
  unfolding insert lookup
  insert-IsMap a x [] h = (refl, tt)
  insert-IsMap a x ((c, y) ∷ t) h =
      ground (arith, ==_iff c a, lookup-insert a c x t, ==_iff a c, insert-IsMap a x t)

  pub delete-IsMap : (a : K) (t : Table K V) → IsMap t → IsMap (delete a t)
  unfolding delete
  delete-IsMap a [] h = h
  delete-IsMap a ((c, y) ∷ t) h = ground (arith, lookup-delete a c t, delete-IsMap a t)

  -- A new key adds one entry, a key that is there none.
  pub length-insert_new :
      (a : K) (x : V) (t : Table K V) → lookup a t ≡ none → length (insert a x t) ≡ suc (length t)
  unfolding insert lookup
  length-insert_new a x [] h = refl
  length-insert_new a x ((c, y) ∷ t) h = ground (arith, length-insert_new a x t)

  pub length-insert_old :
      (a : K) (x y : V) (t : Table K V) → lookup a t ≡ some y → length (insert a x t) ≡ length t
  unfolding insert lookup
  length-insert_old a x y [] h = cc
  length-insert_old a x y ((c, z) ∷ t) h = ground (arith, length-insert_old a x y t)

  pub delete_missing : (a : K) (t : Table K V) → lookup a t ≡ none → delete a t ≡ t
  unfolding delete lookup
  delete_missing a [] h = refl
  delete_missing a ((c, z) ∷ t) h = ground (arith, delete_missing a t)

  -- Deleting a key that is there removes exactly one entry.
  pub length-delete :
      (a : K) (y : V) (t : Table K V)
      → IsMap t
      → lookup a t ≡ some y
      → suc (length (delete a t)) ≡ length t
  unfolding delete lookup
  length-delete a y [] d h = cc
  length-delete a y ((c, z) ∷ t) d h =
      ground (arith, ==_iff c a, delete_missing a t, length-delete a y t)

  pub length-delete_le : (a : K) (t : Table K V) → length (delete a t) ≤ length t
  unfolding delete
  length-delete_le a [] = omega arith
  length-delete_le a ((c, z) ∷ t) = ground (arith, length-delete_le a t)

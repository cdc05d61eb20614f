-- ===== src/Passes/Store/Pools.antt =====
-- On userStore: the shards stay maps, and a request keeps every semaphore that is there.
use concert.Prelude.{
  ℕ, zero, suc, ◌≡◌, refl, Bool, true, false, Option, none, some, List, nat_beq, if◌then◌else◌,
  arith, Bool-cases, inl, inr, ◌==◌, ==_iff,
}
use concert.Prelude.Table.{Table, lookup, insert, sweep, IsMap}
use concert.Prelude.Table.Laws.{lookup-insert, insert-IsMap}
use concert.Prelude.Table.Sweep.{sweep-IsMap}
use concert.Prelude.Shards.{replace_shard}
use concert.Bytes.{bytes_eq}
use concert.Passes.Store.{
  Sem, UserSlots, UserStore, shard_of, ensured, slot_of, find, slot, is_idle, swept, sweep_store,
}
use concert.Passes.Store.Counts.{Step, slots, sweeps, Reach, created, next}

-- The semaphore of a protocol family.
abbrev pub pool : Bool → UserSlots → Option Sem
pool true u = u.h2
pool false u = u.h1

abbrev pub pool_of : Bool → Option UserSlots → Option Sem
pool_of m none = none
pool_of m (some u) = pool m u

-- Every shard is a map.
abbrev pub IsShaped : UserStore → Type 0
IsShaped s = (i : ℕ) → IsMap (s.shards i)

replace_shard-IsMap :
    (i j : ℕ) (t : Table (List ℕ) UserSlots) (f : ℕ → Table (List ℕ) UserSlots)
    → IsMap t
    → IsMap (f j)
    → IsMap (replace_shard i t f j)
unfolding replace_shard
replace_shard-IsMap i j t f h k = elim (Bool-cases (nat_beq i j)) [
  | inl e ↦ rw e h
  | inr e ↦ rw e k
]

pub swept-IsMap :
    (cutoff : ℕ) (len : ℕ → ℕ) (n : ℕ) (f : ℕ → Table (List ℕ) UserSlots)
    → ((i : ℕ) → IsMap (f i))
    → (i : ℕ) → IsMap (swept cutoff len n f i)
unfolding swept
swept-IsMap cutoff len zero f h i = h i
swept-IsMap cutoff len (suc n) f h i =
    replace_shard-IsMap n i (sweep (is_idle cutoff len) (swept cutoff len n f n))
      (swept cutoff len n f)
      (sweep-IsMap (is_idle cutoff len) (swept cutoff len n f n) (swept-IsMap cutoff len n f h n))
      (swept-IsMap cutoff len n f h i)

pub Step-IsShaped : (s t : UserStore) → Step s t → IsShaped s → IsShaped t
unfolding slot slot_of sweep_store
Step-IsShaped s _ (slots id true now) h i =
    replace_shard-IsMap (shard_of id) i (insert id _ (s.shards (shard_of id))) s.shards
      (insert-IsMap id _ (s.shards (shard_of id)) (h (shard_of id))) (h i)
Step-IsShaped s _ (slots id false now) h i =
    replace_shard-IsMap (shard_of id) i (insert id _ (s.shards (shard_of id))) s.shards
      (insert-IsMap id _ (s.shards (shard_of id)) (h (shard_of id))) (h i)
Step-IsShaped s _ (sweeps cutoff len) h i = swept-IsMap cutoff len 64 s.shards h i

pub Reach-IsShaped : {h1_cap h2_cap : ℕ} (s : UserStore) → Reach h1_cap h2_cap s → IsShaped s
Reach-IsShaped _ created = λ i. tt
Reach-IsShaped t (next {s} r p) = Step-IsShaped s t p (Reach-IsShaped s r)

pub lookup-replace :
    (id j : List ℕ) (u : UserSlots) (f : ℕ → Table (List ℕ) UserSlots)
    → lookup j (replace_shard (shard_of id) (insert id u (f (shard_of id))) f (shard_of j))
      ≡ (if id == j then some u else lookup j (f (shard_of j)))
unfolding replace_shard
lookup-replace id j u f = ground (arith, ==_iff id j, lookup-insert id j u (f (shard_of id)))

-- A semaphore that is there is kept, of the pass itself and of any other, by every request.
pub slot_of-keeps :
    (s : UserStore) (j id : List ℕ) (k m : Bool) (u : UserSlots) (more : ℕ) (x : Sem)
    → (j ≡ id → pool m u ≡ some x)
    → pool_of m (find s id) ≡ some x
    → pool_of m (find (slot_of s j k u more).1 id) ≡ some x
unfolding slot_of find
slot_of-keeps s j id true true u more x own h = elim (Bool-cases (j == id)) [
  | inl e ↦
      rw
        (
          lookup-replace j id (record u { h2 = some (ensured u.h2 s.h2_cap s.next_ref) }) s.shards,
          e,
        )
        (rw (own ((==_iff j id).0 e)) refl)
  | inr e ↦
      rw
        (
          lookup-replace j id (record u { h2 = some (ensured u.h2 s.h2_cap s.next_ref) }) s.shards,
          e,
        )
        h
]
slot_of-keeps s j id true false u more x own h = elim (Bool-cases (j == id)) [
  | inl e ↦
      rw
        (
          lookup-replace j id (record u { h2 = some (ensured u.h2 s.h2_cap s.next_ref) }) s.shards,
          e,
        )
        (own ((==_iff j id).0 e))
  | inr e ↦
      rw
        (
          lookup-replace j id (record u { h2 = some (ensured u.h2 s.h2_cap s.next_ref) }) s.shards,
          e,
        )
        h
]
slot_of-keeps s j id false true u more x own h = elim (Bool-cases (j == id)) [
  | inl e ↦
      rw
        (
          lookup-replace j id (record u { h1 = some (ensured u.h1 s.h1_cap s.next_ref) }) s.shards,
          e,
        )
        (own ((==_iff j id).0 e))
  | inr e ↦
      rw
        (
          lookup-replace j id (record u { h1 = some (ensured u.h1 s.h1_cap s.next_ref) }) s.shards,
          e,
        )
        h
]
slot_of-keeps s j id false false u more x own h = elim (Bool-cases (j == id)) [
  | inl e ↦
      rw
        (
          lookup-replace j id (record u { h1 = some (ensured u.h1 s.h1_cap s.next_ref) }) s.shards,
          e,
        )
        (rw (own ((==_iff j id).0 e)) refl)
  | inr e ↦
      rw
        (
          lookup-replace j id (record u { h1 = some (ensured u.h1 s.h1_cap s.next_ref) }) s.shards,
          e,
        )
        h
]

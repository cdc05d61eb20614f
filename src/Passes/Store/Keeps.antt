-- ===== src/Passes/Store/Keeps.antt =====
-- On userStore: all requests of a pass share one semaphore per protocol family while it is in use.
use concert.Prelude.{
  ℕ, zero, suc, ◌≡◌, ◌≢◌, refl, ap, ◌∙◌, Bool, true, false, Option, none, some, List, nat_beq,
  nat_beq_iff, arith, Bool-cases, inl, inr, ==_refl,
}
use concert.Prelude.Table.{Table, lookup, IsMap}
use concert.Prelude.Table.Sweep.{lookup-sweep, survivor}
use concert.Prelude.Shards.{replace_shard}
use concert.Bytes.{bytes_eq}
use concert.Passes.Store.{
  Sem, UserSlots, UserStore, shard_of, seen, added, ensured, slot_of, find, slot, is_idle, swept,
  sweep_store,
}
use concert.Passes.Store.Counts.{slots, sweeps, Reach, swept_later}
use concert.Passes.Store.Pools.{
  pool, pool_of, IsShaped, swept-IsMap, Step-IsShaped, Reach-IsShaped, lookup-replace,
  slot_of-keeps,
}

pool-seen :
    (m : Bool) (now : ℕ) (o : Option UserSlots) (x : Sem)
    → pool_of m o ≡ some x
    → pool m (seen now o) ≡ some x
pool-seen m now none x h = absurd (nothing h)
  where
    nothing : none ≡ some x → ⊥
    nothing e = cc
pool-seen true now (some u) x h = h
pool-seen false now (some u) x h = h

-- A request is given the semaphore that is there.
slot_of-gives :
    (s : UserStore) (id : List ℕ) (m : Bool) (u : UserSlots) (more : ℕ) (x : Sem)
    → pool m u ≡ some x
    → (slot_of s id m u more).0 ≡ x
unfolding slot_of
slot_of-gives s id true u more x h = rw h refl
slot_of-gives s id false u more x h = rw h refl

-- A request leaves the semaphore that it is given.
slot_of-leaves :
    (s : UserStore) (id : List ℕ) (m : Bool) (u : UserSlots) (more : ℕ)
    → pool_of m (find (slot_of s id m u more).1 id) ≡ some (slot_of s id m u more).0
unfolding slot_of find
slot_of-leaves s id true u more =
    rw
      (
        lookup-replace id id (record u { h2 = some (ensured u.h2 s.h2_cap s.next_ref) }) s.shards,
        ==_refl id,
      )
      refl
slot_of-leaves s id false u more =
    rw
      (
        lookup-replace id id (record u { h1 = some (ensured u.h1 s.h1_cap s.next_ref) }) s.shards,
        ==_refl id,
      )
      refl

-- A semaphore with a taken slot makes its entry busy.
busy :
    (m : Bool) (cutoff : ℕ) (len : ℕ → ℕ) (id : List ℕ) (u : UserSlots) (x : Sem)
    → pool m u ≡ some x
    → len x.ref ≢ 0
    → is_idle cutoff len id u ≡ false
busy true cutoff len id u x h n = rw h (ground arith)
busy false cutoff len id u x h n = rw h (ground arith)

-- The semaphore survives the sweep of its shard.
survivor-keeps :
    (m : Bool) (cutoff : ℕ) (len : ℕ → ℕ) (id : List ℕ) (o : Option UserSlots) (x : Sem)
    → pool_of m o ≡ some x
    → len x.ref ≢ 0
    → pool_of m (survivor (is_idle cutoff len) id o) ≡ some x
survivor-keeps m cutoff len id none x h n = h
survivor-keeps m cutoff len id (some u) x h n = rw (busy m cutoff len id u x h n) h

lookup-swept :
    (m : Bool) (cutoff : ℕ) (len : ℕ → ℕ) (id : List ℕ) (x : Sem) (n : ℕ)
    (f : ℕ → Table (List ℕ) UserSlots)
    → ((i : ℕ) → IsMap (f i))
    → len x.ref ≢ 0
    → pool_of m (lookup id (f (shard_of id))) ≡ some x
    → pool_of m (lookup id (swept cutoff len n f (shard_of id))) ≡ some x
unfolding swept replace_shard
lookup-swept m cutoff len id x zero f d b h = h
lookup-swept m cutoff len id x (suc n) f d b h = elim (Bool-cases (nat_beq n (shard_of id))) [
  | inl e ↦
      rw
        (
          e,
          (nat_beq_iff n (shard_of id)).0 e,
          lookup-sweep (is_idle cutoff len) id (swept cutoff len (shard_of id) f (shard_of id))
              (swept-IsMap cutoff len (shard_of id) f d (shard_of id)),
          swept_later cutoff len (shard_of id) (shard_of id) f (omega arith),
        )
        (survivor-keeps m cutoff len id (lookup id (f (shard_of id))) x h b)
  | inr e ↦ rw e (lookup-swept m cutoff len id x n f d b h)
]

-- Steps during which every sweep finds a slot of the semaphore taken.
pub data Using (x : Sem) (s : UserStore) : UserStore → Type 0 where
  used : Using x s s
  asks :
      {t : UserStore} (id : List ℕ) (multiplexed : Bool) (now : ℕ)
      → Using x s t
      → Using x s (slot t id multiplexed now).1
  spares :
      {t : UserStore} (cutoff : ℕ) (len : ℕ → ℕ)
      → len x.ref ≢ 0
      → Using x s t
      → Using x s (sweep_store t cutoff len).1

-- Such steps keep the semaphore.
Using-keeps :
    (x : Sem) (s t : UserStore) (id : List ℕ) (m : Bool)
    → IsShaped s
    → pool_of m (find s id) ≡ some x
    → Using x s t
    → IsShaped t × (pool_of m (find t id) ≡ some x)
unfolding slot sweep_store find
Using-keeps x s _ id m d h used = (d, h)
Using-keeps x s _ id m d h (asks {t} j k now u) =
    let before = Using-keeps x s t id m d h u in
    (
      Step-IsShaped t _ (slots j k now) before.0,
      slot_of-keeps t j id k m (seen now (find t j)) (added (find t j)) x
          (λ e. pool-seen m now (find t j) x (ap (λ i. pool_of m (find t i)) e ∙ before.1))
          before.1,
    )
Using-keeps x s _ id m d h (spares {t} cutoff len n u) =
    let before = Using-keeps x s t id m d h u in
    (
      Step-IsShaped t _ (sweeps cutoff len) before.0,
      lookup-swept m cutoff len id x 64 t.shards before.0 n before.1,
    )

-- From any state of the store: once a request of a pass was given a semaphore, and as long as every
-- sweep finds one of its slots taken, each further request of the pass over the same protocol family
-- is given the same semaphore, whatever other requests and sweeps came in between.
pub slot-same :
    {h1_cap h2_cap : ℕ} (s t : UserStore) (id : List ℕ) (m : Bool) (now later : ℕ)
    → Reach h1_cap h2_cap s
    → Using (slot s id m now).0 (slot s id m now).1 t
    → (slot t id m later).0 ≡ (slot s id m now).0
unfolding slot
slot-same s t id m now later r u =
    slot_of-gives t id m (seen later (find t id)) (added (find t id)) _ (
      pool-seen m later (find t id) _
        (Using-keeps (slot s id m now).0 (slot s id m now).1 t id m
          (Step-IsShaped s _ (slots id m now) (Reach-IsShaped s r))
          (slot_of-leaves s id m (seen now (find s id)) (added (find s id))) u).1)

-- ===== src/Passes/Store.antt =====
-- pass.go: userStore, one pair of semaphores per admission pass, in 64 shards with a mutex each.
--
-- A semaphore is the number that `sema.Must` allocated it under, with its capacity; how many of its
-- slots are taken is an argument of the sweep. Times are nanoseconds.
pub mod Counts
pub mod Pools
pub mod Keeps
use concert.Prelude.{
  ℕ, zero, suc, ◌+◌, ◌-◌, ◌%◌, Bool, true, false, ◌&&◌, Option, none, some, List, [], ◌∷◌, ltb,
  nat_beq, if◌then◌else◌, length,
}
use concert.Prelude.Table.{Table, lookup, insert, sweep}
use concert.Prelude.Shards.{replace_shard}
use concert.Bytes.{bytes_beq, bytes_eq}

abbrev pub user_shards : ℕ
user_shards = 64

pub record Sem : Type 0 where
  pub ref : ℕ
  pub cap : ℕ

pub record UserSlots : Type 0 where
  pub last_seen : ℕ
  pub h1 : Option Sem
  pub h2 : Option Sem

pub record UserStore : Type 0 where
  pub shards : ℕ → Table (List ℕ) UserSlots
  pub h1_cap : ℕ
  pub h2_cap : ℕ
  pub count : ℕ
  pub next_ref : ℕ

abbrev pub new_user_store : ℕ → ℕ → UserStore
new_user_store h1_cap h2_cap = record {
  shards = λ i. [];
  h1_cap = h1_cap;
  h2_cap = h2_cap;
  count = 0;
  next_ref = 0;
}

-- id[0] & 63
unfoldable pub shard_of : List ℕ → ℕ
shard_of [] = 0
shard_of (b ∷ bs) = b % user_shards

abbrev pub fresh_slots : ℕ → UserSlots
fresh_slots now = record { last_seen = now; h1 = none; h2 = none }

abbrev pub seen : ℕ → Option UserSlots → UserSlots
seen now none = fresh_slots now
seen now (some u) = record u { last_seen = now }

abbrev pub added : Option UserSlots → ℕ
added none = 1
added (some u) = 0

-- The semaphore if there is one, or a new one.
abbrev pub ensured : Option Sem → ℕ → ℕ → Sem
ensured none cap ref = record { ref = ref; cap = cap }
ensured (some s) cap ref = s

abbrev pub allocated : Option Sem → ℕ
allocated none = 1
allocated (some s) = 0

-- slot once the entry is looked up.
unfoldable pub slot_of : UserStore → List ℕ → Bool → UserSlots → ℕ → Sem × UserStore
slot_of s id true u more =
    let sem = ensured u.h2 s.h2_cap s.next_ref in
    (
      sem,
      record s {
        shards =
            replace_shard (shard_of id)
              (insert id (record u { h2 = some sem }) (s.shards (shard_of id))) s.shards;
        count = s.count + more;
        next_ref = s.next_ref + allocated u.h2;
      },
    )
slot_of s id false u more =
    let sem = ensured u.h1 s.h1_cap s.next_ref in
    (
      sem,
      record s {
        shards =
            replace_shard (shard_of id)
              (insert id (record u { h1 = some sem }) (s.shards (shard_of id))) s.shards;
        count = s.count + more;
        next_ref = s.next_ref + allocated u.h1;
      },
    )

unfoldable pub find : UserStore → List ℕ → Option UserSlots
find s id = lookup id (s.shards (shard_of id))

unfoldable pub slot : UserStore → List ℕ → Bool → ℕ → Sem × UserStore
unfolding slot_of find
slot s id multiplexed now = slot_of s id multiplexed (seen now (find s id)) (added (find s id))

-- semIdle
abbrev pub sem_idle : (ℕ → ℕ) → Option Sem → Bool
sem_idle len none = true
sem_idle len (some s) = nat_beq (len s.ref) 0

abbrev pub is_idle : ℕ → (ℕ → ℕ) → List ℕ → UserSlots → Bool
is_idle cutoff len id u = ltb u.last_seen cutoff && (sem_idle len u.h1 && sem_idle len u.h2)

-- The shards 0 to n - 1 swept, one after the other.
unfoldable pub swept :
    ℕ → (ℕ → ℕ) → ℕ → (ℕ → Table (List ℕ) UserSlots) → ℕ → Table (List ℕ) UserSlots
swept cutoff len zero f = f
swept cutoff len (suc n) f =
    let g = swept cutoff len n f in replace_shard n (sweep (is_idle cutoff len) (g n)) g

-- How many entries of a shard go.
unfoldable pub evicted_of : ℕ → (ℕ → ℕ) → Table (List ℕ) UserSlots → ℕ
evicted_of cutoff len [] = 0
evicted_of cutoff len ((id, u) ∷ m) =
    let rest = evicted_of cutoff len m in if is_idle cutoff len id u then rest + 1 else rest

unfoldable pub evicted : ℕ → (ℕ → ℕ) → ℕ → (ℕ → Table (List ℕ) UserSlots) → ℕ
unfolding evicted_of
evicted cutoff len zero f = 0
evicted cutoff len (suc n) f = evicted cutoff len n f + evicted_of cutoff len (f n)

-- sweep: how many entries it evicted, and the store
unfoldable pub sweep_store : UserStore → ℕ → (ℕ → ℕ) → ℕ × UserStore
unfolding swept evicted
sweep_store s cutoff len =
    let n = evicted cutoff len user_shards s.shards in
    (n, record s { shards = swept cutoff len user_shards s.shards; count = s.count - n })

-- ===== src/Abuse/Store.antt =====
-- On abuse.go: reads, writes and the number of entries of the sharded table.
use concert.Prelude.{
  ℕ, zero, suc, ◌+◌, ◌<◌, ◌≤◌, ◌≡◌, ◌≢◌, refl, ap, true, false, Option, none, some, List, [], ◌∷◌,
  arith, if◌then◌else◌, ◌==◌, ==_iff, ==_refl, length, inl, inr, Bool-cases, leb, leb→le,
}
use concert.Prelude.Table.{Table, lookup}
use concert.Prelude.Table.Laws.{lookup-insert, lookup-delete}
use concert.Int64.{slt}
use concert.Net.{Addr, addr_eq}
use concert.Abuse.{AbuseEntry, Registry, Shards, abuse_shards, shard_of}
use concert.Abuse.Entries.{
  entry, set_shard, put, forget, is_unbanned, find_victim, new_entry, create, make_room,
  entry_found, entry_locked,
}
use concert.Abuse.Admin.{total}

pub shard_of-lt : (k : Addr) → shard_of k < abuse_shards
unfolding shard_of
shard_of-lt k = omega arith

pub entry-put :
    (k j : Addr) (e : AbuseEntry) (r : Registry)
    → entry j (put k e r) ≡ (if k == j then some e else entry j r)
unfolding entry put
entry-put k j e r = ground (arith, ==_iff k j, lookup-insert k j e (r.shards (shard_of k)))

pub entry-forget :
    (k j : Addr) (r : Registry)
    → entry j (forget (shard_of k) k r) ≡ (if k == j then none else entry j r)
unfolding entry forget
entry-forget k j r = ground (arith, ==_iff k j, lookup-delete k j (r.shards (shard_of k)))

-- Forgetting a key of the shard `i` says nothing of a key that is another one.
pub entry-forget_ne :
    (i : ℕ) (v j : Addr) (r : Registry) → v ≢ j → entry j (forget i v r) ≡ entry j r
unfolding entry forget
entry-forget_ne i v j r h = ground (arith, ==_iff v j, lookup-delete v j (r.shards i))

total-set_same :
    (n i : ℕ) (t : Table Addr AbuseEntry) (f : Shards)
    → n ≤ i
    → total n (set_shard i t f) ≡ total n f
unfolding total set_shard
total-set_same zero i t f h = refl
total-set_same (suc n) i t f h = ground (arith, total-set_same n i t f)

-- Replacing one shard changes the total by the difference of the two.
pub total-set :
    (n i : ℕ) (t : Table Addr AbuseEntry) (f : Shards)
    → i < n
    → total n (set_shard i t f) + length (f i) ≡ total n f + length t
unfolding total set_shard
total-set zero i t f h = elim h [ ]
total-set (suc n) i t f h = ground (arith, total-set n i t f, total-set_same n i t f)

-- The victim is a key of the shard whose entry is not banned.
pub find_victim-is_unbanned :
    (now : ℕ) (m : Table Addr AbuseEntry) (ks : List Addr) (v : Addr)
    → find_victim now m ks ≡ some v
    → is_unbanned now (lookup v m) ≡ true
unfolding find_victim
find_victim-is_unbanned now m [] v e = cc
find_victim-is_unbanned now m (k ∷ ks) v e = ground (arith, find_victim-is_unbanned now m ks v)

-- The four ways out of entryLocked.
pub data Located (k : Addr) (now : ℕ) (r : Registry) (done : Option AbuseEntry × Registry)
    : Type 0 where
  found : (e : AbuseEntry) → entry k r ≡ some e → done ≡ (some e, r) → Located k now r done
  created : entry k r ≡ none → done ≡ create k now r → Located k now r done
  evicted :
      (v : Addr)
      → entry k r ≡ none
      → is_unbanned now (lookup v (r.shards (shard_of k))) ≡ true
      → r.params.max_entries ≤ r.count
      → done ≡ create k now (forget (shard_of k) v r)
      → Located k now r done
  full :
      entry k r ≡ none
      → done
        ≡ (none, record r { stats = record r.stats { abuse_dropped = r.stats.abuse_dropped + 1 } })
      → Located k now r done

make_room-Located :
    (k : Addr) (now : ℕ) (r : Registry) (order : List Addr) (o : Option Addr)
    → entry k r ≡ none
    → r.params.max_entries ≤ r.count
    → find_victim now (r.shards (shard_of k)) order ≡ o
    → Located k now r (make_room k now r o)
unfolding make_room
make_room-Located k now r order none e c f = full e refl
make_room-Located k now r order (some v) e c f =
    evicted v e (find_victim-is_unbanned now (r.shards (shard_of k)) order v f) c refl

entry_found-Located :
    (order : List Addr) (k : Addr) (now : ℕ) (r : Registry) (o : Option AbuseEntry)
    → entry k r ≡ o
    → Located k now r (entry_found order k now r o)
unfolding entry_found
entry_found-Located order k now r (some e) p = found e p refl
entry_found-Located order k now r none p = elim (Bool-cases (leb r.params.max_entries r.count)) [
  | inl c ↦ rw c (
      make_room-Located k now r order (find_victim now (r.shards (shard_of k)) order) p
        (leb→le _ _ c) refl)
  | inr c ↦ rw c (created p refl)
]

pub entry_locked-Located :
    (order : List Addr) (k : Addr) (now : ℕ) (r : Registry)
    → Located k now r (entry_locked order k now r)
unfolding entry_locked
entry_locked-Located order k now r = entry_found-Located order k now r (entry k r) refl

pub entry-create :
    (k j : Addr) (now : ℕ) (r : Registry)
    → entry j (create k now r).1 ≡ (if k == j then some (new_entry now) else entry j r)
unfolding create put entry
entry-create k j now r = entry-put k j (new_entry now) r

-- Evicting an entry that is not banned leaves every ban in force.
pub entry-forget_banned :
    (i now : ℕ) (v j : Addr) (e : AbuseEntry) (r : Registry)
    → is_unbanned now (lookup v (r.shards i)) ≡ true
    → entry j r ≡ some e
    → slt now e.banned_until ≡ true
    → entry j (forget i v r) ≡ some e
unfolding entry forget
entry-forget_banned i now v j e r u p b = ground (
  arith,
  ==_iff v j,
  lookup-delete v j (r.shards i),
  ap (λ (n : ℕ). lookup v (r.shards n)) {x = i} {y = shard_of j},
)

-- What another client's record is after entryLocked: its old one, unless it was evicted.
pub entry_locked_other :
    (order : List Addr) (k j : Addr) (now : ℕ) (e : AbuseEntry) (r : Registry)
    → k ≢ j
    → entry j r ≡ some e
    → slt now e.banned_until ≡ true
    → entry j (entry_locked order k now r).1 ≡ some e
entry_locked_other order k j now e r ne p b =
    by_case (entry_locked order k now r) (entry_locked-Located order k now r)
  where
    differs : (k == j) ≡ false
    differs = ground (arith, ==_iff k j)

    by_case : (done : Option AbuseEntry × Registry) → Located k now r done → entry j done.1 ≡ some e
    by_case done (found e' q d) = rw d p
    by_case done (created q d) = rw d (rw (entry-create k j now r) (rw differs p))
    by_case done (evicted v q u c d) = rw d (
        rw (entry-create k j now (forget (shard_of k) v r))
          (rw differs (entry-forget_banned (shard_of k) now v j e r u p b)))
    by_case done (full q d) = rw d (unfold entry in p)

pub entry-put_self : (k : Addr) (e : AbuseEntry) (r : Registry) → entry k (put k e r) ≡ some e
entry-put_self k e r = rw (entry-put k k e r) (rw (==_refl k))

-- entryLocked changes no setting.
pub params-entry_locked :
    (order : List Addr) (k : Addr) (now : ℕ) (r : Registry)
    → (entry_locked order k now r).1.params ≡ r.params
params-entry_locked order k now r =
    by_case (entry_locked order k now r) (entry_locked-Located order k now r)
  where
    by_case :
        (done : Option AbuseEntry × Registry) → Located k now r done → done.1.params ≡ r.params
    by_case done (found e q d) = rw d
    by_case done (created q d) = unfold create put in rw d
    by_case done (evicted v q u c d) = unfold create put forget in rw d
    by_case done (full q d) = rw d

-- The client's own record is what entryLocked returned, or none when the registry is full.
pub entry-entry_locked :
    (order : List Addr) (k : Addr) (now : ℕ) (r : Registry)
    → entry k (entry_locked order k now r).1 ≡ (entry_locked order k now r).0
entry-entry_locked order k now r =
    by_case (entry_locked order k now r) (entry_locked-Located order k now r)
  where
    of_create : (r' : Registry) → entry k (create k now r').1 ≡ (create k now r').0
    of_create r' = unfold create put entry in (entry-put_self k (new_entry now) r')

    by_case : (done : Option AbuseEntry × Registry) → Located k now r done → entry k done.1 ≡ done.0
    by_case done (found e q d) = rw d q
    by_case done (created q d) = rw d (of_create r)
    by_case done (evicted v q u c d) = rw d (of_create (forget (shard_of k) v r))
    by_case done (full q d) = rw d (unfold entry in q)

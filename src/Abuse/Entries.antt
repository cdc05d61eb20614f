-- ===== src/Abuse/Entries.antt =====
-- abuse.go: the table of one shard, with its eviction when the registry is full.
use concert.Prelude.{
  ℕ, ◌+◌, ◌-◌, Bool, false, not, Option, none, some, List, [], ◌∷◌, leb, nat_beq, if◌then◌else◌,
}
use concert.Prelude.Table.{Table, lookup, insert, delete}
use concert.Int64.{slt}
use concert.Net.{Addr, addr_eq}
use concert.Abuse.{AbuseEntry, Registry, Shards, shard_of}

-- sh.m[k], on the shard of k
unfoldable pub entry : Addr → Registry → Option AbuseEntry
entry k r = lookup k (r.shards (shard_of k))

unfoldable pub set_shard : ℕ → Table Addr AbuseEntry → Shards → Shards
set_shard i t f = λ j. if nat_beq j i then t else f j

-- sh.m[k] = e
unfoldable pub put : Addr → AbuseEntry → Registry → Registry
unfolding set_shard
put k e r = record r {
  shards = set_shard (shard_of k) (insert k e (r.shards (shard_of k))) r.shards;
}

-- delete(sh.m, k); r.count.Add(-1), on the shard that the caller holds
unfoldable pub forget : ℕ → Addr → Registry → Registry
unfolding set_shard
forget i k r = record r {
  shards = set_shard i (delete k (r.shards i)) r.shards;
  count = r.count - 1;
}

abbrev pub is_unbanned : ℕ → Option AbuseEntry → Bool
is_unbanned now none = false
is_unbanned now (some e) = not (slt now e.banned_until)

-- The first key that the range meets whose entry is not banned.
unfoldable pub find_victim : ℕ → Table Addr AbuseEntry → List Addr → Option Addr
find_victim now m [] = none
find_victim now m (k ∷ ks) = if is_unbanned now (lookup k m) then some k else find_victim now m ks

abbrev pub new_entry : ℕ → AbuseEntry
new_entry now = record { strikes = 0; window_start = now; banned_until = 0; offenses = 0 }

-- e := &abuseEntry{windowStart: now}; sh.m[k] = e; r.count.Add(1)
unfoldable pub create : Addr → ℕ → Registry → Option AbuseEntry × Registry
create k now r =
    let r' = put k (new_entry now) r in (some (new_entry now), record r' { count = r'.count + 1 })

unfoldable pub make_room : Addr → ℕ → Registry → Option Addr → Option AbuseEntry × Registry
make_room k now r none =
    (none, record r { stats = record r.stats { abuse_dropped = r.stats.abuse_dropped + 1 } })
make_room k now r (some victim) = create k now (forget (shard_of k) victim r)

unfoldable pub entry_found :
    List Addr → Addr → ℕ → Registry → Option AbuseEntry → Option AbuseEntry × Registry
unfolding make_room
entry_found order k now r (some e) = (some e, r)
entry_found order k now r none =
    if leb r.params.max_entries r.count
    then make_room k now r (find_victim now (r.shards (shard_of k)) order)
    else create k now r

-- entryLocked
unfoldable pub entry_locked : List Addr → Addr → ℕ → Registry → Option AbuseEntry × Registry
unfolding entry_found
entry_locked order k now r = entry_found order k now r (entry k r)

-- ===== src/Abuse/Shape.antt =====
-- On abuse.go: the invariant that ties the counters to the tables.
use concert.Prelude.{ℕ, ◌+◌, ◌<◌, ◌≡◌, none, some, arith, nat_beq, length, inl, inr, Bool-cases}
use concert.Prelude.Table.{Table, lookup, insert, delete, IsMap}
use concert.Prelude.Table.Laws.{
  insert-IsMap, delete-IsMap, length-insert_new, length-insert_old, length-delete,
}
use concert.Net.{Addr, addr_eq, prefix_eq}
use concert.Abuse.{AbuseEntry, Registry, Shards, abuse_shards, shard_of}
use concert.Abuse.Entries.{entry, set_shard, put, forget, new_entry, create}
use concert.Abuse.Admin.{total}
use concert.Abuse.Store.{shard_of-lt, total-set}

-- `q` is the number of entries that a sweep under way has removed and not yet counted off.
pub record IsCounted (q : ℕ) (r : Registry) : Type 0 where
  pub maps : (i : ℕ) → IsMap (r.shards i)
  pub counted : r.count ≡ total abuse_shards r.shards + q
  pub range_map : IsMap r.ranges
  pub mirrored : r.ranges_n ≡ length r.ranges

-- No sweep is under way.
abbrev pub IsShape : Registry → Type 0
IsShape r = IsCounted 0 r

pub set_shard-maps :
    (i : ℕ) (t : Table Addr AbuseEntry) (f : Shards)
    → IsMap t
    → ((j : ℕ) → IsMap (f j))
    → (j : ℕ) → IsMap (set_shard i t f j)
unfolding set_shard
set_shard-maps i t f h hs j = elim (Bool-cases (nat_beq j i)) [
  | inl e ↦ rw e h
  | inr e ↦ rw e (hs j)
]

-- An entry that is put back.
pub put-IsCounted :
    {q : ℕ} (k : Addr) (e old : AbuseEntry) (r : Registry)
    → entry k r ≡ some old
    → IsCounted q r
    → IsCounted q (put k e r)
unfolding put entry
put-IsCounted k e old r p v =
    let i = shard_of k in
    let t = insert k e (r.shards i) in
    record {
      maps = set_shard-maps i t r.shards (insert-IsMap k e (r.shards i) (v.maps i)) v.maps;
      counted = omega (
        arith,
        v.counted,
        total-set abuse_shards i t r.shards (shard_of-lt k),
        length-insert_old k e old (r.shards i) p,
      );
      range_map = v.range_map;
      mirrored = v.mirrored;
    }

pub create-IsCounted :
    {q : ℕ} (k : Addr) (now : ℕ) (r : Registry)
    → entry k r ≡ none
    → IsCounted q r
    → IsCounted q (create k now r).1
unfolding create put entry
create-IsCounted k now r p v =
    let i = shard_of k in
    let t = insert k (new_entry now) (r.shards i) in
    record {
      maps =
          set_shard-maps i t r.shards (insert-IsMap k (new_entry now) (r.shards i) (v.maps i))
            v.maps;
      counted = omega (
        arith,
        v.counted,
        total-set abuse_shards i t r.shards (shard_of-lt k),
        length-insert_new k (new_entry now) (r.shards i) p,
      );
      range_map = v.range_map;
      mirrored = v.mirrored;
    }

pub forget-IsCounted :
    {q : ℕ} (i : ℕ) (k : Addr) (old : AbuseEntry) (r : Registry)
    → i < abuse_shards
    → lookup k (r.shards i) ≡ some old
    → IsCounted q r
    → IsCounted q (forget i k r)
unfolding forget
forget-IsCounted i k old r h p v =
    let t = delete k (r.shards i) in
    record {
      maps = set_shard-maps i t r.shards (delete-IsMap k (r.shards i) (v.maps i)) v.maps;
      counted = omega (
        arith,
        v.counted,
        total-set abuse_shards i t r.shards h,
        length-delete k old (r.shards i) (v.maps i) p,
      );
      range_map = v.range_map;
      mirrored = v.mirrored;
    }

-- ===== src/Abuse/Operations.antt =====
-- On abuse.go and ranges.go: the counts under every operation, ranges and sweeps included.
use concert.Prelude.{
  ◌<◌, ℕ, ◌+◌, ◌≡◌, refl, sym, ◌∙◌, Bool, true, false, Option, none, some, List, arith, nat_beq,
  leb, if◌then◌else◌, inl, inr, Bool-cases, length,
}
use concert.Prelude.Table.{lookup, insert, sweep}
use concert.Prelude.Table.Laws.{
  insert-IsMap, delete-IsMap, length-insert_new, length-insert_old, length-delete,
}
use concert.Prelude.Table.Sweep.{sweep-IsMap, length-sweep_le}
use concert.Int64.{slt}
use concert.Net.{Addr, Prefix, addr_eq, prefix_eq, key_prefix}
use concert.Abuse.{RangeBan, AbuseEntry, Registry, Counters, abuse_shards, notify_ban, shard_of}
use concert.Abuse.Entries.{entry, forget}
use concert.Abuse.Strikes.{count_ban, strike_key, strike_tracked, ban_now_key, ban_now_tracked}
use concert.Ranges.{
  BanError, max_range_bans, ban_end, renew_range, range_found, set_range, range_set, unban_found,
  has_ended, sweep_ranges,
}
use concert.Abuse.Admin.{
  set_ban_key, ban_for_set, ban_for_tracked, unban_entry, unban_key, is_idle, Sweep, sweep_shard,
  sweep_end,
}
use concert.Abuse.Store.{shard_of-lt, total-set}
use concert.Abuse.Shape.{IsCounted, forget-IsCounted, set_shard-maps}
use concert.Abuse.Steps.{
  noted-IsCounted, strike_key-IsCounted, ban_now_key-IsCounted, set_ban_key-IsCounted,
}

pub notify_ban-IsCounted :
    {q : ℕ} (p : Prefix) (r : Registry) → IsCounted q r → IsCounted q (notify_ban p r)
unfolding notify_ban
notify_ban-IsCounted p r v = noted-IsCounted r r.stats _ true v

pub notified-IsCounted :
    {q : ℕ} (b : Bool) (p : Prefix) (r : Registry)
    → IsCounted q r
    → IsCounted q (if b then notify_ban p r else r)
notified-IsCounted true p r v = notify_ban-IsCounted p r v
notified-IsCounted false p r v = v

pub strike_tracked-IsCounted :
    {q : ℕ} (order : List Addr) (weight n : ℕ) (r : Registry) (o : Option Addr)
    → IsCounted q r
    → IsCounted q (strike_tracked order weight n r o).1
unfolding strike_tracked
strike_tracked-IsCounted order weight n r none v = v
strike_tracked-IsCounted order weight n r (some k) v =
    let counted = record r {
      stats = record r.stats { abuse_strikes = r.stats.abuse_strikes + 1 };
    } in
    let done = strike_key order k weight n counted in
    notified-IsCounted done.0.1 (key_prefix k) done.1 (
      strike_key-IsCounted order k weight n counted
        (noted-IsCounted r counted.stats r.dropped_prefixes r.dirty v))

pub ban_now_tracked-IsCounted :
    {q : ℕ} (order : List Addr) (n : ℕ) (r : Registry) (o : Option Addr)
    → IsCounted q r
    → IsCounted q (ban_now_tracked order n r o).1
unfolding ban_now_tracked
ban_now_tracked-IsCounted order n r none v = v
ban_now_tracked-IsCounted order n r (some k) v =
    let done = ban_now_key order k n r in
    notified-IsCounted done.0.fresh (key_prefix k) done.1 (ban_now_key-IsCounted order k n r v)

pub ban_for_set-IsCounted :
    {q : ℕ} (k : Addr) (o : Option BanError) (r : Registry)
    → IsCounted q r
    → IsCounted q (ban_for_set k (o, r)).1
unfolding ban_for_set
ban_for_set-IsCounted k (some err) r v = v
ban_for_set-IsCounted k none r v = notify_ban-IsCounted (key_prefix k) r v

pub ban_for_tracked-IsCounted :
    {q : ℕ} (order : List Addr) (d n : ℕ) (r : Registry) (o : Option Addr)
    → IsCounted q r
    → IsCounted q (ban_for_tracked order d n r o).1
unfolding ban_for_tracked
ban_for_tracked-IsCounted order d n r none v = v
ban_for_tracked-IsCounted order d n r (some k) v =
    let done = set_ban_key order k d n r in
    ban_for_set-IsCounted k done.0 done.1 (set_ban_key-IsCounted order k d n r v)

pub unban_entry-IsCounted :
    {q : ℕ} (k : Addr) (r : Registry) (o : Option AbuseEntry)
    → entry k r ≡ o
    → IsCounted q r
    → IsCounted q (unban_entry k r o).1
unfolding unban_entry entry
unban_entry-IsCounted k r none p v = v
unban_entry-IsCounted k r (some e) p v =
    let done = forget (shard_of k) k r in
    noted-IsCounted done done.stats done.dropped_prefixes true
      (forget-IsCounted (shard_of k) k e r (shard_of-lt k) p v)

pub unban_key-IsCounted :
    {q : ℕ} (r : Registry) (o : Option Addr) → IsCounted q r → IsCounted q (unban_key r o).1
unfolding unban_key
unban_key-IsCounted r none v = v
unban_key-IsCounted r (some k) v = unban_entry-IsCounted k r (entry k r) refl v

renew_range-IsCounted :
    {q : ℕ} (p : Prefix) (d n : ℕ) (b old : RangeBan) (r : Registry)
    → lookup p r.ranges ≡ some old
    → IsCounted q r
    → IsCounted q (renew_range p d n b r)
unfolding renew_range
renew_range-IsCounted {q} p d n b old r e v = elim (Bool-cases (slt n b.until)) [
  | inl c ↦ rw c (renewed (record { until = ban_end d n; offenses = b.offenses }) r.stats)
  | inr c ↦
      rw c (renewed (record { until = ban_end d n; offenses = b.offenses + 1 }) (count_ban r).stats)
]
  where
    renewed :
        (x : RangeBan) (c : Counters)
        → IsCounted q (record r { ranges = insert p x r.ranges; stats = c })
    renewed x c = record {
      maps = v.maps;
      counted = v.counted;
      range_map = insert-IsMap p x r.ranges v.range_map;
      mirrored = v.mirrored ∙ sym (length-insert_old p x old r.ranges e);
    }

new_range-IsCounted :
    {q : ℕ} (p : Prefix) (d n : ℕ) (b : RangeBan) (r : Registry)
    → lookup p r.ranges ≡ none
    → IsCounted q r
    → IsCounted q (renew_range p d n b (record r { ranges_n = r.ranges_n + 1 }))
unfolding renew_range
new_range-IsCounted {q} p d n b r e v = elim (Bool-cases (slt n b.until)) [
  | inl c ↦ rw c (renewed (record { until = ban_end d n; offenses = b.offenses }) r.stats)
  | inr c ↦
      rw c (renewed (record { until = ban_end d n; offenses = b.offenses + 1 }) (count_ban r).stats)
]
  where
    renewed :
        (x : RangeBan) (c : Counters)
        → IsCounted q
            (record r { ranges = insert p x r.ranges; ranges_n = r.ranges_n + 1; stats = c })
    renewed x c = record {
      maps = v.maps;
      counted = v.counted;
      range_map = insert-IsMap p x r.ranges v.range_map;
      mirrored = omega (arith, v.mirrored, length-insert_new p x r.ranges e);
    }

pub range_found-IsCounted :
    {q : ℕ} (p : Prefix) (d n : ℕ) (r : Registry) (o : Option RangeBan)
    → lookup p r.ranges ≡ o
    → IsCounted q r
    → IsCounted q (range_found p d n r o).1
unfolding range_found
range_found-IsCounted p d n r (some b) q v = renew_range-IsCounted p d n b b r q v
range_found-IsCounted p d n r none q v = elim (Bool-cases (leb max_range_bans (length r.ranges))) [
  | inl c ↦ rw c v
  | inr c ↦ rw c (new_range-IsCounted p d n (record { until = 0; offenses = 0 }) r q v)
]

-- What holds of a registry, if there is one.
abbrev pub Holds : (Registry → Type 0) → Option Registry → Type 0
Holds P none = Unit
Holds P (some r) = P r

pub range_set-IsCounted :
    {q : ℕ} (p : Prefix) (o : Option BanError) (r : Registry)
    → IsCounted q r
    → Holds (IsCounted q) (range_set p (o, r)).1
unfolding range_set
range_set-IsCounted p (some err) r v = v
range_set-IsCounted p none r v = notify_ban-IsCounted p r v

pub unban_found-IsCounted :
    {q : ℕ} (p : Prefix) (r : Registry) (o : Option RangeBan)
    → lookup p r.ranges ≡ o
    → IsCounted q r
    → Holds (IsCounted q) (unban_found p r o).1
unfolding unban_found
unban_found-IsCounted p r none q v = v
unban_found-IsCounted p r (some b) q v = record {
  maps = v.maps;
  counted = v.counted;
  range_map = delete-IsMap p r.ranges v.range_map;
  mirrored = omega (arith, v.mirrored, length-delete p b r.ranges v.range_map q);
}

pub sweep_ranges-IsCounted :
    {q : ℕ} (n : ℕ) (r : Registry) → IsCounted q r → Holds (IsCounted q) (sweep_ranges n (some r)).1
unfolding sweep_ranges
sweep_ranges-IsCounted n r v = elim (Bool-cases (nat_beq r.ranges_n 0)) [
  | inl c ↦ rw c v
  | inr c ↦ rw c (record {
    maps = v.maps;
    counted = v.counted;
    range_map = sweep-IsMap (has_ended n) r.ranges v.range_map;
    mirrored = omega (arith, v.mirrored, length-sweep_le (has_ended n) r.ranges);
  })
]

-- A turn of a sweep removes from a shard what it adds to the entries not yet counted off.
pub sweep_shard-IsCounted :
    (s : Sweep) (r : Registry)
    → s.shard < abuse_shards
    → IsCounted s.evicted r
    → IsCounted (sweep_shard s r).0.evicted (sweep_shard s r).1
unfolding sweep_shard
sweep_shard-IsCounted s r h v =
    let t = sweep (is_idle s.params s.now) (r.shards s.shard) in
    record {
      maps =
          set_shard-maps s.shard t r.shards (sweep-IsMap _ (r.shards s.shard) (v.maps s.shard))
            v.maps;
      counted = omega (
        arith,
        v.counted,
        total-set abuse_shards s.shard t r.shards h,
        length-sweep_le (is_idle s.params s.now) (r.shards s.shard),
      );
      range_map = v.range_map;
      mirrored = v.mirrored;
    }

-- The last section of a sweep counts them off.
pub sweep_end-IsCounted :
    (s : Sweep) (r : Registry) → IsCounted s.evicted r → IsCounted 0 (sweep_end s r).1
unfolding sweep_end
sweep_end-IsCounted s r v = record {
  maps = v.maps;
  counted = omega (arith, v.counted);
  range_map = v.range_map;
  mirrored = v.mirrored;
}

pub set_range-IsCounted :
    {q : ℕ} (p : Prefix) (d n : ℕ) (r : Registry)
    → IsCounted q r
    → IsCounted q (set_range p d n r).1
unfolding set_range
set_range-IsCounted p d n r v = range_found-IsCounted p d n r (lookup p r.ranges) refl v

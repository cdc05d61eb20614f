-- ===== src/Abuse/Admin.antt =====
-- abuse.go: whether a client is banned, an administrator's bans, and the janitor's sweep.
use concert.Prelude.{
  ℕ, zero, suc, ◌+◌, ◌-◌, Bool, true, false, not, ◌||◌, Option, none, some, List, nat_beq, length,
  if◌then◌else◌,
}
use concert.Prelude.Table.{sweep}
use concert.Int64.{sub64, slt}
use concert.Net.{Addr, addr_eq, abuse_key, is_valid, key_prefix}
use concert.Abuse.{
  AbuseParams, AbuseEntry, Registry, Shards, abuse_shards, ban_forever, ban_forever_left,
  notify_ban, shard_of, trackable,
}
use concert.Abuse.Entries.{entry, put, forget, set_shard, entry_locked}
use concert.Abuse.Strikes.{count_ban}
use concert.Ranges.{
  BanError, abuse_disabled, invalid_address, client_exempt, registry_full, range_banned, ban_end,
}

-- The entry's bannedUntil, 0 when there is none.
abbrev pub until_of : Option AbuseEntry → ℕ
until_of none = 0
until_of (some e) = e.banned_until

unfoldable pub banned_left : Registry → Addr → ℕ → ℕ → ℕ × Bool
banned_left r ip n until =
    if nat_beq until ban_forever
    then (ban_forever_left, true)
    else if slt 0 (sub64 until n)
    then (sub64 until n, true)
    else range_banned r ip n

unfoldable pub banned_key : Registry → Addr → ℕ → Option Addr → ℕ × Bool
unfolding banned_left
banned_key r ip n none = (0, false)
banned_key r ip n (some k) = banned_left r ip n (until_of (entry k r))

-- banned
unfoldable pub banned : Option Registry → Addr → ℕ → ℕ × Bool
unfolding banned_key
banned none ip n = (0, false)
banned (some r) ip n = banned_key r ip n (abuse_key ip)

unfoldable pub set_ban_entry :
    Addr → ℕ → ℕ → Option AbuseEntry × Registry → Option BanError × Registry
set_ban_entry k d n (none, r) = (some registry_full, r)
set_ban_entry k d n (some e, r) =
    if not (slt n e.banned_until)
    then (
      none,
      count_ban (
          put k
            (record {
              strikes = 0;
              window_start = n;
              banned_until = ban_end d n;
              offenses = e.offenses + 1;
            })
            r),
    )
    else (
      none,
      put k
          (record {
            strikes = 0;
            window_start = n;
            banned_until = ban_end d n;
            offenses = e.offenses;
          })
          r,
    )

-- setBanKey
unfoldable pub set_ban_key : List Addr → Addr → ℕ → ℕ → Registry → Option BanError × Registry
unfolding set_ban_entry
set_ban_key order k d n r = set_ban_entry k d n (entry_locked order k n r)

-- What banFor returns: the key, or an error.
pub data BanResult : Type 0 where
  banned_client : Addr → BanResult
  failed : BanError → BanResult

unfoldable pub ban_for_set : Addr → Option BanError × Registry → BanResult × Registry
ban_for_set k (some err, r) = (failed err, r)
ban_for_set k (none, r) = (banned_client k, notify_ban (key_prefix k) r)

unfoldable pub ban_for_tracked : List Addr → ℕ → ℕ → Registry → Option Addr → BanResult × Registry
unfolding ban_for_set
ban_for_tracked order d n r none = (failed client_exempt, r)
ban_for_tracked order d n r (some k) = ban_for_set k (set_ban_key order k d n r)

-- banFor
unfoldable pub ban_for : List Addr → Addr → ℕ → ℕ → Option Registry → BanResult × Option Registry
unfolding ban_for_tracked
ban_for order ip d n none = (failed abuse_disabled, none)
ban_for order ip d n (some r) =
    if not (is_valid ip)
    then (failed invalid_address, some r)
    else let done = ban_for_tracked order d n r (trackable r ip) in (done.0, some done.1)

unfoldable pub unban_entry : Addr → Registry → Option AbuseEntry → Bool × Registry
unban_entry k r none = (false, r)
unban_entry k r (some e) = (true, record (forget (shard_of k) k r) { dirty = true })

unfoldable pub unban_key : Registry → Option Addr → Bool × Registry
unfolding unban_entry
unban_key r none = (false, r)
unban_key r (some k) = unban_entry k r (entry k r)

-- unban
unfoldable pub unban : Addr → Option Registry → Bool × Option Registry
unfolding unban_key
unban ip none = (false, none)
unban ip (some r) = let done = unban_key r (abuse_key ip) in (done.0, some done.1)

-- tracked
unfoldable pub tracked : Option Registry → ℕ
tracked none = 0
tracked (some r) = r.count

-- Whether sweep drops an entry.
unfoldable pub is_idle : AbuseParams → ℕ → Addr → AbuseEntry → Bool
is_idle p n k e =
    if slt n e.banned_until || not (slt p.window (sub64 n e.window_start))
    then false
    else nat_beq e.offenses 0 || slt p.max (sub64 n e.banned_until)

-- The entries of the first `i` shards.
unfoldable pub total : ℕ → Shards → ℕ
total zero f = 0
total (suc i) f = length (f i) + total i f

-- A sweep under way: the settings and the time that it read at its start, the next shard, and the
-- number of entries removed so far.
pub record Sweep : Type 0 where
  pub params : AbuseParams
  pub now : ℕ
  pub shard : ℕ
  pub evicted : ℕ

abbrev pub sweep_begin : ℕ → Registry → Sweep
sweep_begin n r = record { params = r.params; now = n; shard = 0; evicted = 0 }

-- One turn of the loop over the shards, under the lock of that shard.
unfoldable pub sweep_shard : Sweep → Registry → Sweep × Registry
unfolding set_shard
sweep_shard s r =
    let left = sweep (is_idle s.params s.now) (r.shards s.shard) in
    (
      record s {
        shard = s.shard + 1;
        evicted = s.evicted + (length (r.shards s.shard) - length left);
      },
      record r { shards = set_shard s.shard left r.shards },
    )

-- r.count.Add(int64(-evicted)), after the last shard and under no lock
unfoldable pub sweep_end : Sweep → Registry → ℕ × Registry
sweep_end s r = (s.evicted, record r { count = r.count - s.evicted })

-- The next `i` turns, with nothing in between.
unfoldable pub sweep_shards : ℕ → Sweep → Registry → Sweep × Registry
unfolding sweep_shard
sweep_shards zero s r = (s, r)
sweep_shards (suc i) s r = let done = sweep_shard s r in sweep_shards i done.0 done.1

-- sweep, when nothing runs between its sections: the number of entries removed, and the registry
unfoldable pub sweep_entries : ℕ → Registry → ℕ × Registry
unfolding sweep_shards sweep_end
sweep_entries n r =
    let done = sweep_shards abuse_shards (sweep_begin n r) r in sweep_end done.0 done.1

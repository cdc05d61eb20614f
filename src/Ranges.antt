-- ===== src/Ranges.antt =====
-- ranges.go: bans of whole CIDR blocks, made by an administrator only. They live in the registry
-- (Abuse.antt); `ranges_n` mirrors the number of entries.
pub mod Targets
pub mod Laws
pub mod Answers
mod Tests
use concert.Prelude.{
  ℕ, ◌+◌, ◌-◌, Bool, true, false, not, ◌&&◌, ◌||◌, Option, none, some, List, [], ◌∷◌, leb, nat_beq,
  length, if◌then◌else◌,
}
use concert.Prelude.Table.{Table, lookup, insert, delete, sweep}
use concert.Int64.{add64, sub64, slt}
use concert.Net.{Addr, Prefix, prefix_eq, contains, contains_addr, is_valid, unmap}
use concert.Abuse.{RangeBan, Registry, ban_forever, ban_forever_left, notify_ban}
use concert.Abuse.Strikes.{count_ban}

abbrev pub max_range_bans : ℕ
max_range_bans = 4096

-- The errors of the registry's administration.
pub data BanError : Type 0 where
  abuse_disabled invalid_address client_exempt registry_full range_limit : BanError

-- The loop of rangeBanned: the latest end of the active bans that hold the address.
unfoldable pub latest : ℕ → Addr → ℕ → Table Prefix RangeBan → ℕ
latest now ip until [] = until
latest now ip until ((p, b) ∷ m) =
    latest now ip
      (if slt now b.until && (slt until b.until && contains p ip) then b.until else until) m

unfoldable pub range_left : ℕ → Bool → ℕ → ℕ × Bool
range_left now exempt until =
    if nat_beq until 0 || exempt
    then (0, false)
    else if nat_beq until ban_forever
    then (ban_forever_left, true)
    else (sub64 until now, true)

-- rangeBanned
unfoldable pub range_banned : Registry → Addr → ℕ → ℕ × Bool
unfolding range_left
range_banned r ip now =
    if nat_beq r.ranges_n 0 || not (is_valid ip)
    then (0, false)
    else range_left now (contains_addr r.params.exempt (unmap ip))
        (latest now (unmap ip) 0 r.ranges)

-- The end of a ban of length `d` from `n`; a length that is not positive makes it permanent.
abbrev pub ban_end : ℕ → ℕ → ℕ
ban_end d n = if not (slt 0 d) then ban_forever else add64 n d

-- if b.until <= n { b.offenses++; stats }; b.until = …
unfoldable pub renew_range : Prefix → ℕ → ℕ → RangeBan → Registry → Registry
renew_range p d n b r =
    if not (slt n b.until)
    then count_ban (record r {
      ranges = insert p (record { until = ban_end d n; offenses = b.offenses + 1 }) r.ranges;
    })
    else record r {
      ranges = insert p (record { until = ban_end d n; offenses = b.offenses }) r.ranges;
    }

unfoldable pub range_found :
    Prefix → ℕ → ℕ → Registry → Option RangeBan → Option BanError × Registry
unfolding renew_range
range_found p d n r (some b) = (none, renew_range p d n b r)
range_found p d n r none = if leb max_range_bans (length r.ranges) then (some range_limit, r) else (
  none,
  renew_range p d n (record { until = 0; offenses = 0 }) (record r { ranges_n = r.ranges_n + 1 }),
)

-- setRange
unfoldable pub set_range : Prefix → ℕ → ℕ → Registry → Option BanError × Registry
unfolding range_found
set_range p d n r = range_found p d n r (lookup p r.ranges)

unfoldable pub range_set : Prefix → Option BanError × Registry → Option BanError × Option Registry
range_set p (some err, r) = (some err, some r)
range_set p (none, r) = (none, some (notify_ban p r))

-- banRange
unfoldable pub ban_range : Prefix → ℕ → ℕ → Option Registry → Option BanError × Option Registry
unfolding range_set
ban_range p d n none = (some abuse_disabled, none)
ban_range p d n (some r) = range_set p (set_range p d n r)

unfoldable pub unban_found : Prefix → Registry → Option RangeBan → Bool × Option Registry
unban_found p r none = (false, some r)
unban_found p r (some b) =
    (true, some (record r { ranges = delete p r.ranges; ranges_n = r.ranges_n - 1; dirty = true }))

-- unbanRange
unfoldable pub unban_range : Prefix → Option Registry → Bool × Option Registry
unfolding unban_found
unban_range p none = (false, none)
unban_range p (some r) = unban_found p r (lookup p r.ranges)

abbrev pub has_ended : ℕ → Prefix → RangeBan → Bool
has_ended n p b = not (slt n b.until)

-- sweepRanges: the number of entries removed, and the registry
unfoldable pub sweep_ranges : ℕ → Option Registry → ℕ × Option Registry
sweep_ranges n none = (0, none)
sweep_ranges n (some r) =
    if nat_beq r.ranges_n 0
    then (0, some r)
    else let left = sweep (has_ended n) r.ranges in
      let evicted = length r.ranges - length left in
      (evicted, some (record r { ranges = left; ranges_n = r.ranges_n - evicted }))

-- rangeCount
unfoldable pub range_count : Option Registry → ℕ
range_count none = 0
range_count (some r) = r.ranges_n

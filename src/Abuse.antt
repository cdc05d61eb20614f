-- ===== src/Abuse.antt =====
-- abuse.go: the abuse registry's state, and the parts that every operation shares.
--
-- A registry is explicit state. The 64 shards are a function from the shard's index; a *abuseEntry
-- that the code changes in place is read, changed and put back. Each operation holds one shard's
-- mutex, so it is one step. Times and durations are int64 patterns (Int64); strikes, offenses and
-- statistics count events and are plain numbers. `order` is the order in which Go happens to range
-- over a map, a list of keys; a nil registry (abuse off) is `none`.
pub mod Entries
pub mod Strikes
pub mod Admin
pub mod Store
pub mod Shape
pub mod Keeps
pub mod Cooldown
pub mod Banned
pub mod Lifts
pub mod Sweep
pub mod Steps
pub mod Operations
pub mod Reach
mod Tests
use Prim.Native.Nat.{bit_xor}
use concert.Prelude.{
  ℕ, ◌+◌, ◌-◌, ◌*◌, ◌%◌, ◌^◌, Bool, true, false, not, ◌||◌, Option, none, some, List, [], ◌∷◌, ◌++◌,
  nat_beq, if◌then◌else◌,
}
use concert.Prelude.Table.{Table, lookup, insert, delete}
use concert.Int64.{max_int64}
use concert.Net.{Addr, Prefix, addr_eq, unmap, is_valid, contains_addr, abuse_key, byte_16}

-- const.go
abbrev pub ban_forever : ℕ
ban_forever = max_int64

abbrev pub ban_forever_left : ℕ
ban_forever_left = max_int64

abbrev pub abuse_shards : ℕ
abuse_shards = 64

-- abuseParams
pub record AbuseParams : Type 0 where
  pub threshold : ℕ
  pub window : ℕ
  pub base : ℕ
  pub max : ℕ
  pub max_entries : ℕ
  pub exempt : List Prefix

-- abuseEntry
pub record AbuseEntry : Type 0 where
  pub strikes : ℕ
  pub window_start : ℕ
  pub banned_until : ℕ
  pub offenses : ℕ

-- ranges.go: rangeBan
pub record RangeBan : Type 0 where
  pub until : ℕ
  pub offenses : ℕ

-- counters.go: the registry's share of the counters
pub record Counters : Type 0 where
  pub abuse_strikes : ℕ
  pub abuse_bans : ℕ
  pub abuse_dropped : ℕ

abbrev pub Shards : Type 0
Shards = ℕ → Table Addr AbuseEntry

-- abuseRegistry; `ranges` and `ranges_n` are its rangeSet, `dropped_prefixes` the calls of onBan
pub record Registry : Type 0 where
  pub shards : Shards
  pub params : AbuseParams
  pub count : ℕ
  pub stats : Counters
  pub ranges : Table Prefix RangeBan
  pub ranges_n : ℕ
  pub has_on_ban : Bool
  pub dropped_prefixes : List Prefix
  pub dirty : Bool

-- newAbuseRegistry
abbrev pub new_registry : AbuseParams → Registry
new_registry p = record {
  shards = λ i. [];
  params = p;
  count = 0;
  stats = record { abuse_strikes = 0; abuse_bans = 0; abuse_dropped = 0 };
  ranges = [];
  ranges_n = 0;
  has_on_ban = false;
  dropped_prefixes = [];
  dirty = false;
}

-- shard: the and with 63 is the rest modulo 64
unfoldable pub shard_of : Addr → ℕ
unfolding byte_16
shard_of k =
    bit_xor (byte_16 k 4) (
      bit_xor (byte_16 k 5) (
        bit_xor (byte_16 k 6) (
          bit_xor (byte_16 k 7) (
            bit_xor (byte_16 k 12)
              (bit_xor (byte_16 k 13) (bit_xor (byte_16 k 14) (byte_16 k 15)))))))
    % abuse_shards

-- notifyBan
unfoldable pub notify_ban : Prefix → Registry → Registry
notify_ban p r = record r {
  dirty = true;
  dropped_prefixes = if r.has_on_ban then r.dropped_prefixes ++ p ∷ [] else r.dropped_prefixes;
}

-- isExempt
unfoldable pub is_exempt : Option Registry → Addr → Bool
is_exempt none ip = false
is_exempt (some r) ip = contains_addr r.params.exempt (unmap ip)

-- trackable
unfoldable pub trackable : Registry → Addr → Option Addr
trackable r ip =
    let a = unmap ip in
    if not (is_valid a) || contains_addr r.params.exempt a then none else abuse_key a

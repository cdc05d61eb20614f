-- ===== src/Abuse/Strikes.antt =====
-- abuse.go: strikes, bans by strikes, and the escalating cooldown.
use concert.Prelude.{
  ℕ, zero, suc, ◌+◌, ◌-◌, Bool, true, false, not, Option, none, some, List, ltb, nat_beq,
  if◌then◌else◌,
}
use concert.Int64.{add64, sub64, mul64, slt}
use concert.Net.{Addr, key_prefix}
use concert.Abuse.{
  AbuseParams, AbuseEntry, Registry, ban_forever, ban_forever_left, notify_ban, trackable,
}
use concert.Abuse.Entries.{put, entry_locked}

-- The rounds of cooldown's loop that are left, and its return.
unfoldable pub escalate : ℕ → ℕ → ℕ → ℕ
escalate max zero d = if slt max d then max else d
escalate max (suc rounds) d =
    let rest = escalate max rounds (mul64 d 2) in if not (slt (mul64 d 2) max) then max else rest

unfoldable pub cooldown : AbuseParams → ℕ → ℕ
unfolding escalate
cooldown p offenses = escalate p.max (offenses - 1) p.base

abbrev pub count_ban : Registry → Registry
count_ban r = record r { stats = record r.stats { abuse_bans = r.stats.abuse_bans + 1 } }

-- The entry that banLocked leaves, for a ban of length `d`.
abbrev pub banned_entry : AbuseEntry → ℕ → ℕ → AbuseEntry
banned_entry e now d = record {
  strikes = 0;
  window_start = now;
  banned_until = add64 now d;
  offenses = e.offenses + 1;
}

-- banLocked: the length of the ban, and the registry with the entry put back
unfoldable pub ban_locked : Addr → AbuseEntry → ℕ → Registry → ℕ × Registry
ban_locked k e now r =
    let d = cooldown r.params (e.offenses + 1) in (d, count_ban (put k (banned_entry e now d) r))

-- The entry with its window begun anew when that is over.
abbrev pub in_window : AbuseParams → ℕ → AbuseEntry → AbuseEntry
in_window p n e =
    if slt p.window (sub64 n e.window_start) then record e { window_start = n; strikes = 0 } else e

unfoldable pub add_strikes : Addr → ℕ → ℕ → AbuseEntry → Registry → (Bool × Bool) × Registry
add_strikes k weight n e r =
    if ltb (e.strikes + weight) r.params.threshold
    then ((false, false), put k (record e { strikes = e.strikes + weight }) r)
    else ((true, true), (ban_locked k (record e { strikes = e.strikes + weight }) n r).1)

unfoldable pub strike_entry : Addr → ℕ → ℕ → Option AbuseEntry × Registry → (Bool × Bool) × Registry
unfolding add_strikes
strike_entry k weight n (none, r) = ((false, false), r)
strike_entry k weight n (some e, r) =
    if slt n e.banned_until
    then ((true, false), r)
    else add_strikes k weight n (in_window r.params n e) r

-- strikeKey: (banned, fresh)
unfoldable pub strike_key : List Addr → Addr → ℕ → ℕ → Registry → (Bool × Bool) × Registry
unfolding strike_entry
strike_key order k weight n r = strike_entry k weight n (entry_locked order k n r)

unfoldable pub strike_tracked : List Addr → ℕ → ℕ → Registry → Option Addr → Bool × Registry
strike_tracked order weight n r none = (false, r)
strike_tracked order weight n r (some k) =
    let counted = record r {
      stats = record r.stats { abuse_strikes = r.stats.abuse_strikes + 1 };
    } in
    let done = strike_key order k weight n counted in
    (done.0.0, if done.0.1 then notify_ban (key_prefix k) done.1 else done.1)

-- strike; a weight that is not positive is 0 here
unfoldable pub strike : List Addr → Addr → ℕ → ℕ → Option Registry → Bool × Option Registry
unfolding strike_tracked
strike order ip weight n none = (false, none)
strike order ip weight n (some r) =
    if nat_beq weight 0
    then (false, some r)
    else let done = strike_tracked order weight n r (trackable r ip) in (done.0, some done.1)

-- (left, banned, fresh)
pub record BanNow : Type 0 where
  pub left : ℕ
  pub banned : Bool
  pub fresh : Bool

unfoldable pub ban_entry : Addr → ℕ → Option AbuseEntry × Registry → BanNow × Registry
ban_entry k n (none, r) = (record { left = 0; banned = false; fresh = false }, r)
ban_entry k n (some e, r) =
    if nat_beq e.banned_until ban_forever
    then (record { left = ban_forever_left; banned = true; fresh = false }, r)
    else if slt n e.banned_until
    then (record { left = sub64 e.banned_until n; banned = true; fresh = false }, r)
    else let done = ban_locked k e n r in
      (record { left = done.0; banned = true; fresh = true }, done.1)

-- banNowKey
unfoldable pub ban_now_key : List Addr → Addr → ℕ → Registry → BanNow × Registry
unfolding ban_entry
ban_now_key order k n r = ban_entry k n (entry_locked order k n r)

unfoldable pub ban_now_tracked : List Addr → ℕ → Registry → Option Addr → (ℕ × Bool) × Registry
ban_now_tracked order n r none = ((0, false), r)
ban_now_tracked order n r (some k) =
    let done = ban_now_key order k n r in
    (
      (done.0.left, done.0.banned),
      if done.0.fresh then notify_ban (key_prefix k) done.1 else done.1,
    )

-- banNow
unfoldable pub ban_now : List Addr → Addr → ℕ → Option Registry → (ℕ × Bool) × Option Registry
unfolding ban_now_tracked
ban_now order ip n none = ((0, false), none)
ban_now order ip n (some r) =
    let done = ban_now_tracked order n r (trackable r ip) in (done.0, some done.1)

-- ===== src/Abuse/Tests.antt =====
-- Runs of the registry on a first client, and the theorems at these runs.
use concert.Prelude.{
  ℕ, suc, ◌+◌, ◌*◌, ◌^◌, ◌≡◌, ◌≢◌, ◌≤◌, ◌<◌, refl, ap, Bool, true, false, Option, none, some, List,
  [], ◌∷◌, arith, min, if◌then◌else◌, ◌==◌, ◌∙◌, Bool-cases, inl, inr,
}
use concert.Abuse.Store.{entry-put}
use concert.Int64.{slt, NonNegative, max_int64}
use concert.Net.{Addr, v4, addr_eq}
use concert.Abuse.{AbuseParams, AbuseEntry, Registry, new_registry}
use concert.Abuse.Entries.{entry, put}
use concert.Abuse.Strikes.{cooldown, strike, strike_key, ban_now_key, BanNow}
use concert.Ranges.{range_banned}
use concert.Abuse.Admin.{
  banned_client, banned, ban_for, unban, unban_key, set_ban_key, sweep_entries, until_of,
}
use concert.Abuse.Shape.{IsShape}
use concert.Abuse.Keeps.{other_bans_stay}
use concert.Abuse.Reach.{struck, operates, here, next, Reach-IsShape}
use concert.Abuse.Cooldown.{IsSane, cooldown-eq-min, cooldown_wraps}
use concert.Abuse.Banned.{strike-banned, strike_key-exact}
use concert.Abuse.Lifts.{ban_for-banned, unban-banned, announced}
use concert.Abuse.Sweep.{banned-sweep}

abbrev second : ℕ
second = 1000000000

abbrev settings : AbuseParams
settings = record {
  threshold = 3;
  window = 10 * second;
  base = 60 * second;
  max = 3600 * second;
  max_entries = 2;
  exempt = [];
}

abbrev fresh : Registry
fresh = new_registry settings

abbrev client : Addr
client = v4 0xc0000201

abbrev other_client : Addr
other_client = v4 0xc6336405

abbrev noon : ℕ
noon = 43200 * second

abbrev got : Option Registry → Registry
got (some r) = r
got none = fresh

abbrev struck_thrice : Registry
struck_thrice = got (strike [] client 3 noon (some fresh)).1

abbrev client_entry : AbuseEntry
client_entry = record {
  strikes = 0;
  window_start = noon;
  banned_until = noon + 60 * second;
  offenses = 1;
}

struck_result : strike [] client 3 noon (some fresh) ≡ (true, some struck_thrice)
unfolding strike concert.Abuse.trackable concert.Net.is_valid concert.Net.unmap
    concert.Net.contains_addr concert.Net.abuse_key strike_key concert.Abuse.Entries.entry_locked
    entry concert.Prelude.Table.lookup concert.Abuse.Entries.create slt put concert.Int64.sub64
struck_result = refl

client_struck : entry client struck_thrice ≡ some client_entry
unfolding entry concert.Prelude.Table.lookup strike concert.Abuse.trackable concert.Net.is_valid
    concert.Net.unmap concert.Net.contains_addr concert.Net.abuse_key strike_key
    concert.Abuse.Entries.entry_locked concert.Abuse.Entries.create slt put concert.Int64.sub64
    concert.Abuse.notify_ban concert.Abuse.Strikes.ban_locked concert.Abuse.shard_of
    concert.Prelude.Table.insert concert.Net.addr_beq concert.Int64.add64 cooldown
client_struck = refl

client_is_kept : banned (some struck_thrice) client noon ≡ (60 * second, true)
unfolding banned concert.Net.abuse_key entry concert.Prelude.Table.lookup strike
    concert.Abuse.trackable concert.Net.contains_addr strike_key concert.Abuse.Entries.entry_locked
    concert.Abuse.Entries.create slt put concert.Int64.sub64 concert.Abuse.notify_ban
    concert.Abuse.Strikes.ban_locked concert.Abuse.shard_of concert.Prelude.Table.insert
    concert.Net.addr_beq concert.Int64.add64 cooldown
client_is_kept = refl

sane : IsSane settings
sane = record { positive = omega arith; ordered = omega arith; modest = omega arith }

Reach-IsShape_example : IsShape struck_thrice
Reach-IsShape_example = Reach-IsShape (
    next here (
      operates struck_thrice (struck [] client 3 noon struck_thrice (ap (λ x. x.1) struck_result))))

other_bans_stay_example :
    (entry client (strike_key [] other_client 3 noon struck_thrice).1 ≡ some client_entry)
    × (entry client (ban_now_key [] other_client noon struck_thrice).1 ≡ some client_entry)
    × (entry client (set_ban_key [] other_client second noon struck_thrice).1 ≡ some client_entry)
    × (entry client (unban_key struck_thrice (some other_client)).1 ≡ some client_entry)
other_bans_stay_example =
    other_bans_stay [] other_client client 3 second noon client_entry struck_thrice apart
      client_struck (unfold slt in refl)
  where
    number : Addr → ℕ
    number (v4 x) = x
    number a = 0

    apart : other_client ≢ client
    apart e = omega (arith, ap number e)

strike-banned_example : (banned (strike [] client 3 noon (some fresh)).1 client noon).1 ≡ true
strike-banned_example =
    strike-banned [] client 3 noon fresh (record { sane = sane; fits = omega arith })
      (ap (λ x. x.0) struck_result)

strike_key-exact_example :
    (strike_key [] client 3 noon fresh).0.0
    ≡ slt noon (until_of (entry client (strike_key [] client 3 noon fresh).1))
strike_key-exact_example =
    strike_key-exact [] client 3 noon fresh (record { sane = sane; fits = omega arith })

cooldown-eq-min_example : cooldown settings 4 ≡ min (60 * second * 2 ^ 3) (3600 * second)
cooldown-eq-min_example = cooldown-eq-min settings 3 sane

abbrev careless : AbuseParams
careless = record settings { base = 2 ^ 62; max = 2 ^ 62 }

cooldown_wraps_example : slt (cooldown careless 2) 0 ≡ true
cooldown_wraps_example = cooldown_wraps careless (omega arith) (omega arith) (omega arith)

banned_for_result :
    (ban_for [] client (5 * second) noon (some struck_thrice)).0 ≡ banned_client client
unfolding ban_for concert.Net.is_valid concert.Abuse.trackable concert.Net.unmap
    concert.Net.contains_addr strike concert.Net.abuse_key strike_key
    concert.Abuse.Entries.entry_locked entry concert.Prelude.Table.lookup
    concert.Abuse.Entries.create slt put concert.Int64.sub64 concert.Abuse.notify_ban
    concert.Abuse.Strikes.ban_locked set_ban_key concert.Abuse.shard_of concert.Prelude.Table.insert
    concert.Net.addr_beq concert.Int64.add64 cooldown
banned_for_result = refl

ban_for-banned_example :
    banned (ban_for [] client (5 * second) noon (some struck_thrice)).1 client noon
    ≡ announced (5 * second)
ban_for-banned_example =
    ban_for-banned [] client client (5 * second) noon struck_thrice (λ p. omega arith)
      banned_for_result

unban-banned_run :
    banned (unban client (some struck_thrice)).1 client noon
    ≡ range_banned struck_thrice client noon
unban-banned_run = unban-banned client noon struck_thrice (omega arith)

abbrev first_entry : AbuseEntry
first_entry = record { strikes = 0; window_start = noon; banned_until = 0; offenses = 0 }

abbrev seen : Registry
seen = put client first_entry fresh

client_alone : (k : Addr) → entry k struck_thrice ≡ entry k (put client client_entry seen)
unfolding put strike concert.Abuse.trackable concert.Net.is_valid concert.Net.unmap
    concert.Net.contains_addr concert.Net.abuse_key strike_key concert.Abuse.Entries.entry_locked
    entry concert.Abuse.shard_of concert.Prelude.Table.lookup concert.Abuse.Entries.create slt
    concert.Int64.sub64 concert.Abuse.notify_ban concert.Abuse.Strikes.ban_locked
    concert.Int64.add64 concert.Prelude.Table.insert concert.Net.addr_beq cooldown
client_alone k = refl

nobody_yet : (k : Addr) → entry k fresh ≡ none
unfolding entry concert.Prelude.Table.lookup
nobody_yet k = refl

one_client : (k : Addr) → entry k struck_thrice ≡ (if client == k then some client_entry else none)
one_client k =
    client_alone k
    ∙ entry-put client k client_entry seen
    ∙ rw (entry-put client k first_entry fresh) (by_key (client == k))
  where
    by_key :
        (t : Bool)
        → (if t then some client_entry else if t then some first_entry else entry k fresh)
          ≡ (if t then some client_entry else none)
    by_key true = refl
    by_key false = nobody_yet k

ends_nonnegative : (k : Addr) → NonNegative (until_of (entry k struck_thrice))
ends_nonnegative k =
    rw (one_client k)
      (elim (Bool-cases (client == k)) [ inl e ↦ rw e (omega arith) | inr e ↦ rw e (omega arith) ])

banned-sweep_example :
    banned (some (sweep_entries (noon + 61 * second) struck_thrice).1) client (noon + 62 * second)
    ≡ banned (some struck_thrice) client (noon + 62 * second)
banned-sweep_example =
    banned-sweep (noon + 61 * second) (noon + 62 * second) client struck_thrice shaped
      ends_nonnegative (omega arith) (omega arith)
  where
    shaped : IsShape struck_thrice
    shaped = Reach-IsShape (
        next here (
          operates struck_thrice
            (struck [] client 3 noon struck_thrice (ap (λ x. x.1) struck_result))))

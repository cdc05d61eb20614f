-- ===== src/Ranges/Tests.antt =====
-- A documentation network that is banned, and the theorems at this run.
use concert.Prelude.{◌≡◌, refl, ap, true, false, Option, none, some, [], ◌∷◌, arith}
use concert.Prelude.Table.{Table, lookup, IsMap}
use concert.Int64.{NonNegative, slt}
use concert.Net.{Addr, v4, Prefix, prefix_eq, contains, contains_addr, is_valid, unmap}
use concert.Abuse.{AbuseParams, RangeBan, Registry, new_registry}
use concert.Abuse.Shape.{IsShape}
use concert.Abuse.Reach.{here, next, operates, range_banned_for, Reach-IsShape}
use concert.Ranges.{BanError, ban_end, range_banned, ban_range, sweep_ranges, latest}
use concert.Ranges.Laws.{applies, NotLater, latest_bounds, Found, latest-Found}
use concert.Ranges.Answers.{range_banned-sweep_ranges, ban_range-banned}

abbrev settings : AbuseParams
settings = record {
  threshold = 3;
  window = 10;
  base = 60;
  max = 3600;
  max_entries = 2;
  exempt = [];
}

abbrev fresh : Registry
fresh = new_registry settings

abbrev network : Prefix
network = record { addr = v4 0xc0000200; bits_plus_one = 25 }

abbrev client : Addr
client = v4 0xc0000201

abbrev got : Option Registry → Registry
got (some r) = r
got none = fresh

abbrev one_range : Registry
one_range = got (ban_range network 1000 500 (some fresh)).1

ban_range_result : ban_range network 1000 500 (some fresh) ≡ (none, some one_range)
unfolding ban_range concert.Ranges.set_range lookup
ban_range_result = refl

one_range-IsShape : IsShape one_range
one_range-IsShape = Reach-IsShape (
    next here (
      operates one_range
        (range_banned_for network 1000 500 one_range (ap (λ x. x.1) ban_range_result))))

ban_range-banned_example : (range_banned one_range client 900).1 ≡ true
unfolding slt concert.Int64.add64 is_valid contains unmap contains_addr
ban_range-banned_example =
    ban_range-banned network 1000 500 900 client fresh one_range (Reach-IsShape here)
      ban_range_result (omega arith) later valid inside open_to_all
  where
    later : slt 900 (ban_end 1000 500) ≡ true
    later = refl

    valid : is_valid client ≡ true
    valid = refl

    inside : contains network (unmap client) ≡ true
    inside = refl

    open_to_all : contains_addr fresh.params.exempt (unmap client) ≡ false
    open_to_all = refl

abbrev swept : Registry
swept = got (sweep_ranges 700 (some one_range)).1

swept_result : (sweep_ranges 700 (some one_range)).1 ≡ some swept
unfolding sweep_ranges ban_range concert.Ranges.set_range lookup concert.Abuse.notify_ban slt
swept_result = refl

range_banned-sweep_ranges_example :
    range_banned swept client 900 ≡ range_banned one_range client 900
range_banned-sweep_ranges_example =
    range_banned-sweep_ranges 700 900 client one_range swept one_range-IsShape (omega arith)
      (omega arith) swept_result

abbrev two_ranges : Table Prefix RangeBan
two_ranges =
    (network, record { until = 1500; offenses = 1 })
    ∷ (record { addr = v4 0xc0000000; bits_plus_one = 17 }, record { until = 1200; offenses = 1 })
    ∷ []

latest_bounds_run : NotLater 1500 (latest 900 client 0 two_ranges)
unfolding lookup concert.Net.prefix_beq slt contains
latest_bounds_run =
    latest_bounds 900 client 0 two_ranges network (record { until = 1500; offenses = 1 }) first
      applied
  where
    first : lookup network two_ranges ≡ some (record { until = 1500; offenses = 1 })
    first = refl

    applied : applies 900 client network (record { until = 1500; offenses = 1 }) ≡ true
    applied = refl

two_ranges-IsMap : IsMap two_ranges
unfolding lookup concert.Net.prefix_beq
two_ranges-IsMap = (refl, (refl, tt))

latest-Found_run : Found 900 client 0 two_ranges (latest 900 client 0 two_ranges)
latest-Found_run = latest-Found 900 client 0 two_ranges two_ranges-IsMap

-- ===== src/Fastlane/Limits.antt =====
-- internal/fastlane/service.go: allow, the limit of wallet POSTs per client address and minute.
-- `rate_key` takes what netip makes of RemoteAddr. Times are nanoseconds.
pub mod Windows
pub mod Laws
use Prim.Native.String.{◌++◌ as join}
use concert.Prelude.{
  ℕ, ◌+◌, ◌-◌, ◌*◌, Bool, true, false, not, ◌&&◌, Option, none, some, List, [], ◌∷◌, String, ◌==◌,
  string_eq, ltb, leb, if◌then◌else◌, length,
}
use concert.Prelude.Table.{Table, lookup, insert, sweep}
use concert.Net.{Addr, Prefix, unmap, is_6, prefix_from, masked}
use concert.Fastlane.{second}

pub record RateWindow : Type 0 where
  pub start : ℕ
  pub n : ℕ

abbrev pub posts_per_minute : ℕ
posts_per_minute = 60

abbrev pub max_rate_entries : ℕ
max_rate_entries = 100000

abbrev pub minute : ℕ
minute = 60 * second

-- Reading and printing addresses, by net/netip.
pub record Names : Type 0 where
  pub addr_port : String → Option Addr
  pub addr : String → Option Addr
  pub addr_string : Addr → String
  pub prefix_string : Prefix → String

abbrev pub unported : Names → String → Option Addr → String
unported names remote none = remote
unported names remote (some ip) = names.addr_string (unmap ip)

abbrev pub by_block : Names → String → Option Addr → String
by_block names key none = key
by_block names key (some ip) =
    if is_6 (unmap ip) then names.prefix_string (masked (prefix_from ip 64)) else key

-- The key: an IPv4 address without its port, or the /64 of an IPv6 address.
unfoldable pub rate_key : Names → String → String
rate_key names remote =
    let key = unported names remote (names.addr_port remote) in by_block names key (names.addr key)

-- now.Sub(w.start) >= time.Minute
abbrev pub is_over : ℕ → String → RateWindow → Bool
is_over now key w = leb minute (now - w.start)

abbrev pub is_running : ℕ → String → Option RateWindow → Bool
is_running now key none = false
is_running now key (some w) = not (is_over now key w)

abbrev pub posts_of : Option RateWindow → ℕ
posts_of none = 0
posts_of (some w) = w.n

abbrev pub start_of : ℕ → Option RateWindow → ℕ
start_of now none = now
start_of now (some w) = w.start

-- w.n++; return w.n <= postsPerMinute
unfoldable pub count_post :
    String → ℕ → ℕ → Table String RateWindow → Bool × Table String RateWindow
count_post key start n limits =
    (leb (n + 1) posts_per_minute, insert key (record { start = start; n = n + 1 }) limits)

-- A first window: where the table is full, the windows that are over go.
unfoldable pub first_post : String → ℕ → Table String RateWindow → Bool × Table String RateWindow
unfolding count_post
first_post key now limits =
    if leb max_rate_entries (length limits)
    then (if leb max_rate_entries (length (sweep (is_over now) limits))
        then (false, sweep (is_over now) limits)
        else count_post key now 0 (sweep (is_over now) limits))
    else count_post key now 0 limits

unfoldable pub allow_found :
    String → ℕ → Table String RateWindow → Option RateWindow → Bool × Table String RateWindow
unfolding first_post
allow_found key now limits none = first_post key now limits
allow_found key now limits (some w) =
    if is_over now key w then count_post key now 0 limits else count_post key w.start w.n limits

-- allow, on the key of the address
unfoldable pub allow : String → ℕ → Table String RateWindow → Bool × Table String RateWindow
unfolding allow_found
allow key now limits = allow_found key now limits (lookup key limits)

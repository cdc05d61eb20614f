-- ===== src/Passes/Streams.antt =====
-- stream.go: streamGuard, which admits a stream's connection for as long as it lasts; router.go: what
-- gated does with the pass before it forwards a request. As in Guard.antt, the semaphore's answer is
-- an argument, and what the handler does with the slot is the list of its events.
pub mod Laws
use concert.Prelude.{
  ℕ, ◌+◌, Bool, true, false, not, Option, none, some, List, [], ◌∷◌, if◌then◌else◌, ◌==◌,
}
use concert.Bytes.{Crypto, bytes_eq}
use concert.Passes.{
  Admitter, PassStatus, is_pass_valid, is_pass_forged, zero_id, Cookie, Answer, refresh, check,
}
use concert.Passes.Guard.{strike_forged_pass}

-- The counters of streams.
pub record StreamStats : Type 0 where
  pub stream_denied : ℕ
  pub stream_throttled : ℕ
  pub stream_served : ℕ

pub data StreamEvent : Type 0 where
  takes_slot : StreamEvent
  connects : StreamEvent
  gives_slot : StreamEvent

-- The answer (none: the proxy's), the strike, whether it has Retry-After, the pass's cookie, the
-- counters, the events.
pub record StreamOutcome : Type 0 where
  pub status : Option ℕ
  pub strike : Option ℕ
  pub has_retry_after : Bool
  pub cookie : Option Cookie
  pub stats : StreamStats
  pub events : List StreamEvent

-- handle once the cookie is checked.
unfoldable pub handle_checked : Answer → Bool → StreamStats → StreamOutcome
handle_checked (id, status, cookie) has_slot stats =
    if not (is_pass_valid status)
    then record {
      status = some 403;
      strike = if is_pass_forged status then some strike_forged_pass else none;
      has_retry_after = false;
      cookie = cookie;
      stats = record stats { stream_denied = stats.stream_denied + 1 };
      events = [];
    }
    else if not has_slot
    then record {
      status = some 503;
      strike = none;
      has_retry_after = true;
      cookie = cookie;
      stats = record stats { stream_throttled = stats.stream_throttled + 1 };
      events = [];
    }
    else record {
      status = none;
      strike = none;
      has_retry_after = false;
      cookie = cookie;
      stats = record stats { stream_served = stats.stream_served + 1 };
      events = takes_slot ∷ connects ∷ gives_slot ∷ [];
    }

-- handle; `cookie` is the request's concert_admit.
unfoldable pub handle : Crypto → Admitter → Option (List ℕ) → ℕ → Bool → StreamStats → StreamOutcome
unfolding handle_checked
handle c a cookie now has_slot stats = handle_checked (check c a cookie now) has_slot stats

-- What gated does before it forwards: the strike, the pass id that the request carries, the cookie.
pub record Forwarded : Type 0 where
  pub strike : Option ℕ
  pub pass_id : Option (List ℕ)
  pub cookie : Option Cookie

unfoldable pub gated_refreshed : Answer → Forwarded
gated_refreshed (id, status, cookie) = record {
  strike = if is_pass_forged status then some strike_forged_pass else none;
  pass_id = if not (id == zero_id) then some id else none;
  cookie = cookie;
}

-- gated
unfoldable pub gated : Crypto → Admitter → Option (List ℕ) → Option (List ℕ) → ℕ → Forwarded
unfolding gated_refreshed
gated c a cookie random now = gated_refreshed (refresh c a cookie random now)

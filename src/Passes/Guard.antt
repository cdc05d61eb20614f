-- ===== src/Passes/Guard.antt =====
-- pass.go: assetGuard, which admits asset requests through the pass's own semaphore and then the
-- global one; const.go: its strike weights. What the semaphores answer is an argument; what the
-- handler does with them is the list of its events, deferred releases included.
pub mod Laws
use concert.Prelude.{
  ℕ, ◌+◌, ◌*◌, ◌/◌, ◌^◌, ◌<◌, ◌≡◌, ◌≢◌, refl, sym, ap, ◌∙◌, Bool, true, false, not, ◌&&◌, ◌||◌,
  Option, none, some, List, [], ◌∷◌, String, ◌==◌, ltb, leb, nat_beq, if◌then◌else◌, Bool-cases,
  inl, inr, arith, string_eq,
}
use concert.Bytes.{Crypto, IsCrypto}
use concert.Passes.{
  second, Admitter, AdmitOpts, configure, PassStatus, pass_missing, pass_valid, pass_expired,
  pass_stale, pass_forged, is_pass_valid, is_pass_forged, Verdict, refused, Cookie, Answer, mint,
  verify, check, slid,
}
use concert.Passes.Store.{Sem, UserStore, slot}

abbrev pub strike_forged_pass : ℕ
strike_forged_pass = 5

abbrev pub strike_user_throttle : ℕ
strike_user_throttle = 1

-- The counters of assets.
pub record AssetStats : Type 0 where
  pub asset_denied : ℕ
  pub asset_user_throttled : ℕ
  pub asset_global_throttled : ℕ
  pub asset_served : ℕ

pub data Event : Type 0 where
  takes : Sem → Event
  gives : Sem → Event
  takes_global : Event
  gives_global : Event
  proxies : Event

-- The answer (none: the proxy's), the strike, whether it has Retry-After, the pass's cookie, the
-- counters, the events.
pub record Outcome : Type 0 where
  pub status : Option ℕ
  pub strike : Option ℕ
  pub has_retry_after : Bool
  pub cookie : Option Cookie
  pub stats : AssetStats
  pub events : List Event

-- strings.HasPrefix
unfoldable pub has_prefix : List ℕ → List ℕ → Bool
has_prefix [] bs = true
has_prefix (p ∷ ps) [] = false
has_prefix (p ∷ ps) (b ∷ bs) = nat_beq p b && has_prefix ps bs

abbrev pub http_1 : List ℕ
http_1 = b'H' ∷ b'T' ∷ b'T' ∷ b'P' ∷ b'/' ∷ b'1' ∷ []

abbrev pub http_2 : List ℕ
http_2 = b'H' ∷ b'T' ∷ b'T' ∷ b'P' ∷ b'/' ∷ b'2' ∷ []

abbrev pub http_3 : List ℕ
http_3 = b'H' ∷ b'T' ∷ b'T' ∷ b'P' ∷ b'/' ∷ b'3' ∷ []

-- `v` is the value of the trusted header, `major` ProtoMajor.
unfoldable pub is_multiplexed : String → List ℕ → ℕ → Bool
unfolding has_prefix
is_multiplexed header v major =
    if not (header == "") && has_prefix http_1 v
    then false
    else if not (header == "") && (has_prefix http_2 v || has_prefix http_3 v)
    then true
    else leb 2 major

-- TryAcquire's answer, wait > 0, and AcquireWith's answer.
abbrev pub acquire : Bool → Bool → Bool → Bool
acquire at_once has_wait in_time = if at_once then true else if not has_wait then false else in_time

-- serve: `has_global` is what acquire returns for the global semaphore.
unfoldable pub serve : Bool → AssetStats → Outcome
serve has_global stats =
    if not has_global
    then record {
      status = some 503;
      strike = none;
      has_retry_after = true;
      cookie = none;
      stats = record stats { asset_global_throttled = stats.asset_global_throttled + 1 };
      events = [];
    }
    else record {
      status = none;
      strike = none;
      has_retry_after = false;
      cookie = none;
      stats = record stats { asset_served = stats.asset_served + 1 };
      events = takes_global ∷ proxies ∷ gives_global ∷ [];
    }

abbrev pub append_give : Sem → List Event → List Event
append_give s [] = gives s ∷ []
append_give s (e ∷ es) = e ∷ append_give s es

-- private once the pass's semaphore is found.
unfoldable pub private_of : Sem → Bool → Bool → AssetStats → Option Cookie → Outcome
unfolding serve
private_of sem has_user has_global stats cookie =
    if not has_user
    then record {
      status = some 429;
      strike = some strike_user_throttle;
      has_retry_after = true;
      cookie = cookie;
      stats = record stats { asset_user_throttled = stats.asset_user_throttled + 1 };
      events = [];
    }
    else record (serve has_global stats) {
      cookie = cookie;
      events = takes sem ∷ append_give sem (serve has_global stats).events;
    }

-- private once the cookie is checked.
unfoldable pub private_checked :
    UserStore → Answer → Bool → ℕ → Bool → Bool → AssetStats → Outcome × UserStore
unfolding private_of
private_checked s (id, status, cookie) multiplexed now has_user has_global stats =
    let found = slot s id multiplexed now in
    if not (is_pass_valid status)
    then (
      record {
        status = some 403;
        strike = if is_pass_forged status then some strike_forged_pass else none;
        has_retry_after = false;
        cookie = cookie;
        stats = record stats { asset_denied = stats.asset_denied + 1 };
        events = [];
      },
      s,
    )
    else (private_of found.0 has_user has_global stats cookie, found.1)

-- private; `cookie` is the request's concert_admit.
unfoldable pub private :
    Crypto
    → Admitter
    → UserStore
    → Option (List ℕ)
    → Bool
    → ℕ
    → Bool
    → Bool
    → AssetStats
    → Outcome × UserStore
unfolding private_checked
private c a s cookie multiplexed now has_user has_global stats =
    private_checked s (check c a cookie now) multiplexed now has_user has_global stats

-- public
unfoldable pub public : Bool → AssetStats → Outcome
unfolding serve
public has_global stats = serve has_global stats

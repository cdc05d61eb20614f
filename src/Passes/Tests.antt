-- ===== src/Passes/Tests.antt =====
-- Passes with a toy signature, the sum of the bytes, at concrete keys and times.
use concert.Prelude.{
  ℕ, ◌+◌, ◌*◌, ◌/◌, ◌≡◌, ◌≢◌, refl, ap, true, false, some, List, [], ◌∷◌, ltb, if◌then◌else◌, inr,
  arith, replicate,
}
use concert.Bytes.{IsBytes, Crypto, IsCrypto, bytes_eq}
use concert.Bytes.Toy.{toy, toy-IsCrypto, replicate-IsBytes, sum}
use concert.Passes.{
  second, Admitter, AdmitOpts, configure, new_admitter, pass_valid, pass_expired, is_pass_valid,
  refused, mint, verify, refresh,
}
use concert.Passes.Roundtrip.{IsAdmitter, new_admitter-IsAdmitter, IsPassId, verify-mint}
use concert.Passes.Soundness.{IsSigned, verify-IsSigned, IsPassOf, held, refresh-IsPassOf}
use concert.Passes.Store.{UserStore, new_user_store, slot, sweep_store}
use concert.Passes.Store.Counts.{slots, sweeps, created, next, IsCounted, Reach-IsCounted}
use concert.Passes.Store.Keeps.{used, spares, slot-same}
use concert.Passes.Guard.{AssetStats, private}
use concert.Passes.Streams.{StreamStats, handle, gated}
use concert.Passes.Streams.Laws.{mint-unstruck}
use concert.Passes.Guard.Laws.{is_struck, IsHandled, private-IsHandled}

abbrev opts : ℕ → AdmitOpts
opts ttl = record { ttl = ttl; path = "/"; domain = ""; is_secure = true }

abbrev hour : ℕ
hour = 3600 * second

abbrev admitter : Admitter
admitter = new_admitter toy (1 ∷ 2 ∷ []) (opts hour)

abbrev rotated : Admitter
rotated = new_admitter toy (4 ∷ []) (opts hour)

abbrev start : ℕ
start = 1700000000 * second

abbrev visitor : List ℕ
visitor = replicate 16 7

visitor-IsPassId : IsPassId visitor
visitor-IsPassId = record { id_length = refl; id_bytes = replicate-IsBytes 16 7 (omega arith) }

admitter-IsAdmitter : IsAdmitter admitter
admitter-IsAdmitter = new_admitter-IsAdmitter toy (1 ∷ 2 ∷ []) (opts hour) toy-IsCrypto

verify-mint_example :
    verify toy
      (configure admitter (opts (2 * hour)))
      (mint toy admitter visitor start)
      (start + hour)
    ≡ (if ltb (start + hour) ((start + hour) / second * second)
        then record { id = visitor; exp = some ((start + hour) / second); status = pass_valid }
        else refused pass_expired)
verify-mint_example =
    verify-mint toy admitter (opts (2 * hour)) visitor start (start + hour) toy-IsCrypto
      admitter-IsAdmitter visitor-IsPassId (omega arith) (omega arith)

fresh_pass-valid :
    is_pass_valid (verify toy admitter (mint toy admitter visitor start) start).status ≡ true
unfolding verify mint concert.Bytes.put_be concert.Bytes.bytes_beq sum concert.Bytes.get_be
fresh_pass-valid = refl

verify-IsSigned_example :
    IsSigned toy admitter
      (mint toy admitter visitor start)
      (verify toy admitter (mint toy admitter visitor start) start)
      start
verify-IsSigned_example =
    verify-IsSigned toy admitter (mint toy admitter visitor start) start fresh_pass-valid

refresh-IsPassOf_example :
    let answer = refresh toy admitter (some (9 ∷ [])) (some visitor) start in
    IsPassOf toy admitter start answer.0 (held (some (9 ∷ [])) answer.2)
refresh-IsPassOf_example =
    refresh-IsPassOf toy admitter (some (9 ∷ [])) visitor start toy-IsCrypto admitter-IsAdmitter
      visitor-IsPassId (omega arith) (omega arith)

abbrev empty_store : UserStore
empty_store = new_user_store 4 16

abbrev asked : UserStore
asked = (slot empty_store visitor true start).1

abbrev swept_once : UserStore
swept_once = (sweep_store asked (start + hour) (λ ref. 1)).1

Reach-IsCounted_run : IsCounted swept_once
Reach-IsCounted_run =
    Reach-IsCounted swept_once
      (next (next created (slots visitor true start)) (sweeps (start + hour) (λ ref. 1)))

slot-same_example :
    (slot swept_once visitor true (start + hour)).0 ≡ (slot empty_store visitor true start).0
slot-same_example =
    slot-same empty_store swept_once visitor true start (start + hour) created
      (spares (start + hour) (λ ref. 1) (λ e. absurd (omega (arith, e))) used)

abbrev stats : AssetStats
stats = record {
  asset_denied = 0;
  asset_user_throttled = 0;
  asset_global_throttled = 0;
  asset_served = 0;
}

kids_differ : admitter.kid ≢ rotated.kid
kids_differ e = absurd (omega (arith, ap sum e))

abbrev no_streams : StreamStats
no_streams = record { stream_denied = 0; stream_throttled = 0; stream_served = 0 }

mint-unstruck_example :
    (is_struck
        (private toy rotated empty_store
          (some (mint toy admitter visitor start))
          true
          start
          true
          true
          stats).0.strike
      ≡ false)
    × (is_struck
          (handle toy rotated (some (mint toy admitter visitor start)) start true no_streams).strike
        ≡ false)
    × (is_struck
          (gated toy rotated (some (mint toy admitter visitor start)) (some visitor) start).strike
        ≡ false)
mint-unstruck_example =
    mint-unstruck toy admitter rotated (opts hour) empty_store visitor true start start true true
      true (some visitor) stats no_streams toy-IsCrypto admitter-IsAdmitter visitor-IsPassId
      (omega arith) (omega arith) (inr kids_differ)

private-IsHandled_run :
    ((private toy admitter empty_store
          (some (mint toy admitter visitor start))
          true
          start
          true
          true
          stats).0.events
        ≢ []
      → IsSigned toy admitter
          (mint toy admitter visitor start)
          (verify toy admitter (mint toy admitter visitor start) start)
          start)
    × IsHandled
        (slot empty_store
          (verify toy admitter (mint toy admitter visitor start) start).id
          true
          start).0
        (private toy admitter empty_store
          (some (mint toy admitter visitor start))
          true
          start
          true
          true
          stats).0.events
private-IsHandled_run =
    private-IsHandled toy admitter empty_store (mint toy admitter visitor start) true start true
      true stats

-- ===== src/Passes/Streams/Laws.antt =====
-- On stream.go, router.go and assetGuard: who is struck for a forged pass.
use concert.Prelude.{
  ℕ, ◌+◌, ◌/◌, ◌^◌, ◌<◌, ◌≡◌, ◌≢◌, ◌⊎◌, refl, ap, ◌∙◌, Bool, true, false, Option, none, some, List,
  Bool-cases, inl, inr,
}
use concert.Bytes.{Crypto, IsCrypto}
use concert.Passes.{
  second, Admitter, AdmitOpts, configure, pass_missing, pass_valid, pass_expired, pass_stale,
  pass_forged, is_pass_valid, is_pass_forged, Answer, mint, verify, check, slid, refresh, renewed,
}
use concert.Passes.Roundtrip.{IsAdmitter, IsPassId}
use concert.Passes.Store.{UserStore}
use concert.Passes.Guard.{AssetStats, private}
use concert.Passes.Guard.Laws.{is_struck, mint-unforged, private-struck}
use concert.Passes.Streams.{StreamStats, handle_checked, handle, gated_refreshed, gated}

handle_checked-struck :
    (answer : Answer) (g : Bool) (stats : StreamStats)
    → is_struck (handle_checked answer g stats).strike ≡ is_pass_forged answer.1
unfolding handle_checked
handle_checked-struck (id, pass_valid, cookie) true stats = refl
handle_checked-struck (id, pass_valid, cookie) false stats = refl
handle_checked-struck (id, pass_missing, cookie) g stats = refl
handle_checked-struck (id, pass_expired, cookie) g stats = refl
handle_checked-struck (id, pass_stale, cookie) g stats = refl
handle_checked-struck (id, pass_forged, cookie) g stats = refl

handle-struck :
    (c : Crypto) (a : Admitter) (value : List ℕ) (now : ℕ) (g : Bool) (stats : StreamStats)
    → is_struck (handle c a (some value) now g stats).strike
      ≡ is_pass_forged (verify c a value now).status
unfolding handle check slid
handle-struck c a value now g stats = handle_checked-struck (check c a (some value) now) g stats

gated_refreshed-struck :
    (answer : Answer) → is_struck (gated_refreshed answer).strike ≡ is_pass_forged answer.1
unfolding gated_refreshed
gated_refreshed-struck (id, pass_valid, cookie) = refl
gated_refreshed-struck (id, pass_missing, cookie) = refl
gated_refreshed-struck (id, pass_expired, cookie) = refl
gated_refreshed-struck (id, pass_stale, cookie) = refl
gated_refreshed-struck (id, pass_forged, cookie) = refl

refresh-status :
    (c : Crypto) (a : Admitter) (value : List ℕ) (random : Option (List ℕ)) (now : ℕ)
    → (refresh c a (some value) random now).1 ≡ (verify c a value now).status
unfolding refresh slid
refresh-status c a value random now =
    elim (Bool-cases (is_pass_valid (verify c a value now).status)) [
      | inl e ↦ rw e
      | inr e ↦ rw e (kept (verify c a value now).status random)
    ]
  where
    kept : (s : _) (r : Option (List ℕ)) → (renewed c a now s r).1 ≡ s
    kept s none = unfold renewed in refl
    kept s (some id) = unfold renewed in refl

gated-struck :
    (c : Crypto) (a : Admitter) (value : List ℕ) (random : Option (List ℕ)) (now : ℕ)
    → is_struck (gated c a (some value) random now).strike
      ≡ is_pass_forged (verify c a value now).status
unfolding gated
gated-struck c a value random now =
    gated_refreshed-struck (refresh c a (some value) random now)
    ∙ ap is_pass_forged (refresh-status c a value random now)

-- A pass that some admitter made for an id of 16 bytes, the one that checks it (for times below 2^62
-- seconds) or one with another key id, brings its visitor no strike for a forged pass, neither on a
-- private asset nor on a stream nor on a page that gated forwards: not after its expiry, not after
-- other settings, and not after a restart with a new key.
pub mint-unstruck :
    (c : Crypto) (a b : Admitter) (o : AdmitOpts) (s : UserStore) (id : List ℕ) (m : Bool)
    (now later : ℕ) (u g f : Bool) (random : Option (List ℕ)) (assets : AssetStats)
    (streams : StreamStats)
    → IsCrypto c
    → IsAdmitter a
    → IsPassId id
    → later / second < 2 ^ 62
    → (now + a.opts.ttl) / second < 2 ^ 62
    → (b ≡ configure a o) ⊎ (a.kid ≢ b.kid)
    → (is_struck (private c b s (some (mint c a id now)) m later u g assets).0.strike ≡ false)
      × (is_struck (handle c b (some (mint c a id now)) later f streams).strike ≡ false)
      × (is_struck (gated c b (some (mint c a id now)) random later).strike ≡ false)
mint-unstruck c a b o s id m now later u g f random assets streams h k p small fits either =
    let honest = mint-unforged c a b o id now later h k p small fits either in
    (
      private-struck c b s (mint c a id now) m later u g assets ∙ honest,
      handle-struck c b (mint c a id now) later f streams ∙ honest,
      gated-struck c b (mint c a id now) random later ∙ honest,
    )

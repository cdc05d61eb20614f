-- ===== src/Passes/Guard/Laws.antt =====
-- On assetGuard: who is served, who is struck, and that every slot taken is given back.
use concert.Prelude.{
  ℕ, ◌+◌, ◌*◌, ◌/◌, ◌^◌, ◌<◌, ◌≡◌, ◌≢◌, ◌⊎◌, refl, ap, ◌∙◌, Bool, true, false, Option, none, some,
  List, [], ◌∷◌, ltb, nat_beq, if◌then◌else◌, inl, inr,
}
use concert.Bytes.{Crypto, IsCrypto}
use concert.Passes.{
  second, Admitter, AdmitOpts, configure, pass_missing, pass_valid, pass_expired, pass_stale,
  pass_forged, is_pass_valid, is_pass_forged, refused, Cookie, Answer, mint, verify, check, slid,
}
use concert.Passes.Roundtrip.{IsAdmitter, IsPassId, verify-mint, verify-mint_stale}
use concert.Passes.Soundness.{IsSigned, verify-IsSigned}
use concert.Passes.Store.{Sem, UserStore, slot}
use concert.Passes.Guard.{
  Event, takes, gives, takes_global, gives_global, proxies, AssetStats, serve, private_of,
  private_checked, private, append_give, strike_forged_pass,
}

-- The events of one request: no slot is taken, or every slot that is taken is given back.
pub data IsHandled (s : Sem) : List Event → Type 0 where
  untouched : IsHandled s []
  throttled : IsHandled s (takes s ∷ gives s ∷ [])
  served : IsHandled s (takes s ∷ takes_global ∷ proxies ∷ gives_global ∷ gives s ∷ [])

-- The strike is that of a forged pass.
abbrev pub is_struck : Option ℕ → Bool
is_struck none = false
is_struck (some weight) = nat_beq weight strike_forged_pass

serve_unstruck : (has_global : Bool) (stats : AssetStats) → (serve has_global stats).strike ≡ none
unfolding serve
serve_unstruck true stats = refl
serve_unstruck false stats = refl

private_of_unstruck :
    (s : Sem) (u g : Bool) (stats : AssetStats) (cookie : Option Cookie)
    → is_struck (private_of s u g stats cookie).strike ≡ false
unfolding private_of
private_of_unstruck s true g stats cookie = ap is_struck (serve_unstruck g stats)
private_of_unstruck s false g stats cookie = refl

-- The strike for a forged pass is exactly for that status.
private_checked-struck :
    (s : UserStore) (answer : Answer) (m : Bool) (now : ℕ) (u g : Bool) (stats : AssetStats)
    → is_struck (private_checked s answer m now u g stats).0.strike ≡ is_pass_forged answer.1
unfolding private_checked
private_checked-struck s (id, pass_valid, cookie) m now u g stats =
    private_of_unstruck (slot s id m now).0 u g stats cookie
private_checked-struck s (id, pass_missing, cookie) m now u g stats = refl
private_checked-struck s (id, pass_expired, cookie) m now u g stats = refl
private_checked-struck s (id, pass_stale, cookie) m now u g stats = refl
private_checked-struck s (id, pass_forged, cookie) m now u g stats = refl

pub private-struck :
    (c : Crypto) (a : Admitter) (s : UserStore) (value : List ℕ) (m : Bool) (now : ℕ) (u g : Bool)
    (stats : AssetStats)
    → is_struck (private c a s (some value) m now u g stats).0.strike
      ≡ is_pass_forged (verify c a value now).status
unfolding private check slid
private-struck c a s value m now u g stats =
    private_checked-struck s (check c a (some value) now) m now u g stats

-- A pass that some admitter made, the one that checks it or one with another key id, is not forged.
pub mint-unforged :
    (c : Crypto) (a b : Admitter) (o : AdmitOpts) (id : List ℕ) (now later : ℕ)
    → IsCrypto c
    → IsAdmitter a
    → IsPassId id
    → later / second < 2 ^ 62
    → (now + a.opts.ttl) / second < 2 ^ 62
    → (b ≡ configure a o) ⊎ (a.kid ≢ b.kid)
    → is_pass_forged (verify c b (mint c a id now) later).status ≡ false
mint-unforged c a b o id now later h k p small fits (inr n) =
    ap (λ v. is_pass_forged v.status) (verify-mint_stale c a b id now later h k p n)
mint-unforged c a b o id now later h k p small fits (inl e) =
    ap (λ x. is_pass_forged (verify c x (mint c a id now) later).status) e
    ∙ ap (λ v. is_pass_forged v.status) (verify-mint c a o id now later h k p small fits)
    ∙ unforged (ltb later ((now + a.opts.ttl) / second * second))
  where
    unforged :
        (t : Bool)
        → is_pass_forged
            (if t
              then record { id = id; exp = some ((now + a.opts.ttl) / second); status = pass_valid }
              else refused pass_expired).status
          ≡ false
    unforged true = refl
    unforged false = refl

serve-IsHandled :
    (sem : Sem) (g : Bool) (stats : AssetStats)
    → IsHandled sem (takes sem ∷ append_give sem (serve g stats).events)
unfolding serve
serve-IsHandled sem true stats = served
serve-IsHandled sem false stats = throttled

private_checked-served :
    (s : UserStore) (answer : Answer) (m : Bool) (now : ℕ) (u g : Bool) (stats : AssetStats)
    → ((private_checked s answer m now u g stats).0.events ≢ [] → is_pass_valid answer.1 ≡ true)
      × IsHandled (slot s answer.0 m now).0 (private_checked s answer m now u g stats).0.events
unfolding private_checked private_of
private_checked-served s (id, pass_valid, cookie) m now true g stats =
    (λ n. refl, serve-IsHandled (slot s id m now).0 g stats)
private_checked-served s (id, pass_valid, cookie) m now false g stats = (λ n. refl, untouched)
private_checked-served s (id, pass_missing, cookie) m now u g stats =
    (λ n. absurd (n refl), untouched)
private_checked-served s (id, pass_expired, cookie) m now u g stats =
    (λ n. absurd (n refl), untouched)
private_checked-served s (id, pass_stale, cookie) m now u g stats =
    (λ n. absurd (n refl), untouched)
private_checked-served s (id, pass_forged, cookie) m now u g stats =
    (λ n. absurd (n refl), untouched)

-- A private asset's request: a slot is taken, of the pass's semaphore or the global one, only if the
-- cookie is signed by the admitter and runs; the events are none, the pass's slot taken and given
-- back, or the pass's slot, then the global one, the proxy, and both given back in reverse order.
pub private-IsHandled :
    (c : Crypto) (a : Admitter) (s : UserStore) (value : List ℕ) (m : Bool) (now : ℕ) (u g : Bool)
    (stats : AssetStats)
    → ((private c a s (some value) m now u g stats).0.events ≢ []
        → IsSigned c a value (verify c a value now) now)
      × IsHandled
          (slot s (verify c a value now).id m now).0
          (private c a s (some value) m now u g stats).0.events
unfolding private check slid
private-IsHandled c a s value m now u g stats =
    let p = private_checked-served s (check c a (some value) now) m now u g stats in
    (λ n. verify-IsSigned c a value now (p.0 n), p.1)

-- ===== src/Abuse/Banned.antt =====
-- On abuse.go: what `banned` answers after a strike.
use concert.Prelude.{
  ℕ, suc, ◌+◌, ◌^◌, ◌/◌, ◌<◌, ◌≡◌, refl, sym, ap, ◌∙◌, Bool, true, false, Option, none, some, List,
  arith, ltb, nat_beq, if◌then◌else◌, ==_refl, inl, inr, Bool-cases, lt→ltb, le→ltb,
}
use mathlib.Core.Path.{subst}
use concert.Int64.{add64, sub64, slt, NonNegative, slt_nonneg, add64_exact, max_int64}
use concert.Net.{Addr, Prefix, addr_eq, key_prefix, unmap, abuse_key, invalid, v4, v6}
use concert.Abuse.{AbuseEntry, AbuseParams, Registry, ban_forever, notify_ban, trackable}
use concert.Abuse.Entries.{entry, entry_locked}
use concert.Abuse.Strikes.{
  cooldown, banned_entry, ban_locked, in_window, add_strikes, strike_entry, strike_key,
  strike_tracked, strike,
}
use concert.Abuse.Admin.{until_of, banned_left, banned}
use concert.Abuse.Store.{entry-put_self, params-entry_locked, entry-entry_locked}
use concert.Abuse.Keeps.{entry-ban_locked}
use concert.Abuse.Cooldown.{IsSane, cooldown_bounds}

-- An end after `n` leaves a positive time.
positive_left : (n u : ℕ) → NonNegative n → slt n u ≡ true → slt 0 (sub64 u n) ≡ true
unfolding slt sub64
positive_left n u h e = ground arith

-- A client whose recorded ban ends after `n` is banned at `n`, whatever the ranges.
banned_left-true :
    (r : Registry) (ip : Addr) (n u : ℕ)
    → NonNegative n
    → slt n u ≡ true
    → (banned_left r ip n u).1 ≡ true
unfolding banned_left
banned_left-true r ip n u h e = elim (Bool-cases (nat_beq u ban_forever)) [
  | inl f ↦ rw f
  | inr f ↦ rw f (rw (positive_left n u h e))
]

unmap-unmap : (ip : Addr) → unmap (unmap ip) ≡ unmap ip
unfolding unmap
unmap-unmap invalid = refl
unmap-unmap (v4 n) = refl
unmap-unmap (v6 n z) = elim (Bool-cases (nat_beq (n / 2 ^ 32) 0xffff)) [
  | inl e ↦ rw e
  | inr e ↦ rw e (rw e)
]

abuse_key-unmap : (ip : Addr) → abuse_key (unmap ip) ≡ abuse_key ip
unfolding abuse_key
abuse_key-unmap ip = rw (unmap-unmap ip)

-- The key that a client is tracked by is the one that its bans are looked up by.
pub trackable-abuse_key :
    (r : Registry) (ip k : Addr) → trackable r ip ≡ some k → abuse_key ip ≡ some k
trackable-abuse_key r ip k e = sym (abuse_key-unmap ip) ∙ by_test r ip k e
  where
    by_test : (r : Registry) (ip k : Addr) → trackable r ip ≡ some k → abuse_key (unmap ip) ≡ some k
    by_test r ip k e = unfold trackable in ground arith

pub banned-eq :
    (r : Registry) (ip k : Addr) (n : ℕ)
    → abuse_key ip ≡ some k
    → banned (some r) ip n ≡ banned_left r ip n (until_of (entry k r))
unfolding banned
banned-eq r ip k n e = rw e

-- The settings are sane, and the clock is far enough from the end of the int64 range that the
-- longest ban ends before the value that stands for a permanent one.
pub record InTime (p : AbuseParams) (n : ℕ) : Type 0 where
  pub sane : IsSane p
  pub fits : n + p.max < max_int64

ends_later :
    (p : AbuseParams) (n k : ℕ)
    → InTime p n
    → (add64 n (cooldown p (k + 1)) ≡ n + cooldown p (k + 1))
      × (slt n (add64 n (cooldown p (k + 1))) ≡ true)
ends_later p n k t =
    let b = cooldown_bounds p k t.sane in
    let f = t.fits in
    let same : cooldown p (k + 1) ≡ cooldown p (suc k) = ap (cooldown p) (omega arith) in
    let exact = add64_exact n (cooldown p (k + 1)) (omega (arith, same, b.0, b.1)) in
    (
      exact,
      rw exact (
          slt_nonneg n (n + cooldown p (k + 1)) (omega arith) (omega (arith, same, b.0, b.1))
          ∙ lt→ltb n (n + cooldown p (k + 1)) (omega (arith, same, b.0, b.1))),
    )

entry-ban_locked_self :
    (k : Addr) (e : AbuseEntry) (n : ℕ) (r : Registry)
    → entry k (ban_locked k e n r).1 ≡ some (banned_entry e n (cooldown r.params (e.offenses + 1)))
entry-ban_locked_self k e n r = rw (entry-ban_locked k k e n r) (rw (==_refl k))

in_window-until :
    (p : AbuseParams) (n : ℕ) (e : AbuseEntry) → (in_window p n e).banned_until ≡ e.banned_until
in_window-until p n e = elim (Bool-cases (slt p.window (sub64 n e.window_start))) [
  | inl b ↦ rw b
  | inr b ↦ rw b
]

add_strikes-exact :
    (k : Addr) (weight n : ℕ) (e : AbuseEntry) (r : Registry)
    → InTime r.params n
    → slt n e.banned_until ≡ false
    → (add_strikes k weight n e r).0.0 ≡ slt n (until_of (entry k (add_strikes k weight n e r).1))
unfolding add_strikes
add_strikes-exact k weight n e r t b =
    elim (Bool-cases (ltb (e.strikes + weight) r.params.threshold)) [
      | inl c ↦
          let e' = record e { strikes = e.strikes + weight } in
          rw c (sym (ap (λ o. slt n (until_of o)) (entry-put_self k e' r) ∙ b))
      | inr c ↦
          let e' = record e { strikes = e.strikes + weight } in
          rw c (
            sym (
              ap (λ o. slt n (until_of o)) (entry-ban_locked_self k e' n r)
              ∙ (ends_later r.params n e.offenses t).1))
    ]

strike_entry-exact :
    (k : Addr) (weight n : ℕ) (o : Option AbuseEntry) (r : Registry)
    → InTime r.params n
    → entry k r ≡ o
    → (strike_entry k weight n (o, r)).0.0
      ≡ slt n (until_of (entry k (strike_entry k weight n (o, r)).1))
unfolding strike_entry
strike_entry-exact k weight n none r t p =
    sym (ap (λ x. slt n (until_of x)) p ∙ never n (omega (arith, t.fits)))
  where
    never : (m : ℕ) → NonNegative m → slt m 0 ≡ false
    never m h = slt_nonneg m 0 h (omega arith) ∙ le→ltb m 0 (omega arith)
strike_entry-exact k weight n (some e) r t p = elim (Bool-cases (slt n e.banned_until)) [
  | inl b ↦ rw b (sym (ap (λ x. slt n (until_of x)) p ∙ b))
  | inr b ↦ rw b (
      add_strikes-exact k weight n (in_window r.params n e) r t
        (rw (in_window-until r.params n e) b))
]

-- With sane settings, and a clock far enough from the int64 limit: strikeKey reports a client as
-- banned exactly when the ban recorded for it afterwards ends after the strike. That holds for a
-- ban already in force, a new one, a strike below the threshold, and a registry that is full.
pub strike_key-exact :
    (order : List Addr) (k : Addr) (weight n : ℕ) (r : Registry)
    → InTime r.params n
    → (strike_key order k weight n r).0.0
      ≡ slt n (until_of (entry k (strike_key order k weight n r).1))
unfolding strike_key
strike_key-exact order k weight n r t =
    let done = entry_locked order k n r in
    strike_entry-exact k weight n done.0 done.1
      (subst (λ p. InTime p n) (sym (params-entry_locked order k n r)) t)
      (entry-entry_locked order k n r)

abbrev WasBanned : Option Registry → Addr → ℕ → Type 0
WasBanned o ip n = (banned o ip n).1 ≡ true

entry-notified :
    (b : Bool) (p : Prefix) (k : Addr) (r : Registry)
    → entry k (if b then notify_ban p r else r) ≡ entry k r
unfolding entry notify_ban
entry-notified true p k r = refl
entry-notified false p k r = refl

banned_by_record :
    (r : Registry) (ip k : Addr) (n : ℕ)
    → NonNegative n
    → abuse_key ip ≡ some k
    → slt n (until_of (entry k r)) ≡ true
    → WasBanned (some r) ip n
banned_by_record r ip k n h e b =
    ap (λ x. x.1) (banned-eq r ip k n e) ∙ banned_left-true r ip n (until_of (entry k r)) h b

strike_tracked-banned :
    (order : List Addr) (ip : Addr) (weight n : ℕ) (r : Registry) (o : Option Addr)
    → InTime r.params n
    → trackable r ip ≡ o
    → (strike_tracked order weight n r o).0 ≡ true
    → WasBanned (some (strike_tracked order weight n r o).1) ip n
unfolding strike_tracked
strike_tracked-banned order ip weight n r none t e b = absurd (cc)
strike_tracked-banned order ip weight n r (some k) t e b =
    let counted = record r {
      stats = record r.stats { abuse_strikes = r.stats.abuse_strikes + 1 };
    } in
    let done = strike_key order k weight n counted in
    banned_by_record (if done.0.1 then notify_ban (key_prefix k) done.1 else done.1) ip k n
      (omega (arith, t.fits)) (trackable-abuse_key r ip k e)
      (ap (λ x. slt n (until_of x)) (entry-notified done.0.1 (key_prefix k) k done.1)
        ∙ sym (strike_key-exact order k weight n counted t)
        ∙ b)

-- With sane settings, and a clock far enough from the int64 limit: when a strike reports that the
-- client is now banned, a look at the registry at the same moment finds it banned.
pub strike-banned :
    (order : List Addr) (ip : Addr) (weight n : ℕ) (r : Registry)
    → InTime r.params n
    → (strike order ip weight n (some r)).0 ≡ true
    → (banned (strike order ip weight n (some r)).1 ip n).1 ≡ true
unfolding strike
strike-banned order ip weight n r t = elim (Bool-cases (nat_beq weight 0)) [
  | inl z ↦ rw z (λ b. absurd (cc))
  | inr z ↦ rw z (strike_tracked-banned order ip weight n r (trackable r ip) t refl)
]

-- ===== src/Abuse/Keeps.antt =====
-- On abuse.go: what an operation on one client does to the others.
use concert.Prelude.{
  ℕ, ◌+◌, ◌≡◌, ◌≢◌, refl, ◌∙◌, true, false, Option, none, some, List, arith, if◌then◌else◌, ◌==◌,
  ==_iff, inl, inr, Bool-cases, ltb, nat_beq,
}
use concert.Int64.{slt}
use concert.Net.{Addr, addr_eq}
use concert.Abuse.{AbuseEntry, Registry, ban_forever, shard_of}
use concert.Abuse.Entries.{entry, put, forget, entry_locked}
use concert.Abuse.Strikes.{
  cooldown, banned_entry, ban_locked, in_window, add_strikes, strike_entry, strike_key, ban_entry,
  ban_now_key,
}
use concert.Abuse.Admin.{set_ban_entry, set_ban_key, unban_entry, unban_key}
use concert.Abuse.Store.{entry-put, entry-forget_ne, entry_locked_other}

pub entry-ban_locked :
    (k j : Addr) (e : AbuseEntry) (n : ℕ) (r : Registry)
    → entry j (ban_locked k e n r).1
      ≡ (if k == j then some (banned_entry e n (cooldown r.params (e.offenses + 1))) else entry j r)
unfolding ban_locked put entry
entry-ban_locked k j e n r = entry-put k j (banned_entry e n (cooldown r.params (e.offenses + 1))) r

module _ (k j : Addr) (ne : k ≢ j) where
  differs : (k == j) ≡ false
  differs = ground (arith, ==_iff k j)

  put_other : (e : AbuseEntry) (r : Registry) → entry j (put k e r) ≡ entry j r
  put_other e r = rw (entry-put k j e r) (rw differs)

  ban_locked_other :
      (e : AbuseEntry) (n : ℕ) (r : Registry) → entry j (ban_locked k e n r).1 ≡ entry j r
  ban_locked_other e n r = rw (entry-ban_locked k j e n r) (rw differs)

  add_strikes_other :
      (weight n : ℕ) (e : AbuseEntry) (r : Registry)
      → entry j (add_strikes k weight n e r).1 ≡ entry j r
  unfolding add_strikes
  add_strikes_other weight n e r = elim (Bool-cases (ltb (e.strikes + weight) r.params.threshold)) [
    | inl b ↦ rw b (put_other (record e { strikes = e.strikes + weight }) r)
    | inr b ↦ rw b (ban_locked_other (record e { strikes = e.strikes + weight }) n r)
  ]

  strike_entry_other :
      (weight n : ℕ) (o : Option AbuseEntry) (r : Registry)
      → entry j (strike_entry k weight n (o, r)).1 ≡ entry j r
  unfolding strike_entry
  strike_entry_other weight n none r = refl
  strike_entry_other weight n (some e) r = elim (Bool-cases (slt n e.banned_until)) [
    | inl b ↦ rw b
    | inr b ↦ rw b (add_strikes_other weight n (in_window r.params n e) r)
  ]

  ban_entry_other :
      (n : ℕ) (o : Option AbuseEntry) (r : Registry) → entry j (ban_entry k n (o, r)).1 ≡ entry j r
  unfolding ban_entry
  ban_entry_other n none r = refl
  ban_entry_other n (some e) r = elim (Bool-cases (nat_beq e.banned_until ban_forever)) [
    | inl b ↦ rw b
    | inr b ↦ rw b (elim (Bool-cases (slt n e.banned_until)) [
      | inl c ↦ rw c
      | inr c ↦ rw c (ban_locked_other e n r)
    ])
  ]

  set_ban_entry_other :
      (d n : ℕ) (o : Option AbuseEntry) (r : Registry)
      → entry j (set_ban_entry k d n (o, r)).1 ≡ entry j r
  unfolding set_ban_entry put entry
  set_ban_entry_other d n none r = refl
  set_ban_entry_other d n (some e) r = elim (Bool-cases (slt n e.banned_until)) [
    | inl c ↦ rw c (put_other _ r)
    | inr c ↦ rw c (put_other _ r)
  ]

  unban_entry_other :
      (o : Option AbuseEntry) (r : Registry) → entry j (unban_entry k r o).1 ≡ entry j r
  unfolding unban_entry
  unban_entry_other none r = refl
  unban_entry_other (some e) r =
      same (forget (shard_of k) k r) ∙ entry-forget_ne (shard_of k) k j r ne
    where
      same : (u : Registry) → entry j (record u { dirty = true }) ≡ entry j u
      same u = unfold entry in refl

-- Whatever a strike, a ban path, or an administrator's ban or lift does to one client, evictions
-- included, and in whatever order Go ranges over the shard: a ban in force on another client stays
-- as it is.
pub other_bans_stay :
    (order : List Addr) (k j : Addr) (weight d n : ℕ) (e : AbuseEntry) (r : Registry)
    → k ≢ j
    → entry j r ≡ some e
    → slt n e.banned_until ≡ true
    → (entry j (strike_key order k weight n r).1 ≡ some e)
      × (entry j (ban_now_key order k n r).1 ≡ some e)
      × (entry j (set_ban_key order k d n r).1 ≡ some e)
      × (entry j (unban_key r (some k)).1 ≡ some e)
unfolding strike_key ban_now_key set_ban_key unban_key
other_bans_stay order k j weight d n e r ne p b =
    let done = entry_locked order k n r in
    let stays = entry_locked_other order k j n e r ne p b in
    (
      strike_entry_other k j ne weight n done.0 done.1 ∙ stays,
      ban_entry_other k j ne n done.0 done.1 ∙ stays,
      set_ban_entry_other k j ne d n done.0 done.1 ∙ stays,
      unban_entry_other k j ne (entry k r) r ∙ p,
    )

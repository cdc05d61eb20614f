-- ===== src/Abuse/Steps.antt =====
-- On abuse.go: the counts under every operation on a client.
use concert.Prelude.{
  ℕ, ◌+◌, ◌≡◌, ◌≢◌, refl, sym, ◌∙◌, Bool, true, Option, none, some, List, nat_beq, ltb, ==_refl,
  inl, inr, Bool-cases,
}
use mathlib.Core.Path.{subst}
use concert.Prelude.Table.{lookup}
use concert.Int64.{slt}
use concert.Net.{Addr, Prefix, addr_eq}
use concert.Abuse.{AbuseEntry, Registry, Counters, ban_forever, shard_of}
use concert.Abuse.Entries.{entry, put, forget, is_unbanned, new_entry, create, entry_locked}
use concert.Abuse.Strikes.{
  count_ban, banned_entry, cooldown, ban_locked, in_window, add_strikes, strike_entry, strike_key,
  ban_entry, ban_now_key,
}
use concert.Ranges.{ban_end}
use concert.Abuse.Admin.{set_ban_entry, set_ban_key}
use concert.Abuse.Store.{
  Located, found, created, evicted, full, entry_locked-Located, shard_of-lt, entry-create,
  entry-forget_ne,
}
use concert.Abuse.Shape.{IsCounted, put-IsCounted, create-IsCounted, forget-IsCounted}

-- The registry with other statistics and another record of what was dropped.
pub noted-IsCounted :
    {q : ℕ} (r : Registry) (c : Counters) (ps : List Prefix) (d : Bool)
    → IsCounted q r
    → IsCounted q (record r { stats = c; dropped_prefixes = ps; dirty = d })
noted-IsCounted r c ps d v = record {
  maps = v.maps;
  counted = v.counted;
  range_map = v.range_map;
  mirrored = v.mirrored;
}

none_apart : {x : AbuseEntry} → none ≡ some x → ⊥
none_apart h = cc

victim_there :
    (now : ℕ) (v : Addr) (o : Option AbuseEntry)
    → is_unbanned now o ≡ true
    → (e : AbuseEntry) × (o ≡ some e)
victim_there now v none u = absurd (cc)
victim_there now v (some e) u = (e, refl)

absent_ne :
    (k v : Addr) (e : AbuseEntry) (r : Registry)
    → entry k r ≡ none
    → lookup v (r.shards (shard_of k)) ≡ some e
    → v ≢ k
unfolding entry
absent_ne k v e r p q s = none_apart (sym p ∙ rw s at q)

-- What entryLocked returns is in the table, and the counts are right.
pub record IsLocated (q : ℕ) (k : Addr) (o : Option AbuseEntry) (r : Registry) : Type 0 where
  pub shape : IsCounted q r
  pub there : (e : AbuseEntry) → o ≡ some e → entry k r ≡ some e

created-IsLocated :
    {q : ℕ} (k : Addr) (now : ℕ) (r : Registry)
    → entry k r ≡ none
    → IsCounted q r
    → IsLocated q k (create k now r).0 (create k now r).1
created-IsLocated k now r p v = record {
  shape = create-IsCounted k now r p v;
  there = λ e q. entry-create k k now r ∙ rw (==_refl k) (sym (made now) ∙ q);
}
  where
    made : (n : ℕ) → (create k n r).0 ≡ some (new_entry n)
    made n = unfold create in refl

pub entry_locked-IsLocated :
    {q : ℕ} (order : List Addr) (k : Addr) (now : ℕ) (r : Registry)
    → IsCounted q r
    → IsLocated q k (entry_locked order k now r).0 (entry_locked order k now r).1
entry_locked-IsLocated {q} order k now r v =
    by_case (entry_locked order k now r) (entry_locked-Located order k now r)
  where
    by_case :
        (done : Option AbuseEntry × Registry) → Located k now r done → IsLocated q k done.0 done.1
    by_case done (found e p d) =
        subst (λ z. IsLocated q k z.0 z.1) (sym d) (record { shape = v; there = λ e' s. p ∙ s })
    by_case done (created p d) =
        subst (λ z. IsLocated q k z.0 z.1) (sym d) (created-IsLocated k now r p v)
    by_case done (evicted w x u c d) =
        let (e, p) = victim_there now w (lookup w (r.shards (shard_of k))) u in
        subst (λ z. IsLocated q k z.0 z.1) (sym d)
          (created-IsLocated k now (forget (shard_of k) w r)
            (entry-forget_ne (shard_of k) w k r (absent_ne k w e r x p) ∙ x)
            (forget-IsCounted (shard_of k) w e r (shard_of-lt k) p v))
    by_case done (full p d) =
        subst (λ z. IsLocated q k z.0 z.1) (sym d)
          (record {
            shape = noted-IsCounted r _ r.dropped_prefixes r.dirty v;
            there = λ e s. absurd (none_apart s);
          })

ban_locked-IsCounted :
    {q : ℕ} (k : Addr) (e old : AbuseEntry) (n : ℕ) (r : Registry)
    → entry k r ≡ some old
    → IsCounted q r
    → IsCounted q (ban_locked k e n r).1
unfolding ban_locked
ban_locked-IsCounted k e old n r p v =
    let done = put k (banned_entry e n (cooldown r.params (e.offenses + 1))) r in
    noted-IsCounted done (count_ban done).stats done.dropped_prefixes done.dirty
      (put-IsCounted k _ old r p v)

add_strikes-IsCounted :
    {q : ℕ} (k : Addr) (weight n : ℕ) (e old : AbuseEntry) (r : Registry)
    → entry k r ≡ some old
    → IsCounted q r
    → IsCounted q (add_strikes k weight n e r).1
unfolding add_strikes
add_strikes-IsCounted k weight n e old r p v =
    elim (Bool-cases (ltb (e.strikes + weight) r.params.threshold)) [
      | inl b ↦ rw b (put-IsCounted k (record e { strikes = e.strikes + weight }) old r p v)
      | inr b ↦
          rw b (ban_locked-IsCounted k (record e { strikes = e.strikes + weight }) old n r p v)
    ]

strike_entry-IsCounted :
    {q : ℕ} (k : Addr) (weight n : ℕ) (o : Option AbuseEntry) (r : Registry)
    → IsLocated q k o r
    → IsCounted q (strike_entry k weight n (o, r)).1
unfolding strike_entry
strike_entry-IsCounted k weight n none r l = l.shape
strike_entry-IsCounted k weight n (some e) r l = elim (Bool-cases (slt n e.banned_until)) [
  | inl b ↦ rw b l.shape
  | inr b ↦
      rw b (add_strikes-IsCounted k weight n (in_window r.params n e) e r (l.there e refl) l.shape)
]

pub strike_key-IsCounted :
    {q : ℕ} (order : List Addr) (k : Addr) (weight n : ℕ) (r : Registry)
    → IsCounted q r
    → IsCounted q (strike_key order k weight n r).1
unfolding strike_key
strike_key-IsCounted order k weight n r v =
    let done = entry_locked order k n r in
    strike_entry-IsCounted k weight n done.0 done.1 (entry_locked-IsLocated order k n r v)

ban_entry-IsCounted :
    {q : ℕ} (k : Addr) (n : ℕ) (o : Option AbuseEntry) (r : Registry)
    → IsLocated q k o r
    → IsCounted q (ban_entry k n (o, r)).1
unfolding ban_entry
ban_entry-IsCounted k n none r l = l.shape
ban_entry-IsCounted k n (some e) r l = elim (Bool-cases (nat_beq e.banned_until ban_forever)) [
  | inl b ↦ rw b l.shape
  | inr b ↦ rw b (elim (Bool-cases (slt n e.banned_until)) [
    | inl c ↦ rw c l.shape
    | inr c ↦ rw c (ban_locked-IsCounted k e e n r (l.there e refl) l.shape)
  ])
]

pub ban_now_key-IsCounted :
    {q : ℕ} (order : List Addr) (k : Addr) (n : ℕ) (r : Registry)
    → IsCounted q r
    → IsCounted q (ban_now_key order k n r).1
unfolding ban_now_key
ban_now_key-IsCounted order k n r v =
    let done = entry_locked order k n r in
    ban_entry-IsCounted k n done.0 done.1 (entry_locked-IsLocated order k n r v)

set_ban_entry-IsCounted :
    {q : ℕ} (k : Addr) (d n : ℕ) (o : Option AbuseEntry) (r : Registry)
    → IsLocated q k o r
    → IsCounted q (set_ban_entry k d n (o, r)).1
unfolding set_ban_entry
set_ban_entry-IsCounted k d n none r l = l.shape
set_ban_entry-IsCounted k d n (some e) r l = elim (Bool-cases (slt n e.banned_until)) [
  | inl c ↦ rw c (put-IsCounted k _ e r (l.there e refl) l.shape)
  | inr c ↦ rw c (
      let done =
        put k
          (record {
            strikes = 0;
            window_start = n;
            banned_until = ban_end d n;
            offenses = e.offenses + 1;
          })
          r in
      noted-IsCounted done (count_ban done).stats done.dropped_prefixes done.dirty
        (put-IsCounted k _ e r (l.there e refl) l.shape))
]

pub set_ban_key-IsCounted :
    {q : ℕ} (order : List Addr) (k : Addr) (d n : ℕ) (r : Registry)
    → IsCounted q r
    → IsCounted q (set_ban_key order k d n r).1
unfolding set_ban_key
set_ban_key-IsCounted order k d n r v =
    let done = entry_locked order k n r in
    set_ban_entry-IsCounted k d n done.0 done.1 (entry_locked-IsLocated order k n r v)

-- ===== src/Abuse/Lifts.antt =====
-- On abuse.go: what `banned` answers after an administrator's ban, and after a lift.
use concert.Prelude.{
  ℕ, ◌+◌, ◌-◌, ◌^◌, ◌<◌, ◌≡◌, refl, sym, ap, ◌∙◌, Bool, true, false, Option, none, some, List,
  arith, nat_beq, if◌then◌else◌, ==_refl, inl, inr, Bool-cases, lt→ltb, le→ltb, ◌/◌,
}
use concert.Int64.{
  add64, slt, NonNegative, slt_nonneg, add64_exact, sub64_exact, max_int64, slt_zero-sub64,
}
use concert.Net.{Addr, addr_eq, invalid, v4, v6, is_valid, abuse_key}
use concert.Abuse.{
  AbuseEntry, Registry, ban_forever, ban_forever_left, notify_ban, shard_of, trackable,
}
use concert.Abuse.Entries.{entry, put, forget, entry_locked}
use concert.Abuse.Strikes.{count_ban}
use concert.Ranges.{range_banned, ban_end, BanError}
use concert.Abuse.Admin.{
  until_of, banned_left, banned, set_ban_entry, set_ban_key, banned_client, ban_for_set,
  ban_for_tracked, ban_for, unban_entry, unban_key, unban,
}
use concert.Abuse.Store.{entry-put_self, entry-forget}
use concert.Abuse.Banned.{banned-eq, trackable-abuse_key}

-- A positive length ends before the permanent ban's value.
abbrev pub Fits : ℕ → ℕ → Type 0
Fits n d = slt 0 d ≡ true → n + d < max_int64

-- How long a ban of length `d` is announced to last.
abbrev pub announced : ℕ → ℕ × Bool
announced d = if slt 0 d then (d, true) else (ban_forever_left, true)

banned_left_timed :
    (r : Registry) (ip : Addr) (n d : ℕ)
    → 0 < d
    → n + d < max_int64
    → banned_left r ip n (add64 n d) ≡ (d, true)
unfolding banned_left
banned_left_timed r ip n d pos h = rw (add64_exact n d (omega arith)) (
    rw (not_forever (n + d) h) (
      rw (sub64_exact (n + d) n (omega arith) (omega arith))
        (rw (left n d) (rw (slt_nonneg 0 d (omega arith) (omega arith)) (rw (lt→ltb 0 d pos))))))
  where
    left : (a b : ℕ) → a + b - a ≡ b
    left a b = omega arith

    not_forever : (u : ℕ) → u < max_int64 → nat_beq u ban_forever ≡ false
    not_forever u b = ground arith

slt_positive : (d : ℕ) → slt 0 d ≡ true → 0 < d
unfolding slt
slt_positive d h = ground arith

banned_left-ban_end :
    (r : Registry) (ip : Addr) (n d : ℕ) → Fits n d → banned_left r ip n (ban_end d n) ≡ announced d
banned_left-ban_end r ip n d f = elim (Bool-cases (slt 0 d)) [
  | inl p ↦ rw p (banned_left_timed r ip n d (slt_positive d p) (f p))
  | inr p ↦ rw p (unfold banned_left in refl)
]

set_ban_entry-until :
    (k : Addr) (d n : ℕ) (o : Option AbuseEntry) (r : Registry)
    → (set_ban_entry k d n (o, r)).0 ≡ none
    → until_of (entry k (set_ban_entry k d n (o, r)).1) ≡ ban_end d n
unfolding set_ban_entry
set_ban_entry-until k d n none r h = cc
set_ban_entry-until k d n (some e) r h = elim (Bool-cases (slt n e.banned_until)) [
  | inl c ↦ rw c (ap until_of (entry-put_self k _ r))
  | inr c ↦ rw c (ap until_of (counted k _ r))
]
  where
    counted : (k : Addr) (e : AbuseEntry) (r : Registry) → entry k (count_ban (put k e r)) ≡ some e
    counted k e r = unfold entry put in entry-put_self k e r

ban_for_set-until :
    (k c : Addr) (u : ℕ) (o : Option BanError) (r : Registry)
    → (o ≡ none → until_of (entry k r) ≡ u)
    → (ban_for_set k (o, r)).0 ≡ banned_client c
    → until_of (entry k (ban_for_set k (o, r)).1) ≡ u
unfolding ban_for_set notify_ban entry
ban_for_set-until k c u (some err) r h e = absurd (cc)
ban_for_set-until k c u none r h e = h refl

ban_for_tracked-banned :
    (order : List Addr) (ip c : Addr) (d n : ℕ) (r : Registry) (o : Option Addr)
    → Fits n d
    → trackable r ip ≡ o
    → (ban_for_tracked order d n r o).0 ≡ banned_client c
    → banned (some (ban_for_tracked order d n r o).1) ip n ≡ announced d
unfolding ban_for_tracked set_ban_key
ban_for_tracked-banned order ip c d n r none f e h = absurd (cc)
ban_for_tracked-banned order ip c d n r (some k) f e h =
    let done = set_ban_entry k d n (entry_locked order k n r) in
    let last = (ban_for_set k done).1 in
    banned-eq last ip k n (trackable-abuse_key r ip k e)
    ∙ ap (banned_left last ip n) (
        ban_for_set-until k c (ban_end d n) done.0 done.1
          (set_ban_entry-until k d n (entry_locked order k n r).0 (entry_locked order k n r).1) h)
    ∙ banned_left-ban_end last ip n d f

-- After an administrator's ban that succeeds, and that is not a positive length whose end is at the
-- limit of int64 or beyond it (`n + d` in nanoseconds), the client is banned, and the time that is
-- left is the length that was asked for; a length that is not positive makes the ban permanent. It
-- is so whether the client was banned before or not.
pub ban_for-banned :
    (order : List Addr) (ip c : Addr) (d n : ℕ) (r : Registry)
    → Fits n d
    → (ban_for order ip d n (some r)).0 ≡ banned_client c
    → banned (ban_for order ip d n (some r)).1 ip n ≡ announced d
unfolding ban_for
ban_for-banned order ip c d n r f = elim (Bool-cases (is_valid ip)) [
  | inl v ↦ rw v (ban_for_tracked-banned order ip c d n r (trackable r ip) f refl)
  | inr v ↦ rw v (λ h. absurd (cc))
]

pub banned_left-none :
    (r : Registry) (ip : Addr) (n : ℕ) → NonNegative n → banned_left r ip n 0 ≡ range_banned r ip n
unfolding banned_left
banned_left-none r ip n h = rw (slt_zero-sub64 0 n (omega arith) h) (rw (le→ltb n 0 (omega arith)))

range_banned-forget :
    (i : ℕ) (k ip : Addr) (n : ℕ) (r : Registry)
    → range_banned (record (forget i k r) { dirty = true }) ip n ≡ range_banned r ip n
unfolding range_banned forget
range_banned-forget i k ip n r = refl

unban_entry-banned :
    (ip k : Addr) (n : ℕ) (r : Registry) (o : Option AbuseEntry)
    → NonNegative n
    → abuse_key ip ≡ some k
    → entry k r ≡ o
    → banned (some (unban_entry k r o).1) ip n ≡ range_banned r ip n
unfolding unban_entry
unban_entry-banned ip k n r none h e p =
    banned-eq r ip k n e ∙ ap (λ x. banned_left r ip n (until_of x)) p ∙ banned_left-none r ip n h
unban_entry-banned ip k n r (some x) h e p =
    let last = record (forget (shard_of k) k r) { dirty = true } in
    banned-eq last ip k n e
    ∙ ap (λ x. banned_left last ip n (until_of x)) (gone k r)
    ∙ banned_left-none last ip n h
    ∙ range_banned-forget (shard_of k) k ip n r
  where
    gone :
        (k : Addr) (r : Registry)
        → entry k (record (forget (shard_of k) k r) { dirty = true }) ≡ none
    gone k r = unfold entry forget in (entry-forget k k r ∙ rw (==_refl k))

no_key : (ip : Addr) → abuse_key ip ≡ none → is_valid ip ≡ false
unfolding abuse_key
no_key invalid e = refl
no_key (v4 n) e = absurd (cc)
no_key (v6 n z) e = elim (Bool-cases (nat_beq (n / 2 ^ 32) 0xffff)) [
  | inl t ↦ absurd (some_apart (rw t at e))
  | inr t ↦ absurd (some_apart (rw t at e))
]
  where
    some_apart : {x : Addr} → some x ≡ none → ⊥
    some_apart h = cc

invalid-range_banned :
    (r : Registry) (ip : Addr) (n : ℕ) → is_valid ip ≡ false → range_banned r ip n ≡ (0, false)
unfolding range_banned
invalid-range_banned r ip n e = elim (Bool-cases (nat_beq r.ranges_n 0)) [
  | inl z ↦ rw z
  | inr z ↦ rw z (rw e)
]

unban_key-banned :
    (ip : Addr) (n : ℕ) (r : Registry) (o : Option Addr)
    → NonNegative n
    → abuse_key ip ≡ o
    → banned (some (unban_key r o).1) ip n ≡ range_banned r ip n
unfolding unban_key
unban_key-banned ip n r none h e = nobody r ip n e ∙ sym (invalid-range_banned r ip n (no_key ip e))
  where
    nobody :
        (r : Registry) (ip : Addr) (n : ℕ) → abuse_key ip ≡ none → banned (some r) ip n ≡ (0, false)
    nobody r ip n e = unfold banned in rw e
unban_key-banned ip n r (some k) h e = unban_entry-banned ip k n r (entry k r) h e refl

-- After a lift of a client's ban nothing but a range can keep it out: what the registry answers of
-- it is the answer of the range bans alone, which the lift does not touch.
pub unban-banned :
    (ip : Addr) (n : ℕ) (r : Registry)
    → NonNegative n
    → banned (unban ip (some r)).1 ip n ≡ range_banned r ip n
unfolding unban
unban-banned ip n r h = unban_key-banned ip n r (abuse_key ip) h refl

-- ===== src/Abuse/Sweep.antt =====
-- On abuse.go: the sweep, and what `banned` answers.
use concert.Prelude.{
  ℕ, zero, suc, ◌+◌, ◌-◌, ◌⊎◌, ◌<◌, ◌≤◌, ◌≡◌, refl, sym, ap, ◌∙◌, true, false, not, ◌||◌, Option,
  none, some, arith, ltb, nat_beq, if◌then◌else◌, inl, inr, Bool-cases, le→ltb,
}
use concert.Prelude.Table.{lookup, sweep}
use concert.Prelude.Table.Sweep.{survivor, lookup-sweep}
use concert.Int64.{sub64, slt, NonNegative, slt_nonneg, slt_zero-sub64, max_int64}
use concert.Net.{Addr, addr_eq, abuse_key}
use concert.Abuse.{AbuseParams, AbuseEntry, Registry, Shards, abuse_shards, ban_forever, shard_of}
use concert.Abuse.Entries.{entry, set_shard}
use concert.Abuse.Store.{shard_of-lt}
use concert.Ranges.{range_banned}
use concert.Abuse.Admin.{
  until_of, banned_left, banned, is_idle, Sweep, sweep_begin, sweep_shard, sweep_shards, sweep_end,
  sweep_entries,
}
use concert.Abuse.Shape.{IsShape}
use concert.Abuse.Banned.{banned-eq}
use concert.Abuse.Lifts.{banned_left-none}

-- The turns of a sweep change nothing but the shards.
sweep_shards-rest :
    (i : ℕ) (s : Sweep) (r : Registry)
    → (sweep_shards i s r).1 ≡ record r { shards = (sweep_shards i s r).1.shards }
unfolding sweep_shards sweep_shard
sweep_shards-rest zero s r = refl
sweep_shards-rest (suc i) s r = sweep_shards-rest i (sweep_shard s r).0 (sweep_shard s r).1

shard-other :
    (s : Sweep) (r : Registry) (j : ℕ)
    → nat_beq j s.shard ≡ false
    → (sweep_shard s r).1.shards j ≡ r.shards j
unfolding sweep_shard set_shard
shard-other s r j e = rw e

shard-swept :
    (s : Sweep) (r : Registry) (j : ℕ)
    → nat_beq j s.shard ≡ true
    → (sweep_shard s r).1.shards j ≡ sweep (is_idle s.params s.now) (r.shards j)
unfolding sweep_shard set_shard
shard-swept s r j e =
    rw e (ap (λ i. sweep (is_idle s.params s.now) (r.shards i)) (sym (nat_beq_eq j s.shard e)))
  where
    nat_beq_eq : (a b : ℕ) → nat_beq a b ≡ true → a ≡ b
    nat_beq_eq a b h = ground arith

-- A shard that the sweep has passed stays as it is.
shards-passed :
    (i : ℕ) (s : Sweep) (r : Registry) (j : ℕ)
    → j < s.shard
    → (sweep_shards i s r).1.shards j ≡ r.shards j
unfolding sweep_shards
shards-passed zero s r j h = refl
shards-passed (suc i) s r j h =
    shards-passed i (sweep_shard s r).0 (sweep_shard s r).1 j (unfold sweep_shard in omega arith)
    ∙ shard-other s r j (ne j s.shard h)
  where
    ne : (a b : ℕ) → a < b → nat_beq a b ≡ false
    ne a b l = ground arith

-- A shard that the turns reach is swept, once.
shards-swept :
    (i : ℕ) (s : Sweep) (r : Registry) (j : ℕ)
    → s.shard ≤ j
    → j < s.shard + i
    → (sweep_shards i s r).1.shards j ≡ sweep (is_idle s.params s.now) (r.shards j)
unfolding sweep_shards
shards-swept zero s r j h l = absurd (omega arith)
shards-swept (suc i) s r j h l =
    by_place (Bool-cases (nat_beq j s.shard))
      (λ p q. shards-swept i (sweep_shard s r).0 (sweep_shard s r).1 j p q)
  where
    ne : (a b : ℕ) → nat_beq b a ≡ false → a ≤ b → a + 1 ≤ b
    ne a b e l = ground arith

    eq : (a b : ℕ) → nat_beq b a ≡ true → b < a + 1
    eq a b e = ground arith

    by_place :
        (nat_beq j s.shard ≡ true) ⊎ (nat_beq j s.shard ≡ false)
        → (s.shard + 1 ≤ j
            → j < (s.shard + 1) + i
            → (sweep_shards i (sweep_shard s r).0 (sweep_shard s r).1).1.shards j
              ≡ sweep (is_idle s.params s.now) ((sweep_shard s r).1.shards j))
        → (sweep_shards i (sweep_shard s r).0 (sweep_shard s r).1).1.shards j
          ≡ sweep (is_idle s.params s.now) (r.shards j)
    by_place (inl e) ih =
        shards-passed i (sweep_shard s r).0 (sweep_shard s r).1 j
          (unfold sweep_shard in eq s.shard j e)
        ∙ shard-swept s r j e
    by_place (inr e) ih =
        ih (ne s.shard j e h) (omega arith)
        ∙ ap (sweep (is_idle s.params s.now)) (shard-other s r j e)

entry-sweep :
    (n : ℕ) (k : Addr) (r : Registry)
    → IsShape r
    → entry k (sweep_entries n r).1 ≡ survivor (is_idle r.params n) k (entry k r)
unfolding entry sweep_entries sweep_end
entry-sweep n k r v =
    ap (lookup k) (
      shards-swept abuse_shards (sweep_begin n r) r (shard_of k) (omega arith)
        (omega (arith, shard_of-lt k)))
    ∙ lookup-sweep (is_idle r.params n) k (r.shards (shard_of k)) (v.maps (shard_of k))

-- A ban that has ended leaves the answer to the ranges.
banned_left-ended :
    (r : Registry) (ip : Addr) (t u : ℕ)
    → NonNegative t
    → u ≤ t
    → u < max_int64
    → banned_left r ip t u ≡ range_banned r ip t
unfolding banned_left
banned_left-ended r ip t u h le b =
    rw (not_forever u b) (rw (slt_zero-sub64 u t (omega arith) h) (rw (le→ltb t u le)))
  where
    not_forever : (u : ℕ) → u < max_int64 → nat_beq u ban_forever ≡ false
    not_forever u b = ground arith

idle-ended :
    (p : AbuseParams) (n : ℕ) (k : Addr) (e : AbuseEntry)
    → NonNegative n
    → NonNegative e.banned_until
    → is_idle p n k e ≡ true
    → e.banned_until ≤ n
unfolding is_idle
idle-ended p n k e h hu i = elim (Bool-cases (ltb n e.banned_until)) [
  | inl b ↦ absurd (contra (slt_nonneg n e.banned_until h hu ∙ b) i)
  | inr b ↦ ground arith
]
  where
    contra :
        slt n e.banned_until ≡ true
        → (if slt n e.banned_until || not (slt p.window (sub64 n e.window_start))
            then false
            else nat_beq e.offenses 0 || slt p.max (sub64 n e.banned_until))
          ≡ true
        → ⊥
    contra c i = false_true (sym (rw c) ∙ i)
      where
        false_true : false ≡ true → ⊥
        false_true h = cc

survivor-banned :
    (r r' : Registry) (ip k : Addr) (n t : ℕ) (o : Option AbuseEntry)
    → n ≤ t
    → t < max_int64
    → NonNegative (until_of o)
    → ((u : ℕ) → banned_left r' ip t u ≡ banned_left r ip t u)
    → range_banned r' ip t ≡ range_banned r ip t
    → banned_left r' ip t (until_of (survivor (is_idle r.params n) k o))
      ≡ banned_left r ip t (until_of o)
survivor-banned r r' ip k n t none h b u same ranges = same 0
survivor-banned r r' ip k n t (some e) h b u same ranges =
    elim (Bool-cases (is_idle r.params n k e)) [
      | inl i ↦
          let ended = idle-ended r.params n k e (omega arith) u i in
          rw i (
            banned_left-none r' ip t (omega arith)
            ∙ ranges
            ∙ sym
                (banned_left-ended r ip t e.banned_until (omega arith) (omega arith) (omega arith)))
      | inr i ↦ rw i (same e.banned_until)
    ]

same_ranges :
    (n t : ℕ) (ip : Addr) (r : Registry)
    → range_banned (sweep_entries n r).1 ip t ≡ range_banned r ip t
unfolding sweep_entries sweep_end
same_ranges n t ip r =
    counted (sweep_shards abuse_shards (sweep_begin n r) r).0
      (sweep_shards abuse_shards (sweep_begin n r) r).1
    ∙ ap (λ x. range_banned x ip t) (sweep_shards-rest abuse_shards (sweep_begin n r) r)
    ∙ sharded (sweep_shards abuse_shards (sweep_begin n r) r).1.shards
  where
    counted :
        (s : Sweep) (u : Registry)
        → range_banned (record u { count = u.count - s.evicted }) ip t ≡ range_banned u ip t
    counted s u = unfold range_banned in refl

    sharded : (f : Shards) → range_banned (record r { shards = f }) ip t ≡ range_banned r ip t
    sharded f = unfold range_banned in refl

same_left :
    (n t u : ℕ) (ip : Addr) (r : Registry)
    → banned_left (sweep_entries n r).1 ip t u ≡ banned_left r ip t u
unfolding banned_left
same_left n t u ip r = rw (same_ranges n t ip r)

nobody :
    (r : Registry) (ip : Addr) (t : ℕ) → abuse_key ip ≡ none → banned (some r) ip t ≡ (0, false)
unfolding banned
nobody r ip t e = rw e

-- In a registry with the invariant whose bans' ends are not negative, a whole sweep at `n`, with
-- nothing in between its shards, changes no answer of `banned` from `n` on: no ban in force is
-- dropped, permanent ones included, and none comes back.
pub banned-sweep :
    (n t : ℕ) (ip : Addr) (r : Registry)
    → IsShape r
    → ((k : Addr) → NonNegative (until_of (entry k r)))
    → n ≤ t
    → t < max_int64
    → banned (some (sweep_entries n r).1) ip t ≡ banned (some r) ip t
banned-sweep n t ip r v u h b = by_key (abuse_key ip) refl
  where
    last : Registry
    last = (sweep_entries n r).1

    by_key : (o : Option Addr) → abuse_key ip ≡ o → banned (some last) ip t ≡ banned (some r) ip t
    by_key none e = nobody last ip t e ∙ sym (nobody r ip t e)
    by_key (some k) e =
        banned-eq last ip k t e
        ∙ ap (λ o. banned_left last ip t (until_of o)) (entry-sweep n k r v)
        ∙ survivor-banned r last ip k n t (entry k r) h b (u k) (λ x. same_left n t x ip r)
            (same_ranges n t ip r)
        ∙ sym (banned-eq r ip k t e)

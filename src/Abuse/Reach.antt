-- ===== src/Abuse/Reach.antt =====
-- On abuse.go and ranges.go: the sequences of operations in the life of a registry.
use concert.Prelude.{ℕ, ◌<◌, ◌≡◌, refl, Option, none, some, List, nat_beq, inl, inr, Bool-cases}
use mathlib.Core.Path.{subst}
use concert.Prelude.Table.{lookup}
use concert.Net.{Addr, Prefix, prefix_eq, is_valid, abuse_key}
use concert.Abuse.{AbuseParams, Registry, abuse_shards, new_registry, trackable}
use concert.Abuse.Strikes.{strike, ban_now}
use concert.Ranges.{set_range, ban_range, unban_range, sweep_ranges}
use concert.Abuse.Admin.{ban_for, unban, Sweep, sweep_begin, sweep_shard, sweep_end, total}
use concert.Abuse.Shape.{IsCounted}
use concert.Abuse.Operations.{
  Holds, strike_tracked-IsCounted, ban_now_tracked-IsCounted, ban_for_tracked-IsCounted,
  unban_key-IsCounted, range_found-IsCounted, range_set-IsCounted, unban_found-IsCounted,
  sweep_ranges-IsCounted, sweep_shard-IsCounted, sweep_end-IsCounted,
}

-- One operation, by anyone, at any time and with any arguments.
pub data Step (r : Registry) : Registry → Type 0 where
  struck :
      (order : List Addr) (ip : Addr) (weight n : ℕ) (t : Registry)
      → (strike order ip weight n (some r)).1 ≡ some t
      → Step r t
  banned_now :
      (order : List Addr) (ip : Addr) (n : ℕ) (t : Registry)
      → (ban_now order ip n (some r)).1 ≡ some t
      → Step r t
  banned_for :
      (order : List Addr) (ip : Addr) (d n : ℕ) (t : Registry)
      → (ban_for order ip d n (some r)).1 ≡ some t
      → Step r t
  lifted : (ip : Addr) (t : Registry) → (unban ip (some r)).1 ≡ some t → Step r t
  range_banned_for :
      (p : Prefix) (d n : ℕ) (t : Registry) → (ban_range p d n (some r)).1 ≡ some t → Step r t
  range_lifted : (p : Prefix) (t : Registry) → (unban_range p (some r)).1 ≡ some t → Step r t
  ranges_swept : (n : ℕ) (t : Registry) → (sweep_ranges n (some r)).1 ≡ some t → Step r t
  tuned : (p : AbuseParams) (t : Registry) → record r { params = p } ≡ t → Step r t

-- A registry in use, and how far the janitor's sweep is.
pub record Live : Type 0 where
  pub registry : Registry
  pub sweeping : Option Sweep

-- What runs next: an operation, or a section of a sweep. The janitor is one goroutine, so one sweep
-- is under way at most.
pub data Turn (w : Live) : Live → Type 0 where
  operates : (t : Registry) → Step w.registry t → Turn w (record w { registry = t })
  starts :
      (n : ℕ) → w.sweeping ≡ none → Turn w (record w { sweeping = some (sweep_begin n w.registry) })
  sweeps :
      (s : Sweep)
      → w.sweeping ≡ some s
      → s.shard < abuse_shards
      → Turn w (record {
        registry = (sweep_shard s w.registry).1;
        sweeping = some (sweep_shard s w.registry).0;
      })
  ends :
      (s : Sweep)
      → w.sweeping ≡ some s
      → s.shard ≡ abuse_shards
      → Turn w (record { registry = (sweep_end s w.registry).1; sweeping = none })

pub data Reach (w : Live) : Live → Type 0 where
  here : Reach w w
  next : {u v : Live} → Reach w u → Turn u v → Reach w v

-- The entries that a sweep under way has removed.
abbrev pub removed : Option Sweep → ℕ
removed none = 0
removed (some s) = s.evicted

abbrev pub created : AbuseParams → Live
created p = record { registry = new_registry p; sweeping = none }

Holds-some :
    {q : ℕ} {o : Option Registry} {t : Registry}
    → o ≡ some t
    → Holds (IsCounted q) o
    → IsCounted q t
Holds-some {q = q} e h = subst (Holds (IsCounted q)) e h

strike-IsCounted :
    {q : ℕ} (order : List Addr) (ip : Addr) (weight n : ℕ) (r : Registry)
    → IsCounted q r
    → Holds (IsCounted q) (strike order ip weight n (some r)).1
unfolding strike
strike-IsCounted order ip weight n r v = elim (Bool-cases (nat_beq weight 0)) [
  | inl e ↦ rw e v
  | inr e ↦ rw e (strike_tracked-IsCounted order weight n r (trackable r ip) v)
]

ban_for-IsCounted :
    {q : ℕ} (order : List Addr) (ip : Addr) (d n : ℕ) (r : Registry)
    → IsCounted q r
    → Holds (IsCounted q) (ban_for order ip d n (some r)).1
unfolding ban_for
ban_for-IsCounted order ip d n r v = elim (Bool-cases (is_valid ip)) [
  | inl e ↦ rw e (ban_for_tracked-IsCounted order d n r (trackable r ip) v)
  | inr e ↦ rw e v
]

ban_range-IsCounted :
    {q : ℕ} (p : Prefix) (d n : ℕ) (r : Registry)
    → IsCounted q r
    → Holds (IsCounted q) (ban_range p d n (some r)).1
unfolding ban_range set_range
ban_range-IsCounted p d n r v =
    range_set-IsCounted p (set_range p d n r).0 (set_range p d n r).1
      (range_found-IsCounted p d n r (lookup p r.ranges) refl v)

Step-IsCounted : {q : ℕ} {r t : Registry} → Step r t → IsCounted q r → IsCounted q t
unfolding ban_now unban unban_range
Step-IsCounted {r = r} (struck order ip weight n t e) v =
    Holds-some e (strike-IsCounted order ip weight n r v)
Step-IsCounted {r = r} (banned_now order ip n t e) v =
    Holds-some e (ban_now_tracked-IsCounted order n r (trackable r ip) v)
Step-IsCounted {r = r} (banned_for order ip d n t e) v =
    Holds-some e (ban_for-IsCounted order ip d n r v)
Step-IsCounted {r = r} (lifted ip t e) v = Holds-some e (unban_key-IsCounted r (abuse_key ip) v)
Step-IsCounted {r = r} (range_banned_for p d n t e) v = Holds-some e (ban_range-IsCounted p d n r v)
Step-IsCounted {r = r} (range_lifted p t e) v =
    Holds-some e (unban_found-IsCounted p r (lookup p r.ranges) refl v)
Step-IsCounted {r = r} (ranges_swept n t e) v = Holds-some e (sweep_ranges-IsCounted n r v)
Step-IsCounted {r = r} (tuned p t e) v =
    subst (IsCounted _) e (record {
      maps = v.maps;
      counted = v.counted;
      range_map = v.range_map;
      mirrored = v.mirrored;
    })

new_registry-IsCounted : (p : AbuseParams) → IsCounted 0 (new_registry p)
unfolding total
new_registry-IsCounted p = record {
  maps = λ i. tt;
  counted = refl;
  range_map = tt;
  mirrored = refl;
}

Turn-IsCounted :
    {w v : Live}
    → Turn w v
    → IsCounted (removed w.sweeping) w.registry
    → IsCounted (removed v.sweeping) v.registry
Turn-IsCounted (operates t st) h = Step-IsCounted st h
Turn-IsCounted {w} (starts n e) h = subst (λ o. IsCounted (removed o) w.registry) e h
Turn-IsCounted {w} (sweeps s e l) h =
    sweep_shard-IsCounted s w.registry l (subst (λ o. IsCounted (removed o) w.registry) e h)
Turn-IsCounted {w} (ends s e l) h =
    sweep_end-IsCounted s w.registry (subst (λ o. IsCounted (removed o) w.registry) e h)

-- In every registry that any sequence of strikes, ban paths, administrator's bans and lifts, range
-- bans, changes of the settings and sections of sweeps reaches, a sweep taking its shards one by
-- one between them: every table holds a key at most once; the count that the limit on tracked
-- clients reads is the number of entries in all shards together, plus those that the sweep under
-- way, if there is one, has removed so far; and the counter that lets the hot path skip the range
-- lock is the number of range bans.
pub Reach-IsShape :
    {p : AbuseParams} {w : Live} → Reach (created p) w → IsCounted (removed w.sweeping) w.registry
Reach-IsShape {p} here = new_registry-IsCounted p
Reach-IsShape (next h st) = Turn-IsCounted st (Reach-IsShape h)

-- ===== src/Passes/Store/Counts.antt =====
-- On userStore: the counter is the number of entries, whatever requests and sweeps ran.
use concert.Prelude.{
  ℕ, zero, suc, ◌+◌, ◌<◌, ◌≤◌, ◌≡◌, refl, ap, ◌∙◌, Bool, true, false, some, List, [], ◌∷◌, length,
  arith, Option-cases, Bool-cases, inl, inr,
}
use concert.Prelude.Table.{Table, lookup, insert, sweep}
use concert.Prelude.Table.Laws.{length-insert_new, length-insert_old}
use concert.Prelude.Shards.{replace_shard, entries, entries-replace}
use concert.Bytes.{bytes_eq}
use concert.Passes.Store.{
  user_shards, UserSlots, UserStore, new_user_store, shard_of, seen, added, ensured, slot_of, find,
  slot, is_idle, swept, evicted_of, evicted, sweep_store,
}

-- One request for a semaphore, or one sweep.
pub data Step (s : UserStore) : UserStore → Type 0 where
  slots : (id : List ℕ) (multiplexed : Bool) (now : ℕ) → Step s (slot s id multiplexed now).1
  sweeps : (cutoff : ℕ) (len : ℕ → ℕ) → Step s (sweep_store s cutoff len).1

pub data Reach (h1_cap h2_cap : ℕ) : UserStore → Type 0 where
  created : Reach h1_cap h2_cap (new_user_store h1_cap h2_cap)
  next : {s t : UserStore} → Reach h1_cap h2_cap s → Step s t → Reach h1_cap h2_cap t

shard_of-lt : (id : List ℕ) → shard_of id < 64
unfolding shard_of
shard_of-lt [] = omega arith
shard_of-lt (b ∷ bs) = omega arith

length-insert-added :
    (id : List ℕ) (u : UserSlots) (t : Table (List ℕ) UserSlots)
    → length (insert id u t) ≡ length t + added (lookup id t)
length-insert-added id u t = elim (Option-cases (lookup id t)) [
  | inl e ↦ length-insert_new id u t e ∙ rw e (omega arith)
  | inr e ↦ length-insert_old id u e.0 t e.1 ∙ rw (e.1) (omega arith)
]

-- The counter is the number of entries.
abbrev pub IsCounted : UserStore → Type 0
IsCounted s = s.count ≡ entries user_shards s.shards

slot_of-IsCounted :
    (s : UserStore) (id : List ℕ) (multiplexed : Bool) (u : UserSlots)
    → IsCounted s
    → IsCounted (slot_of s id multiplexed u (added (find s id))).1
unfolding slot_of find
slot_of-IsCounted s id true u h =
    let sem = ensured u.h2 s.h2_cap s.next_ref in
    let v = record u { h2 = some sem } in
    omega (
      arith,
      h,
      entries-replace 64 (shard_of id) (insert id v (s.shards (shard_of id))) s.shards
          (shard_of-lt id),
      length-insert-added id v (s.shards (shard_of id)),
    )
slot_of-IsCounted s id false u h =
    let sem = ensured u.h1 s.h1_cap s.next_ref in
    let v = record u { h1 = some sem } in
    omega (
      arith,
      h,
      entries-replace 64 (shard_of id) (insert id v (s.shards (shard_of id))) s.shards
          (shard_of-lt id),
      length-insert-added id v (s.shards (shard_of id)),
    )

length-sweep :
    (cutoff : ℕ) (len : ℕ → ℕ) (t : Table (List ℕ) UserSlots)
    → length (sweep (is_idle cutoff len) t) + evicted_of cutoff len t ≡ length t
unfolding sweep evicted_of
length-sweep cutoff len [] = refl
length-sweep cutoff len ((id, u) ∷ t) = elim (Bool-cases (is_idle cutoff len id u)) [
  | inl e ↦ rw e (omega (arith, length-sweep cutoff len t))
  | inr e ↦ rw e (omega (arith, length-sweep cutoff len t))
]

-- The shards from n on are not swept yet.
pub swept_later :
    (cutoff : ℕ) (len : ℕ → ℕ) (n i : ℕ) (f : ℕ → Table (List ℕ) UserSlots)
    → n ≤ i
    → swept cutoff len n f i ≡ f i
unfolding swept replace_shard
swept_later cutoff len zero i f h = refl
swept_later cutoff len (suc n) i f h = ground (arith, swept_later cutoff len n i f)

-- Of m shards, the first n swept.
entries-swept :
    (cutoff : ℕ) (len : ℕ → ℕ) (m n : ℕ) (f : ℕ → Table (List ℕ) UserSlots)
    → n ≤ m
    → entries m (swept cutoff len n f) + evicted cutoff len n f ≡ entries m f
unfolding swept evicted
entries-swept cutoff len m zero f h = omega arith
entries-swept cutoff len m (suc n) f h = omega (
  arith,
  entries-replace m n (sweep (is_idle cutoff len) (swept cutoff len n f n)) (swept cutoff len n f)
      h,
  entries-swept cutoff len m n f (omega (arith, h)),
  length-sweep cutoff len (f n),
  ap length (swept_later cutoff len n n f (omega arith)),
  ap (λ t. length (sweep (is_idle cutoff len) t)) (swept_later cutoff len n n f (omega arith)),
)

Step-IsCounted : (s t : UserStore) → Step s t → IsCounted s → IsCounted t
unfolding slot sweep_store
Step-IsCounted s _ (slots id multiplexed now) h =
    slot_of-IsCounted s id multiplexed (seen now (find s id)) h
Step-IsCounted s _ (sweeps cutoff len) h =
    omega (arith, h, entries-swept cutoff len 64 64 s.shards (omega arith))

-- Whatever passes asked for a semaphore and however the janitor swept, at any times and with any
-- semaphores in use: the store's counter is the number of entries that its 64 shards hold.
pub Reach-IsCounted : {h1_cap h2_cap : ℕ} (s : UserStore) → Reach h1_cap h2_cap s → IsCounted s
unfolding entries
Reach-IsCounted _ created = refl
Reach-IsCounted t (next {s} r p) = Step-IsCounted s t p (Reach-IsCounted s r)

-- ===== src/Fastlane/Leases/Challenges.antt =====
-- On makeChallenge: one outstanding challenge per session.
use concert.Prelude.{
  suc, ◌≤◌, ◌≡◌, ◌⊎◌, inl, inr, refl, sym, ap, ◌∙◌, Bool, false, Option, none, some, String, ◌==◌,
  ==_iff, string_eq, length, Bool-cases, Option-cases, none_is_not_some, some_injective,
  true_is_not_false, arith,
}
use concert.Prelude.Table.{Table, lookup, insert, delete, sweep, IsMap}
use concert.Prelude.Table.Laws.{lookup-insert, lookup-delete, length-insert_new, length-insert_old}
use concert.Prelude.Table.Sweep.{lookup-sweep, survivor}
use concert.Fastlane.Leases.{Challenge, is_of}

-- What a sweep leaves was there, and was not to go.
survivor-kept {ℓ} :
    {K V : Type ℓ} (drop : K → V → Bool) (k : K) (o : Option V) (x : V)
    → survivor drop k o ≡ some x
    → (o ≡ some x) × (drop k x ≡ false)
survivor-kept drop k none x h = absurd (none_is_not_some h)
survivor-kept drop k (some v) x h = elim (Bool-cases (drop k v)) [
  | inl e ↦ absurd (none_is_not_some (sym (rw e refl) ∙ h))
  | inr e ↦ same e (some_injective (sym (rw e refl) ∙ h))
]
  where
    same : drop k v ≡ false → v ≡ x → (some v ≡ some x) × (drop k x ≡ false)
    same e p = (ap some p, sym (ap (drop k) p) ∙ e)

-- A session has at most one outstanding challenge.
abbrev pub IsSingle : Table String Challenge → Type 0
IsSingle t =
    (a b : String) (x y : Challenge)
    → lookup a t ≡ some x
    → lookup b t ≡ some y
    → x.session ≡ y.session
    → a ≡ b

-- Every entry of the first table is one of the second.
abbrev IsPart : Table String Challenge → Table String Challenge → Type 0
IsPart t u = (a : String) (x : Challenge) → lookup a t ≡ some x → lookup a u ≡ some x

pub IsPart-IsSingle : (t u : Table String Challenge) → IsPart t u → IsSingle u → IsSingle t
IsPart-IsSingle t u p s a b x y e f h = s a b x y (p a x e) (p b y f) h

pub sweep-IsPart :
    (drop : String → Challenge → Bool) (t : Table String Challenge)
    → IsMap t
    → IsPart (sweep drop t) t
sweep-IsPart drop t d a x e =
    (survivor-kept drop a (lookup a t) x (sym (lookup-sweep drop a t d) ∙ e)).0

pub delete-IsPart : (k : String) (t : Table String Challenge) → IsPart (delete k t) t
delete-IsPart k t a x e = elim (Bool-cases (k == a)) [
  | inl s ↦ absurd (none_is_not_some (sym (lookup-delete k a t ∙ rw s refl) ∙ e))
  | inr o ↦ sym (lookup-delete k a t ∙ rw o refl) ∙ e
]

-- A new challenge after the session's others are gone.
pub insert-IsSingle :
    (id the_nonce : String) (ch : Challenge) (t : Table String Challenge)
    → IsMap t
    → ch.session ≡ id
    → IsSingle t
    → IsSingle (insert the_nonce ch (sweep (is_of id) t))
insert-IsSingle id the_nonce ch t d own s a b x y e f h = by_cases (entry a x e) (entry b y f)
  where
    entry :
        (j : String) (z : Challenge)
        → lookup j (insert the_nonce ch (sweep (is_of id) t)) ≡ some z
        → ((the_nonce ≡ j) × (ch ≡ z)) ⊎ ((lookup j t ≡ some z) × ((z.session == id) ≡ false))
    entry j z g = elim (Bool-cases (the_nonce == j)) [
      | inl q ↦ inl (
        (==_iff the_nonce j).0 q,
        some_injective (sym (lookup-insert the_nonce j ch (sweep (is_of id) t) ∙ rw q refl) ∙ g),
      )
      | inr q ↦ inr (
          survivor-kept (is_of id) j (lookup j t) z (
            sym (lookup-sweep (is_of id) j t d)
            ∙ sym (lookup-insert the_nonce j ch (sweep (is_of id) t) ∙ rw q refl)
            ∙ g))
    ]

    apart : (z w : Challenge) → ch ≡ z → z.session ≡ w.session → (w.session == id) ≡ false → ⊥
    apart z w p q n =
        true_is_not_false ((==_iff w.session id).1 (sym q ∙ sym (ap (λ c. c.session) p) ∙ own)) n

    by_cases :
        ((the_nonce ≡ a) × (ch ≡ x)) ⊎ ((lookup a t ≡ some x) × ((x.session == id) ≡ false))
        → ((the_nonce ≡ b) × (ch ≡ y)) ⊎ ((lookup b t ≡ some y) × ((y.session == id) ≡ false))
        → a ≡ b
    by_cases (inl p) (inl q) = sym p.0 ∙ q.0
    by_cases (inl p) (inr q) = absurd (apart x y p.1 h q.1)
    by_cases (inr p) (inl q) = absurd (apart y x q.1 (sym h) p.1)
    by_cases (inr p) (inr q) = s a b x y p.0 q.0 h

pub length-insert_le :
    {V : Type 0} (k : String) (v : V) (t : Table String V) → length (insert k v t) ≤ suc (length t)
length-insert_le k v t = elim (Option-cases (lookup k t)) [
  | inl e ↦ omega (arith, length-insert_new k v t e)
  | inr e ↦ omega (arith, length-insert_old k v e.0 t e.1)
]

-- ===== src/ClientIp/Laws.antt =====
-- On clientIP: the right-most entry that is not a trusted proxy, and what a client can add to it.
use concert.Prelude.{
  ℕ, ◌≡◌, refl, sym, ap, ◌∙◌, true, some, List, [], ◌∷◌, ◌++◌, nat_beq, length, Bool-cases, inl,
  inr, arith,
}
use mathlib.Core.List.{append_assoc}
use concert.Net.{Addr, Prefix, contains_addr}
use concert.Priority.{split_parts}
use concert.ClientIp.{Names, stops, resume, scan, scan_values, address_of, client_ip}
use concert.ClientIp.Parts.{entries, walk, walk-append, scan-walk, resume_ext}

-- The entries of all values, in the order of the header.
unfoldable pub all_entries : List (List ℕ) → List (List ℕ)
all_entries [] = []
all_entries (v ∷ vs) = entries v ++ all_entries vs

scan_values-walk :
    (t : Names) (trusted : List Prefix) (remote : Addr) (vs : List (List ℕ)) (hop : Addr)
    → t.trim [] ≡ []
    → scan_values t trusted remote vs hop ≡ walk t trusted remote (all_entries vs) hop
unfolding scan_values all_entries
scan_values-walk t trusted remote [] hop e = unfold walk in refl
scan_values-walk t trusted remote (v ∷ vs) hop e =
    ap (λ s. resume s (λ h. scan t trusted remote (length v) v h))
      (scan_values-walk t trusted remote vs hop e)
    ∙ resume_ext (walk t trusted remote (all_entries vs) hop)
        (λ h. scan t trusted remote (length v) v h) (λ h. walk t trusted remote (entries v) h)
        (λ h. scan-walk t trusted remote (length v) v h e (omega arith))
    ∙ sym (walk-append t trusted remote (entries v) (all_entries vs) hop)

-- For a trusted connection: the loops over the header's values and over the commas of each, whose
-- fuel is the value's length, end as the walk over all entries, split at every comma, from the last
-- one to the first; where an empty text is trimmed to itself.
pub client_ip-walk :
    (t : Names) (trusted : List Prefix) (remote : Addr) (vs : List (List ℕ))
    → t.trim [] ≡ []
    → contains_addr trusted remote ≡ true
    → client_ip t trusted (some remote) vs
      ≡ address_of (walk t trusted remote (all_entries vs) remote)
unfolding client_ip
client_ip-walk t trusted remote vs e c =
    rw c (ap address_of (scan_values-walk t trusted remote vs remote e))

-- A text put in front with a comma puts its entries in front.
entries-append : (p s : List ℕ) → entries (p ++ b',' ∷ s) ≡ entries p ++ entries s
unfolding split_parts
entries-append [] s = refl
entries-append (x ∷ p) s = elim (Bool-cases (nat_beq x b',')) [
  | inl c ↦ rw c (ap (λ q. [] ∷ q) (entries-append p s))
  | inr c ↦ rw c (ap (λ q. add x q) (entries-append p s))
]
  where
    add : ℕ → List (List ℕ) → List (List ℕ)
    add x [] = []
    add x (q ∷ qs) = (x ∷ q) ∷ qs

all_entries-append :
    (us vs : List (List ℕ)) → all_entries (us ++ vs) ≡ all_entries us ++ all_entries vs
unfolding all_entries
all_entries-append [] vs = refl
all_entries-append (u ∷ us) vs =
    ap (λ q. entries u ++ q) (all_entries-append us vs)
    ∙ sym (append_assoc (entries u) (all_entries us) (all_entries vs))

-- All entries of a header with values before, and a text before the first value's entries.
all_entries-spoofed :
    (us vs : List (List ℕ)) (p s : List ℕ)
    → all_entries (us ++ (p ++ b',' ∷ s) ∷ vs)
      ≡ (all_entries us ++ entries p) ++ all_entries (s ∷ vs)
unfolding all_entries
all_entries-spoofed us vs p s =
    all_entries-append us ((p ++ b',' ∷ s) ∷ vs)
    ∙ ap (λ q. all_entries us ++ (q ++ all_entries vs)) (entries-append p s)
    ∙ ap (λ q. all_entries us ++ q) (append_assoc (entries p) (entries s) (all_entries vs))
    ∙ sym (append_assoc (all_entries us) (entries p) (entries s ++ all_entries vs))

walk_stopped :
    (t : Names) (trusted : List Prefix) (remote a : Addr) (ps qs : List (List ℕ)) (hop : Addr)
    → walk t trusted remote qs hop ≡ stops a
    → walk t trusted remote (ps ++ qs) hop ≡ stops a
walk_stopped t trusted remote a ps qs hop e =
    walk-append t trusted remote ps qs hop ∙ ap (λ s. resume s (λ h. walk t trusted remote ps h)) e

-- Where an empty text is trimmed to itself: if the entries that the proxies wrote, from `s` on, hold
-- one that is not a trusted proxy, or is malformed, then whatever values `us` a client sends before
-- them, and whatever text `p` before the first, they change nothing.
pub client_ip-spoofed :
    (t : Names) (trusted : List Prefix) (remote a : Addr) (us vs : List (List ℕ)) (p s : List ℕ)
    → t.trim [] ≡ []
    → scan_values t trusted remote (s ∷ vs) remote ≡ stops a
    → client_ip t trusted (some remote) (us ++ (p ++ b',' ∷ s) ∷ vs)
      ≡ client_ip t trusted (some remote) (s ∷ vs)
unfolding client_ip
client_ip-spoofed t trusted remote a us vs p s e h =
    elim (Bool-cases (contains_addr trusted remote)) [
      | inl c ↦ rw c (ap address_of (spoofed ∙ sym h))
      | inr c ↦ rw c refl
    ]
  where
    spoofed : scan_values t trusted remote (us ++ (p ++ b',' ∷ s) ∷ vs) remote ≡ stops a
    spoofed =
        scan_values-walk t trusted remote (us ++ (p ++ b',' ∷ s) ∷ vs) remote e
        ∙ ap (λ q. walk t trusted remote q remote) (all_entries-spoofed us vs p s)
        ∙ walk_stopped t trusted remote a (all_entries us ++ entries p) (all_entries (s ∷ vs))
            remote (sym (scan_values-walk t trusted remote (s ∷ vs) remote e) ∙ h)

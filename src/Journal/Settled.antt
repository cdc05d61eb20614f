-- ===== src/Journal/Settled.antt =====
-- On internal/gateway/journal.go: the steps of an open journal, and its settled records.
use concert.Prelude.{
  ℕ, ◌≡◌, refl, sym, ap, ◌∙◌, inl, inr, true, false, not, ◌&&◌, Option, none, some, arith, String,
  ◌==◌, ==_iff, string_eq, Bool-cases,
}
use concert.Prelude.Table.{lookup}
use concert.Prelude.Table.Laws.{lookup-insert}
use concert.Journal.{
  Record, Suspended, Journal, Append, unmarshalled, wrote_nothing, wrote_part, wrote_all, sync_lost,
  durable, is_settled, remember, with_line, append_line, write_open, write, close,
}

-- What the gateway writes: a named authorization in one of the three states.
pub record IsProper (r : Record) : Type 0 where
  pub named : (r.id == "") ≡ false
  pub known :
      (not (r.state == "pending") && (not (r.state == "settled") && not (r.state == "unknown")))
      ≡ false

pub data Step (j : Journal) : Journal → Type 0 where
  writes : (r : Record) (now : ℕ) (disk : Append) → IsProper r → Step j (write j r now disk).1
  closes : Step j (close j)

pub data Reach (j : Journal) : Journal → Type 0 where
  here : Reach j j
  next : {k m : Journal} → Reach j k → Step k m → Reach j m

-- The journal holds the settled record `r` of the authorization.
abbrev pub HoldsSettled : String → Record → Journal → Type 0
HoldsSettled id r j = (lookup id j.records ≡ some r) × ((r.state == "settled") ≡ true)

not_rewritten :
    (j : Journal) (id : String) (r q : Record)
    → HoldsSettled id r j
    → is_settled (lookup q.id j.records) ≡ false
    → (q.id == id) ≡ false
not_rewritten j id r q h o = elim (Bool-cases (q.id == id)) [
  | inl e ↦ absurd (
      apart
        (sym (ap is_settled (ap (λ x. lookup x j.records) ((==_iff q.id id).0 e) ∙ h.0) ∙ h.1) ∙ o))
  | inr e ↦ e
]
  where
    apart : true ≡ false → ⊥
    apart e = cc

remember-HoldsSettled :
    (j : Journal) (id : String) (r q : Record)
    → HoldsSettled id r j
    → (q.id == id) ≡ false
    → HoldsSettled id r (remember q j)
unfolding remember
remember-HoldsSettled j id r q h e = (lookup-insert q.id id q j.records ∙ rw e h.0, h.1)

append_line-HoldsSettled :
    (j : Journal) (id : String) (r q : Record) (disk : Append)
    → HoldsSettled id r j
    → (q.id == id) ≡ false
    → HoldsSettled id r (append_line j q disk).1
unfolding append_line
append_line-HoldsSettled j id r q unmarshalled h e = h
append_line-HoldsSettled j id r q wrote_nothing h e = h
append_line-HoldsSettled j id r q wrote_part h e = h
append_line-HoldsSettled j id r q wrote_all h e = h
append_line-HoldsSettled j id r q sync_lost h e = h
append_line-HoldsSettled j id r q durable h e = remember-HoldsSettled (with_line q j) id r q h e

write_open-HoldsSettled :
    (j : Journal) (id : String) (r q : Record) (now : ℕ) (disk : Append) (o : Option Suspended)
    → HoldsSettled id r j
    → HoldsSettled id r (write_open j q now disk o).1
unfolding write_open
write_open-HoldsSettled j id r q now disk (some why) h = h
write_open-HoldsSettled j id r q now disk none h =
    elim (Bool-cases (is_settled (lookup q.id j.records))) [
      | inl c ↦ rw c h
      | inr c ↦ rw c (
          append_line-HoldsSettled j id r (record q { updated = now }) disk h
            (not_rewritten j id r (record q { updated = now }) h c))
    ]

close-HoldsSettled :
    (j : Journal) (id : String) (r : Record) → HoldsSettled id r j → HoldsSettled id r (close j)
close-HoldsSettled j id r h = (by_bad j j.bad refl ∙ h.0, h.1)
  where
    by_bad :
        (j : Journal) (o : Option Suspended)
        → j.bad ≡ o
        → lookup id (close j).records ≡ lookup id j.records
    by_bad j o e = unfold close in ground arith

Step-HoldsSettled :
    {j k : Journal} (id : String) (r : Record)
    → Step j k
    → HoldsSettled id r j
    → HoldsSettled id r k
unfolding write
Step-HoldsSettled {j} id r (writes q now disk p) h =
    write_open-HoldsSettled j id r q now disk j.bad h
Step-HoldsSettled {j} id r closes h = close-HoldsSettled j id r h

-- Once the journal holds an authorization as settled, no sequence of writes, failures and closing
-- changes its record: it is never submitted as pending again, nor settled twice.
pub Reach-HoldsSettled :
    {j k : Journal} (id : String) (r : Record)
    → Reach j k
    → HoldsSettled id r j
    → HoldsSettled id r k
Reach-HoldsSettled id r here h = h
Reach-HoldsSettled id r (next s st) h = Step-HoldsSettled id r st (Reach-HoldsSettled id r s h)

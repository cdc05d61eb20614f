-- ===== src/Journal/Restart.antt =====
-- On internal/gateway/journal.go: opening again the file of a journal in use.
use concert.Prelude.{
  ℕ, ◌≡◌, refl, ap, ◌∙◌, ◌⊎◌, inl, inr, false, Option, none, some, List, [], ◌∷◌, string_eq,
  Bool-cases,
}
use mathlib.Core.Path.{subst}
use concert.Prelude.Table.{lookup}
use concert.Journal.{
  is_long, line_too_long, Record, Suspended, JournalError, JournalFile, Journal, Append,
  unmarshalled, wrote_nothing, wrote_part, wrote_all, sync_lost, durable, is_settled, line_error,
  remember, scan_checked, scan_line, scan, empty_journal, open_journal, append_line, write_open,
  write, close,
}
use concert.Journal.Settled.{IsProper, Step, writes, closes, Reach, here, next}
use concert.Journal.Reopen.{
  has_long, restarted, Restarts, scan-opened, proper_line, scan-refused, open_journal-line,
}

append_line-Restarts :
    (size : Record → ℕ) (j : Journal) (r : Record) (disk : Append)
    → Restarts size j
    → j.bad ≡ none
    → line_error j r ≡ none
    → Restarts size (append_line j r disk).1
unfolding append_line remember
append_line-Restarts size j r unmarshalled h g v = h
append_line-Restarts size j r wrote_nothing h g v = λ b. absurd (cc)
append_line-Restarts size j r wrote_part h g v = λ b. absurd (cc)
append_line-Restarts size j r wrote_all h g v = λ b. absurd (cc)
append_line-Restarts size j r sync_lost h g v = λ b. absurd (cc)
append_line-Restarts size j r durable h g v = λ b. open_journal-line size j r (h g) v

write_open-Restarts :
    (size : Record → ℕ) (j : Journal) (r : Record) (now : ℕ) (disk : Append) (o : Option Suspended)
    → IsProper r
    → Restarts size j
    → j.bad ≡ o
    → Restarts size (write_open j r now disk o).1
unfolding write_open
write_open-Restarts size j r now disk (some why) p h e = h
write_open-Restarts size j r now disk none p h e =
    elim (Bool-cases (is_settled (lookup r.id j.records))) [
      | inl c ↦ rw c h
      | inr c ↦
          let stamped = record r { updated = now } in
          rw c (
            append_line-Restarts size j stamped disk h e
              (proper_line j stamped (record { named = p.named; known = p.known }) c))
    ]

close-Restarts :
    (size : Record → ℕ) (j : Journal) (o : Option Suspended)
    → j.bad ≡ o
    → Restarts size j
    → Restarts size (close j)
unfolding close
close-Restarts size j none e h = rw e (λ b. absurd (cc))
close-Restarts size j (some why) e h = rw e (λ b. absurd (some_apart b))
  where
    some_apart : some why ≡ none → ⊥
    some_apart x = cc

Step-Restarts : (size : Record → ℕ) {j k : Journal} → Step j k → Restarts size j → Restarts size k
unfolding write
Step-Restarts size {j} (writes r now disk p) h =
    write_open-Restarts size j r now disk j.bad p h refl
Step-Restarts size {j} closes h = close-Restarts size j j.bad refl h

refused-ne :
    (size : Record → ℕ) (err : JournalError) (rs : List Record) (l : Journal)
    → scan size (inl err) rs ≡ inr l
    → ⊥
refused-ne size err rs l e = absurd (apart (scan-refused size err rs) e)
  where
    apart : {o : JournalError ⊎ Journal} → o ≡ inl err → o ≡ inr l → ⊥
    apart a b = cc

-- A scan that succeeds meets no long line.
scan-short :
    (size : Record → ℕ) (o : JournalError ⊎ Journal) (rs : List Record) (l : Journal)
    → scan size o rs ≡ inr l
    → has_long size rs ≡ false
unfolding scan scan_line
scan-short size o [] l e = refl
scan-short size (inl err) (r ∷ rs) l e = absurd (refused-ne size err rs l e)
scan-short size (inr m) (r ∷ rs) l e = elim (Bool-cases (is_long size r)) [
  | inl b ↦ absurd (refused-ne size line_too_long rs l (rw b at e))
  | inr b ↦ rw b (scan-short size (scan_checked m r (line_error m r)) rs l (rw b at e))
]

-- `open_journal` keeps the file it reads.
abbrev Kept : JournalFile → JournalError ⊎ Journal → Type 0
Kept f (inl err) = Unit
Kept f (inr j) = j.file ≡ f

scan_line-Kept :
    (size : Record → ℕ) (f : JournalFile) (o : JournalError ⊎ Journal) (r : Record)
    → Kept f o
    → Kept f (scan_line size o r)
unfolding scan_line
scan_line-Kept size f (inl err) r h = tt
scan_line-Kept size f (inr j) r h = elim (Bool-cases (is_long size r)) [
  | inl b ↦ rw b tt
  | inr b ↦ rw b (checked-Kept (line_error j r))
]
  where
    checked-Kept : (o : Option JournalError) → Kept f (scan_checked j r o)
    checked-Kept (some err) = unfold scan_checked in tt
    checked-Kept none = unfold scan_checked remember in h

scan-Kept :
    (size : Record → ℕ) (f : JournalFile) (o : JournalError ⊎ Journal) (rs : List Record)
    → Kept f o
    → Kept f (scan size o rs)
unfolding scan
scan-Kept size f o [] h = h
scan-Kept size f o (r ∷ rs) h =
    scan-Kept size f (scan_line size o r) rs (scan_line-Kept size f o r h)

open_journal-Restarts :
    (size : Record → ℕ) (f : JournalFile) (j : Journal)
    → open_journal size f ≡ inr j
    → Restarts size j
open_journal-Restarts size f j e = λ b.
    let same = kept j e in
    ap (open_journal size) same.0 ∙ e ∙ short (ap (λ g. has_long size g.lines) same.0 ∙ same.1)
  where
    kept :
        (j : Journal) → open_journal size f ≡ inr j → (j.file ≡ f) × (has_long size f.lines ≡ false)
    kept j e =
        let read =
          scan-opened f.has_partial (scan size (inr (empty_journal f)) f.lines) j
            (unfold open_journal in e) in
        (
          subst (Kept f) read.1 (scan-Kept size f (inr (empty_journal f)) f.lines refl),
          scan-short size (inr (empty_journal f)) f.lines j read.1,
        )

    short : has_long size j.file.lines ≡ false → inr j ≡ restarted (has_long size j.file.lines) j
    short h = rw h

Reach-Restarts_from :
    (size : Record → ℕ) {j k : Journal} → Reach j k → Restarts size j → Restarts size k
Reach-Restarts_from size here h = h
Reach-Restarts_from size (next s st) h = Step-Restarts size st (Reach-Restarts_from size s h)

-- A journal that was opened, and then used in any way with proper records, as long as it is not
-- suspended: opening its file again gives exactly that journal, no authorization lost, if every line
-- is shorter than the scan's limit; and it fails with the scan's error if one is not.
pub journal_restarts :
    (size : Record → ℕ) (f : JournalFile) (j k : Journal)
    → open_journal size f ≡ inr j
    → Reach j k
    → k.bad ≡ none
    → open_journal size k.file ≡ restarted (has_long size k.file.lines) k
journal_restarts size f j k e s b = Reach-Restarts_from size s (open_journal-Restarts size f j e) b

-- ===== src/Ledger/Reopen.antt =====
-- On internal/fastlane/store.go: what a restart makes of the file of a ledger in use.
use concert.Prelude.{
  ℕ, ◌≡◌, refl, ap, ◌∙◌, ◌⊎◌, inl, inr, Bool, false, Option, none, some, List, [], ◌∷◌, Bool-cases,
  leb, length, ◌&&◌, string_eq,
}
use mathlib.Core.Path.{subst}
use concert.Prelude.Table.{lookup}
use concert.Ledger.{
  Receipt, LedgerError, line_too_long, JournalFile, Ledger, validate, apply, checked, is_long,
  scan_line, scan, refuse_partial, open_ledger, empty_ledger, Suspended, Append, unmarshalled,
  wrote_nothing, wrote_part, wrote_all, sync_lost, durable, append_line, is_new, write_valid,
  write_unless, write, close,
}
use concert.Ledger.Replay.{
  Reach, opens, next, has_long, restarted, Restarts, scan-opened, scan-refused, open_ledger-line,
  Step, writes, closes,
}

module _ {J : Type 0} where
  append_line-Restarts :
      (size : Receipt J → ℕ) (l : Ledger J) (r : Receipt J) (disk : Append)
      → Restarts size l
      → l.bad ≡ none
      → validate l r ≡ none
      → Restarts size (append_line l r disk).1
  unfolding append_line apply
  append_line-Restarts size l r unmarshalled h g v = h
  append_line-Restarts size l r wrote_nothing h g v = λ b. absurd (cc)
  append_line-Restarts size l r wrote_part h g v = λ b. absurd (cc)
  append_line-Restarts size l r wrote_all h g v = λ b. absurd (cc)
  append_line-Restarts size l r sync_lost h g v = λ b. absurd (cc)
  append_line-Restarts size l r durable h g v = λ b. open_ledger-line size l r (h g) v

  write_valid-Restarts :
      (size : Receipt J → ℕ) (l : Ledger J) (r : Receipt J) (disk : Append) (o : Option LedgerError)
      → Restarts size l
      → l.bad ≡ none
      → validate l r ≡ o
      → Restarts size (write_valid l r disk o).1
  unfolding write_valid
  write_valid-Restarts size l r disk (some err) h g v = h
  write_valid-Restarts size l r disk none h g v =
      elim (Bool-cases
        (is_new (lookup r.fingerprint l.by_fingerprint) && leb l.max (length l.by_fingerprint))) [
          | inl c ↦ rw c h
          | inr c ↦ rw c (append_line-Restarts size l r disk h g v)
        ]

  write_unless-Restarts :
      (size : Receipt J → ℕ) (l : Ledger J) (r : Receipt J) (disk : Append) (o : Option Suspended)
      → Restarts size l
      → l.bad ≡ o
      → Restarts size (write_unless l r disk o).1
  unfolding write_unless
  write_unless-Restarts size l r disk (some why) h e = h
  write_unless-Restarts size l r disk none h e =
      write_valid-Restarts size l r disk (validate l r) h e refl

  close-Restarts :
      (size : Receipt J → ℕ) (l : Ledger J) (o : Option Suspended)
      → l.bad ≡ o
      → Restarts size l
      → Restarts size (close l)
  unfolding close
  close-Restarts size l none e h = rw e (λ b. absurd (cc))
  close-Restarts size l (some why) e h = rw e (λ b. absurd (some_apart b))
    where
      some_apart : some why ≡ none → ⊥
      some_apart x = cc

  Step-Restarts :
      (size : Receipt J → ℕ) {l m : Ledger J} → Step l m → Restarts size l → Restarts size m
  unfolding write
  Step-Restarts size {l} (writes r disk) h = write_unless-Restarts size l r disk l.bad h refl
  Step-Restarts size {l} closes h = close-Restarts size l l.bad refl h

  -- `open_ledger` keeps the file it reads and the limit it is given.
  abbrev Kept : ℕ → JournalFile J → LedgerError ⊎ Ledger J → Type 0
  Kept most f (inl err) = Unit
  Kept most f (inr l) = (l.max ≡ most) × (l.file ≡ f)

  scan_line-Kept :
      (size : Receipt J → ℕ) (most : ℕ) (f : JournalFile J) (o : LedgerError ⊎ Ledger J)
      (r : Receipt J)
      → Kept most f o
      → Kept most f (scan_line size o r)
  unfolding scan_line
  scan_line-Kept size most f (inl err) r h = tt
  scan_line-Kept size most f (inr l) r h = elim (Bool-cases (is_long size r)) [
    | inl b ↦ rw b tt
    | inr b ↦ rw b (checked-Kept (validate l r))
  ]
    where
      checked-Kept : (o : Option LedgerError) → Kept most f (checked l r o)
      checked-Kept (some err) = unfold checked in tt
      checked-Kept none = unfold checked apply in h

  scan-Kept :
      (size : Receipt J → ℕ) (most : ℕ) (f : JournalFile J) (o : LedgerError ⊎ Ledger J)
      (rs : List (Receipt J))
      → Kept most f o
      → Kept most f (scan size o rs)
  unfolding scan
  scan-Kept size most f o [] h = h
  scan-Kept size most f o (r ∷ rs) h =
      scan-Kept size most f (scan_line size o r) rs (scan_line-Kept size most f o r h)

  refused-ne :
      (size : Receipt J → ℕ) (err : LedgerError) (rs : List (Receipt J)) (l : Ledger J)
      → scan size (inl err) rs ≡ inr l
      → ⊥
  refused-ne size err rs l e = absurd (apart (scan-refused size err rs) e)
    where
      apart : {o : LedgerError ⊎ Ledger J} → o ≡ inl err → o ≡ inr l → ⊥
      apart a b = cc

  -- A scan that succeeds meets no long line, and needs no limit to.
  scan-short :
      (size : Receipt J → ℕ) (o : LedgerError ⊎ Ledger J) (rs : List (Receipt J)) (l : Ledger J)
      → scan size o rs ≡ inr l
      → (has_long size rs ≡ false) × (scan (λ r. 0) o rs ≡ inr l)
  unfolding scan scan_line
  scan-short size o [] l e = (refl, e)
  scan-short size (inl err) (r ∷ rs) l e = absurd (refused-ne size err rs l e)
  scan-short size (inr m) (r ∷ rs) l e = elim (Bool-cases (is_long size r)) [
    | inl b ↦ absurd (refused-ne size line_too_long rs l (rw b at e))
    | inr b ↦ rw b (scan-short size (checked m r (validate m r)) rs l (rw b at e))
  ]

  open_ledger-has_long :
      (size : Receipt J → ℕ) (most : ℕ) (f : JournalFile J) (l : Ledger J)
      → open_ledger size most f ≡ inr l
      → has_long size f.lines ≡ false
  unfolding open_ledger
  open_ledger-has_long size most f l e =
      (scan-short size (inr (empty_ledger most f)) f.lines l
        (scan-opened f.has_partial (scan size (inr (empty_ledger most f)) f.lines) l e).1).0

  open_ledger-unlimited :
      (size : Receipt J → ℕ) (most : ℕ) (f : JournalFile J) (l : Ledger J)
      → open_ledger size most f ≡ inr l
      → open_ledger (λ r. 0) most f ≡ inr l
  unfolding open_ledger
  open_ledger-unlimited size most f l e =
      let read = scan-opened f.has_partial (scan size (inr (empty_ledger most f)) f.lines) l e in
      ap (refuse_partial f.has_partial)
        (scan-short size (inr (empty_ledger most f)) f.lines l read.1).1
      ∙ whole f.has_partial read.0
    where
      whole : (partial : Bool) → partial ≡ false → refuse_partial partial (inr l) ≡ inr l
      whole partial h = unfold refuse_partial in rw h

  opened-Restarts :
      (size : Receipt J → ℕ) (most : ℕ) (f : JournalFile J) (l : Ledger J)
      → open_ledger size most f ≡ inr l
      → Restarts size l
  opened-Restarts size most f l e = λ b.
      let same = kept l e in
      ap (λ x. open_ledger size x l.file) same.0
      ∙ ap (open_ledger size most) same.1
      ∙ e
      ∙ short (ap (λ g. has_long size g.lines) same.1 ∙ open_ledger-has_long size most f l e)
    where
      kept : (l : Ledger J) → open_ledger size most f ≡ inr l → (l.max ≡ most) × (l.file ≡ f)
      kept l e =
          subst (Kept most f)
            (scan-opened f.has_partial (scan size (inr (empty_ledger most f)) f.lines) l
              (unfold open_ledger in e)).1
            (scan-Kept size most f (inr (empty_ledger most f)) f.lines (refl, refl))

      short : has_long size l.file.lines ≡ false → inr l ≡ restarted (has_long size l.file.lines) l
      short h = rw h

  -- Whatever appends, failures and closing did since it was opened, opening the file of a ledger
  -- that is not suspended gives exactly that ledger, no receipt and no ownership lost, if every
  -- line is shorter than the scan's limit; and it fails with the scan's error if one is not.
  pub Reach-Restarts :
      {size : Receipt J → ℕ} {most : ℕ} {f : JournalFile J} {l : Ledger J}
      → Reach size most f l
      → l.bad ≡ none
      → open_ledger size l.max l.file ≡ restarted (has_long size l.file.lines) l
  Reach-Restarts {size} {most} {f} (opens l e) = opened-Restarts size most f l e
  Reach-Restarts (next r st) = Step-Restarts _ st (Reach-Restarts r)

  Reach-unlimited :
      {size : Receipt J → ℕ} {most : ℕ} {f : JournalFile J} {l : Ledger J}
      → Reach size most f l
      → Reach (λ r. 0) most f l
  Reach-unlimited {size} {most} {f} (opens l e) = opens l (open_ledger-unlimited size most f l e)
  Reach-unlimited (next r st) = next (Reach-unlimited r) st

  has_long-unlimited : (rs : List (Receipt J)) → has_long (λ r. 0) rs ≡ false
  has_long-unlimited [] = refl
  has_long-unlimited (r ∷ rs) = has_long-unlimited rs

  -- With no limit on lines, every file of a ledger in use opens.
  pub Reach-opens :
      {size : Receipt J → ℕ} {most : ℕ} {f : JournalFile J} {l : Ledger J}
      → Reach size most f l
      → l.bad ≡ none
      → open_ledger (λ r. 0) l.max l.file ≡ inr l
  Reach-opens {l = l} r b =
      Reach-Restarts (Reach-unlimited r) b
      ∙ ap (λ x. restarted x l) (has_long-unlimited l.file.lines)

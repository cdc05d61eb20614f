-- ===== src/Ledger/Replay.antt =====
-- On internal/fastlane/store.go: the steps of an open ledger, and opening its file with one line more.
use concert.Prelude.{
  ℕ, ◌≡◌, refl, sym, ap, ◌∙◌, ◌⊎◌, inl, inr, Bool, true, false, Option, none, some, List, [], ◌∷◌,
  ◌++◌, ◌||◌, string_eq, Bool-cases,
}
use concert.Ledger.{
  Receipt, LedgerError, line_too_long, is_long, JournalFile, Ledger, Append, validate, apply,
  checked, scan_line, scan, refuse_partial, open_ledger, empty_ledger, with_line, write, close,
}

module _ {J : Type 0} where
  -- One action on an open ledger.
  pub data Step (l : Ledger J) : Ledger J → Type 0 where
    writes : (r : Receipt J) (disk : Append) → Step l (write l r disk).1
    closes : Step l (close l)

  pub data Reach (size : Receipt J → ℕ) (most : ℕ) (f : JournalFile J) : Ledger J → Type 0 where
    opens : (l : Ledger J) → open_ledger size most f ≡ inr l → Reach size most f l
    next : {l m : Ledger J} → Reach size most f l → Step l m → Reach size most f m

  -- Some receipt is longer than the scan reads.
  abbrev pub has_long : (Receipt J → ℕ) → List (Receipt J) → Bool
  has_long size [] = false
  has_long size (r ∷ rs) = is_long size r || has_long size rs

  -- What a restart gives, by whether a line is too long.
  abbrev pub restarted : Bool → Ledger J → LedgerError ⊎ Ledger J
  restarted true l = inl line_too_long
  restarted false l = inr l

  -- Opening the file of a ledger that is not suspended gives the ledger, or stops at a long line.
  abbrev pub Restarts : (Receipt J → ℕ) → Ledger J → Type 0
  Restarts size l =
      l.bad ≡ none → open_ledger size l.max l.file ≡ restarted (has_long size l.file.lines) l

  has_long-append :
      (size : Receipt J → ℕ) (rs : List (Receipt J)) (r : Receipt J)
      → has_long size (rs ++ (r ∷ [])) ≡ (has_long size rs || is_long size r)
  has_long-append size [] r = elim (Bool-cases (is_long size r)) [ inl b ↦ rw b | inr b ↦ rw b ]
  has_long-append size (q ∷ rs) r = elim (Bool-cases (is_long size q)) [
    | inl b ↦ rw b
    | inr b ↦ rw b (has_long-append size rs r)
  ]

  scan-append :
      (size : Receipt J → ℕ) (o : LedgerError ⊎ Ledger J) (rs : List (Receipt J)) (r : Receipt J)
      → scan size o (rs ++ (r ∷ [])) ≡ scan_line size (scan size o rs) r
  unfolding scan
  scan-append size o [] r = refl
  scan-append size o (q ∷ rs) r = scan-append size (scan_line size o q) rs r

  -- The file that a ledger was opened with shows in nothing but the field.
  abbrev pub with_file : JournalFile J → LedgerError ⊎ Ledger J → LedgerError ⊎ Ledger J
  with_file f (inl err) = inl err
  with_file f (inr l) = inr (record l { file = f })

  validate-with_file :
      (f : JournalFile J) (l : Ledger J) (r : Receipt J)
      → validate (record l { file = f }) r ≡ validate l r
  unfolding validate
  validate-with_file f l r = refl

  checked-with_file :
      (f : JournalFile J) (l : Ledger J) (r : Receipt J) (o : Option LedgerError)
      → checked (record l { file = f }) r o ≡ with_file f (checked l r o)
  unfolding checked apply
  checked-with_file f l r (some err) = refl
  checked-with_file f l r none = refl

  scan_line-with_file :
      (size : Receipt J → ℕ) (f : JournalFile J) (o : LedgerError ⊎ Ledger J) (r : Receipt J)
      → scan_line size (with_file f o) r ≡ with_file f (scan_line size o r)
  unfolding scan_line
  scan_line-with_file size f (inl err) r = refl
  scan_line-with_file size f (inr l) r = elim (Bool-cases (is_long size r)) [
    | inl b ↦ rw b
    | inr b ↦ rw b (
        ap (checked (record l { file = f }) r) (validate-with_file f l r)
        ∙ checked-with_file f l r (validate l r))
  ]

  scan-with_file :
      (size : Receipt J → ℕ) (f : JournalFile J) (o : LedgerError ⊎ Ledger J)
      (rs : List (Receipt J))
      → scan size (with_file f o) rs ≡ with_file f (scan size o rs)
  unfolding scan
  scan-with_file size f o [] = refl
  scan-with_file size f o (r ∷ rs) =
      ap (λ x. scan size x rs) (scan_line-with_file size f o r)
      ∙ scan-with_file size f (scan_line size o r) rs

  pub scan-refused :
      (size : Receipt J → ℕ) (err : LedgerError) (rs : List (Receipt J))
      → scan size (inl err) rs ≡ inl err
  unfolding scan scan_line
  scan-refused size err [] = refl
  scan-refused size err (r ∷ rs) = scan-refused size err rs

  pub scan-opened :
      (partial : Bool) (o : LedgerError ⊎ Ledger J) (l : Ledger J)
      → refuse_partial partial o ≡ inr l
      → (partial ≡ false) × (o ≡ inr l)
  unfolding refuse_partial
  scan-opened partial (inl err) l e = absurd (cc)
  scan-opened true (inr m) l e = absurd (cc)
  scan-opened false (inr m) l e = (refl, e)

  refused-long :
      (partial : Bool) (o : LedgerError ⊎ Ledger J)
      → refuse_partial partial o ≡ inl line_too_long
      → o ≡ inl line_too_long
  unfolding refuse_partial
  refused-long partial (inl err) e = e
  refused-long true (inr l) e = absurd (cc)
  refused-long false (inr l) e = absurd (cc)

  -- A line that the ledger accepts, at the end of a file that opens.
  open_ledger-short :
      (size : Receipt J → ℕ) (l : Ledger J) (r : Receipt J)
      → open_ledger size l.max l.file ≡ inr l
      → validate l r ≡ none
      → open_ledger size l.max (with_line r l).file
        ≡ restarted (is_long size r) (apply (with_line r l) r)
  unfolding open_ledger
  open_ledger-short size l r e v =
      let old =
        scan-opened l.file.has_partial (scan size (inr (empty_ledger l.max l.file)) l.file.lines) l
          e in
      ap (refuse_partial l.file.has_partial) (
        scan-append size (inr (empty_ledger l.max (with_line r l).file)) l.file.lines r
        ∙ ap (λ o. scan_line size o r)
            (scan-with_file size (with_line r l).file (inr (empty_ledger l.max l.file)) l.file.lines
              ∙ ap (with_file (with_line r l).file) old.1)
        ∙ accepted l r v)
      ∙ kept l.file.has_partial (is_long size r) (apply (with_line r l) r) old.0
    where
      accepted :
          (l : Ledger J) (r : Receipt J)
          → validate l r ≡ none
          → scan_line size (inr (with_line r l)) r
            ≡ restarted (is_long size r) (apply (with_line r l) r)
      accepted l r v =
          unfold scan_line checked in
          elim (Bool-cases (is_long size r)) [
            | inl b ↦ rw b
            | inr b ↦
                rw b
                  (ap (checked (with_line r l) r) (validate-with_file (with_line r l).file l r ∙ v))
          ]

      kept :
          (partial long : Bool) (m : Ledger J)
          → partial ≡ false
          → refuse_partial partial (restarted long m) ≡ restarted long m
      kept partial true m e = unfold refuse_partial in refl
      kept partial false m e = unfold refuse_partial in rw e

  -- A line at the end of a file in which an earlier one is too long.
  open_ledger-long :
      (size : Receipt J → ℕ) (l : Ledger J) (r : Receipt J)
      → open_ledger size l.max l.file ≡ inl line_too_long
      → open_ledger size l.max (with_line r l).file ≡ inl line_too_long
  unfolding open_ledger
  open_ledger-long size l r e =
      ap (refuse_partial l.file.has_partial) (
        scan-append size (inr (empty_ledger l.max (with_line r l).file)) l.file.lines r
        ∙ ap (λ o. scan_line size o r)
            (scan-with_file size (with_line r l).file (inr (empty_ledger l.max l.file)) l.file.lines
              ∙ ap (with_file (with_line r l).file) (
                  refused-long l.file.has_partial
                    (scan size (inr (empty_ledger l.max l.file)) l.file.lines) e))
        ∙ stopped r)
      ∙ kept l.file.has_partial
    where
      stopped : (r : Receipt J) → scan_line size (inl line_too_long) r ≡ inl line_too_long
      stopped r = unfold scan_line in refl

      kept :
          (partial : Bool) → refuse_partial {J = J} partial (inl line_too_long) ≡ inl line_too_long
      kept partial = unfold refuse_partial in refl

  -- A line that the ledger accepts, at the end of the file, is read as `apply` applied it.
  pub open_ledger-line :
      (size : Receipt J → ℕ) (l : Ledger J) (r : Receipt J)
      → open_ledger size l.max l.file ≡ restarted (has_long size l.file.lines) l
      → validate l r ≡ none
      → open_ledger size l.max (with_line r l).file
        ≡ restarted (has_long size (with_line r l).file.lines) (apply (with_line r l) r)
  open_ledger-line size l r e v =
      by_old (has_long size l.file.lines) e
      ∙ ap (λ b. restarted b (apply (with_line r l) r)) (sym (has_long-append size l.file.lines r))
    where
      by_old :
          (old : Bool)
          → open_ledger size l.max l.file ≡ restarted old l
          → open_ledger size l.max (with_line r l).file
            ≡ restarted (old || is_long size r) (apply (with_line r l) r)
      by_old true h = open_ledger-long size l r h
      by_old false h = open_ledger-short size l r h v

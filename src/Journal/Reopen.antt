-- ===== src/Journal/Reopen.antt =====
-- On internal/gateway/journal.go: opening a file with one line more.
use concert.Prelude.{
  ℕ, ◌≡◌, refl, sym, ap, ◌||◌, ◌∙◌, ◌⊎◌, inl, inr, Bool, true, false, Option, none, some, List, [],
  ◌∷◌, ◌++◌, if◌then◌else◌, string_eq, Bool-cases,
}
use concert.Prelude.Table.{lookup}
use concert.Journal.{
  is_long, line_too_long, Record, JournalError, incomplete_journal, JournalFile, Journal,
  is_settled, line_error, remember, scan_checked, scan_line, scan, empty_journal, open_journal,
  with_line,
}
use concert.Journal.Settled.{IsProper}

-- Some record is longer than the scan reads.
abbrev pub has_long : (Record → ℕ) → List Record → Bool
has_long size [] = false
has_long size (r ∷ rs) = is_long size r || has_long size rs

-- What a restart gives, by whether a line is too long.
abbrev pub restarted : Bool → Journal → JournalError ⊎ Journal
restarted true l = inl line_too_long
restarted false l = inr l

-- Opening the file of a journal that is not suspended gives the journal, or stops at a long line.
abbrev pub Restarts : (Record → ℕ) → Journal → Type 0
Restarts size j = j.bad ≡ none → open_journal size j.file ≡ restarted (has_long size j.file.lines) j

has_long-append :
    (size : Record → ℕ) (rs : List Record) (r : Record)
    → has_long size (rs ++ (r ∷ [])) ≡ (has_long size rs || is_long size r)
has_long-append size [] r = elim (Bool-cases (is_long size r)) [ inl b ↦ rw b | inr b ↦ rw b ]
has_long-append size (q ∷ rs) r = elim (Bool-cases (is_long size q)) [
  | inl b ↦ rw b
  | inr b ↦ rw b (has_long-append size rs r)
]

pub scan-append :
    (size : Record → ℕ) (o : JournalError ⊎ Journal) (rs : List Record) (r : Record)
    → scan size o (rs ++ (r ∷ [])) ≡ scan_line size (scan size o rs) r
unfolding scan
scan-append size o [] r = refl
scan-append size o (q ∷ rs) r = scan-append size (scan_line size o q) rs r

abbrev pub with_file : JournalFile → JournalError ⊎ Journal → JournalError ⊎ Journal
with_file f (inl err) = inl err
with_file f (inr j) = inr (record j { file = f })

line_error-with_file :
    (f : JournalFile) (j : Journal) (r : Record)
    → line_error (record j { file = f }) r ≡ line_error j r
unfolding line_error
line_error-with_file f j r = refl

scan_checked-with_file :
    (f : JournalFile) (j : Journal) (r : Record) (o : Option JournalError)
    → scan_checked (record j { file = f }) r o ≡ with_file f (scan_checked j r o)
unfolding scan_checked remember
scan_checked-with_file f j r (some err) = refl
scan_checked-with_file f j r none = refl

scan_line-with_file :
    (size : Record → ℕ) (f : JournalFile) (o : JournalError ⊎ Journal) (r : Record)
    → scan_line size (with_file f o) r ≡ with_file f (scan_line size o r)
unfolding scan_line
scan_line-with_file size f (inl err) r = refl
scan_line-with_file size f (inr l) r = elim (Bool-cases (is_long size r)) [
  | inl b ↦ rw b
  | inr b ↦ rw b (
      ap (scan_checked (record l { file = f }) r) (line_error-with_file f l r)
      ∙ scan_checked-with_file f l r (line_error l r))
]

scan-with_file :
    (size : Record → ℕ) (f : JournalFile) (o : JournalError ⊎ Journal) (rs : List Record)
    → scan size (with_file f o) rs ≡ with_file f (scan size o rs)
unfolding scan
scan-with_file size f o [] = refl
scan-with_file size f o (r ∷ rs) =
    ap (λ x. scan size x rs) (scan_line-with_file size f o r)
    ∙ scan-with_file size f (scan_line size o r) rs

pub scan-refused :
    (size : Record → ℕ) (err : JournalError) (rs : List Record) → scan size (inl err) rs ≡ inl err
unfolding scan scan_line
scan-refused size err [] = refl
scan-refused size err (r ∷ rs) = scan-refused size err rs

pub scan-opened :
    (partial : Bool) (o : JournalError ⊎ Journal) (j : Journal)
    → (if partial then inl incomplete_journal else o) ≡ inr j
    → (partial ≡ false) × (o ≡ inr j)
scan-opened true o j e = absurd (cc)
scan-opened false o j e = (refl, e)

pub proper_line :
    (j : Journal) (r : Record)
    → IsProper r
    → is_settled (lookup r.id j.records) ≡ false
    → line_error j r ≡ none
unfolding line_error
proper_line j r p e = rw p.named (rw p.known (rw e))

whole :
    (partial : Bool) {o x : JournalError ⊎ Journal}
    → partial ≡ false
    → o ≡ x
    → (if partial then inl incomplete_journal else o) ≡ x
whole partial e h = rw e h

refused-long :
    (partial : Bool) (o : JournalError ⊎ Journal)
    → (if partial then inl incomplete_journal else o) ≡ inl line_too_long
    → (partial ≡ false) × (o ≡ inl line_too_long)
refused-long true o e = absurd (cc)
refused-long false o e = (refl, e)

-- A line that the journal accepts, at the end of a file that opens.
open_journal-short :
    (size : Record → ℕ) (j : Journal) (r : Record)
    → open_journal size j.file ≡ inr j
    → line_error j r ≡ none
    → open_journal size (with_line r j).file
      ≡ restarted (is_long size r) (remember r (with_line r j))
unfolding open_journal
open_journal-short size j r e v =
    let old =
      scan-opened j.file.has_partial (scan size (inr (empty_journal j.file)) j.file.lines) j e in
    whole j.file.has_partial old.0 (
      scan-append size (inr (empty_journal (with_line r j).file)) j.file.lines r
      ∙ ap (λ o. scan_line size o r)
          (scan-with_file size (with_line r j).file (inr (empty_journal j.file)) j.file.lines
            ∙ ap (with_file (with_line r j).file) old.1)
      ∙ accepted j r v)
  where
    accepted :
        (j : Journal) (r : Record)
        → line_error j r ≡ none
        → scan_line size (inr (with_line r j)) r
          ≡ restarted (is_long size r) (remember r (with_line r j))
    accepted j r v =
        unfold scan_line scan_checked in
        elim (Bool-cases (is_long size r)) [
          | inl b ↦ rw b
          | inr b ↦ rw b (
              ap (scan_checked (with_line r j) r)
                (line_error-with_file (with_line r j).file j r ∙ v))
        ]

-- A line at the end of a file in which an earlier one is too long.
open_journal-long :
    (size : Record → ℕ) (j : Journal) (r : Record)
    → open_journal size j.file ≡ inl line_too_long
    → open_journal size (with_line r j).file ≡ inl line_too_long
unfolding open_journal
open_journal-long size j r e =
    let old =
      refused-long j.file.has_partial (scan size (inr (empty_journal j.file)) j.file.lines) e in
    whole j.file.has_partial old.0 (
      scan-append size (inr (empty_journal (with_line r j).file)) j.file.lines r
      ∙ ap (λ o. scan_line size o r)
          (scan-with_file size (with_line r j).file (inr (empty_journal j.file)) j.file.lines
            ∙ ap (with_file (with_line r j).file) old.1)
      ∙ stopped r)
  where
    stopped : (r : Record) → scan_line size (inl line_too_long) r ≡ inl line_too_long
    stopped r = unfold scan_line in refl

-- A line that the journal accepts, at the end of the file, is read as it was remembered.
pub open_journal-line :
    (size : Record → ℕ) (j : Journal) (r : Record)
    → open_journal size j.file ≡ restarted (has_long size j.file.lines) j
    → line_error j r ≡ none
    → open_journal size (with_line r j).file
      ≡ restarted (has_long size (with_line r j).file.lines) (remember r (with_line r j))
open_journal-line size j r e v =
    by_old (has_long size j.file.lines) e
    ∙ ap (λ b. restarted b (remember r (with_line r j))) (sym (has_long-append size j.file.lines r))
  where
    by_old :
        (old : Bool)
        → open_journal size j.file ≡ restarted old j
        → open_journal size (with_line r j).file
          ≡ restarted (old || is_long size r) (remember r (with_line r j))
    by_old true h = open_journal-long size j r h
    by_old false h = open_journal-short size j r h v

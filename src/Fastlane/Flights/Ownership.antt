-- ===== src/Fastlane/Flights/Ownership.antt =====
-- On internal/fastlane: what one write does to the receipts by session.
use concert.Prelude.{
  ℕ, ◌≡◌, refl, sym, ap, ◌∙◌, ◌⊎◌, inl, inr, ◌&&◌, Option, none, some, List, [], ◌∷◌, String, ◌==◌,
  ==_iff, string_eq, Bool-cases, leb, length,
}
use mathlib.Core.Path.{subst}
use concert.Prelude.Table.{Table, lookup, insert}
use concert.Prelude.Table.Laws.{lookup-insert}
use concert.Ledger.{
  Receipt, Suspended, LedgerError, JournalFile, Ledger, Append, unmarshalled, wrote_nothing,
  wrote_part, wrote_all, sync_lost, durable, validate, apply, checked, is_long, scan_line, scan,
  open_ledger, empty_ledger, append_line, is_new, write_valid, write_unless, write,
}
use concert.Ledger.Replay.{scan-opened}

pub some_same : {A : Type 0} {o : Option A} {a b : A} → o ≡ some a → o ≡ some b → a ≡ b
some_same e h = cc

module _ {J : Type 0} where
  insert-IsOldOrNew :
      (id : String) (r : Receipt J) (m : Table String (Receipt J))
      → (lookup id (insert r.session r m) ≡ lookup id m)
        ⊎ ((r.session ≡ id) × (lookup id (insert r.session r m) ≡ some r))
  insert-IsOldOrNew id r m = elim (Bool-cases (r.session == id)) [
    | inl s ↦ inr ((==_iff r.session id).0 s, lookup-insert r.session id r m ∙ rw s)
    | inr o ↦ inl (lookup-insert r.session id r m ∙ rw o)
  ]

  -- After a write of `r` the receipt of the session `id` is the old one, or it is `r`, of `id`.
  abbrev pub IsOldOrNew : String → Receipt J → Ledger J → Ledger J → Type 0
  IsOldOrNew id r l m =
      (lookup id m.by_session ≡ lookup id l.by_session)
      ⊎ ((r.session ≡ id) × (lookup id m.by_session ≡ some r))

  append_line-IsOldOrNew :
      (id : String) (l : Ledger J) (r : Receipt J) (disk : Append)
      → IsOldOrNew id r l (append_line l r disk).1
  unfolding append_line apply
  append_line-IsOldOrNew id l r unmarshalled = inl refl
  append_line-IsOldOrNew id l r wrote_nothing = inl refl
  append_line-IsOldOrNew id l r wrote_part = inl refl
  append_line-IsOldOrNew id l r wrote_all = inl refl
  append_line-IsOldOrNew id l r sync_lost = inl refl
  append_line-IsOldOrNew id l r durable = insert-IsOldOrNew id r l.by_session

  write_valid-IsOldOrNew :
      (id : String) (l : Ledger J) (r : Receipt J) (disk : Append) (o : Option LedgerError)
      → IsOldOrNew id r l (write_valid l r disk o).1
  unfolding write_valid
  write_valid-IsOldOrNew id l r disk (some err) = inl refl
  write_valid-IsOldOrNew id l r disk none =
      elim (Bool-cases
        (is_new (lookup r.fingerprint l.by_fingerprint) && leb l.max (length l.by_fingerprint))) [
          | inl c ↦ rw c (inl refl)
          | inr c ↦ rw c (append_line-IsOldOrNew id l r disk)
        ]

  write_unless-IsOldOrNew :
      (id : String) (l : Ledger J) (r : Receipt J) (disk : Append) (o : Option Suspended)
      → IsOldOrNew id r l (write_unless l r disk o).1
  unfolding write_unless
  write_unless-IsOldOrNew id l r disk (some why) = inl refl
  write_unless-IsOldOrNew id l r disk none = write_valid-IsOldOrNew id l r disk (validate l r)

  pub write-IsOldOrNew :
      (id : String) (l : Ledger J) (r : Receipt J) (disk : Append)
      → IsOldOrNew id r l (write l r disk).1
  unfolding write
  write-IsOldOrNew id l r disk = write_unless-IsOldOrNew id l r disk l.bad

  -- Every session's receipt names the session.
  abbrev pub IsOwnSession : Ledger J → Type 0
  IsOwnSession l = (id : String) (r : Receipt J) → lookup id l.by_session ≡ some r → r.session ≡ id

  pub write-IsOwnSession :
      (l : Ledger J) (r : Receipt J) (disk : Append)
      → IsOwnSession l
      → IsOwnSession (write l r disk).1
  write-IsOwnSession l r disk h id q e = elim (write-IsOldOrNew id l r disk) [
    | inl old ↦ h id q (sym old ∙ e)
    | inr new ↦ ap (λ x. x.session) (some_same e new.1) ∙ new.0
  ]

  abbrev AllOwn : LedgerError ⊎ Ledger J → Type 0
  AllOwn (inl err) = Unit
  AllOwn (inr l) = IsOwnSession l

  apply-IsOwnSession : (l : Ledger J) (r : Receipt J) → IsOwnSession l → IsOwnSession (apply l r)
  unfolding apply
  apply-IsOwnSession l r h id q e = elim (insert-IsOldOrNew id r l.by_session) [
    | inl old ↦ h id q (sym old ∙ e)
    | inr new ↦ ap (λ x. x.session) (some_same e new.1) ∙ new.0
  ]

  scan_line-own :
      (size : Receipt J → ℕ) (o : LedgerError ⊎ Ledger J) (r : Receipt J)
      → AllOwn o
      → AllOwn (scan_line size o r)
  unfolding scan_line
  scan_line-own size (inl err) r h = tt
  scan_line-own size (inr l) r h = elim (Bool-cases (is_long size r)) [
    | inl b ↦ rw b tt
    | inr b ↦ rw b (by_check (validate l r))
  ]
    where
      by_check : (o : Option LedgerError) → AllOwn (checked l r o)
      by_check (some err) = unfold checked in tt
      by_check none = unfold checked in apply-IsOwnSession l r h

  scan-own :
      (size : Receipt J → ℕ) (o : LedgerError ⊎ Ledger J) (rs : List (Receipt J))
      → AllOwn o
      → AllOwn (scan size o rs)
  unfolding scan
  scan-own size o [] h = h
  scan-own size o (r ∷ rs) h = scan-own size (scan_line size o r) rs (scan_line-own size o r h)

  -- Every opened ledger is such.
  pub open_ledger-IsOwnSession :
      (size : Receipt J → ℕ) (most : ℕ) (f : JournalFile J) (l : Ledger J)
      → open_ledger size most f ≡ inr l
      → IsOwnSession l
  unfolding open_ledger
  open_ledger-IsOwnSession size most f l e =
      subst AllOwn (scan-opened f.has_partial (scan size (inr (empty_ledger most f)) f.lines) l e).1
        (scan-own size (inr (empty_ledger most f)) f.lines (λ id r h. absurd (nothing id r h)))
    where
      nothing : (id : String) (r : Receipt J) → lookup id [] ≡ some r → ⊥
      nothing id r h = unfold lookup in cc

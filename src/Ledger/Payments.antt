-- ===== src/Ledger/Payments.antt =====
-- On internal/fastlane/store.go: which session owns a payment.
use concert.Prelude.{
  ℕ, zero, suc, ◌≡◌, refl, sym, ap, ◌∙◌, ◌⊎◌, inl, inr, Bool, true, false, not, Option, none, some,
  List, [], ◌∷◌, arith, get_elem?, if◌then◌else◌, String, ◌==◌, ==_iff, string_eq, Bool-cases, All,
}
use mathlib.Core.Path.{subst}
use concert.Prelude.Table.{Table, lookup, insert}
use concert.Prelude.Table.Laws.{lookup-insert, lookup-insert_self}
use concert.Ledger.Reopen.{Reach-opens}
use concert.Ledger.Replay.{Reach, scan-opened}
use concert.Ledger.{
  Receipt, LedgerError, JournalFile, Ledger, validate, apply, checked, is_long, scan_line, scan,
  open_ledger, empty_ledger, transaction_key, other_owner,
}

some_same : {A : Type 0} (o : Option A) (a b : A) → o ≡ some a → o ≡ some b → a ≡ b
some_same o a b e h = cc

-- An owner that is not another one is the same.
same_owner : (o : Option String) (a b : String) → other_owner o a ≡ false → o ≡ some b → b ≡ a
same_owner none a b h e = absurd (cc)
same_owner (some c) a b h e = sym (inside e) ∙ (==_iff c a).0 (unnot (c == a) h)
  where
    inside : some c ≡ some b → c ≡ b
    inside e = cc

    unnot : (t : Bool) → not t ≡ false → t ≡ true
    unnot t h = ground arith

-- A write that is not refused keeps the owners that are there.
insert_keeps :
    (k j a b : String) (m : Table String String)
    → other_owner (lookup k m) a ≡ false
    → lookup j m ≡ some b
    → lookup j (insert k a m) ≡ some b
insert_keeps k j a b m h e = lookup-insert k j a m ∙ by_key
  where
    by_key : (if k == j then some a else lookup j m) ≡ some b
    by_key = elim (Bool-cases (k == j)) [
      | inl s ↦ rw s (
          ap some
            (sym (same_owner (lookup k m) a b h (ap (λ x. lookup x m) ((==_iff k j).0 s) ∙ e))))
      | inr s ↦ rw s e
    ]

All-get_elem {ℓ κ} :
    {A : Type ℓ} (P : A → Type κ) (xs : List A) (i : ℕ) (x : A)
    → All P xs
    → get_elem? xs i ≡ some x
    → P x
All-get_elem P [] i x h e = absurd (cc)
All-get_elem P (y ∷ xs) zero x h e = subst P (inside e) h.0
  where
    inside : some y ≡ some x → y ≡ x
    inside e = cc
All-get_elem P (y ∷ xs) (suc i) x h e = All-get_elem P xs i x h.1 e

module _ {J : Type 0} where
  -- The ledger's maps hold the receipt's ownership.
  pub record IsOwned (l : Ledger J) (r : Receipt J) : Type 0 where
    pub by_session : lookup r.fingerprint l.by_fingerprint ≡ some r.session
    pub by_payment :
        (r.transaction == "") ≡ false
        → lookup (transaction_key r) l.by_transaction ≡ some r.fingerprint

  -- What passing `validate` says of the maps.
  pub record IsFree (l : Ledger J) (r : Receipt J) : Type 0 where
    pub session_free : other_owner (lookup r.fingerprint l.by_fingerprint) r.session ≡ false
    pub payment_free :
        (r.transaction == "") ≡ false
        → other_owner (lookup (transaction_key r) l.by_transaction) r.fingerprint ≡ false

  validate-IsFree : (l : Ledger J) (r : Receipt J) → validate l r ≡ none → IsFree l r
  unfolding validate
  validate-IsFree l r e = record { session_free = ground arith; payment_free = λ t. ground arith }

  IsOwned-apply :
      (l : Ledger J) (r q : Receipt J) → IsFree l r → IsOwned l q → IsOwned (apply l r) q
  unfolding apply
  IsOwned-apply l r q f o = record {
    by_session =
        insert_keeps r.fingerprint q.fingerprint r.session q.session l.by_fingerprint f.session_free
          o.by_session;
    by_payment = λ t. elim (Bool-cases (r.transaction == "")) [
      | inl e ↦ rw e (o.by_payment t)
      | inr e ↦ rw e (
          insert_keeps (transaction_key r) (transaction_key q) r.fingerprint q.fingerprint
            l.by_transaction (f.payment_free e) (o.by_payment t))
    ];
  }

  IsOwned-apply_self : (l : Ledger J) (r : Receipt J) → IsOwned (apply l r) r
  unfolding apply
  IsOwned-apply_self l r = record {
    by_session = lookup-insert_self r.fingerprint r.session l.by_fingerprint;
    by_payment = λ t. rw t (lookup-insert_self (transaction_key r) r.fingerprint l.by_transaction);
  }

  -- The scan has read the lines into this state, or refused one of them.
  abbrev OwnsAll : List (Receipt J) → LedgerError ⊎ Ledger J → Type 0
  OwnsAll rs (inl err) = Unit
  OwnsAll rs (inr l) = All (IsOwned l) rs

  All-IsOwned-apply :
      (l : Ledger J) (r : Receipt J) (rs : List (Receipt J))
      → IsFree l r
      → All (IsOwned l) rs
      → All (IsOwned (apply l r)) rs
  All-IsOwned-apply l r [] f h = tt
  All-IsOwned-apply l r (q ∷ rs) f h = (IsOwned-apply l r q f h.0, All-IsOwned-apply l r rs f h.1)

  OwnsAll-checked :
      (l : Ledger J) (r : Receipt J) (rs : List (Receipt J)) (o : Option LedgerError)
      → validate l r ≡ o
      → All (IsOwned l) rs
      → OwnsAll (r ∷ rs) (checked l r o)
  unfolding checked
  OwnsAll-checked l r rs (some err) e h = tt
  OwnsAll-checked l r rs none e h =
      (IsOwned-apply_self l r, All-IsOwned-apply l r rs (validate-IsFree l r e) h)

  OwnsAll-scan_line :
      (size : Receipt J → ℕ) (o : LedgerError ⊎ Ledger J) (r : Receipt J) (rs : List (Receipt J))
      → OwnsAll rs o
      → OwnsAll (r ∷ rs) (scan_line size o r)
  unfolding scan_line
  OwnsAll-scan_line size (inl err) r rs h = tt
  OwnsAll-scan_line size (inr l) r rs h = elim (Bool-cases (is_long size r)) [
    | inl b ↦ rw b tt
    | inr b ↦ rw b (OwnsAll-checked l r rs (validate l r) refl h)
  ]

  OwnsAll-join :
      (r : Receipt J) (done rs : List (Receipt J)) (o : LedgerError ⊎ Ledger J)
      → OwnsAll (r ∷ done) o × OwnsAll rs o
      → OwnsAll done o × OwnsAll (r ∷ rs) o
  OwnsAll-join r done rs (inl err) h = (tt, tt)
  OwnsAll-join r done rs (inr l) h = (h.0.1, (h.0.0, h.1))

  OwnsAll-nil : (o : LedgerError ⊎ Ledger J) → OwnsAll [] o
  OwnsAll-nil (inl err) = tt
  OwnsAll-nil (inr l) = tt

  OwnsAll-scan :
      (size : Receipt J → ℕ) (o : LedgerError ⊎ Ledger J) (done rs : List (Receipt J))
      → OwnsAll done o
      → OwnsAll done (scan size o rs) × OwnsAll rs (scan size o rs)
  unfolding scan
  OwnsAll-scan size o done [] h = (h, OwnsAll-nil o)
  OwnsAll-scan size o done (r ∷ rs) h =
      OwnsAll-join r done rs (scan size (scan_line size o r) rs)
        (OwnsAll-scan size (scan_line size o r) (r ∷ done) rs (OwnsAll-scan_line size o r done h))

  opened-IsOwned :
      (size : Receipt J → ℕ) (most : ℕ) (f : JournalFile J) (l : Ledger J)
      → open_ledger size most f ≡ inr l
      → All (IsOwned l) f.lines
  unfolding open_ledger
  opened-IsOwned size most f l e =
      let read = scan-opened f.has_partial (scan size (inr (empty_ledger most f)) f.lines) l e in
      subst (OwnsAll f.lines) read.1 (OwnsAll-scan size (inr (empty_ledger most f)) [] f.lines tt).1

  -- Two receipts carry the same payment: one fingerprint, or one transaction of one network.
  pub data SamePayment (r q : Receipt J) : Type 0 where
    fingerprint : r.fingerprint ≡ q.fingerprint → SamePayment r q
    transaction :
        (r.transaction == "") ≡ false
        → (q.transaction == "") ≡ false
        → transaction_key r ≡ transaction_key q
        → SamePayment r q

  owned-session :
      (l : Ledger J) (r q : Receipt J)
      → IsOwned l r
      → IsOwned l q
      → r.fingerprint ≡ q.fingerprint
      → r.session ≡ q.session
  owned-session l r q o p e =
      some_same (lookup q.fingerprint l.by_fingerprint) r.session q.session
        (ap (λ x. lookup x l.by_fingerprint) (sym e) ∙ o.by_session) p.by_session

  owned-same :
      (l : Ledger J) (r q : Receipt J)
      → IsOwned l r
      → IsOwned l q
      → SamePayment r q
      → r.session ≡ q.session
  owned-same l r q o p (fingerprint e) = owned-session l r q o p e
  owned-same l r q o p (transaction t u e) = owned-session l r q o p (
      some_same (lookup (transaction_key q) l.by_transaction) r.fingerprint q.fingerprint
        (ap (λ x. lookup x l.by_transaction) (sym e) ∙ o.by_payment t) (p.by_payment u))

  -- In a journal that opens, two lines that carry the same payment are of the same session: no
  -- payment admits two visitors.
  pub open_ledger-one_session :
      (size : Receipt J → ℕ) (most : ℕ) (f : JournalFile J) (l : Ledger J) (i j : ℕ)
      (r q : Receipt J)
      → open_ledger size most f ≡ inr l
      → get_elem? f.lines i ≡ some r
      → get_elem? f.lines j ≡ some q
      → SamePayment r q
      → r.session ≡ q.session
  open_ledger-one_session size most f l i j r q e a b s =
      let owned = opened-IsOwned size most f l e in
      owned-same l r q (All-get_elem (IsOwned l) f.lines i r owned a)
        (All-get_elem (IsOwned l) f.lines j q owned b) s

  -- In the file of every ledger that was opened and then used in any way, failed appends included,
  -- and that is not suspended: two receipts that carry the same payment (one fingerprint, or one
  -- transaction of one network) are of the same session, so no payment admits two visitors.
  pub Reach-one_session :
      {size : Receipt J → ℕ} {most : ℕ} {f : JournalFile J} {l : Ledger J} (i j : ℕ)
      (r q : Receipt J)
      → Reach size most f l
      → l.bad ≡ none
      → get_elem? l.file.lines i ≡ some r
      → get_elem? l.file.lines j ≡ some q
      → SamePayment r q
      → r.session ≡ q.session
  Reach-one_session {l = l} i j r q h g a b s =
      open_ledger-one_session (λ r. 0) l.max l.file l i j r q (Reach-opens h g) a b s

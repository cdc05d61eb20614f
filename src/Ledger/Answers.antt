-- ===== src/Ledger/Answers.antt =====
-- On internal/fastlane/store.go: what `write` answers, and the limit on receipts.
use concert.Prelude.{
  ◌≡◌, ◌≤◌, refl, inl, inr, false, ◌&&◌, Option, none, some, arith, leb, length, String, string_eq,
  Bool-cases,
}
use concert.Prelude.Table.{lookup, insert}
use concert.Prelude.Table.Laws.{lookup-insert_self, length-insert_new, length-insert_old}
use concert.Ledger.{
  Receipt, Suspended, LedgerError, Ledger, Append, unmarshalled, wrote_nothing, wrote_part,
  wrote_all, sync_lost, durable, validate, apply, append_line, is_new, write_valid, write_unless,
  write, get, fingerprint_of,
}

module _ {J : Type 0} where
  answered-durable :
      (l : Ledger J) (r : Receipt J) (disk : Append)
      → (append_line l r disk).0 ≡ none
      → (lookup r.session (append_line l r disk).1.by_session ≡ some r)
        × (lookup r.fingerprint (append_line l r disk).1.receipts ≡ some r)
  unfolding append_line apply
  answered-durable l r unmarshalled h = absurd (cc)
  answered-durable l r wrote_nothing h = absurd (cc)
  answered-durable l r wrote_part h = absurd (cc)
  answered-durable l r wrote_all h = absurd (cc)
  answered-durable l r sync_lost h = absurd (cc)
  answered-durable l r durable h =
      (lookup-insert_self r.session r l.by_session, lookup-insert_self r.fingerprint r l.receipts)

  answered-valid :
      (l : Ledger J) (r : Receipt J) (disk : Append) (o : Option LedgerError)
      → (write_valid l r disk o).0 ≡ none
      → (lookup r.session (write_valid l r disk o).1.by_session ≡ some r)
        × (lookup r.fingerprint (write_valid l r disk o).1.receipts ≡ some r)
  unfolding write_valid
  answered-valid l r disk (some err) = λ h. absurd (cc)
  answered-valid l r disk none =
      elim (Bool-cases
        (is_new (lookup r.fingerprint l.by_fingerprint) && leb l.max (length l.by_fingerprint))) [
          | inl c ↦ rw c (λ h. absurd (refused h))
          | inr c ↦ rw c (answered-durable l r disk)
        ]
    where
      refused : some LedgerError.capacity_reached ≡ none → ⊥
      refused h = cc

  answered-unless :
      (l : Ledger J) (r : Receipt J) (disk : Append) (o : Option Suspended)
      → (write_unless l r disk o).0 ≡ none
      → (lookup r.session (write_unless l r disk o).1.by_session ≡ some r)
        × (lookup r.fingerprint (write_unless l r disk o).1.receipts ≡ some r)
  unfolding write_unless
  answered-unless l r disk (some why) h = absurd (cc)
  answered-unless l r disk none h = answered-valid l r disk (validate l r) h

  -- A write that answers no error is read back by its session and by its fingerprint.
  pub get-write :
      (l : Ledger J) (r : Receipt J) (disk : Append)
      → (write l r disk).0 ≡ none
      → (get (write l r disk).1 r.session ≡ some r)
        × (fingerprint_of (write l r disk).1 r.fingerprint ≡ some r)
  unfolding write get fingerprint_of
  get-write l r disk h = answered-unless l r disk l.bad h

  -- At most `max` payments have a receipt.
  abbrev pub IsBounded : Ledger J → Type 0
  IsBounded l = length l.by_fingerprint ≤ l.max

  apply-IsBounded :
      (l : Ledger J) (r : Receipt J) (o : Option String)
      → lookup r.fingerprint l.by_fingerprint ≡ o
      → (is_new o && leb l.max (length l.by_fingerprint)) ≡ false
      → IsBounded l
      → length (insert r.fingerprint r.session l.by_fingerprint) ≤ l.max
  apply-IsBounded l r none e c h =
      ground (arith, length-insert_new r.fingerprint r.session l.by_fingerprint e)
  apply-IsBounded l r (some s) e c h =
      ground (arith, length-insert_old r.fingerprint r.session s l.by_fingerprint e)

  append_line-IsBounded :
      (l : Ledger J) (r : Receipt J) (disk : Append)
      → length (insert r.fingerprint r.session l.by_fingerprint) ≤ l.max
      → IsBounded l
      → IsBounded (append_line l r disk).1
  unfolding append_line apply
  append_line-IsBounded l r unmarshalled n h = h
  append_line-IsBounded l r wrote_nothing n h = h
  append_line-IsBounded l r wrote_part n h = h
  append_line-IsBounded l r wrote_all n h = h
  append_line-IsBounded l r sync_lost n h = h
  append_line-IsBounded l r durable n h = n

  write_valid-IsBounded :
      (l : Ledger J) (r : Receipt J) (disk : Append) (o : Option LedgerError)
      → IsBounded l
      → IsBounded (write_valid l r disk o).1
  unfolding write_valid
  write_valid-IsBounded l r disk (some err) h = h
  write_valid-IsBounded l r disk none h =
      elim (Bool-cases
        (is_new (lookup r.fingerprint l.by_fingerprint) && leb l.max (length l.by_fingerprint))) [
          | inl c ↦ rw c h
          | inr c ↦ rw c (append_line-IsBounded l r disk (apply-IsBounded l r _ refl c h) h)
        ]

  write_unless-IsBounded :
      (l : Ledger J) (r : Receipt J) (disk : Append) (o : Option Suspended)
      → IsBounded l
      → IsBounded (write_unless l r disk o).1
  unfolding write_unless
  write_unless-IsBounded l r disk (some why) h = h
  write_unless-IsBounded l r disk none h = write_valid-IsBounded l r disk (validate l r) h

  -- No write takes the ledger past its limit, whatever the disk does.
  pub write-IsBounded :
      (l : Ledger J) (r : Receipt J) (disk : Append) → IsBounded l → IsBounded (write l r disk).1
  unfolding write
  write-IsBounded l r disk h = write_unless-IsBounded l r disk l.bad h

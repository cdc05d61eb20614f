-- ===== src/Ledger.antt =====
-- internal/fastlane/store.go: the append-only ledger of fast-lane payments. The file is the list of
-- its whole lines and whether a partial line follows them; its four maps are rebuilt from it. What
-- encoding/json and the disk do to one append is an input of `write`, and `size` is the length of a
-- receipt as a line. `J` is the type of the
-- untyped JSON that a receipt carries along. A Go `time.Time` is a number of nanoseconds.
pub mod Replay
pub mod Reopen
pub mod Payments
pub mod Answers
mod Tests
use concert.Prelude.{
  ℕ, zero, suc, Bool, true, false, not, ◌&&◌, ◌||◌, Option, none, some, List, [], ◌∷◌, ◌++◌, ◌⊎◌,
  inl, inr, leb, length, if◌then◌else◌, String, ◌==◌, string_eq,
}
use concert.Prelude.Table.{Table, lookup, insert}
use Prim.Native.String.{◌++◌ as join}

pub record Requirements (J : Type 0) : Type 0 where
  pub scheme : String
  pub network : String
  pub amount : String
  pub asset : String
  pub pay_to : String
  pub max_timeout_seconds : ℕ
  pub extra : Table String J

pub record Settlement : Type 0 where
  pub success : Bool
  pub error_reason : String
  pub transaction : String
  pub network : String
  pub payer : String

pub record Receipt (J : Type 0) : Type 0 where
  pub session : String
  pub fingerprint : String
  pub state : String
  pub kind : String
  pub network : String
  pub payer : String
  pub requirements : Requirements J
  pub transaction : String
  pub policy_id : String
  pub started : ℕ
  pub settled : ℕ
  pub expires : ℕ
  pub response : Option Settlement

-- Why writes are refused for good.
pub data Suspended : Type 0 where
  write_failed sync_failed closed : Suspended

pub data LedgerError : Type 0 where
  suspended : Suspended → LedgerError
  incomplete_receipt invalid_state payment_replay transaction_redeemed : LedgerError
  capacity_reached marshal_failed incomplete_journal line_too_long : LedgerError

pub record JournalFile (J : Type 0) : Type 0 where
  pub lines : List (Receipt J)
  pub has_partial : Bool

pub record Ledger (J : Type 0) : Type 0 where
  pub bad : Option Suspended
  pub max : ℕ
  pub by_session : Table String (Receipt J)
  pub by_fingerprint : Table String String
  pub receipts : Table String (Receipt J)
  pub by_transaction : Table String String
  pub file : JournalFile J

-- What happens to one append: the receipt does not marshal, the write stops having left nothing, a
-- part of the line or all of it, the sync fails, or the line is durable.
pub data Append : Type 0 where
  unmarshalled wrote_nothing wrote_part wrote_all sync_lost durable : Append

-- r.Network + ":" + r.Transaction
abbrev pub transaction_key : {J : Type 0} → Receipt J → String
transaction_key r = join r.network (join ":" r.transaction)

-- if s, ok := m[key]; ok && s != owner
abbrev pub other_owner : Option String → String → Bool
other_owner none owner = false
other_owner (some s) owner = not (s == owner)

abbrev pub is_new : Option String → Bool
is_new none = true
is_new (some _) = false

-- s.Buffer(make([]byte, 4096), 128<<10)
abbrev pub max_line : ℕ
max_line = 131072

module _ {J : Type 0} where
  unfoldable pub validate : Ledger J → Receipt J → Option LedgerError
  validate l r =
      if (r.session == "") || ((r.fingerprint == "") || (r.network == ""))
      then some incomplete_receipt
      else if not (r.state == "pending")
          && (not (r.state == "settled") && not (r.state == "unknown"))
      then some invalid_state
      else if other_owner (lookup r.fingerprint l.by_fingerprint) r.session
      then some payment_replay
      else if not (r.transaction == "")
          && other_owner (lookup (transaction_key r) l.by_transaction) r.fingerprint
      then some transaction_redeemed
      else none

  -- apply, on a ledger whose file already holds the line
  unfoldable pub apply : Ledger J → Receipt J → Ledger J
  apply l r = record l {
    by_session = insert r.session r l.by_session;
    by_fingerprint = insert r.fingerprint r.session l.by_fingerprint;
    receipts = insert r.fingerprint r l.receipts;
    by_transaction =
        if not (r.transaction == "")
        then insert (transaction_key r) r.fingerprint l.by_transaction
        else l.by_transaction;
  }

  unfoldable pub checked : Ledger J → Receipt J → Option LedgerError → LedgerError ⊎ Ledger J
  checked l r (some err) = inl err
  checked l r none = inr (apply l r)

  -- A line of 128 KiB ends the scan with bufio.ErrTooLong. `size` is the number of bytes that
  -- encoding/json makes of a receipt.
  abbrev pub is_long : (Receipt J → ℕ) → Receipt J → Bool
  is_long size r = leb max_line (size r)

  -- One turn of the scan in openLedger.
  unfoldable pub scan_line :
      (Receipt J → ℕ) → LedgerError ⊎ Ledger J → Receipt J → LedgerError ⊎ Ledger J
  unfolding checked
  scan_line size (inl err) r = inl err
  scan_line size (inr l) r =
      if is_long size r then inl line_too_long else checked l r (validate l r)

  unfoldable pub scan :
      (Receipt J → ℕ) → LedgerError ⊎ Ledger J → List (Receipt J) → LedgerError ⊎ Ledger J
  unfolding scan_line
  scan size o [] = o
  scan size o (r ∷ rs) = scan size (scan_line size o r) rs

  unfoldable pub refuse_partial : Bool → LedgerError ⊎ Ledger J → LedgerError ⊎ Ledger J
  refuse_partial partial (inl err) = inl err
  refuse_partial partial (inr l) = if partial then inl incomplete_journal else inr l

  abbrev pub empty_ledger : ℕ → JournalFile J → Ledger J
  empty_ledger most f = record {
    bad = none;
    max = most;
    by_session = [];
    by_fingerprint = [];
    receipts = [];
    by_transaction = [];
    file = f;
  }

  -- openLedger, once the directory, the lock and the file are there
  unfoldable pub open_ledger : (Receipt J → ℕ) → ℕ → JournalFile J → LedgerError ⊎ Ledger J
  unfolding scan refuse_partial
  open_ledger size most f =
      refuse_partial f.has_partial (scan size (inr (empty_ledger most f)) f.lines)

  abbrev pub with_line : Receipt J → Ledger J → Ledger J
  with_line r l = record l {
    file = record { lines = l.file.lines ++ (r ∷ []); has_partial = l.file.has_partial };
  }

  abbrev pub suspend : Suspended → Ledger J → Option LedgerError × Ledger J
  suspend why l = (some (suspended why), record l { bad = some why })

  unfoldable pub append_line : Ledger J → Receipt J → Append → Option LedgerError × Ledger J
  append_line l r unmarshalled = (some marshal_failed, l)
  append_line l r wrote_nothing = suspend write_failed l
  append_line l r wrote_part =
      suspend write_failed (record l { file = record { lines = l.file.lines; has_partial = true } })
  append_line l r wrote_all = suspend write_failed (with_line r l)
  append_line l r sync_lost = suspend sync_failed (with_line r l)
  append_line l r durable = (none, apply (with_line r l) r)

  unfoldable pub write_valid :
      Ledger J → Receipt J → Append → Option LedgerError → Option LedgerError × Ledger J
  unfolding append_line
  write_valid l r disk (some err) = (some err, l)
  write_valid l r disk none =
      if is_new (lookup r.fingerprint l.by_fingerprint) && leb l.max (length l.by_fingerprint)
      then (some capacity_reached, l)
      else append_line l r disk

  unfoldable pub write_unless :
      Ledger J → Receipt J → Append → Option Suspended → Option LedgerError × Ledger J
  unfolding write_valid
  write_unless l r disk (some why) = (some (suspended why), l)
  write_unless l r disk none = write_valid l r disk (validate l r)

  unfoldable pub write : Ledger J → Receipt J → Append → Option LedgerError × Ledger J
  unfolding write_unless
  write l r disk = write_unless l r disk l.bad

  unfoldable pub get : Ledger J → String → Option (Receipt J)
  get l s = lookup s l.by_session

  unfoldable pub fingerprint_of : Ledger J → String → Option (Receipt J)
  fingerprint_of l fp = lookup fp l.receipts

  unfoldable pub healthy : Ledger J → Bool
  healthy l = elim l.bad [ none ↦ true | some _ ↦ false ]

  unfoldable pub close : Ledger J → Ledger J
  close l = elim l.bad [ none ↦ record l { bad = some closed } | some _ ↦ l ]

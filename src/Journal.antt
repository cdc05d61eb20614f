-- ===== src/Journal.antt =====
-- internal/gateway/journal.go: the gateway's settlement log, a JSON-lines file in which the latest
-- line of an authorization wins. As in Ledger.antt, the file is the list of its whole lines and
-- whether a partial line follows them, and what encoding/json and the disk do to an append is an
-- input. A `json.RawMessage` is its bytes and a Go `time.Time` a number of nanoseconds.
pub mod Settled
pub mod Restart
pub mod Reopen
mod Tests
use concert.Prelude.{
  ℕ, Bool, true, false, not, ◌&&◌, ◌||◌, Option, none, some, List, [], ◌∷◌, ◌++◌, ◌⊎◌, leb, inl,
  inr, if◌then◌else◌, String, ◌==◌, string_eq,
}
use concert.Prelude.Table.{Table, lookup, insert}

pub record SettleResponse : Type 0 where
  pub success : Bool
  pub error_reason : String
  pub transaction : String
  pub network : String
  pub payer : String

pub record Record : Type 0 where
  pub id : String
  pub terms : List ℕ
  pub payload : List ℕ
  pub payer : String
  pub state : String
  pub response : Option SettleResponse
  pub created : ℕ
  pub updated : ℕ

pub data Suspended : Type 0 where
  write_failed sync_failed closed : Suspended

pub data JournalError : Type 0 where
  suspended : Suspended → JournalError
  incomplete_journal invalid_line invalid_state regresses already_settled marshal_failed
        line_too_long :
      JournalError

pub record JournalFile : Type 0 where
  pub lines : List Record
  pub has_partial : Bool

pub record Journal : Type 0 where
  pub bad : Option Suspended
  pub records : Table String Record
  pub file : JournalFile

-- What happens to one append: the record does not marshal, the write stops having left nothing, a
-- part of the line or all of it, the sync fails, or the line is durable.
pub data Append : Type 0 where
  unmarshalled wrote_nothing wrote_part wrote_all sync_lost durable : Append

-- prev, ok := j.records[id]; ok && prev.State == "settled"
abbrev pub is_settled : Option Record → Bool
is_settled none = false
is_settled (some prev) = prev.state == "settled"

-- The tests of one line in OpenJournal.
unfoldable pub line_error : Journal → Record → Option JournalError
line_error j r =
    if r.id == ""
    then some invalid_line
    else if not (r.state == "pending") && (not (r.state == "settled") && not (r.state == "unknown"))
    then some invalid_state
    else if is_settled (lookup r.id j.records) && not (r.state == "settled")
    then some regresses
    else none

-- j.records[r.ID] = r
unfoldable pub remember : Record → Journal → Journal
remember r j = record j { records = insert r.id r j.records }

unfoldable pub scan_checked : Journal → Record → Option JournalError → JournalError ⊎ Journal
scan_checked j r (some err) = inl err
scan_checked j r none = inr (remember r j)

-- s.Buffer(make([]byte, 64<<10), 1<<20)
abbrev pub max_line : ℕ
max_line = 1048576

-- A line of 1 MiB ends the scan with bufio.ErrTooLong. `size` is the number of bytes that
-- encoding/json makes of a record.
abbrev pub is_long : (Record → ℕ) → Record → Bool
is_long size r = leb max_line (size r)

unfoldable pub scan_line : (Record → ℕ) → JournalError ⊎ Journal → Record → JournalError ⊎ Journal
unfolding scan_checked
scan_line size (inl err) r = inl err
scan_line size (inr j) r =
    if is_long size r then inl line_too_long else scan_checked j r (line_error j r)

unfoldable pub scan : (Record → ℕ) → JournalError ⊎ Journal → List Record → JournalError ⊎ Journal
unfolding scan_line
scan size o [] = o
scan size o (r ∷ rs) = scan size (scan_line size o r) rs

abbrev pub empty_journal : JournalFile → Journal
empty_journal f = record { bad = none; records = []; file = f }

-- OpenJournal, once the directory, the lock and the file are there
unfoldable pub open_journal : (Record → ℕ) → JournalFile → JournalError ⊎ Journal
unfolding scan
open_journal size f =
    if f.has_partial then inl incomplete_journal else scan size (inr (empty_journal f)) f.lines

unfoldable pub get : Journal → String → Option Record
get j id = lookup id j.records

abbrev pub with_line : Record → Journal → Journal
with_line r j = record j {
  file = record { lines = j.file.lines ++ (r ∷ []); has_partial = j.file.has_partial };
}

abbrev pub suspend : Suspended → Journal → Option JournalError × Journal
suspend why j = (some (suspended why), record j { bad = some why })

unfoldable pub append_line : Journal → Record → Append → Option JournalError × Journal
append_line j r unmarshalled = (some marshal_failed, j)
append_line j r wrote_nothing = suspend write_failed j
append_line j r wrote_part =
    suspend write_failed (record j { file = record { lines = j.file.lines; has_partial = true } })
append_line j r wrote_all = suspend write_failed (with_line r j)
append_line j r sync_lost = suspend sync_failed (with_line r j)
append_line j r durable = (none, remember r (with_line r j))

unfoldable pub write_open :
    Journal → Record → ℕ → Append → Option Suspended → Option JournalError × Journal
unfolding append_line
write_open j r now disk (some why) = (some (suspended why), j)
write_open j r now disk none =
    if is_settled (lookup r.id j.records)
    then (some already_settled, j)
    else append_line j (record r { updated = now }) disk

unfoldable pub write : Journal → Record → ℕ → Append → Option JournalError × Journal
unfolding write_open
write j r now disk = write_open j r now disk j.bad

unfoldable pub close : Journal → Journal
close j = elim j.bad [ none ↦ record j { bad = some closed } | some _ ↦ j ]

-- ===== src/Ledger/Tests.antt =====
-- A visitor pays, the payment settles, and the theorems at this run.
use concert.Prelude.{
  ℕ, ◌≤◌, ◌≡◌, refl, Bool, false, Option, none, some, List, [], ◌∷◌, get_elem?, inl, inr, String,
  arith, length, ◌⊎◌,
}
use concert.Ledger.{
  Requirements, Receipt, JournalFile, Ledger, Append, durable, open_ledger, empty_ledger, write,
  get, fingerprint_of, line_too_long, LedgerError,
}
use concert.Ledger.Replay.{writes, Reach, opens, next, has_long, restarted}
use concert.Ledger.Reopen.{Reach-Restarts}
use concert.Ledger.Payments.{fingerprint, Reach-one_session}
use concert.Ledger.Answers.{get-write, IsBounded, write-IsBounded}

abbrev price : Requirements ℕ
price = record {
  scheme = "exact";
  network = "base";
  amount = "100";
  asset = "usdc";
  pay_to = "venue";
  max_timeout_seconds = 60;
  extra = [];
}

abbrev receipt : String → Receipt ℕ
receipt at = record {
  session = "s1";
  fingerprint = "f1";
  state = at;
  kind = "user";
  network = "base";
  payer = "alice";
  requirements = price;
  transaction = "t1";
  policy_id = "";
  started = 1;
  settled = 0;
  expires = 0;
  response = none;
}

abbrev blank_file : JournalFile ℕ
blank_file = record { lines = []; has_partial = false }

abbrev opened : Ledger ℕ
opened = empty_ledger 2 blank_file

opened_result : open_ledger (λ r. 300) 2 blank_file ≡ inr opened
unfolding open_ledger
opened_result = refl

abbrev pending : Ledger ℕ
pending = (write opened (receipt "pending") durable).1

abbrev settled : Ledger ℕ
settled = (write pending (receipt "settled") durable).1

settled-Reach : Reach (λ r. 300) 2 blank_file settled
settled-Reach =
    next (next (opens opened opened_result) (writes (receipt "pending") durable))
      (writes (receipt "settled") durable)

settled_healthy : settled.bad ≡ none
unfolding write concert.Ledger.validate concert.Prelude.Table.lookup concert.Ledger.apply
    concert.Prelude.Table.insert
settled_healthy = refl

Reach-Restarts_example :
    open_ledger (λ r. 300) settled.max settled.file
    ≡ restarted (has_long (λ r. 300) settled.file.lines) settled
Reach-Restarts_example = Reach-Restarts settled-Reach settled_healthy

-- The same lines, of 128 KiB each.
long_lines :
    open_ledger (λ r. 131072) 2 (record { lines = receipt "pending" ∷ []; has_partial = false })
    ≡ inl line_too_long
unfolding open_ledger
long_lines = refl

first_line : get_elem? settled.file.lines 0 ≡ some (receipt "pending")
unfolding write concert.Ledger.validate concert.Prelude.Table.lookup concert.Ledger.apply
    concert.Prelude.Table.insert
first_line = refl

second_line : get_elem? settled.file.lines 1 ≡ some (receipt "settled")
unfolding write concert.Ledger.validate concert.Prelude.Table.lookup concert.Ledger.apply
    concert.Prelude.Table.insert
second_line = refl

Reach-one_session_example : (receipt "pending").session ≡ (receipt "settled").session
Reach-one_session_example =
    Reach-one_session 0 1 (receipt "pending") (receipt "settled") settled-Reach settled_healthy
      first_line second_line (fingerprint refl)

settled_file :
    settled.file
    ≡ record { lines = receipt "pending" ∷ receipt "settled" ∷ []; has_partial = false }
unfolding write concert.Ledger.validate concert.Prelude.Table.lookup concert.Ledger.apply
    concert.Prelude.Table.insert
settled_file = refl

written : (write pending (receipt "settled") durable).0 ≡ none
unfolding write concert.Ledger.validate concert.Prelude.Table.lookup concert.Ledger.apply
    concert.Prelude.Table.insert
written = refl

get-write_example :
    (get settled "s1" ≡ some (receipt "settled"))
    × (fingerprint_of settled "f1" ≡ some (receipt "settled"))
get-write_example = get-write pending (receipt "settled") durable written

pending_count : IsBounded pending
unfolding write concert.Ledger.validate concert.Prelude.Table.lookup concert.Ledger.apply
    concert.Prelude.Table.insert
pending_count = one_or_two
  where
    size : length pending.by_fingerprint ≡ 1
    size = refl

    limit : pending.max ≡ 2
    limit = refl

    one_or_two : length pending.by_fingerprint ≤ pending.max
    one_or_two = omega (arith, size, limit)

write-IsBounded_example : IsBounded settled
write-IsBounded_example = write-IsBounded pending (receipt "settled") durable pending_count

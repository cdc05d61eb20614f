-- ===== src/Journal/Tests.antt =====
-- An authorization is recorded and settles, and the theorems at this run.
use concert.Prelude.{
  ℕ, ◌≡◌, refl, Bool, true, false, Option, none, some, List, [], ◌∷◌, inl, inr, String, ◌==◌,
  string_eq,
}
use concert.Prelude.Table.{lookup}
use concert.Journal.{
  Record, JournalFile, Journal, JournalError, Append, durable, empty_journal, open_journal, write,
  already_settled,
}
use concert.Journal.Settled.{writes, Reach, here, next, HoldsSettled, Reach-HoldsSettled}
use concert.Journal.Reopen.{has_long, restarted}
use concert.Journal.Restart.{journal_restarts}

abbrev authorization : String → ℕ → Record
authorization at now = record {
  id = "a1";
  terms = [];
  payload = [];
  payer = "alice";
  state = at;
  response = none;
  created = 1;
  updated = now;
}

abbrev blank_file : JournalFile
blank_file = record { lines = []; has_partial = false }

abbrev opened : Journal
opened = empty_journal blank_file

opened_result : open_journal (λ r. 300) blank_file ≡ inr opened
unfolding open_journal
opened_result = refl

abbrev pending : Journal
pending = (write opened (authorization "pending" 0) 5 durable).1

abbrev settled : Journal
settled = (write pending (authorization "settled" 0) 6 durable).1

abbrev later : Journal
later = (write settled (authorization "unknown" 0) 7 durable).1

later_refused : (write settled (authorization "unknown" 0) 7 durable).0 ≡ some already_settled
unfolding write lookup concert.Journal.remember concert.Prelude.Table.insert
later_refused = refl

settled-Reach : Reach opened settled
settled-Reach =
    next
      (next here
        (writes (authorization "pending" 0) 5 durable (record { named = refl; known = refl })))
      (writes (authorization "settled" 0) 6 durable (record { named = refl; known = refl }))

settled_healthy : settled.bad ≡ none
unfolding write lookup concert.Journal.remember concert.Prelude.Table.insert
settled_healthy = refl

journal_restarts_example :
    open_journal (λ r. 300) settled.file
    ≡ restarted (has_long (λ r. 300) settled.file.lines) settled
journal_restarts_example =
    journal_restarts (λ r. 300) blank_file opened settled opened_result settled-Reach
      settled_healthy

settled_held : HoldsSettled "a1" (authorization "settled" 6) settled
unfolding lookup write concert.Journal.remember concert.Prelude.Table.insert
settled_held = (held, refl)
  where
    held : lookup "a1" settled.records ≡ some (authorization "settled" 6)
    held = refl

Reach-HoldsSettled_example : HoldsSettled "a1" (authorization "settled" 6) later
Reach-HoldsSettled_example =
    Reach-HoldsSettled "a1" (authorization "settled" 6)
      (next here
        (writes (authorization "unknown" 0) 7 durable (record { named = refl; known = refl })))
      settled_held

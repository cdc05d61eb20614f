-- ===== src/Priority/Line.antt =====
-- priority.go: rankedLine, the ranks of the visitors who wait in room's line. What room answers
-- about a ticket, its position (0: not waiting), is an argument. ticket.go's and priority.go's
-- readings of the room_ticket cookie are here too. Tickets are lists of bytes.
use concert.Prelude.{
  ℕ, ◌+◌, Bool, true, false, not, ◌&&◌, Option, none, some, List, [], ◌∷◌, ◌==◌, ltb, leb, nat_beq,
  if◌then◌else◌, length, map, keep, drop,
}
use concert.Prelude.Table.{Table, lookup, insert, delete}
use concert.Bytes.{bytes_eq}
use concert.Passes.Guard.{has_prefix}
use concert.Priority.{ranked_line_max}

abbrev pub RankedLine : Type 0
RankedLine = Table (List ℕ) ℕ

-- rankOf; a missing ticket has rank 0
unfoldable pub line_rank : RankedLine → List ℕ → ℕ
line_rank l token = elim (lookup token l) [ none ↦ 0 | some rank ↦ rank ]

abbrev pub is_missing : Option ℕ → Bool
is_missing none = true
is_missing (some rank) = false

-- orderLineByRank
abbrev pub order_line_by_rank : Bool
order_line_by_rank = false

-- The tickets of the line of the same or a higher rank, but for the ticket itself.
unfoldable pub ahead_of : RankedLine → List ℕ → ℕ → List (List ℕ)
ahead_of [] token rank = []
ahead_of ((t, r) ∷ l) token rank =
    let rest = ahead_of l token rank in if not (t == token) && leb rank r then t ∷ rest else rest

abbrev pub waits : (List ℕ → ℕ) → List ℕ → Bool
waits position t = ltb 0 (position t)

-- The position behind those of them that wait.
unfoldable pub target_of : (List ℕ → ℕ) → List (List ℕ) → ℕ
target_of position ts = 1 + length (keep (waits position) ts)

-- place: whether the ticket moved, and the line. `promoted` is room's answer to AdminPromote.
unfoldable pub place_if : Bool → (List ℕ → ℕ) → Bool → List ℕ → ℕ → RankedLine → Bool × RankedLine
unfolding ahead_of target_of
place_if ordered position promoted token rank l =
    if is_missing (lookup token l) && leb ranked_line_max (length l)
    then (false, l)
    else if not ordered
    then (false, insert token rank l)
    else if not (waits position token)
    then (false, insert token rank l)
    else if leb (position token) (target_of position (ahead_of (insert token rank l) token rank))
    then (false, insert token rank l)
    else (promoted, insert token rank l)

unfoldable pub place : (List ℕ → ℕ) → Bool → List ℕ → ℕ → RankedLine → Bool × RankedLine
unfolding place_if
place position promoted token rank l = place_if order_line_by_rank position promoted token rank l

unfoldable pub delete_all : List (List ℕ) → RankedLine → RankedLine
delete_all [] l = l
delete_all (t ∷ ts) l = delete_all ts (delete t l)

-- prune, in its three parts: the tickets, those that room no longer knows as waiting, their removal.
abbrev pub tokens : RankedLine → List (List ℕ)
tokens l = map (λ e. e.0) l

abbrev pub gone_of : (List ℕ → ℕ) → List (List ℕ) → List (List ℕ)
gone_of position ts = keep (λ t. not (waits position t)) ts

unfoldable pub prune : (List ℕ → ℕ) → RankedLine → RankedLine
unfolding delete_all
prune position l = delete_all (gone_of position (tokens l)) l

-- "room_ticket="
abbrev pub ticket_prefix : List ℕ
ticket_prefix =
    b'r' ∷ b'o' ∷ b'o' ∷ b'm' ∷ b'_' ∷ b't' ∷ b'i' ∷ b'c' ∷ b'k' ∷ b'e' ∷ b't' ∷ b'=' ∷ []

-- The text up to the first byte `stop`.
unfoldable pub up_to : ℕ → List ℕ → List ℕ
up_to stop [] = []
up_to stop (x ∷ xs) = let rest = up_to stop xs in if nat_beq x stop then [] else x ∷ rest

-- The ticket of one Set-Cookie value, empty if it is none.
unfoldable pub ticket_of : List ℕ → List ℕ
unfolding up_to has_prefix
ticket_of v = if has_prefix ticket_prefix v then up_to b';' (drop 12 v) else []

-- issuedTicket: the first ticket that is not empty
unfoldable pub issued_ticket : List (List ℕ) → List ℕ
unfolding ticket_of
issued_ticket [] = []
issued_ticket (v ∷ vs) =
    let rest = issued_ticket vs in if ticket_of v == [] then rest else ticket_of v

-- ticketWriter: whether it has inspected, and the last ticket that is not empty
pub record TicketWriter : Type 0 where
  pub inspected : Bool
  pub issued : List ℕ

unfoldable pub inspect_values : List ℕ → List (List ℕ) → List ℕ
unfolding ticket_of
inspect_values issued [] = issued
inspect_values issued (v ∷ vs) =
    inspect_values (if ticket_of v == [] then issued else ticket_of v) vs

unfoldable pub inspect : TicketWriter → List (List ℕ) → TicketWriter
unfolding inspect_values
inspect w values =
    if w.inspected then w else record { inspected = true; issued = inspect_values w.issued values }

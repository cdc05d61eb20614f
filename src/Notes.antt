-- ===== src/Notes.antt =====
-- visitor.go: what room does not know about a waiting visitor, by ticket, at most `max` notes.
-- A text is a list of bytes; the mutex makes every method one step, but for `prune`, which asks
-- room between two critical sections: its second half runs on whatever the store is then.
pub mod Laws
mod Tests
use concert.Prelude.{
  ℕ, ◌+◌, String, Bool, true, false, not, Option, none, some, List, [], ◌∷◌, map, ltb, leb,
  if◌then◌else◌, length, take, keep, string_eq,
}
use concert.Prelude.Table.{Table, lookup, insert, delete}

-- visitorNote
pub record VisitorNote : Type 0 where
  pub ua : List ℕ
  pub path : List ℕ

-- noteStore
pub record NoteStore : Type 0 where
  pub m : Table String VisitorNote
  pub max : ℕ
  pub dropped : ℕ

-- newNoteStore
abbrev pub new_note_store : ℕ → NoteStore
new_note_store max = record { m = []; max = max; dropped = 0 }

unfoldable pub clip : List ℕ → ℕ → List ℕ
clip s n = if ltb n (length s) then take n s else s

add_found : String → List ℕ → List ℕ → NoteStore → Option VisitorNote → NoteStore
unfolding clip
add_found token ua req_path s (some note) = s
add_found token ua req_path s none =
    if leb s.max (length s.m)
    then record s { dropped = s.dropped + 1 }
    else record s { m = insert token (record { ua = clip ua 256; path = clip req_path 256 }) s.m }

unfoldable pub add : String → List ℕ → List ℕ → NoteStore → NoteStore
unfolding add_found
add token ua req_path s = add_found token ua req_path s (lookup token s.m)

unfoldable pub get : String → NoteStore → Option VisitorNote
get token s = lookup token s.m

unfoldable pub remove : String → NoteStore → NoteStore
remove token s = record s { m = delete token s.m }

unfoldable pub count : NoteStore → ℕ
count s = length s.m

abbrev pub tokens_of : Table String VisitorNote → List String
tokens_of [] = []
tokens_of ((t, note) ∷ m) = t ∷ tokens_of m

unfoldable pub delete_all : List String → Table String VisitorNote → Table String VisitorNote
delete_all [] m = m
delete_all (t ∷ ts) m = delete_all ts (delete t m)

-- The tickets of the store that `kept` rejects.
abbrev pub gone : (String → Bool) → NoteStore → List String
gone kept s = keep (λ t. not (kept t)) (tokens_of s.m)

-- prune: `before` is the store at the first critical section, `s` at the second.
unfoldable pub prune : (String → Bool) → NoteStore → NoteStore → ℕ × NoteStore
unfolding delete_all
prune kept before s =
    (length (gone kept before), record s { m = delete_all (gone kept before) s.m })

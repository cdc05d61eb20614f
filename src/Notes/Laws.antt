-- ===== src/Notes/Laws.antt =====
-- On visitor.go: the invariant of the store, and the prune.
use concert.Prelude.{
  ℕ, ◌<◌, ◌≤◌, String, ◌≡◌, refl, ap, sym, ◌∙◌, Bool, true, false, not, inl, inr, Option, none,
  some, List, [], ◌∷◌, arith, if◌then◌else◌, ◌==◌, ==_iff, string_eq, length, length-take_le,
  Bool-cases, keep, any, leb, ◌&&◌,
}
use concert.Prelude.Table.{Table, lookup, insert, delete, IsMap}
use concert.Prelude.Table.Laws.{
  lookup-insert, lookup-delete, insert-IsMap, delete-IsMap, length-insert_new, length-delete_le,
}
use mathlib.Core.Path.{subst}
use concert.Notes.{
  VisitorNote, NoteStore, clip, add, add_found, get, remove, delete_all, gone, tokens_of, prune,
  new_note_store,
}

pub clip-le : (s : List ℕ) (n : ℕ) → length (clip s n) ≤ n
unfolding clip
clip-le s n = ground (arith, length-take_le n s)

-- Short texts, a real map, and no more notes than allowed.
pub record IsShort (note : VisitorNote) : Type 0 where
  pub ua : length note.ua ≤ 256
  pub path : length note.path ≤ 256

pub record IsValid (s : NoteStore) : Type 0 where
  pub is_map : IsMap s.m
  pub bounded : length s.m ≤ s.max
  pub short : (t : String) (note : VisitorNote) → lookup t s.m ≡ some note → IsShort note

-- The store after `add` of a ticket that has no note, with room for one.
abbrev added : String → List ℕ → List ℕ → NoteStore → NoteStore
added token ua path s = record s {
  m = insert token (record { ua = clip ua 256; path = clip path 256 }) s.m;
}

added-IsValid :
    (token : String) (ua path : List ℕ) (s : NoteStore)
    → IsValid s
    → lookup token s.m ≡ none
    → length s.m < s.max
    → IsValid (added token ua path s)
added-IsValid token ua path s v e h = record {
  is_map = insert-IsMap token _ s.m v.is_map;
  bounded =
      omega
        (arith, length-insert_new token (record { ua = clip ua 256; path = clip path 256 }) s.m e);
  short = λ t note p. elim (Bool-cases (token == t)) [
    | inl same ↦ is_clipped note (some_eq (sym (rw same at (lookup-insert token t new s.m)) ∙ p))
    | inr other ↦ v.short t note (sym (rw other at (lookup-insert token t new s.m)) ∙ p)
  ];
}
  where
    new : VisitorNote
    new = record { ua = clip ua 256; path = clip path 256 }

    some_eq : {a b : VisitorNote} → some a ≡ some b → a ≡ b
    some_eq p = cc

    is_clipped : (note : VisitorNote) → new ≡ note → IsShort note
    is_clipped note p = subst IsShort p (record { ua = clip-le ua 256; path = clip-le path 256 })

add_found-IsValid :
    (token : String) (ua path : List ℕ) (s : NoteStore) (o : Option VisitorNote)
    → IsValid s
    → lookup token s.m ≡ o
    → IsValid (add_found token ua path s o)
unfolding add_found
add_found-IsValid token ua path s (some note) v e = v
add_found-IsValid token ua path s none v e = elim (Bool-cases (leb s.max (length s.m))) [
  | inl full ↦ rw full (record { is_map = v.is_map; bounded = v.bounded; short = v.short })
  | inr free ↦ rw free (added-IsValid token ua path s v e (ground arith))
]

pub add-IsValid :
    (token : String) (ua path : List ℕ) (s : NoteStore) → IsValid s → IsValid (add token ua path s)
unfolding add
add-IsValid token ua path s v = add_found-IsValid token ua path s (lookup token s.m) v refl

delete-keeps :
    (token : String) (s : NoteStore) → IsValid s → IsValid (record s { m = delete token s.m })
delete-keeps token s v = record {
  is_map = delete-IsMap token s.m v.is_map;
  bounded = let b = v.bounded in omega (arith, length-delete_le token s.m);
  short = λ t note p. ground (arith, lookup-delete token t s.m, v.short t note);
}

pub remove-IsValid : (token : String) (s : NoteStore) → IsValid s → IsValid (remove token s)
unfolding remove
remove-IsValid token s v = delete-keeps token s v

delete_all-IsValid :
    (ts : List String) (s : NoteStore) → IsValid s → IsValid (record s { m = delete_all ts s.m })
unfolding delete_all
delete_all-IsValid [] s v = v
delete_all-IsValid (t ∷ ts) s v =
    delete_all-IsValid ts (record s { m = delete t s.m }) (delete-keeps t s v)

pub prune-IsValid :
    (kept : String → Bool) (before s : NoteStore) → IsValid s → IsValid (prune kept before s).1
unfolding prune
prune-IsValid kept before s v = delete_all-IsValid (gone kept before) s v

-- One call of the store by some request or by the janitor.
pub data Step (s : NoteStore) : NoteStore → Type 0 where
  add_note : (token : String) (ua path : List ℕ) → Step s (add token ua path s)
  remove_note : (token : String) → Step s (remove token s)
  prune_notes : (kept : String → Bool) (before : NoteStore) → Step s (prune kept before s).1

pub data Reach (s : NoteStore) : NoteStore → Type 0 where
  here : Reach s s
  next : {t u : NoteStore} → Reach s t → Step t u → Reach s u

Step-IsValid : {s t : NoteStore} → Step s t → IsValid s → IsValid t
Step-IsValid {s} (add_note token ua path) v = add-IsValid token ua path s v
Step-IsValid {s} (remove_note token) v = remove-IsValid token s v
Step-IsValid {s} (prune_notes kept before) v = prune-IsValid kept before s v

new-IsValid : (max : ℕ) → IsValid (new_note_store max)
unfolding lookup
new-IsValid max = record { is_map = tt; bounded = omega arith; short = λ t note p. cc }

-- Whatever requests and janitor do to a new store, in any order, it stays a map of at most `max`
-- notes, each of texts of at most 256 bytes.
pub Reach-IsValid : (max : ℕ) {s : NoteStore} → Reach (new_note_store max) s → IsValid s
Reach-IsValid max here = new-IsValid max
Reach-IsValid max (next r st) = Step-IsValid st (Reach-IsValid max r)

abbrev pub is_some : Option VisitorNote → Bool
is_some none = false
is_some (some note) = true

abbrev among : String → List String → Bool
among t ts = any (λ u. u == t) ts

lookup-delete_all :
    (ts : List String) (t : String) (m : Table String VisitorNote)
    → lookup t (delete_all ts m) ≡ (if among t ts then none else lookup t m)
unfolding delete_all
lookup-delete_all [] t m = refl
lookup-delete_all (u ∷ ts) t m =
    lookup-delete_all ts t (delete u m) ∙ ground (arith, lookup-delete u t m)

among-gone :
    (kept : String → Bool) (t : String) (m : Table String VisitorNote)
    → among t (keep (λ u. not (kept u)) (tokens_of m)) ≡ (is_some (lookup t m) && not (kept t))
unfolding lookup
among-gone kept t [] = refl
among-gone kept t ((u, note) ∷ m) = elim (Bool-cases (u == t)) [
  | inl same ↦ ground (arith, ap kept ((==_iff u t).0 same), among-gone kept t m)
  | inr other ↦ ground (arith, among-gone kept t m)
]

-- A prune forgets exactly the tickets that were in the store at its start and that `kept`
-- rejects; every other note of the store at its end stays, also one added meanwhile.
pub lookup-prune :
    (kept : String → Bool) (before s : NoteStore) (t : String)
    → get t (prune kept before s).1
      ≡ (if is_some (get t before) && not (kept t) then none else get t s)
unfolding get prune
lookup-prune kept before s t =
    rw (lookup-delete_all (gone kept before) t s.m) (rw (among-gone kept t before.m))

-- ===== src/Notes/Tests.antt =====
-- A run of the note store, and its theorems at this run.
use concert.Prelude.{
  ℕ, ◌≡◌, refl, String, Bool, true, false, not, ◌&&◌, Option, none, some, List, [], ◌∷◌,
  if◌then◌else◌,
}
use concert.Notes.{NoteStore, new_note_store, add, get, prune}
use concert.Notes.Laws.{
  add_note, prune_notes, here, next, IsValid, Reach-IsValid, is_some, lookup-prune,
}

abbrev one_note : NoteStore
one_note = add "alice" (77 ∷ []) (47 ∷ []) (new_note_store 2)

abbrev two_notes : NoteStore
two_notes = add "bob" (78 ∷ []) (47 ∷ []) one_note

Reach-IsValid_example : IsValid (prune (λ t. false) one_note two_notes).1
Reach-IsValid_example = Reach-IsValid 2 (
    next
      (next (next here (add_note "alice" (77 ∷ []) (47 ∷ []))) (add_note "bob" (78 ∷ []) (47 ∷ [])))
      (prune_notes (λ t. false) one_note))

lookup-prune_run :
    get "bob" (prune (λ t. false) one_note two_notes).1
    ≡ (if is_some (get "bob" one_note) && not false then none else get "bob" two_notes)
lookup-prune_run = lookup-prune (λ t. false) one_note two_notes "bob"

bob_stays :
    get "bob" (prune (λ t. false) one_note two_notes).1
    ≡ some (record { ua = 78 ∷ []; path = 47 ∷ [] })
unfolding get concert.Prelude.Table.lookup prune add concert.Prelude.Table.insert
    concert.Prelude.Table.delete
bob_stays = refl

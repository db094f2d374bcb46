-- ===== src/Words/MoveLaws.antt =====
-- The deck counts after a move:
-- frontend/src/features/words/deckCounts.ts.
use project_pn.Prelude.{
  ℕ, ◌+◌, ◌≡◌, refl, ap, String, Bool, true, false, not, ◌&&◌, inl, inr, some, List, [], ◌∷◌, ◌++◌,
  map, arith, ◌==◌, eq_iff, eqb, eqb_iff, subst, if◌then◌else◌, Bool-cases, Option-cases, length,
  filter, length-filter, count_p-append, count_p,
}
use project_pn.Words.Item.{LearningItemListItem, Deck}
use project_pn.Words.DeckCounts.{
  is_in, count_source, source_counts, take_off, adjust_moved, adjust_deck_counts_for_move,
}
use project_pn.Words.CountLaws.{
  number, number-count_one, count-take_off, id-take_off, CountsMatch, Matches, All-map-imp,
}

number-count_source :
    (target : String) (counts : List (String × ℕ)) (item : LearningItemListItem) (id : String)
    → (id == "") ≡ false
    → (id == target) ≡ false
    → number (count_source target counts item) id
      ≡ (if is_in id item then number counts id + 1 else number counts id)
number-count_source target counts item id h n = elim (Option-cases item.deck_id) [
  | inl absent ↦ ground arith
  | inr (d, present) ↦
      rw present
        (ground (arith, number-count_one counts d id, eq_iff d id, eq_iff d "", eq_iff d target))
]

number-source_counts :
    (target : String) (counts : List (String × ℕ)) (items : List LearningItemListItem) (id : String)
    → (id == "") ≡ false
    → (id == target) ≡ false
    → number (source_counts target counts items) id ≡ number counts id + count_p (is_in id) items
unfolding source_counts
number-source_counts target counts [] id h n = omega arith
number-source_counts target counts (item ∷ items) id h n = ground (
  arith,
  number-source_counts target (count_source target counts item) items id h n,
  number-count_source target counts item id h n,
)

-- A word after it is moved to a deck.
abbrev pub moved_to : String → LearningItemListItem → LearningItemListItem
moved_to target item = record item { deck_id = some target }

count-moved_to :
    (target id : String) (items : List LearningItemListItem)
    → count_p (is_in id) (map (moved_to target) items) ≡ (if id == target then length items else 0)
count-moved_to target id [] = ground arith
count-moved_to target id (item ∷ items) =
    ground (arith, count-moved_to target id items, eq_iff id target, eq_iff target id)

count_not :
    (p : LearningItemListItem → Bool) (items : List LearningItemListItem)
    → count_p (λ i. not (p i)) items + count_p p items ≡ length items
count_not p [] = omega arith
count_not p (item ∷ items) = ground (arith, count_not p items)

Matches-adjust_moved :
    (target : String) (moved rest : List LearningItemListItem) (d : Deck)
    → Matches (moved ++ rest) d
    → Matches (map (moved_to target) moved ++ rest) (
        adjust_moved
          (source_counts target [] moved)
          (length (filter (λ i. not (is_in target i)) moved))
          target
          d)
unfolding adjust_moved
Matches-adjust_moved target moved rest d h = elim (Bool-cases (d.id == target)) [
  | inl same ↦
      let e : d.id ≡ target = (eq_iff d.id target).0 same in
      rw same (
        h.0,
        omega (
          arith,
          h.1,
          ap (λ k. count_p (is_in k) moved) e,
          length-filter (λ i. not (is_in target i)) moved,
          count_not (is_in target) moved,
          count_p-append (is_in d.id) moved rest,
          count_p-append (is_in d.id) (map (moved_to target) moved) rest,
          rw same at (count-moved_to target d.id moved),
        ),
      )
  | inr other ↦
      rw (other, id-take_off (source_counts target [] moved) d)
        (
          h.0,
          omega (
            arith,
            h.1,
            count-take_off (source_counts target [] moved) d,
            number-source_counts target [] moved d.id h.0 other,
            count_p-append (is_in d.id) moved rest,
            count_p-append (is_in d.id) (map (moved_to target) moved) rest,
            rw other at (count-moved_to target d.id moved),
          ),
        )
]

take_off-empty :
    (counts : List (String × ℕ)) (d : Deck) → eqb (length counts) 0 ≡ true → take_off counts d ≡ d
unfolding take_off
take_off-empty [] d e = refl
take_off-empty (c ∷ counts) d e = absurd (ground arith)

adjust_moved-none :
    (counts : List (String × ℕ)) (moved : ℕ) (target : String) (decks : List Deck)
    → (eqb (length counts) 0 && eqb moved 0) ≡ true
    → map (adjust_moved counts moved target) decks ≡ decks
unfolding adjust_moved
adjust_moved-none counts moved target [] e = refl
adjust_moved-none counts moved target (d ∷ decks) e =
    rw (adjust_moved-none counts moved target decks e) (
      ap (λ x. x ∷ decks)
        (ground (arith, take_off-empty counts d, eqb_iff moved 0, eqb_iff (length counts) 0)))

CountsMatch-guarded :
    (items : List LearningItemListItem) (counts : List (String × ℕ)) (moved : ℕ) (target : String)
    (decks : List Deck)
    → CountsMatch items (map (adjust_moved counts moved target) decks)
    → CountsMatch items (
        if eqb (length counts) 0 && eqb moved 0
        then decks
        else map (adjust_moved counts moved target) decks)
CountsMatch-guarded items counts moved target decks h =
    elim (Bool-cases (eqb (length counts) 0 && eqb moved 0)) [
      | inl skip ↦
          rw skip (subst (CountsMatch items) (adjust_moved-none counts moved target decks skip) h)
      | inr changed ↦ rw changed h
    ]

-- When each deck counts the words that it holds, the adjusted decks count them after some are
-- moved to a deck, whatever decks they came from, that deck included.
pub move-CountsMatch :
    (decks : List Deck) (moved rest : List LearningItemListItem) (target : String)
    → CountsMatch (moved ++ rest) decks
    → CountsMatch
        (map (moved_to target) moved ++ rest)
        (adjust_deck_counts_for_move decks moved target)
unfolding adjust_deck_counts_for_move
move-CountsMatch decks [] rest target h = h
move-CountsMatch decks (item ∷ moved) rest target h =
    CountsMatch-guarded (map (moved_to target) (item ∷ moved) ++ rest)
      (source_counts target [] (item ∷ moved))
      (length (filter (λ i. not (is_in target i)) (item ∷ moved))) target decks
      (All-map-imp (Matches (map (moved_to target) (item ∷ moved) ++ rest))
        (adjust_moved (source_counts target [] (item ∷ moved))
          (length (filter (λ i. not (is_in target i)) (item ∷ moved))) target)
        decks (Matches-adjust_moved target (item ∷ moved) rest) h)

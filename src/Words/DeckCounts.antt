-- ===== src/Words/DeckCounts.antt =====
-- The item counts of the decks after words are removed or moved:
-- frontend/src/features/words/deckCounts.ts.
use project_pn.Prelude.{
  ℕ, ◌+◌, ◌-◌, String, Bool, false, not, ◌&&◌, none, some, List, [], ◌∷◌, map, ◌==◌, eqb,
  if◌then◌else◌, or_else, length, filter, get, put,
}
use project_pn.Words.Item.{LearningItemListItem, Deck}

-- `deck_id === id`
abbrev pub is_in : String → LearningItemListItem → Bool
is_in id item = elim item.deck_id [ none ↦ false | some d ↦ d == id ]

-- `countsByDeck.set(id, (countsByDeck.get(id) ?? 0) + 1)`
abbrev pub count_one : List (String × ℕ) → String → List (String × ℕ)
count_one counts id = put counts id (or_else (get counts id) 0 + 1)

-- One round of the loop of `adjustDeckCountsForRemovedItems`.
abbrev pub count_removed : List (String × ℕ) → LearningItemListItem → List (String × ℕ)
count_removed counts item = elim item.deck_id [
  | none ↦ counts
  | some d ↦ if d == "" then counts else count_one counts d
]

unfoldable pub removed_counts : List (String × ℕ) → List LearningItemListItem → List (String × ℕ)
removed_counts counts [] = counts
removed_counts counts (item ∷ items) = removed_counts (count_removed counts item) items

-- One round of the loop of `adjustDeckCountsForMove`.
abbrev pub count_source : String → List (String × ℕ) → LearningItemListItem → List (String × ℕ)
count_source target counts item = elim item.deck_id [
  | none ↦ counts
  | some d ↦ if d == "" then counts else if d == target then counts else count_one counts d
]

unfoldable pub source_counts :
    String → List (String × ℕ) → List LearningItemListItem → List (String × ℕ)
source_counts target counts [] = counts
source_counts target counts (item ∷ items) =
    source_counts target (count_source target counts item) items

-- The deck less what the map holds for it; a missing count and 0 leave it.
unfoldable pub take_off : List (String × ℕ) → Deck → Deck
take_off counts deck = elim (get counts deck.id) [
  | none ↦ deck
  | some removed ↦
      if eqb removed 0 then deck else record deck { item_count = deck.item_count - removed }
]

unfoldable pub adjust_deck_counts_for_removed_items :
    List Deck → List LearningItemListItem → List Deck
unfolding removed_counts take_off
adjust_deck_counts_for_removed_items decks [] = decks
adjust_deck_counts_for_removed_items decks (item ∷ items) =
    let counts : List (String × ℕ) = removed_counts [] (item ∷ items) in
    if eqb (length counts) 0 then decks else map (take_off counts) decks

-- The callback of the `map` of `adjustDeckCountsForMove`.
unfoldable pub adjust_moved : List (String × ℕ) → ℕ → String → Deck → Deck
unfolding take_off
adjust_moved counts moved target deck =
    if deck.id == target
    then record deck { item_count = deck.item_count + moved }
    else take_off counts deck

unfoldable pub adjust_deck_counts_for_move :
    List Deck → List LearningItemListItem → String → List Deck
unfolding source_counts adjust_moved
adjust_deck_counts_for_move decks [] target = decks
adjust_deck_counts_for_move decks (item ∷ items) target =
    let counts : List (String × ℕ) = source_counts target [] (item ∷ items) in
    let moved : ℕ = length (filter (λ i. not (is_in target i)) (item ∷ items)) in
    if eqb (length counts) 0 && eqb moved 0
    then decks
    else map (adjust_moved counts moved target) decks

-- ===== src/Words/Screen/Totals.antt =====
-- The number of all words that frontend/src/features/words/MyWordsScreen.tsx shows.
use project_pn.Prelude.{
  ℕ, ◌+◌, ◌≤◌, ◌≡◌, refl, sym, subst, String, false, inl, inr, none, List, [], ◌∷◌, ◌++◌, map,
  arith, ◌==◌, eq_iff, Bool-cases, Option-cases, length, count_p, length-append, contains,
  IsDistinct,
}
use project_pn.Words.Item.{LearningItemListItem, Deck}
use project_pn.Words.DeckCounts.{is_in}
use project_pn.Words.CountLaws.{CountsMatch}
use project_pn.Words.Screen.Filtering.{deck_sum, total_words_count}

abbrev sum_in : List LearningItemListItem → List Deck → ℕ
sum_in words [] = 0
sum_in words (deck ∷ decks) = count_p (is_in deck.id) words + sum_in words decks

deck_sum-CountsMatch :
    (words : List LearningItemListItem) (decks : List Deck)
    → CountsMatch words decks
    → deck_sum decks ≡ sum_in words decks
deck_sum-CountsMatch words [] h = refl
deck_sum-CountsMatch words (deck ∷ decks) h =
    omega (arith, h.0.1, deck_sum-CountsMatch words decks h.1)

sum_in-none : (decks : List Deck) → sum_in [] decks ≡ 0
sum_in-none [] = refl
sum_in-none (deck ∷ decks) = omega (arith, sum_in-none decks)

sum_in-cons :
    (word : LearningItemListItem) (words : List LearningItemListItem) (decks : List Deck)
    → sum_in (word ∷ words) decks
      ≡ count_p (λ (d : Deck). is_in d.id word) decks + sum_in words decks
sum_in-cons word words [] = refl
sum_in-cons word words (deck ∷ decks) = ground (arith, sum_in-cons word words decks)

abbrev ids_of : List Deck → List String
ids_of decks = map (λ (d : Deck). d.id) decks

count-other_decks :
    (k : String) (decks : List Deck)
    → contains (ids_of decks) k ≡ false
    → count_p (λ (d : Deck). k == d.id) decks ≡ 0
count-other_decks k [] h = refl
count-other_decks k (deck ∷ decks) h =
    ground (arith, count-other_decks k decks, h, eq_iff k deck.id, eq_iff deck.id k)

count-one_deck :
    (k : String) (decks : List Deck)
    → IsDistinct (ids_of decks)
    → count_p (λ (d : Deck). k == d.id) decks ≤ 1
count-one_deck k [] h = omega arith
count-one_deck k (deck ∷ decks) h = elim (Bool-cases (k == deck.id)) [
  | inl same ↦ rw same (
      omega (
        arith,
        count-other_decks k decks
            (subst (λ x. contains (ids_of decks) x ≡ false) (sym ((eq_iff k deck.id).0 same)) h.0),
      ))
  | inr other ↦ rw other (count-one_deck k decks h.1)
]

no_deck :
    (word : LearningItemListItem) (decks : List Deck)
    → word.deck_id ≡ none
    → count_p (λ (d : Deck). is_in d.id word) decks ≡ 0
no_deck word [] h = refl
no_deck word (deck ∷ decks) h = ground (arith, h, no_deck word decks h)

one_deck :
    (word : LearningItemListItem) (decks : List Deck)
    → IsDistinct (ids_of decks)
    → count_p (λ (d : Deck). is_in d.id word) decks ≤ 1
one_deck word decks h = elim (Option-cases word.deck_id) [
  | inl absent ↦ omega (arith, no_deck word decks absent)
  | inr (k, present) ↦ rw present (count-one_deck k decks h)
]

sum_in-le-length :
    (words : List LearningItemListItem) (decks : List Deck)
    → IsDistinct (ids_of decks)
    → sum_in words decks ≤ length words
sum_in-le-length [] decks h = omega (arith, sum_in-none decks)
sum_in-le-length (word ∷ words) decks h =
    omega
      (arith, sum_in-cons word words decks, one_deck word decks h, sum_in-le-length words decks h)

-- When the decks have different ids and each counts its words, the shown total is at least the
-- number of the listed words and at most that of all words.
pub total_words_count-bounds :
    (items others : List LearningItemListItem) (decks : List Deck)
    → IsDistinct (ids_of decks)
    → CountsMatch (items ++ others) decks
    → (length items ≤ total_words_count items decks)
      × (total_words_count items decks ≤ length (items ++ others))
unfolding total_words_count
total_words_count-bounds items others decks d h = (
  omega arith,
  omega (
    arith,
    length-append items others,
    deck_sum-CountsMatch (items ++ others) decks h,
    sum_in-le-length (items ++ others) decks d,
  ),
)

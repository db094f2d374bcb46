-- ===== src/Words/CountLaws.antt =====
-- The deck counts after words are removed:
-- frontend/src/features/words/deckCounts.ts.
use project_pn.Prelude.{
  ℕ, ◌+◌, ◌-◌, ◌≡◌, refl, String, true, false, inl, inr, List, [], ◌∷◌, ◌++◌, map, arith, ◌==◌,
  eq_iff, eqb, if◌then◌else◌, or_else, Bool-cases, Option-cases, length, All, count_p-append,
  count_p, get, get-put,
}
use project_pn.Words.Item.{LearningItemListItem, Deck}
use project_pn.Words.DeckCounts.{
  is_in, count_one, count_removed, removed_counts, take_off, adjust_deck_counts_for_removed_items,
}

-- The number that the map holds for a deck.
abbrev pub number : List (String × ℕ) → String → ℕ
number counts id = or_else (get counts id) 0

pub number-count_one :
    (counts : List (String × ℕ)) (k id : String)
    → number (count_one counts k) id ≡ (if k == id then number counts id + 1 else number counts id)
number-count_one counts k id =
    ground (arith, get-put counts k id (number counts k + 1), eq_iff k id)

number-count_removed :
    (counts : List (String × ℕ)) (item : LearningItemListItem) (id : String)
    → (id == "") ≡ false
    → number (count_removed counts item) id
      ≡ (if is_in id item then number counts id + 1 else number counts id)
number-count_removed counts item id h = elim (Option-cases item.deck_id) [
  | inl absent ↦ ground arith
  | inr (d, present) ↦
      rw present (ground (arith, number-count_one counts d id, eq_iff d id, eq_iff d ""))
]

number-removed_counts :
    (counts : List (String × ℕ)) (items : List LearningItemListItem) (id : String)
    → (id == "") ≡ false
    → number (removed_counts counts items) id ≡ number counts id + count_p (is_in id) items
unfolding removed_counts
number-removed_counts counts [] id h = omega arith
number-removed_counts counts (item ∷ items) id h = ground (
  arith,
  number-removed_counts (count_removed counts item) items id h,
  number-count_removed counts item id h,
)

pub count-take_off :
    (counts : List (String × ℕ)) (deck : Deck)
    → (take_off counts deck).item_count ≡ deck.item_count - number counts deck.id
unfolding take_off
count-take_off counts deck = elim (Option-cases (get counts deck.id)) [
  | inl absent ↦ ground arith
  | inr (n, present) ↦ ground arith
]

pub id-take_off : (counts : List (String × ℕ)) (deck : Deck) → (take_off counts deck).id ≡ deck.id
unfolding take_off
id-take_off counts deck = elim (Option-cases (get counts deck.id)) [
  | inl absent ↦ ground arith
  | inr (n, present) ↦ ground arith
]

-- Each deck has an id, and its count is the number of the words that it holds.
abbrev pub CountsMatch : List LearningItemListItem → List Deck → Type 0
CountsMatch items decks =
    All (λ (d : Deck). ((d.id == "") ≡ false) × (d.item_count ≡ count_p (is_in d.id) items)) decks

-- One deck's part of `CountsMatch`.
abbrev pub Matches : List LearningItemListItem → Deck → Type 0
Matches items d = ((d.id == "") ≡ false) × (d.item_count ≡ count_p (is_in d.id) items)

pub All-imp :
    {P Q : Deck → Type 0} (decks : List Deck) → ((d : Deck) → P d → Q d) → All P decks → All Q decks
All-imp [] h a = a
All-imp (d ∷ decks) h a = (h d a.0, All-imp decks h a.1)

pub All-map-imp :
    {P : Deck → Type 0} (Q : Deck → Type 0) (f : Deck → Deck) (decks : List Deck)
    → ((d : Deck) → P d → Q (f d))
    → All P decks
    → All Q (map f decks)
All-map-imp Q f [] h a = a
All-map-imp Q f (d ∷ decks) h a = (h d a.0, All-map-imp Q f decks h a.1)

number-empty :
    (counts : List (String × ℕ)) (id : String) → eqb (length counts) 0 ≡ true → number counts id ≡ 0
number-empty [] id h = refl
number-empty (e ∷ counts) id h = absurd (ground arith)

Matches-take_off :
    (removed rest : List LearningItemListItem) (d : Deck)
    → Matches (removed ++ rest) d
    → Matches rest (take_off (removed_counts [] removed) d)
Matches-take_off removed rest d h = rw (id-take_off (removed_counts [] removed) d) (
  h.0,
  omega (
    arith,
    h.1,
    count-take_off (removed_counts [] removed) d,
    number-removed_counts [] removed d.id h.0,
    count_p-append (is_in d.id) removed rest,
  ),
)

Matches-unchanged :
    (removed rest : List LearningItemListItem) (d : Deck)
    → eqb (length (removed_counts [] removed)) 0 ≡ true
    → Matches (removed ++ rest) d
    → Matches rest d
Matches-unchanged removed rest d e h = (
  h.0,
  omega (
    arith,
    h.1,
    number-empty (removed_counts [] removed) d.id e,
    number-removed_counts [] removed d.id h.0,
    count_p-append (is_in d.id) removed rest,
  ),
)

-- When each deck counts the words that it holds, the adjusted decks count those that stay after
-- some are removed: no subtraction is cut off at 0.
pub removed-CountsMatch :
    (decks : List Deck) (removed rest : List LearningItemListItem)
    → CountsMatch (removed ++ rest) decks
    → CountsMatch rest (adjust_deck_counts_for_removed_items decks removed)
unfolding adjust_deck_counts_for_removed_items
removed-CountsMatch decks [] rest h = h
removed-CountsMatch decks (item ∷ removed) rest h =
    elim (Bool-cases (eqb (length (removed_counts [] (item ∷ removed))) 0)) [
      | inl e ↦ rw e (All-imp decks (λ d. Matches-unchanged (item ∷ removed) rest d e) h)
      | inr n ↦ rw n (
          All-map-imp (Matches rest) (take_off (removed_counts [] (item ∷ removed))) decks
            (Matches-take_off (item ∷ removed) rest) h)
    ]

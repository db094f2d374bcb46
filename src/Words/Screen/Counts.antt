-- ===== src/Words/Screen/Counts.antt =====
-- The decks and words that frontend/src/features/words/MyWordsScreen.tsx shows before the server
-- has answered.
use project_pn.Prelude.{
  ◌+◌, ◌≡◌, refl, String, Bool, not, inl, inr, List, [], ◌∷◌, ◌++◌, map, arith, if◌then◌else◌,
  Bool-cases, List-cases, filter, count_p, count_p-append, ap,
}
use project_pn.Words.Item.{LearningItemListItem, Deck}
use project_pn.Words.DeckCounts.{is_in, adjust_deck_counts_for_move}
use project_pn.Words.CountLaws.{CountsMatch, removed-CountsMatch, All-imp}
use project_pn.Words.MoveLaws.{moved_to, move-CountsMatch}
use project_pn.Words.LearningItems.{remove_items_locally}
use project_pn.Words.Screen.{WordsScreen, among, leaves_current_deck, begin_move, begin_remove}

-- What the user does with words of the list.
pub data Change : Type 0 where
  remove : (ids : List String) → Change
  move : (deck_id : String) → Change

-- The handler up to its request, called by the render of the current state.
abbrev pub begin_change : Change → WordsScreen → WordsScreen
begin_change (remove ids) s = begin_remove s.list.items ids s
begin_change (move deck_id) s = begin_move s deck_id s

abbrev pub unchanged : List String → List LearningItemListItem → List LearningItemListItem
unchanged ids items = filter (λ i. not (among ids i)) items

-- The listed words once the server has done the change.
abbrev pub words_after : Change → WordsScreen → List LearningItemListItem
words_after (remove ids) s = unchanged ids s.list.items
words_after (move deck_id) s =
    map (λ i. if among s.move_item_ids i then moved_to deck_id i else i) s.list.items

-- The words that are listed meanwhile.
abbrev pub listed_after : Change → WordsScreen → List LearningItemListItem
listed_after (remove ids) s = unchanged ids s.list.items
listed_after (move deck_id) s =
    if leaves_current_deck deck_id s.selected_deck_id
    then unchanged s.move_item_ids s.list.items
    else s.list.items

CountsMatch-congr :
    (words words' : List LearningItemListItem) (decks : List Deck)
    → ((id : String) → count_p (is_in id) words ≡ count_p (is_in id) words')
    → CountsMatch words decks
    → CountsMatch words' decks
CountsMatch-congr words words' decks e h =
    All-imp decks (λ d m. (m.0, omega (arith, m.1, e d.id))) h

module _ (q p : LearningItemListItem → Bool) where
  count_p-filter :
      (xs : List LearningItemListItem)
      → count_p q (filter p xs) + count_p q (filter (λ i. not (p i)) xs) ≡ count_p q xs
  count_p-filter [] = refl
  count_p-filter (x ∷ xs) = ground (arith, count_p-filter xs)

  count_p-map-filter :
      (f : LearningItemListItem → LearningItemListItem) (xs : List LearningItemListItem)
      → count_p q (map f (filter p xs)) + count_p q (filter (λ i. not (p i)) xs)
        ≡ count_p q (map (λ i. if p i then f i else i) xs)
  count_p-map-filter f [] = refl
  count_p-map-filter f (x ∷ xs) = ground (arith, count_p-map-filter f xs)

-- The changed words of the list before the others.
parted :
    (ids : List String) (items others : List LearningItemListItem) (decks : List Deck)
    → CountsMatch (items ++ others) decks
    → CountsMatch (filter (among ids) items ++ (unchanged ids items ++ others)) decks
parted ids items others decks h =
    CountsMatch-congr (items ++ others)
      (filter (among ids) items ++ (unchanged ids items ++ others)) decks
      (λ id. omega (
        arith,
        count_p-append (is_in id) items others,
        count_p-append (is_in id) (filter (among ids) items) (unchanged ids items ++ others),
        count_p-append (is_in id) (unchanged ids items) others,
        count_p-filter (is_in id) (among ids) items,
      ))
      h

unchanged-none : (items : List LearningItemListItem) → unchanged [] items ≡ items
unchanged-none [] = refl
unchanged-none (i ∷ items) = ap (i ∷◌) (unchanged-none items)

unmoved :
    (f : LearningItemListItem → LearningItemListItem) (items : List LearningItemListItem)
    → map (λ i. if among [] i then f i else i) items ≡ items
unmoved f [] = refl
unmoved f (i ∷ items) = ap (i ∷◌) (unmoved f items)

moved-CountsMatch :
    (ids : List String) (items others : List LearningItemListItem) (decks : List Deck)
    (deck_id : String)
    → CountsMatch (items ++ others) decks
    → CountsMatch
        (map (λ i. if among ids i then moved_to deck_id i else i) items ++ others)
        (adjust_deck_counts_for_move decks (filter (among ids) items) deck_id)
moved-CountsMatch ids items others decks deck_id h =
    let gone : List LearningItemListItem = map (moved_to deck_id) (filter (among ids) items) in
    let after : List LearningItemListItem =
      map (λ i. if among ids i then moved_to deck_id i else i) items in
    CountsMatch-congr (gone ++ (unchanged ids items ++ others)) (after ++ others)
      (adjust_deck_counts_for_move decks (filter (among ids) items) deck_id)
      (λ id. omega (
        arith,
        count_p-append (is_in id) after others,
        count_p-append (is_in id) gone (unchanged ids items ++ others),
        count_p-append (is_in id) (unchanged ids items) others,
        count_p-map-filter (is_in id) (among ids) (moved_to deck_id) items,
      ))
      (move-CountsMatch decks (filter (among ids) items) (unchanged ids items ++ others) deck_id
        (parted ids items others decks h))

-- When the count of each deck is that of its words, listed or not, and some of the listed ones are
-- removed or moved, then at once, before the server has answered, each count is that of the words
-- of the deck after the change, and the list leaves out those that the shown deck loses.
pub change-CountsMatch :
    (change : Change) (s : WordsScreen) (others : List LearningItemListItem)
    → CountsMatch (s.list.items ++ others) s.decks
    → CountsMatch (words_after change s ++ others) (begin_change change s).decks
      × ((begin_change change s).list.items ≡ listed_after change s)
unfolding begin_remove begin_move remove_items_locally
change-CountsMatch (remove []) s others h = rw (unchanged-none s.list.items) (h, refl)
change-CountsMatch (remove (id ∷ ids)) s others h = (
  removed-CountsMatch s.decks (filter (among (id ∷ ids)) s.list.items)
      (unchanged (id ∷ ids) s.list.items ++ others)
      (parted (id ∷ ids) s.list.items others s.decks h),
  refl,
)
change-CountsMatch (move deck_id) s others h = elim (List-cases s.move_item_ids) [
  | inl empty ↦
      rw (empty, unmoved (moved_to deck_id) s.list.items)
        (
          h,
          elim (Bool-cases (leaves_current_deck deck_id s.selected_deck_id)) [
            | inl l ↦ rw l refl
            | inr l ↦ rw l refl
          ],
        )
  | inr (id, ids, moving) ↦ rw moving (
    moved-CountsMatch (id ∷ ids) s.list.items others s.decks deck_id h,
    elim (Bool-cases (leaves_current_deck deck_id s.selected_deck_id)) [
      | inl l ↦ rw l refl
      | inr l ↦ rw l refl
    ],
  )
]

-- ===== src/Words/Screen/Filtering.antt =====
-- The counts above the list and its filter: `stageCounts`, `totalWordsCount` and `filteredItems` of
-- frontend/src/features/words/MyWordsScreen.tsx. A filter is "all" or a stage.
use project_pn.Prelude.{
  ℕ, ◌+◌, max, ◌≡◌, refl, subst, String, Bool, true, false, ◌&&◌, ◌||◌, inl, inr, Option, none,
  some, List, [], ◌∷◌, arith, ◌==◌, eq_iff, if◌then◌else◌, or_else, Bool-cases, Option-cases,
  length, filter, get, put, get-put, count_p, All, contains, eq_refl, length-filter,
}
use project_pn.Words.Item.{LearningItemListItem, Deck}

-- `FILTERS`
abbrev pub stages : List String
stages = "new" ∷ "learning" ∷ "recognized" ∷ "recalled" ∷ "usable" ∷ "mastered" ∷ []

abbrev zeros : List String → List (String × ℕ)
zeros [] = []
zeros (k ∷ keys) = (k, 0) ∷ zeros keys

-- One round of the loop: a stage that has no count is left out.
abbrev pub count_stage : List (String × ℕ) → String → List (String × ℕ)
count_stage counts stage = elim (get counts stage) [
  | none ↦ counts
  | some n ↦ put counts stage (n + 1)
]

unfoldable pub count_stages : List (String × ℕ) → List LearningItemListItem → List (String × ℕ)
count_stages counts [] = counts
count_stages counts (item ∷ items) = count_stages (count_stage counts item.learning_stage) items

unfoldable pub stage_counts : List LearningItemListItem → List (String × ℕ)
unfolding count_stages
stage_counts items = count_stages (("all", length items) ∷ zeros stages) items

abbrev pub deck_sum : List Deck → ℕ
deck_sum [] = 0
deck_sum (deck ∷ decks) = deck.item_count + deck_sum decks

unfoldable pub total_words_count : List LearningItemListItem → List Deck → ℕ
total_words_count items decks = max (length items) (deck_sum decks)

abbrev pub matches_filter : String → LearningItemListItem → Bool
matches_filter key item = key == "all" || item.learning_stage == key

-- `trim`, `lower` and `includes` are the methods of strings, `simple` is `splitMeanings(…).simple`.
module _ (trim lower : String → String) (includes : String → String → Bool)
    (simple : LearningItemListItem → Option String) where
  abbrev pub matches_term : String → LearningItemListItem → Bool
  matches_term term item =
      term == ""
      || includes (lower item.lemma) term
      || includes (lower (or_else item.short_definition item.definition)) term
      || includes (lower item.localized_definition) term
      || includes (lower (or_else item.localized_short_definition "")) term
      || includes (lower (or_else (simple item) "")) term

  unfoldable pub filtered_items :
      (q key : String) → List LearningItemListItem → List LearningItemListItem
  filtered_items q key items =
      filter (λ item. matches_filter key item && matches_term (lower (trim q)) item) items

abbrev is_at : String → LearningItemListItem → Bool
is_at stage item = item.learning_stage == stage

get-count_stage :
    (counts : List (String × ℕ)) (stage key : String) (n : ℕ)
    → get counts key ≡ some n
    → get (count_stage counts stage) key ≡ some (if stage == key then n + 1 else n)
get-count_stage counts stage key n h = elim (Option-cases (get counts stage)) [
  | inl absent ↦ rw (count_stage, absent) (ground (arith, h, absent, eq_iff stage key))
  | inr (m, present) ↦
      rw (count_stage, present, get-put counts stage key (m + 1))
        (ground (arith, h, present, eq_iff stage key))
]

get-count_stages :
    (counts : List (String × ℕ)) (items : List LearningItemListItem) (key : String) (n : ℕ)
    → get counts key ≡ some n
    → get (count_stages counts items) key ≡ some (n + count_p (is_at key) items)
unfolding count_stages
get-count_stages counts [] key n h = rw h (ground arith)
get-count_stages counts (item ∷ items) key n h =
    let next : get (count_stage counts item.learning_stage) key
        ≡ some (if item.learning_stage == key then n + 1 else n) =
      get-count_stage counts item.learning_stage key n h in
    elim (Bool-cases (item.learning_stage == key)) [
      | inl same ↦
          rw
            (
              same,
              get-count_stages (count_stage counts item.learning_stage) items key (n + 1)
                  (rw same at next),
            )
            (ground arith)
      | inr other ↦
          rw other (
            get-count_stages (count_stage counts item.learning_stage) items key n
              (rw other at next))
    ]

-- The stages are never "all".
abbrev pub HasStages : List LearningItemListItem → Type 0
HasStages items =
    All (λ (item : LearningItemListItem). (item.learning_stage == "all") ≡ false) items

none_at_all :
    (items : List LearningItemListItem) → HasStages items → count_p (is_at "all") items ≡ 0
none_at_all [] h = refl
none_at_all (item ∷ items) h = ground (arith, h.0, none_at_all items h.1)

get-zeros :
    (keys : List String) (key : String) → contains keys key ≡ true → get (zeros keys) key ≡ some 0
get-zeros [] key h = cc
get-zeros (k ∷ keys) key h = elim (Bool-cases (k == key)) [
  | inl same ↦ rw same refl
  | inr other ↦ rw other (get-zeros keys key (rw other at h))
]

counts_at :
    (items : List LearningItemListItem) (key : String)
    → HasStages items
    → contains ("all" ∷ stages) key ≡ true
    → get (stage_counts items) key
      ≡ some (if key == "all" then length items else count_p (is_at key) items)
unfolding stage_counts
counts_at items key h present =
    let start : List (String × ℕ) = ("all", length items) ∷ zeros stages in
    elim (Bool-cases ("all" == key)) [
      | inl same ↦
          let e : "all" ≡ key = (eq_iff "all" key).0 same in
          subst
            (λ k.
              get (count_stages start items) k
              ≡ some (if k == "all" then length items else count_p (is_at k) items))
            e
            (rw (get-count_stages start items "all" (length items) refl, none_at_all items h)
              (ground arith))
      | inr other ↦
          rw
            (get-count_stages start items key 0
              (rw other (get-zeros stages key (rw other at present))))
            (ground (arith, other, eq_iff "all" key, eq_iff key "all"))
    ]

module _ (trim lower : String → String) (includes : String → String → Bool)
    (simple : LearningItemListItem → Option String) where
  count_p-matches :
      (term key : String) (items : List LearningItemListItem)
      → term ≡ ""
      → count_p
          (λ item. matches_filter key item && matches_term trim lower includes simple term item)
          items
        ≡ (if key == "all" then length items else count_p (is_at key) items)
  count_p-matches term key [] h = ground arith
  count_p-matches term key (item ∷ items) h =
      ground (arith, count_p-matches term key items h, h, eq_refl "", eq_iff term "")

  -- Where nothing is searched for and no word has the stage "all", the count above each filter is
  -- the number of the words that the filter shows.
  pub stage_counts-filtered :
      (q key : String) (items : List LearningItemListItem)
      → lower (trim q) ≡ ""
      → HasStages items
      → contains ("all" ∷ stages) key ≡ true
      → get (stage_counts items) key
        ≡ some (length (filtered_items trim lower includes simple q key items))
  unfolding stage_counts filtered_items
  stage_counts-filtered q key items blank h present =
      rw
        (
          length-filter
              (λ item.
                matches_filter key item
                && matches_term trim lower includes simple (lower (trim q)) item)
              items,
          count_p-matches (lower (trim q)) key items blank,
        )
        (counts_at items key h present)

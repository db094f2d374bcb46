-- ===== src/Words/Tests.antt =====
-- Runs of the deck counts and the paged list, and their theorems at concrete inputs.
use project_pn.Prelude.{
  ◌≡◌, refl, String, true, false, inl, Option, none, some, [], ◌∷◌, ◌++◌, ℕ, Bool, ◌==◌, get,
  length,
}
use project_pn.Words.Item.{LearningItemListItem, LearningItemsPage, Deck, private}
use project_pn.Words.DeckCounts.{adjust_deck_counts_for_removed_items, adjust_deck_counts_for_move}
use project_pn.Words.CountLaws.{CountsMatch}
use project_pn.Words.LearningItems.{
  Filters, reload, load_more, refresh, ready, listed, LearningItems, initial, begin_reload,
  begin_refresh, begin_load_more, settle, done, then_, reloaded,
}
use project_pn.Words.Stale.{shown, superseded-not_shown}
use project_pn.Words.Races.{asked, answer_one, refreshing-stuck, old-cursor-appended}
use project_pn.Words.Screen.{WordsScreen, first_screen, begin_move}
use project_pn.Words.Screen.Counts.{move, begin_change, words_after, change-CountsMatch}
use project_pn.Words.Screen.Filtering.{stage_counts, filtered_items, stage_counts-filtered}

abbrev word : String → Option String → LearningItemListItem
word id deck = record {
  id = id;
  word_sense_id = id;
  word_id = id;
  language_code = "en";
  lemma = id;
  normalized_text = id;
  part_of_speech = "noun";
  pronunciation = none;
  display_language_code = "ko";
  definition = "";
  short_definition = none;
  localized_definition = "";
  localized_short_definition = none;
  cefr_level = none;
  meaning_order = 1;
  learning_stage = "new";
  due_at = "";
  added_at = "";
  deck_id = deck;
  deck_name = none;
  last_reviewed_at = none;
  personal_note = none;
  lapse_count = none;
  is_leech = none;
  examples = [];
}

abbrev deck : String → ℕ → Deck
deck id n = record {
  id = id;
  user_id = "u";
  target_language = "en";
  name = id;
  is_default = false;
  origin = private;
  item_count = n;
  created_at = "";
  updated_at = "";
}

abbrev in_x : LearningItemListItem
in_x = word "1" (some "x")

abbrev in_y : LearningItemListItem
in_y = word "2" (some "y")

removed_test :
    adjust_deck_counts_for_removed_items (deck "x" 2 ∷ deck "y" 1 ∷ []) (in_x ∷ [])
    ≡ deck "x" 1 ∷ deck "y" 1 ∷ []
unfolding adjust_deck_counts_for_removed_items
removed_test = refl

abbrev all_words : Filters
all_words = record { q = none; deck_id = none; language_code = none }

abbrev first_page : LearningItemsPage
first_page = record { items = in_x ∷ []; next_cursor = some "c" }

abbrev second_page : LearningItemsPage
second_page = record { items = in_y ∷ []; next_cursor = none }

-- A reload is running.
abbrev reloading : LearningItems
reloading = begin_reload true all_words initial

-- The first page is there.
abbrev first_shown : LearningItems
first_shown = record initial {
  items = in_x ∷ [];
  next_cursor = some "c";
  next_cursor_ref = some "c";
  status = ready;
  request_id_ref = 1;
}

first_shown_test :
    settle "wrong"
      (asked reload 1 all_words none)
      (listed first_page)
      (record reloading { pending = [] })
    ≡ first_shown
unfolding begin_reload settle
first_shown_test = refl

superseded-not_shown_example :
    shown (
      settle "wrong"
        (asked reload 1 all_words none)
        (listed first_page)
        (begin_refresh all_words reloading))
    ≡ shown (begin_refresh all_words reloading)
unfolding begin_reload
superseded-not_shown_example =
    superseded-not_shown "wrong" reloading (begin_refresh all_words reloading) all_words [] []
      (asked reload 1 all_words none) (listed first_page)
      (then_ done (reloaded initial true all_words)) refl (inl done)

refreshing-stuck_example :
    ((begin_reload true all_words (begin_refresh all_words first_shown)).pending
      ≡ asked refresh 2 all_words none ∷ asked reload 3 all_words none ∷ [])
    × ((answer_one "wrong" (asked reload 3 all_words none) (listed first_page) [] (
          answer_one "wrong"
            (asked refresh 2 all_words none)
            (listed first_page)
            (asked reload 3 all_words none ∷ [])
            (begin_reload true all_words (begin_refresh all_words first_shown)))).pending
        ≡ [])
    × ((answer_one "wrong" (asked reload 3 all_words none) (listed first_page) [] (
          answer_one "wrong"
            (asked refresh 2 all_words none)
            (listed first_page)
            (asked reload 3 all_words none ∷ [])
            (begin_reload true all_words (begin_refresh all_words first_shown)))).is_refreshing
        ≡ true)
refreshing-stuck_example =
    refreshing-stuck "wrong" all_words all_words first_shown (listed first_page) (listed first_page)
      refl

old-cursor-appended_example :
    ((begin_load_more ready all_words (begin_refresh all_words first_shown)).pending
      ≡ asked refresh 2 all_words none ∷ asked load_more 2 all_words (some "c") ∷ [])
    × ((answer_one "wrong" (asked load_more 2 all_words (some "c")) (listed second_page) [] (
          answer_one "wrong"
            (asked refresh 2 all_words none)
            (listed first_page)
            (asked load_more 2 all_words (some "c") ∷ [])
            (begin_load_more ready all_words (begin_refresh all_words first_shown)))).items
        ≡ in_x ∷ in_y ∷ [])
    × ((answer_one "wrong" (asked load_more 2 all_words (some "c")) (listed second_page) [] (
          answer_one "wrong"
            (asked refresh 2 all_words none)
            (listed first_page)
            (asked load_more 2 all_words (some "c") ∷ [])
            (begin_load_more ready all_words (begin_refresh all_words first_shown)))).next_cursor
        ≡ none)
old-cursor-appended_example =
    old-cursor-appended "wrong" all_words all_words first_shown "c" first_page second_page refl refl
      refl refl

abbrev two_decks : WordsScreen
two_decks = record (first_screen none) {
  list = record initial { items = in_x ∷ in_y ∷ [] };
  decks = deck "x" 2 ∷ deck "y" 1 ∷ [];
  selected_deck_id = some "x";
  move_item_ids = "1" ∷ [];
}

move_test : (begin_change (move "y") two_decks).decks ≡ deck "x" 1 ∷ deck "y" 2 ∷ []
unfolding begin_move adjust_deck_counts_for_move
move_test = refl

change-CountsMatch_example :
    CountsMatch
      (words_after (move "y") two_decks ++ word "3" (some "x") ∷ [])
      (begin_change (move "y") two_decks).decks
    × ((begin_change (move "y") two_decks).list.items ≡ in_y ∷ [])
change-CountsMatch_example =
    change-CountsMatch (move "y") two_decks (word "3" (some "x") ∷ [])
      ((refl, refl), ((refl, refl), tt))

abbrev same : String → String
same text = text

abbrev includes : String → String → Bool
includes text part = text == part

stage_counts-filtered_example :
    get (stage_counts (in_x ∷ in_y ∷ [])) "new"
    ≡ some (length (filtered_items same same includes (λ item. none) "" "new" (in_x ∷ in_y ∷ [])))
stage_counts-filtered_example =
    stage_counts-filtered same same includes (λ item. none) "" "new" (in_x ∷ in_y ∷ []) refl
      (refl, (refl, tt)) refl

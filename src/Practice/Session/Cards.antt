-- ===== src/Practice/Session/Cards.antt =====
-- The items of a session as entries and cards: frontend/src/features/practice/PracticeScreen.tsx.
use project_pn.Prelude.{
  ℕ, String, Bool, true, none, List, [], ◌∷◌, ◌==◌, ltb, if◌then◌else◌, or_else, get, put,
}
use project_pn.Practice.Item.{DueItem}
use project_pn.Words.Item.{LearningItemListItem}

unfoldable pub learning_item_to_due_item : LearningItemListItem → DueItem
learning_item_to_due_item item = record {
  user_word_sense_id = item.id;
  word_sense_id = item.word_sense_id;
  word_id = item.word_id;
  language_code = item.language_code;
  lemma = item.lemma;
  normalized_text = item.normalized_text;
  part_of_speech = item.part_of_speech;
  pronunciation = item.pronunciation;
  display_language_code = item.display_language_code;
  definition = item.definition;
  short_definition = item.short_definition;
  localized_definition = item.localized_definition;
  localized_short_definition = item.localized_short_definition;
  cefr_level = item.cefr_level;
  meaning_order = item.meaning_order;
  learning_stage = item.learning_stage;
  due_at = item.due_at;
  preview_intervals = none;
  personal_note = item.personal_note;
  lapse_count = item.lapse_count;
  is_leech = item.is_leech;
  examples = item.examples;
}

unfoldable pub due_item_to_list_item : DueItem → LearningItemListItem
due_item_to_list_item item = record {
  id = item.user_word_sense_id;
  word_sense_id = item.word_sense_id;
  word_id = item.word_id;
  language_code = item.language_code;
  lemma = item.lemma;
  normalized_text = item.normalized_text;
  part_of_speech = item.part_of_speech;
  pronunciation = item.pronunciation;
  display_language_code = item.display_language_code;
  definition = item.definition;
  short_definition = item.short_definition;
  localized_definition = item.localized_definition;
  localized_short_definition = item.localized_short_definition;
  cefr_level = item.cefr_level;
  meaning_order = item.meaning_order;
  learning_stage = item.learning_stage;
  due_at = item.due_at;
  added_at = item.due_at;
  deck_id = none;
  deck_name = none;
  last_reviewed_at = none;
  personal_note = item.personal_note;
  lapse_count = item.lapse_count;
  is_leech = item.is_leech;
  examples = item.examples;
}

-- The loop of `failedMapFromDueItems`.
abbrev pub mark_failed : List (String × Bool) → List DueItem → List (String × Bool)
mark_failed next [] = next
mark_failed next (item ∷ items) =
    mark_failed
      (if item.learning_stage == "learning" then put next item.user_word_sense_id true else next)
      items

unfoldable pub failed_map_from_due_items : List DueItem → List (String × Bool)
failed_map_from_due_items items = mark_failed [] items

pub data CardMode : Type 0 where
  typing flashcard : CardMode

pub data SessionMode : Type 0 where
  normal repeat : SessionMode

pub data SessionStatus : Type 0 where
  idle loading_due loading_repeat active submitting success failure : SessionStatus

-- Probabilities and draws are in hundredths, a draw below 100.
abbrev pub flashcard_probability_by_stage : List (String × ℕ)
flashcard_probability_by_stage =
    ("new", 100)
    ∷ ("learning", 100)
    ∷ ("recognized", 100)
    ∷ ("recalled", 100)
    ∷ ("usable", 100)
    ∷ ("mastered", 100)
    ∷ []

unfoldable pub decide_card_mode : DueItem → (draw : ℕ) → CardMode
decide_card_mode item draw =
    if ltb draw (or_else (get flashcard_probability_by_stage item.learning_stage) 100)
    then flashcard
    else typing

-- ===== src/Practice/Item/Data.antt =====
-- The data of a due item and its patches: frontend/src/types/index.ts and
-- frontend/src/features/practice/practiceItemState.ts.
use project_pn.Prelude.{ℕ, String, Bool, Option, none, List, or_option}

pub record Example : Type 0 where
  pub sentence : String
  pub difficulty : Option String
  pub localized_translation : Option String

pub record IntervalPreview : Type 0 where
  pub again : String
  pub hard : String
  pub good : String
  pub easy : String

pub record DueItem : Type 0 where
  pub user_word_sense_id : String
  pub word_sense_id : String
  pub word_id : String
  pub language_code : String
  pub lemma : String
  pub normalized_text : String
  pub part_of_speech : String
  pub pronunciation : Option String
  pub display_language_code : String
  pub definition : String
  pub short_definition : Option String
  pub localized_definition : String
  pub localized_short_definition : Option String
  pub cefr_level : Option String
  pub meaning_order : ℕ
  pub learning_stage : String
  pub due_at : String
  pub preview_intervals : Option IntervalPreview
  pub personal_note : Option (Option String)
  pub lapse_count : Option ℕ
  pub is_leech : Option Bool
  pub examples : List Example

-- A field of a `Partial`: a key that is not there, or its value.
pub data Field (A : Type 0) : Type 0 where
  absent : Field A
  given : A → Field A

-- `Partial<DueItem>`
pub record DueItemPatch : Type 0 where
  pub user_word_sense_id : Field String
  pub word_sense_id : Field String
  pub word_id : Field String
  pub language_code : Field String
  pub lemma : Field String
  pub normalized_text : Field String
  pub part_of_speech : Field String
  pub pronunciation : Field (Option String)
  pub display_language_code : Field String
  pub definition : Field String
  pub short_definition : Field (Option String)
  pub localized_definition : Field String
  pub localized_short_definition : Field (Option String)
  pub cefr_level : Field (Option String)
  pub meaning_order : Field ℕ
  pub learning_stage : Field String
  pub due_at : Field String
  pub preview_intervals : Field (Option IntervalPreview)
  pub personal_note : Field (Option (Option String))
  pub lapse_count : Field (Option ℕ)
  pub is_leech : Field (Option Bool)
  pub examples : Field (List Example)

abbrev pub empty_patch : DueItemPatch
empty_patch = record {
  user_word_sense_id = absent;
  word_sense_id = absent;
  word_id = absent;
  language_code = absent;
  lemma = absent;
  normalized_text = absent;
  part_of_speech = absent;
  pronunciation = absent;
  display_language_code = absent;
  definition = absent;
  short_definition = absent;
  localized_definition = absent;
  localized_short_definition = absent;
  cefr_level = absent;
  meaning_order = absent;
  learning_stage = absent;
  due_at = absent;
  preview_intervals = absent;
  personal_note = absent;
  lapse_count = absent;
  is_leech = absent;
  examples = absent;
}

-- One key of `{ ...item, ...update }`. A key that is there wins, even with `undefined`.
abbrev pub spread : {A : Type 0} → Field A → A → A
spread absent old = old
spread (given new) old = new

-- `update.field` of an optional field.
abbrev pub read : {A : Type 0} → Field (Option A) → Option A
read absent = none
read (given v) = v

-- `{ ...item, ...update }`
unfoldable pub spread_item : DueItem → DueItemPatch → DueItem
spread_item item update = record {
  user_word_sense_id = spread update.user_word_sense_id item.user_word_sense_id;
  word_sense_id = spread update.word_sense_id item.word_sense_id;
  word_id = spread update.word_id item.word_id;
  language_code = spread update.language_code item.language_code;
  lemma = spread update.lemma item.lemma;
  normalized_text = spread update.normalized_text item.normalized_text;
  part_of_speech = spread update.part_of_speech item.part_of_speech;
  pronunciation = spread update.pronunciation item.pronunciation;
  display_language_code = spread update.display_language_code item.display_language_code;
  definition = spread update.definition item.definition;
  short_definition = spread update.short_definition item.short_definition;
  localized_definition = spread update.localized_definition item.localized_definition;
  localized_short_definition =
      spread update.localized_short_definition item.localized_short_definition;
  cefr_level = spread update.cefr_level item.cefr_level;
  meaning_order = spread update.meaning_order item.meaning_order;
  learning_stage = spread update.learning_stage item.learning_stage;
  due_at = spread update.due_at item.due_at;
  preview_intervals = spread update.preview_intervals item.preview_intervals;
  personal_note = spread update.personal_note item.personal_note;
  lapse_count = spread update.lapse_count item.lapse_count;
  is_leech = spread update.is_leech item.is_leech;
  examples = spread update.examples item.examples;
}

unfoldable pub merge_due_item_update : DueItem → DueItemPatch → DueItem
unfolding spread_item
merge_due_item_update item update = record (spread_item item update) {
  preview_intervals = or_option (read update.preview_intervals) item.preview_intervals;
}

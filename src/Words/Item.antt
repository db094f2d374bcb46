-- ===== src/Words/Item.antt =====
-- The entries of a word list and the decks they belong to: frontend/src/types/index.ts.
-- An optional field is an `Option`; where the source has both `undefined` and `null`, the outer
-- `Option` is `undefined`. `deck_id` is only ever tested for presence: both are `none` there.
use project_pn.Prelude.{ℕ, String, Bool, Option, List}
use project_pn.Practice.Item.{Example}

pub record LearningItemListItem : Type 0 where
  pub id : String
  pub word_sense_id : String
  pub word_id : String
  pub language_code : String
  pub lemma : String
  pub normalized_text : String
  pub part_of_speech : String
  pub pronunciation : Option String
  pub display_language_code : String
  pub definition : String
  pub short_definition : Option String
  pub localized_definition : String
  pub localized_short_definition : Option String
  pub cefr_level : Option String
  pub meaning_order : ℕ
  pub learning_stage : String
  pub due_at : String
  pub added_at : String
  pub deck_id : Option String
  pub deck_name : Option String
  pub last_reviewed_at : Option (Option String)
  pub personal_note : Option (Option String)
  pub lapse_count : Option ℕ
  pub is_leech : Option Bool
  pub examples : List Example

pub record LearningItemsPage : Type 0 where
  pub items : List LearningItemListItem
  pub next_cursor : Option String

pub data DeckOrigin : Type 0 where
  private : DeckOrigin

pub record Deck : Type 0 where
  pub id : String
  pub user_id : String
  pub target_language : String
  pub name : String
  pub is_default : Bool
  pub origin : DeckOrigin
  pub item_count : ℕ
  pub created_at : String
  pub updated_at : String

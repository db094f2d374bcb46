-- ===== src/Add/Senses.antt =====
-- The sense that is chosen for a word: SenseOption of frontend/src/types/index.ts, and
-- frontend/src/utils/senses.ts. Similarities, which are at least 0, are in millionths.
use project_pn.Prelude.{
  ℕ, String, Bool, false, ◌&&◌, Option, none, some, List, [], ◌∷◌, ◌==◌, ltb, leb, if◌then◌else◌,
  or_else, is_some, filter,
}
use project_pn.Practice.Item.{Example}

pub record SenseOption : Type 0 where
  pub word_id : String
  pub word_sense_id : String
  pub language_code : String
  pub lemma : String
  pub normalized_text : String
  pub part_of_speech : String
  pub pronunciation : Option String
  pub display_language_code : String
  pub definition : String
  pub short_definition : Option String
  pub localized_definition : String
  pub localized_short_definition : Option String
  pub cefr_level : Option String
  pub meaning_order : ℕ
  pub similarity : Option ℕ
  pub examples : List Example

abbrev pub closest_similarity_threshold : ℕ
closest_similarity_threshold = 80000

abbrev pub similarity_of : SenseOption → Option ℕ
similarity_of option = option.similarity

-- The callbacks of the two `reduce` calls.
abbrev pub closer : SenseOption → SenseOption → SenseOption
closer best current =
    if ltb (or_else (similarity_of best) 0) (or_else (similarity_of current) 0)
    then current
    else best

abbrev pub earlier : SenseOption → SenseOption → SenseOption
earlier best current = if ltb current.meaning_order best.meaning_order then current else best

-- `reduce` without an initial value, on a list with a first element.
abbrev pub reduce :
    (SenseOption → SenseOption → SenseOption) → SenseOption → List SenseOption → SenseOption
reduce f best [] = best
reduce f best (current ∷ options) = reduce f (f best current) options

abbrev pub is_scored : SenseOption → Bool
is_scored option = is_some (similarity_of option)

-- The sense of the options, given the scored ones among them.
abbrev pub best_among : List SenseOption → List SenseOption → Option SenseOption
best_among (scored ∷ more) options = some (reduce closer scored more)
best_among [] (option ∷ options) = some (reduce earlier option options)
best_among [] [] = none

unfoldable pub best_match : List SenseOption → Option SenseOption
best_match options = best_among (filter is_scored options) options

unfoldable pub is_closest_to_context : SenseOption → List SenseOption → Bool
unfolding best_match
is_closest_to_context option options =
    (elim (best_match options) [
      | none ↦ false
      | some top ↦ top.word_sense_id == option.word_sense_id
    ])
    && (elim (similarity_of option) [
      | none ↦ false
      | some score ↦ leb closest_similarity_threshold score
    ])

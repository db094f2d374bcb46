-- ===== src/Practice/Item.antt =====
-- The items of a practice session, and the state that a grade or a server update gives them:
-- frontend/src/types/index.ts and the first half of features/practice/practiceItemState.ts.
-- An optional field is an `Option`; where the source has both `undefined` and `null`, the outer
-- `Option` is `undefined`. Rating scores are in hundredths, learning steps in whole minutes.
mod Data
unfoldable pub use Data.*
use project_pn.Prelude.{
  ℕ, ◌+◌, ◌/◌, max, String, Bool, ◌||◌, Option, none, some, List, [], ◌∷◌, map, if◌then◌else◌, ltb,
  leb, truthy, or_else, or_option, filter, contains, set_of, get, put_all,
}
use Prim.Native.String

-- `PASSING_SCORE_THRESHOLD`, 0.75, in hundredths.
abbrev pub passing_score_threshold : ℕ
passing_score_threshold = 75

unfoldable pub is_passing_score : ℕ → Bool
is_passing_score score = leb passing_score_threshold score

-- `String(n)` of the platform is the parameter `decimal`.
module _ (decimal : ℕ → String) where
  unfoldable pub format_step_minutes : ℕ → String
  format_step_minutes minutes =
      if ltb minutes 60
      then String.◌++◌ (decimal (max 1 minutes)) "m"
      else String.◌++◌ (decimal (max 1 ((minutes + 30) / 60))) "h"

  abbrev last_or : ℕ → List ℕ → ℕ
  last_or d [] = d
  last_or d (x ∷ xs) = last_or x xs

  abbrev head_or : ℕ → List ℕ → ℕ
  head_or d [] = d
  head_or d (x ∷ xs) = x

  abbrev second_or : ℕ → List ℕ → ℕ
  second_or d [] = d
  second_or d (x ∷ xs) = head_or d xs

  unfoldable pub learning_preview_from_steps : List ℕ → IntervalPreview
  unfolding format_step_minutes
  learning_preview_from_steps steps =
      let first : ℕ = head_or 1 steps in
      let second : ℕ = second_or first steps in
      let last : ℕ = last_or second steps in
      record {
        again = format_step_minutes first;
        hard = format_step_minutes first;
        good = format_step_minutes second;
        easy = format_step_minutes last;
      }

  -- `settings` is the `learning_steps` of the settings, if there are any.
  unfoldable pub optimistic_due_item_after_again : DueItem → Option (List ℕ) → DueItem
  unfolding learning_preview_from_steps
  optimistic_due_item_after_again item settings =
      let steps : List ℕ = elim (or_else settings []) [ [] ↦ 1 ∷ 10 ∷ [] | s ∷ ss ↦ s ∷ ss ] in
      record item {
        learning_stage = "learning";
        preview_intervals = some (learning_preview_from_steps steps);
      }

pub data ReviewActivityType : Type 0 where
  word_to_meaning meaning_to_word cloze multiple_choice : ReviewActivityType
  typing speaking writing sentence_creation : ReviewActivityType

pub record ReviewAttemptParams : Type 0 where
  pub user_word_sense_id : String
  pub activity_type : ReviewActivityType
  pub prompt : Option String
  pub user_answer : Option String
  pub correct_answer : Option String
  pub is_correct : Bool
  pub rating_score : ℕ
  pub response_time_ms : Option ℕ
  pub confidence_rating : Option ℕ

pub record BatchReviewItemUpdate : Type 0 where
  pub user_word_sense_id : String
  pub learning_stage : String
  pub due_at : String
  pub preview_intervals : Option IntervalPreview
  pub suspended : Option Bool
  pub leech : Option Bool
  pub lapse_count : Option ℕ
  pub is_leech : Option Bool

-- `new Map(updates.map((update) => [update.user_word_sense_id, update]))`
abbrev pub keyed : List BatchReviewItemUpdate → List (String × BatchReviewItemUpdate)
keyed [] = []
keyed (u ∷ us) = (u.user_word_sense_id, u) ∷ keyed us

abbrev pub by_id : List BatchReviewItemUpdate → List (String × BatchReviewItemUpdate)
by_id us = put_all [] (keyed us)

abbrev pub suspended_ids : List BatchReviewItemUpdate → List String
suspended_ids us = set_of (map (λ u. u.user_word_sense_id) (filter (λ u. truthy u.suspended) us))

-- The callback of the `filter`, over the items from index `idx` on.
unfoldable pub drop_suspended : List String → ℕ → ℕ → List DueItem → List DueItem
drop_suspended gone preserve idx [] = []
drop_suspended gone preserve idx (item ∷ items) =
    let rest = drop_suspended gone preserve (idx + 1) items in
    if contains gone item.user_word_sense_id
    then (if ltb idx preserve then item ∷ rest else rest)
    else item ∷ rest

-- The patch that the callback of the `map` merges.
abbrev pub list_patch : DueItem → BatchReviewItemUpdate → DueItemPatch
list_patch item update = record empty_patch {
  learning_stage = given update.learning_stage;
  due_at = given update.due_at;
  preview_intervals = given update.preview_intervals;
  is_leech = given (some (truthy update.is_leech || truthy update.leech || truthy item.is_leech));
  lapse_count = given (or_option update.lapse_count item.lapse_count);
}

-- The callback of the `map`.
unfoldable pub update_item : List (String × BatchReviewItemUpdate) → DueItem → DueItem
unfolding merge_due_item_update
update_item updates item = elim (get updates item.user_word_sense_id) [
  | none ↦ item
  | some update ↦
      if truthy update.suspended then item else merge_due_item_update item (list_patch item update)
]

unfoldable pub apply_due_item_updates_to_list :
    List DueItem → List BatchReviewItemUpdate → ℕ → List DueItem
unfolding drop_suspended update_item
apply_due_item_updates_to_list items [] preserve = items
apply_due_item_updates_to_list items (u ∷ us) preserve =
    map (update_item (by_id (u ∷ us))) (drop_suspended (suspended_ids (u ∷ us)) preserve 0 items)

abbrev pub override_patch : BatchReviewItemUpdate → DueItemPatch
override_patch update = record empty_patch {
  learning_stage = given update.learning_stage;
  due_at = given update.due_at;
  preview_intervals = given update.preview_intervals;
  is_leech = given (some (truthy update.is_leech || truthy update.leech));
  lapse_count = given update.lapse_count;
}

-- The entries that the loop of `overridesFromBatchUpdates` writes, in order.
abbrev pub override_entries : List BatchReviewItemUpdate → List (String × DueItemPatch)
override_entries [] = []
override_entries (u ∷ us) =
    if truthy u.suspended
    then override_entries us
    else (u.user_word_sense_id, override_patch u) ∷ override_entries us

unfoldable pub overrides_from_batch_updates :
    List BatchReviewItemUpdate → List (String × DueItemPatch)
overrides_from_batch_updates us = put_all [] (override_entries us)

unfoldable pub resolve_due_item : DueItem → List (String × DueItemPatch) → DueItem
unfolding merge_due_item_update
resolve_due_item item overrides = elim (get overrides item.user_word_sense_id) [
  | none ↦ item
  | some override ↦ merge_due_item_update item override
]

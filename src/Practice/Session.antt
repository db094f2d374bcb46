-- ===== src/Practice/Session.antt =====
-- The state of a practice session, how it is loaded, and how a batch of server updates or a changed
-- meaning changes it: frontend/src/features/practice/PracticeScreen.tsx.
-- Fields that only drive the display (the animation, the measured heights, the chosen meaning
-- sheet) are left out. A batch result's items are an empty list where the source has none.
mod Cards
unfoldable pub use Cards.*
use project_pn.Prelude.{
  ℕ, String, Bool, true, false, not, ◌||◌, Option, none, some, List, [], ◌∷◌, ◌==◌, map, ltb,
  if◌then◌else◌, truthy, or_else, or_option, find, get, put, put_all, remove,
}
use project_pn.Practice.Item.{
  DueItem, DueItemPatch, given, empty_patch, spread_item, BatchReviewItemUpdate,
  ReviewAttemptParams, apply_due_item_updates_to_list, overrides_from_batch_updates,
}
use project_pn.Practice.Queue.{shuffle_practice_queue}
use project_pn.Words.Item.{LearningItemListItem}

pub record Session : Type 0 where
  pub status : SessionStatus
  pub session_mode : SessionMode
  pub card_mode : CardMode
  pub due_items : List DueItem
  pub queue : List DueItem
  pub current_index : ℕ
  pub current_index_ref : ℕ
  pub is_flipped : Bool
  pub user_answer : String
  pub response_time_ms : Option ℕ
  pub rating_score : ℕ
  pub attempts : List ReviewAttemptParams
  pub xp_earned : ℕ
  pub error_msg : Option String
  pub is_saving : Bool
  pub save_error : Option String
  pub session_stuck : List (String × DueItem)
  pub pending : List ReviewAttemptParams
  pub flushing : Bool
  pub example_index_map : List (String × ℕ)
  pub failed_map : List (String × Bool)
  pub item_overrides : List (String × DueItemPatch)
  pub learning_steps : Option (List ℕ)

unfoldable pub reset_card_interaction : Session → Session
reset_card_interaction s = record s {
  is_flipped = false;
  user_answer = "";
  response_time_ms = none;
  rating_score = 200;
}

-- The loop over `sessionStuck`.
abbrev pub stick :
    List DueItem
    → List DueItem
    → List (String × DueItem)
    → List BatchReviewItemUpdate
    → List (String × DueItem)
stick next_queue prev stuck [] = stuck
stick next_queue prev stuck (u ∷ us) =
    let at_id : DueItem → Bool = λ item. item.user_word_sense_id == u.user_word_sense_id in
    stick next_queue prev
      (if truthy u.suspended || not (truthy u.leech || truthy u.is_leech)
        then stuck
        else (elim (or_option (find at_id next_queue) (find at_id prev)) [
          | none ↦ stuck
          | some item ↦ put stuck u.user_word_sense_id (record item {
            is_leech = some true;
            lapse_count = or_option u.lapse_count item.lapse_count;
          })
        ]))
      us

-- The loop over `failedMap`.
abbrev pub fail_or_clear : List (String × Bool) → List BatchReviewItemUpdate → List (String × Bool)
fail_or_clear next [] = next
fail_or_clear next (u ∷ us) =
    fail_or_clear
      (if truthy u.suspended
        then remove next u.user_word_sense_id
        else if u.learning_stage == "learning"
        then put next u.user_word_sense_id true
        else next)
      us

unfoldable pub apply_due_item_updates : List BatchReviewItemUpdate → Session → Session
unfolding apply_due_item_updates_to_list overrides_from_batch_updates
apply_due_item_updates [] s = s
apply_due_item_updates (u ∷ us) s =
    let next_queue : List DueItem =
      apply_due_item_updates_to_list s.queue (u ∷ us) s.current_index_ref in
    record s {
      item_overrides = put_all s.item_overrides (overrides_from_batch_updates (u ∷ us));
      due_items = apply_due_item_updates_to_list s.due_items (u ∷ us) 0;
      queue = next_queue;
      session_stuck = stick next_queue s.queue s.session_stuck (u ∷ us);
      failed_map = fail_or_clear s.failed_map (u ∷ us);
    }

-- `duePatch` of `handleMeaningChanged`.
abbrev pub meaning_patch : LearningItemListItem → DueItemPatch
meaning_patch next = record empty_patch {
  word_sense_id = given next.word_sense_id;
  definition = given next.definition;
  short_definition = given next.short_definition;
  localized_definition = given next.localized_definition;
  localized_short_definition = given next.localized_short_definition;
  examples = given next.examples;
  meaning_order = given next.meaning_order;
  personal_note = given next.personal_note;
  is_leech = given next.is_leech;
  lapse_count = given next.lapse_count;
}

-- `{ ...prev[id], ...duePatch }`: the keys of `duePatch` win.
abbrev pub patch_meaning : DueItemPatch → LearningItemListItem → DueItemPatch
patch_meaning old next = record old {
  word_sense_id = given next.word_sense_id;
  definition = given next.definition;
  short_definition = given next.short_definition;
  localized_definition = given next.localized_definition;
  localized_short_definition = given next.localized_short_definition;
  examples = given next.examples;
  meaning_order = given next.meaning_order;
  personal_note = given next.personal_note;
  is_leech = given next.is_leech;
  lapse_count = given next.lapse_count;
}

abbrev pub patch_at : String → DueItemPatch → DueItem → DueItem
patch_at id patch item = if item.user_word_sense_id == id then spread_item item patch else item

unfoldable pub handle_meaning_changed : LearningItemListItem → Session → Session
unfolding spread_item
handle_meaning_changed next s = record s {
  item_overrides =
      put s.item_overrides next.id
        (patch_meaning (or_else (get s.item_overrides next.id) empty_patch) next);
  queue = map (patch_at next.id (meaning_patch next)) s.queue;
  due_items = map (patch_at next.id (meaning_patch next)) s.due_items;
  session_stuck = elim (get s.session_stuck next.id) [
    | none ↦ s.session_stuck
    | some existing ↦ put s.session_stuck next.id (spread_item existing (meaning_patch next))
  ];
}

unfoldable pub load_due_items : Session → Session
load_due_items s = record s { status = loading_due; error_msg = none; session_mode = normal }

unfoldable pub start_repeat_session : Session → Session
start_repeat_session s = record s { status = loading_repeat; error_msg = none }

-- The first card of shuffled items, which are not empty.
unfoldable pub begin_session : List DueItem → DueItem → (draw : ℕ) → Session → Session
unfolding failed_map_from_due_items decide_card_mode reset_card_interaction
begin_session shuffled first draw s = reset_card_interaction (record s {
  due_items = shuffled;
  queue = shuffled;
  current_index = 0;
  attempts = [];
  item_overrides = [];
  failed_map = failed_map_from_due_items shuffled;
  session_stuck = [];
  example_index_map = [];
  card_mode = decide_card_mode first draw;
  status = active;
})

-- `currentIndexRef.current = currentIndex`, after a render.
unfoldable pub sync_index : Session → Session
sync_index s = record s { current_index_ref = s.current_index }

abbrev pub no_session : Session → Session
no_session s = record s { due_items = []; queue = []; status = idle }

module _ {S : Type 0} (draw : S → ℕ → ℕ × S) where
  -- The answer of `getDueLearningItems`.
  unfoldable pub due_items_loaded : List DueItem → Session → S → Session × S
  unfolding shuffle_practice_queue begin_session
  due_items_loaded items s seed =
      let (shuffled, seed') = shuffle_practice_queue draw (λ (i : DueItem). i.word_id) items seed in
      elim shuffled [
        | [] ↦ (no_session s, seed)
        | first ∷ more ↦
            (let (mode_draw, seed'') = draw seed' 100 in
              (begin_session (first ∷ more) first mode_draw s, seed''))
      ]

  -- The answer of `listLearningItems`; `message` is the text for no words.
  unfoldable pub repeat_items_loaded :
      (message : String) → List LearningItemListItem → Session → S → Session × S
  unfolding shuffle_practice_queue begin_session learning_item_to_due_item
  repeat_items_loaded message [] s seed =
      (record s { status = idle; error_msg = some message }, seed)
  repeat_items_loaded message (item ∷ items) s seed =
      let (shuffled, seed') =
        shuffle_practice_queue draw (λ (i : DueItem). i.word_id)
          (map learning_item_to_due_item (item ∷ items)) seed in
      elim shuffled [
        | [] ↦ (record (no_session s) { error_msg = some message }, seed')
        | first ∷ more ↦
            (let (mode_draw, seed'') = draw seed' 100 in
              (
                begin_session (first ∷ more) first mode_draw (record s { session_mode = repeat }),
                seed'',
              ))
      ]

-- A failed load; `message` is the error's, or the fallback text.
unfoldable pub load_failed : (message : String) → Session → Session
load_failed message s = record s { error_msg = some message; status = idle }

-- ===== src/Practice/Tests.antt =====
-- Runs of the practice session's functions, and their theorems at concrete inputs.
use native.Mathlib.Nat.{mod-lt, div-zero, le-div_iff_mul-le, div-mul-le_self, mul-div_cancel_left}
use mathlib.Core.List.{Perm}
use project_pn.Prelude.{
  ℕ, zero, suc, ◌+◌, ◌%◌, ◌++◌, ◌⊎◌, ◌≤◌, ◌<◌, ◌*◌, ◌/◌, String, ◌≡◌, refl, Bool, true, false,
  Option, none, some, List, [], ◌∷◌, map, arith, any, take, eqb, get_elem?, if◌then◌else◌, inl,
}
use project_pn.Practice.Item.{
  DueItem, ReviewAttemptParams, word_to_meaning, BatchReviewItemUpdate,
  apply_due_item_updates_to_list, overrides_from_batch_updates, resolve_due_item,
}
use project_pn.Practice.Updates.{
  id_of, ids-apply_updates, schedule_of, schedule-apply_updates, resolve-clears-leech,
}
use project_pn.Practice.Queue.{shuffle_practice_queue, interleave_by_word_id, insert_retry_card}
use project_pn.Practice.Shuffle.{shuffle_practice_queue-perm}
use project_pn.Practice.Retry.{insert_retry_card-gap}
use project_pn.Practice.Progress.{session_progress, IsPercent, completed-session_progress}
use project_pn.Api.Client.{plain_error}
use project_pn.Practice.Session.{Session, active, normal, repeat, success, flashcard}
use project_pn.Practice.Flush.{confirm_grade, flush_failed}
use project_pn.Practice.Delivery.{opened, graded, Run-order}
use project_pn.Practice.Finish.{saved, failed, must_wait, finish_with}
use project_pn.Practice.Finish.Ends.{finish_with-ends}

-- A generator that counts.
abbrev count_up : ℕ → ℕ → ℕ × ℕ
count_up s n = (s % n, s + 1)

count_up_in_range : (s : ℕ) (n : ℕ) → 0 < n → (count_up s n).0 < n
count_up_in_range s n h = mod-lt s h

-- A card is a number; its word is the parity.
abbrev word_of : ℕ → String
word_of n = (if◌then◌else◌) (eqb (n % 2) 0) "even" "odd"

interleave_test : interleave_by_word_id word_of (1 ∷ 3 ∷ 5 ∷ 2 ∷ 4 ∷ []) ≡ 1 ∷ 2 ∷ 3 ∷ 4 ∷ 5 ∷ []
unfolding interleave_by_word_id
interleave_test = refl

retry_test : (insert_retry_card count_up eqb (1 ∷ 2 ∷ 3 ∷ 4 ∷ []) 1 9 0).0 ≡ 1 ∷ 4 ∷ 2 ∷ 3 ∷ 9 ∷ []
unfolding insert_retry_card
retry_test = refl

shuffle_practice_queue-perm_example :
    Perm (shuffle_practice_queue count_up word_of (1 ∷ 2 ∷ 3 ∷ []) 0).0 (1 ∷ 2 ∷ 3 ∷ [])
shuffle_practice_queue-perm_example =
    shuffle_practice_queue-perm count_up word_of (1 ∷ 2 ∷ 3 ∷ []) 0

insert_retry_card-gap_example :
    any (λ x. eqb x 9) (take 3 (insert_retry_card count_up eqb (1 ∷ 2 ∷ 3 ∷ 4 ∷ []) 1 9 0).0)
    ≡ false
insert_retry_card-gap_example =
    insert_retry_card-gap count_up eqb (1 ∷ 2 ∷ 3 ∷ 4 ∷ []) 1 9 0 count_up_in_range refl refl

abbrev card : String → Option Bool → DueItem
card id leech = record {
  user_word_sense_id = id;
  word_sense_id = "s";
  word_id = "w";
  language_code = "en";
  lemma = "run";
  normalized_text = "run";
  part_of_speech = "verb";
  pronunciation = none;
  display_language_code = "ko";
  definition = "move";
  short_definition = none;
  localized_definition = "l";
  localized_short_definition = none;
  cefr_level = none;
  meaning_order = 1;
  learning_stage = "new";
  due_at = "d";
  preview_intervals = none;
  personal_note = none;
  lapse_count = some 3;
  is_leech = leech;
  examples = [];
}

abbrev change : String → Option Bool → BatchReviewItemUpdate
change id suspended = record {
  user_word_sense_id = id;
  learning_stage = "recalled";
  due_at = "e";
  preview_intervals = none;
  suspended = suspended;
  leech = none;
  lapse_count = none;
  is_leech = none;
}

abbrev cards : List DueItem
cards = card "a" (some true) ∷ card "b" none ∷ card "a" none ∷ []

suspend_test :
    map id_of (apply_due_item_updates_to_list cards (change "a" (some true) ∷ []) 1)
    ≡ "a" ∷ "b" ∷ []
unfolding apply_due_item_updates_to_list
suspend_test = refl

ids-apply_updates_example :
    map id_of (apply_due_item_updates_to_list cards (change "a" (some true) ∷ []) 1)
    ≡ "a" ∷ "b" ∷ []
ids-apply_updates_example = ids-apply_updates cards (change "a" (some true) ∷ []) 1

schedule-apply_updates_example :
    map schedule_of (apply_due_item_updates_to_list cards (change "a" none ∷ []) 0)
    ≡ map
        (λ i.
          schedule_of (resolve_due_item i (overrides_from_batch_updates (change "a" none ∷ []))))
        cards
schedule-apply_updates_example = schedule-apply_updates cards (change "a" none ∷ []) 0 (refl, tt)

resolve-clears-leech_example :
    (updated : DueItem) × (get_elem?
        (apply_due_item_updates_to_list cards (change "a" none ∷ []) 0)
        0
      ≡ some updated)
    × (updated.is_leech ≡ some true)
    × (updated.lapse_count ≡ some 3)
    × ((resolve_due_item updated (overrides_from_batch_updates (change "a" none ∷ []))).is_leech
        ≡ some false)
    × ((resolve_due_item updated (overrides_from_batch_updates (change "a" none ∷ []))).lapse_count
        ≡ none)
resolve-clears-leech_example =
    resolve-clears-leech cards (change "a" none ∷ []) 0 0 (card "a" (some true)) (change "a" none)
      (refl, tt) refl refl refl refl refl refl

abbrev attempt : String → Bool → ReviewAttemptParams
attempt id correct = record {
  user_word_sense_id = id;
  activity_type = word_to_meaning;
  prompt = none;
  user_answer = none;
  correct_answer = none;
  is_correct = correct;
  rating_score = 200;
  response_time_ms = none;
  confidence_rating = none;
}

abbrev floor_percent : ℕ → ℕ → ℕ
floor_percent c t = c * 100 / t

floor_percent_mono : (c d t : ℕ) → c ≤ d → floor_percent c t ≤ floor_percent d t
floor_percent_mono c d zero h = rw (div-zero (c * 100), div-zero (d * 100)) (omega arith)
floor_percent_mono c d (suc t) h =
    (le-div_iff_mul-le {k = suc t} (omega arith)).1
      (omega (arith, div-mul-le_self (c * 100) (suc t)))

floor_percent_full : (t : ℕ) → 0 < t → floor_percent t t ≡ 100
floor_percent_full t h = mul-div_cancel_left 100 h

floor_percent-IsPercent : IsPercent floor_percent
floor_percent-IsPercent = record { monotone = floor_percent_mono; full = floor_percent_full }

completed-session_progress_example :
    (session_progress floor_percent
      (attempt "a" true ∷ attempt "a" true ∷ [])
      ("a" ∷ "b" ∷ [])).completed
    ≡ 1
completed-session_progress_example =
    completed-session_progress floor_percent (attempt "a" true ∷ attempt "a" true ∷ [])
      ("a" ∷ "b" ∷ [])

abbrev session : Session
session = record {
  status = active;
  session_mode = normal;
  card_mode = flashcard;
  due_items = card "a" none ∷ card "b" none ∷ [];
  queue = card "a" none ∷ card "b" none ∷ [];
  current_index = 0;
  current_index_ref = 0;
  is_flipped = true;
  user_answer = "";
  response_time_ms = none;
  rating_score = 200;
  attempts = [];
  xp_earned = 0;
  error_msg = none;
  is_saving = false;
  save_error = none;
  session_stuck = [];
  pending = [];
  flushing = false;
  example_index_map = [];
  failed_map = [];
  item_overrides = [];
  learning_steps = none;
}

abbrev first_of : String → String → String
first_of sentence word = sentence

abbrev unchanged : String → String
unchanged s = s

abbrev one_text : ℕ → String
one_text n = "1"

abbrev no_item : DueItem → DueItem → Bool
no_item i j = false

abbrev grade_at : ℕ → Session → Session × List ReviewAttemptParams × List ReviewAttemptParams
grade_at score s = confirm_grade first_of unchanged one_text no_item count_up score 0 s 0

-- The first card is failed, and its attempt sent; the second is passed meanwhile; then the sending
-- fails, and both attempts wait in their order.
abbrev after_two : Session
after_two = (grade_at 200 (grade_at 0 session).0).0

grades : Unit {0}
unfolding confirm_grade flush_failed
grades = tt

waiting_test :
    map
      (λ a. a.rating_score)
      (flush_failed (grade_at 0 session).1 (plain_error "offline") after_two).pending
    ≡ 0 ∷ 200 ∷ []
unfolding grades
waiting_test = refl

Run-order_example :
    ((grade_at 0 session).2 ++ (grade_at 200 (grade_at 0 session).0).2
      ≡ []
        ++ ((grade_at 0 session).1 ++ (grade_at 200 (grade_at 0 session).0).1)
        ++ after_two.pending)
    × ((after_two.flushing ≡ true)
        ⊎ ((grade_at 0 session).1 ++ (grade_at 200 (grade_at 0 session).0).1 ≡ []))
Run-order_example =
    Run-order first_of unchanged one_text no_item count_up
      (graded (graded (opened session refl refl) 0 0 0) 200 0 0)

-- The session after its second grade, with a batch on its way and the second attempt waiting.
abbrev repeated : Session
repeated = record after_two { session_mode = repeat }

ended_test :
    (finish_with
      (failed (plain_error "offline") ∷ saved 5 [] ∷ [])
      (grade_at 0 session).1
      repeated).status
    ≡ success
unfolding grades finish_with
ended_test = refl

finish_with-ends_example :
    ((finish_with
        (failed (plain_error "offline") ∷ saved 5 [] ∷ saved 5 [] ∷ [])
        (grade_at 0 session).1
        repeated).status
      ≡ success)
    × (must_wait (
          finish_with
            (failed (plain_error "offline") ∷ saved 5 [] ∷ saved 5 [] ∷ [])
            (grade_at 0 session).1
            repeated)
        ≡ false)
unfolding grades
finish_with-ends_example =
    finish_with-ends (failed (plain_error "offline") ∷ saved 5 [] ∷ saved 5 [] ∷ [])
      (grade_at 0 session).1 repeated refl (inl refl) (omega arith)

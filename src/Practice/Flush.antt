-- ===== src/Practice/Flush.antt =====
-- Grading a card, and sending the attempts: confirmGrade and flushPending of
-- frontend/src/features/practice/PracticeScreen.tsx. `flushPending` is the part up to its `await`,
-- flush_pending, which gives the batch that it sends, and the parts for its answers. The setters of
-- a grade see the session as it was rendered, which the flush in between leaves as it is but for
-- the pending attempts and the flags of saving.
use Prim.Native.String
use project_pn.Prelude.{
  ℕ, ◌+◌, ◌%◌, String, Bool, true, false, not, ◌&&◌, ◌||◌, Option, none, some, List, [], ◌∷◌, ◌++◌,
  ◌==◌, map, ltb, leb, eqb, if◌then◌else◌, truthy, or_else, length, get_elem?, set_of, get, put,
  remove,
}
use project_pn.Api.Client.{Error, api_error, plain_error, message_of}
use project_pn.Practice.Item.{
  Example, DueItem, given, empty_patch, BatchReviewItemUpdate, is_passing_score, ReviewActivityType,
  word_to_meaning, cloze, meaning_to_word, ReviewAttemptParams, resolve_due_item, drop_suspended,
  optimistic_due_item_after_again,
}
use project_pn.Practice.Queue.{insert_retry_card, shuffle_practice_queue}
use project_pn.Practice.Session.{
  Session, CardMode, typing, flashcard, normal, repeat, decide_card_mode, reset_card_interaction,
  apply_due_item_updates,
}

abbrev pub is_nil : {A : Type 0} → List A → Bool
is_nil [] = true
is_nil (x ∷ xs) = false

unfoldable pub flush_pending : Session → Session × List ReviewAttemptParams
flush_pending s = if s.flushing || is_nil s.pending then (s, []) else (
  record s { flushing = true; is_saving = true; save_error = none; pending = [] },
  s.pending,
)

-- The `finally` block; a later flush is a step of its own.
abbrev pub flush_over : Session → Session
flush_over s = record s { flushing = false; is_saving = false }

unfoldable pub flush_saved : (xp : ℕ) → List BatchReviewItemUpdate → Session → Session
unfolding apply_due_item_updates
flush_saved xp updates s =
    flush_over (apply_due_item_updates updates (record s { xp_earned = s.xp_earned + xp }))

-- An error without a status is retryable.
abbrev pub is_retryable : Error → Bool
is_retryable (plain_error message) = true
is_retryable (api_error status message code retryable) = eqb status 0 || retryable

abbrev remove_all : List (String × Bool) → List String → List (String × Bool)
remove_all m [] = m
remove_all m (k ∷ ks) = remove_all (remove m k) ks

abbrev pub unavailable_ids : List ReviewAttemptParams → List String
unavailable_ids to_flush = set_of (map (λ a. a.user_word_sense_id) to_flush)

unfoldable pub flush_failed : (to_flush : List ReviewAttemptParams) → Error → Session → Session
unfolding drop_suspended
flush_failed to_flush err s = flush_over (
    if is_retryable err
    then record s { pending = to_flush ++ s.pending; save_error = some (message_of err) }
    else record s {
      queue = drop_suspended (unavailable_ids to_flush) s.current_index_ref 0 s.queue;
      failed_map = remove_all s.failed_map (unavailable_ids to_flush);
      save_error = some (message_of err);
    })

-- `blank` is `getBlankedSentence`, whose regular expressions are the platform's, `trim` and
-- `decimal` are the platform's, and `same` is the identity of two items as objects.
module _ (blank : String → String → String) (trim : String → String) (decimal : ℕ → String)
    (same : DueItem → DueItem → Bool) {S : Type 0} (draw : S → ℕ → ℕ × S) where
  abbrev pub active_example_index : DueItem → Session → ℕ
  active_example_index item s = or_else (get s.example_index_map item.user_word_sense_id) 0

  abbrev pub active_example : DueItem → Session → Option Example
  active_example item s = get_elem? item.examples (active_example_index item s)

  abbrev pub activity_type_of : CardMode → Option Example → ReviewActivityType
  activity_type_of flashcard example = word_to_meaning
  activity_type_of typing none = meaning_to_word
  activity_type_of typing (some example) = cloze

  abbrev pub prompt_of : DueItem → Option Example → String
  prompt_of item none = String.◌++◌ "Definition: " item.definition
  prompt_of item (some example) = blank example.sentence item.normalized_text

  abbrev pub user_answer_of : CardMode → Session → Option String
  user_answer_of flashcard s = none
  user_answer_of typing s = if trim s.user_answer == "" then none else some (trim s.user_answer)

  abbrev pub response_time_of : CardMode → ℕ → Session → Option ℕ
  response_time_of flashcard elapsed s = none
  response_time_of typing elapsed s = some (or_else s.response_time_ms elapsed)

  -- `elapsed` is the time since the card was shown.
  unfoldable pub attempt_of : DueItem → (score elapsed : ℕ) → Session → ReviewAttemptParams
  unfolding is_passing_score
  attempt_of item score elapsed s = record {
    user_word_sense_id = item.user_word_sense_id;
    activity_type = activity_type_of s.card_mode (active_example item s);
    prompt = some (prompt_of item (active_example item s));
    user_answer = user_answer_of s.card_mode s;
    correct_answer = some item.normalized_text;
    is_correct = is_passing_score score;
    rating_score = score;
    response_time_ms = response_time_of s.card_mode elapsed s;
    confidence_rating = none;
  }

  -- Up to the call of `flushPending`.
  unfoldable pub add_attempt : DueItem → (score elapsed : ℕ) → Session → Session
  unfolding attempt_of
  add_attempt item score elapsed s = record s {
    session_stuck =
        if truthy item.is_leech
        then put s.session_stuck item.user_word_sense_id item
        else s.session_stuck;
    attempts = s.attempts ++ attempt_of item score elapsed s ∷ [];
    pending = s.pending ++ attempt_of item score elapsed s ∷ [];
    current_index_ref = s.current_index + 1;
  }

  -- What a failed card changes besides the queue.
  unfoldable pub mark_retry : DueItem → DueItem → Session → Session
  mark_retry item graded s = record s {
    item_overrides = put s.item_overrides item.user_word_sense_id (record empty_patch {
      learning_stage = given graded.learning_stage;
      preview_intervals = given graded.preview_intervals;
    });
    failed_map = put s.failed_map item.user_word_sense_id true;
    example_index_map =
        if ltb 1 (length item.examples)
        then put s.example_index_map item.user_word_sense_id
            ((active_example_index item s + 1) % length item.examples)
        else s.example_index_map;
  }

  -- In a repeat session, another round at the end of the queue.
  unfoldable pub extend_queue : Session → List DueItem → S → List DueItem × S
  unfolding shuffle_practice_queue
  extend_queue s q seed = elim s.session_mode [
    | normal ↦ (q, seed)
    | repeat ↦
        if not (is_nil s.due_items) && leb (length q) (s.current_index + 1)
        then (let (again, seed') =
              shuffle_practice_queue draw (λ (i : DueItem). i.word_id) s.due_items seed in
            (q ++ again, seed'))
        else (q, seed)
  ]

  -- The next card of the new queue.
  unfoldable pub advance : List DueItem → Session → S → Session × S
  unfolding decide_card_mode reset_card_interaction
  advance next_queue s seed = elim (get_elem? next_queue (s.current_index + 1)) [
    | none ↦ (
      reset_card_interaction (record s { queue = next_queue; current_index = s.current_index + 1 }),
      seed,
    )
    | some next ↦
        (let (mode_draw, seed') = draw seed 100 in
          (
            reset_card_interaction (record s {
              queue = next_queue;
              current_index = s.current_index + 1;
              card_mode = decide_card_mode next mode_draw;
            }),
            seed',
          ))
  ]

  -- From the call of `flushPending` on.
  unfoldable pub move_on : DueItem → (score : ℕ) → Session → S → Session × S
  unfolding is_passing_score optimistic_due_item_after_again mark_retry insert_retry_card
      extend_queue advance
  move_on item score s seed =
      if is_passing_score score
      then (let (q, seed') = extend_queue s s.queue seed in advance q s seed')
      else (let graded : DueItem = optimistic_due_item_after_again decimal item s.learning_steps in
          let (mixed, seed') =
            insert_retry_card draw same s.queue (s.current_index + 1) graded seed in
          let (q, seed'') = extend_queue s mixed seed' in
          advance q (mark_retry item graded s) seed'')

  -- The session, the batch that is sent, and the attempt that is added.
  unfoldable pub confirm_grade :
      (score elapsed : ℕ)
      → Session
      → S
      → Session × List ReviewAttemptParams × List ReviewAttemptParams
  unfolding resolve_due_item add_attempt flush_pending move_on
  confirm_grade score elapsed s seed = elim (get_elem? s.queue s.current_index) [
    | none ↦ (s, [], [])
    | some raw ↦
        let item : DueItem = resolve_due_item raw s.item_overrides in
        let (sent, batch) = flush_pending (add_attempt item score elapsed s) in
        ((move_on item score sent seed).0, batch, attempt_of item score elapsed s ∷ [])
  ]

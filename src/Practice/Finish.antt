-- ===== src/Practice/Finish.antt =====
-- The handling of a card and the end of a session: toggleFlip, revealAnswer, waitForPendingFlushes,
-- finishRepeatSession and handleEndSession of frontend/src/features/practice/PracticeScreen.tsx.
-- The wait for the server is a loop on the answers that come, in order; the pauses between its
-- rounds, in which nothing of this changes, are left out.
pub mod Ends
use project_pn.Prelude.{
  ℕ, ◌+◌, ◌*◌, ◌-◌, String, Bool, true, false, not, ◌&&◌, ◌||◌, Option, none, some, List, [], ◌∷◌,
  ◌++◌, ◌==◌, ltb, leb, eqb, if◌then◌else◌, length,
}
use project_pn.Api.Client.{Error}
use project_pn.Practice.Item.{BatchReviewItemUpdate, ReviewAttemptParams}
use project_pn.Practice.Session.{
  Session, CardMode, typing, flashcard, SessionMode, normal, repeat, SessionStatus, idle,
  loading_due, loading_repeat, active, submitting, success, failure,
}
use project_pn.Practice.Flush.{is_nil, flush_pending, flush_saved, flush_failed}

pub data Rating : Type 0 where
  again hard good easy : Rating

-- In hundredths, as every score.
abbrev pub rating_scores : Rating → ℕ
rating_scores again = 0
rating_scores hard = 100
rating_scores good = 200
rating_scores easy = 300

-- In hundredths as well.
unfoldable pub map_score_to_quality : ℕ → ℕ
map_score_to_quality score = if ltb score 100 then score * 3 else 300 + (score - 100)

abbrev is_flashcard : CardMode → Bool
is_flashcard flashcard = true
is_flashcard typing = false

unfoldable pub toggle_flip : Session → Session
toggle_flip s =
    if not (is_flashcard s.card_mode) && not s.is_flipped then s else record s { is_flipped = true }

-- `trim` is the platform's, `elapsed` the time since the card was shown.
unfoldable pub reveal_answer :
    (trim : String → String) (forgot : Bool) (elapsed : ℕ) → Session → Session
reveal_answer trim forgot elapsed s =
    if s.is_flipped || (not forgot && (trim s.user_answer == "")) then s else record s {
      user_answer = if forgot then "" else s.user_answer;
      rating_score = if forgot then 0 else s.rating_score;
      response_time_ms = some elapsed;
      is_flipped = true;
    }

-- The space bar and the enter key before the answer is shown.
unfoldable pub press_reveal : (trim : String → String) (elapsed : ℕ) → Session → Session
unfolding toggle_flip reveal_answer
press_reveal trim elapsed s =
    if s.is_flipped
    then s
    else if is_flashcard s.card_mode
    then toggle_flip s
    else reveal_answer trim (trim s.user_answer == "") elapsed s

-- The condition of the loop of `waitForPendingFlushes`.
abbrev pub must_wait : Session → Bool
must_wait s = not (is_nil s.pending) || s.flushing

pub data BatchAnswer : Type 0 where
  saved : (xp : ℕ) → List BatchReviewItemUpdate → BatchAnswer
  failed : Error → BatchAnswer

-- The answer for the batch that is on its way.
unfoldable pub answered : BatchAnswer → (batch : List ReviewAttemptParams) → Session → Session
unfolding flush_saved flush_failed
answered (saved xp updates) batch s = flush_saved xp updates s
answered (failed err) batch s = flush_failed batch err s

-- The loop, and the batch that is on its way when the answers end. `batch` is on its way before.
unfoldable pub wait_for_pending_flushes :
    List BatchAnswer
    → (batch : List ReviewAttemptParams) → Session
    → Session × List ReviewAttemptParams
unfolding flush_pending answered
wait_for_pending_flushes [] batch s = ((flush_pending s).0, batch ++ (flush_pending s).1)
wait_for_pending_flushes (answer ∷ answers) batch s =
    if must_wait s
    then wait_for_pending_flushes answers []
        (answered answer (batch ++ (flush_pending s).1) (flush_pending s).0)
    else (s, batch)

unfoldable pub finish_repeat_session : Session → Session
finish_repeat_session s =
    if is_nil s.attempts
    then record s { xp_earned = 0; status = success }
    else record s { status = submitting }

-- What follows the wait.
unfoldable pub session_finished : Session → Session
session_finished s = record s { status = success }

unfoldable pub finish_failed : (message : String) → Session → Session
finish_failed message s = record s { error_msg = some message; status = failure }

-- The condition of the effect that waits at the end of the queue of a normal session.
unfoldable pub finished_queue : Session → Bool
finished_queue s =
    (not (is_nil s.queue) && leb (length s.queue) s.current_index)
    || (is_nil s.queue && (ltb 0 s.current_index_ref && not (is_nil s.attempts)))

unfoldable pub handle_end_session : Session → Session
unfolding finish_repeat_session
handle_end_session s = elim s.session_mode [
  | normal ↦ record s { status = idle }
  | repeat ↦ finish_repeat_session s
]

-- A repeat session that is ended while `batch` is on its way, over the answers that come.
unfoldable pub finish_with :
    List BatchAnswer → (batch : List ReviewAttemptParams) → Session → Session
unfolding finish_repeat_session wait_for_pending_flushes session_finished
finish_with answers batch s =
    if is_nil s.attempts
    then finish_repeat_session s
    else (let t : Session = (wait_for_pending_flushes answers batch (finish_repeat_session s)).0 in
        if must_wait t then t else session_finished t)

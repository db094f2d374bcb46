-- ===== src/Add/Capture/Tests.antt =====
-- Runs of the capture, and its theorems at concrete inputs.
use project_pn.Prelude.{◌≡◌, refl, true, false, not, none, List, [], ◌∷◌, ◌==◌, if◌then◌else◌, All}
use project_pn.Add.Passage.{Matching, word_tokens_of, tokenize, handle_press, span_from_word_range}
use project_pn.Add.Queue.{AddQueue, render, status_of}
use project_pn.Add.Runs.{empty_queue}
use project_pn.Add.Capture.{
  Capture, empty_capture, CaptureEvent, capture_step, change_text, press, tapped, toggle_span,
  toggle_phrase_mode, typed, mode_pressed, word_pressed, capture_run, is_addable, add_selected,
}
use project_pn.Add.Capture.Selection.{IsSelection, capture_run-IsSelection}
use project_pn.Add.Capture.Adding.{add_selected-once}

-- One way to match, for which every other text is "Take off now".
abbrev some_words : Matching
some_words = record {
  matches = λ text. if text == "" then [] else "Take" ∷ " " ∷ "off" ∷ " " ∷ "now" ∷ [];
  has_word_character = λ raw. not (raw == " ");
  to_lower_case = λ raw. if raw == "Take" then "take" else raw;
}

abbrev tapping : List CaptureEvent
tapping =
    typed "Take off now" ∷ word_pressed 1 ∷ mode_pressed ∷ word_pressed 1 ∷ word_pressed 0 ∷ []

abbrev tapped_capture : Capture
tapped_capture = record empty_capture {
  passage = "Take off now";
  selected = record { start = 0; end = 1; text = "take off" } ∷ [];
  phrase_mode = true;
}

tapping_test : capture_run some_words tapping empty_capture ≡ tapped_capture
unfolding capture_step change_text press tapped handle_press toggle_span toggle_phrase_mode
    word_tokens_of tokenize span_from_word_range
tapping_test = refl

capture_run-IsSelection_example :
    IsSelection some_words (capture_run some_words tapping empty_capture)
unfolding word_tokens_of tokenize
capture_run-IsSelection_example = capture_run-IsSelection some_words refl tapping

-- The queue as it is shown after the selection is added to an empty one.
abbrev added_once : AddQueue
added_once = render false (
    add_selected (λ text. text) (λ text. 2) (λ n. "a") none none tapped_capture
      (render false empty_queue))

add_selected-once_example :
    All
      (λ s. is_addable (status_of (λ text. text) s.text added_once) ≡ false)
      tapped_capture.selected
    × (add_selected (λ text. text) (λ text. 2) (λ n. "b") none none tapped_capture added_once
        ≡ added_once)
add_selected-once_example =
    add_selected-once (λ text. text) (λ text. 2) (λ n. "a") (λ n. "b") none none tapped_capture
      empty_queue false (refl, tt)

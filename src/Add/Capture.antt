-- ===== src/Add/Capture.antt =====
-- The words selected in a passage: frontend/src/features/add/CaptureSection.tsx.
-- A step is an event of the screen after it was rendered with the steps before it; words and the mode
-- can be pressed at any time. Recording the captured words is left out.
pub mod Spans
pub mod Selection
pub mod Statuses
pub mod Adding
mod Tests
use project_pn.Prelude.{
  ℕ, String, Bool, true, false, not, ◌&&◌, ◌||◌, Option, none, some, is_some, List, [], ◌∷◌, ◌++◌,
  ◌==◌, map, filter, find, any, get_elem?, ltb, leb, eqb, if◌then◌else◌,
}
use project_pn.Add.Passage.{
  Matching, WordToken, PassageSpan, Tap, toggle, anchor_at, toggle_and_release, word_tokens_of,
  handle_press,
}
use project_pn.Add.Queue.{
  AddQueue, WordStatus, idle_word, pending_word, added_word, error_word, status_of, enqueue_many,
}

pub record Capture : Type 0 where
  pub passage : String
  pub pos : String
  pub selected : List PassageSpan
  pub phrase_mode : Bool
  pub phrase_anchor : Option ℕ
  pub cleared_at : Option ℕ
  pub previous_passage : String

abbrev pub empty_capture : Capture
empty_capture = record {
  passage = "";
  pos = "Any";
  selected = [];
  phrase_mode = false;
  phrase_anchor = none;
  cleared_at = none;
  previous_passage = "";
}

unfoldable pub clear_passage : (now : ℕ) → Capture → Capture
clear_passage now c = record c {
  previous_passage = c.passage;
  passage = "";
  selected = [];
  phrase_anchor = none;
  cleared_at = some now;
}

unfoldable pub undo_clear : Capture → Capture
undo_clear c = record c { passage = c.previous_passage; cleared_at = none }

abbrev pub is_same_span : PassageSpan → PassageSpan → Bool
is_same_span span s = eqb s.start span.start && eqb s.end span.end && (s.text == span.text)

-- `filter((s) => s !== exists)`: the object that `find` gave is the first that passes its test.
abbrev pub remove_first : (PassageSpan → Bool) → List PassageSpan → List PassageSpan
remove_first p [] = []
remove_first p (s ∷ rest) = if p s then rest else s ∷ remove_first p rest

abbrev pub is_apart : PassageSpan → PassageSpan → Bool
is_apart span s = ltb s.end span.start || ltb span.end s.start

unfoldable pub toggle_span : PassageSpan → List PassageSpan → List PassageSpan
toggle_span span prev =
    if is_some (find (is_same_span span) prev)
    then remove_first (is_same_span span) prev
    else filter (is_apart span) prev ++ span ∷ []

-- `onChangeText`
unfoldable pub change_text : String → Capture → Capture
change_text text c = record c {
  passage = text;
  selected = [];
  phrase_anchor = none;
  cleared_at = none;
}

unfoldable pub toggle_phrase_mode : Capture → Capture
toggle_phrase_mode c = record c { phrase_mode = not c.phrase_mode; phrase_anchor = none }

-- What `TappablePassage` calls back with.
unfoldable pub tapped : Tap → Capture → Capture
unfolding toggle_span
tapped (toggle span) c = record c { selected = toggle_span span c.selected }
tapped (anchor_at index) c = record c { phrase_anchor = some index }
tapped (toggle_and_release span) c = record c {
  selected = toggle_span span c.selected;
  phrase_anchor = none;
}

unfoldable pub remove_chip : (place : ℕ) → Capture → Capture
unfolding toggle_span
remove_chip place c = elim (get_elem? c.selected place) [
  | none ↦ c
  | some span ↦ record c { selected = toggle_span span c.selected }
]

pub data CaptureEvent : Type 0 where
  typed : String → CaptureEvent
  clear_pressed : (now : ℕ) → CaptureEvent
  undo_pressed undo_over mode_pressed : CaptureEvent
  word_pressed : (place : ℕ) → CaptureEvent
  chip_removed : (place : ℕ) → CaptureEvent
  pos_chosen : String → CaptureEvent

module _ (matching : Matching) where
  unfoldable pub press : (place : ℕ) → Capture → Capture
  unfolding tapped handle_press word_tokens_of
  press place c = elim (get_elem? (word_tokens_of matching c.passage) place) [
    | none ↦ c
    | some token ↦
        tapped
          (handle_press (word_tokens_of matching c.passage) c.selected c.phrase_mode c.phrase_anchor
            token)
          c
  ]

  unfoldable pub capture_step : CaptureEvent → Capture → Capture
  unfolding change_text clear_passage undo_clear toggle_phrase_mode press remove_chip
  capture_step (typed text) c = change_text text c
  capture_step (clear_pressed now) c =
      if is_some c.cleared_at || (c.passage == "") then c else clear_passage now c
  capture_step undo_pressed c = if is_some c.cleared_at then undo_clear c else c
  capture_step undo_over c = record c { cleared_at = none }
  capture_step mode_pressed c = toggle_phrase_mode c
  capture_step (word_pressed place) c = press place c
  capture_step (chip_removed place) c = remove_chip place c
  capture_step (pos_chosen pos) c = record c { pos = pos }

  abbrev pub capture_run : List CaptureEvent → Capture → Capture
  capture_run [] c = c
  capture_run (event ∷ events) c = capture_run events (capture_step event c)

abbrev pub is_addable : WordStatus → Bool
is_addable idle_word = true
is_addable pending_word = false
is_addable added_word = false
is_addable error_word = true

-- `trim` is the platform's, and `words_in` counts the words that a text splits into.
module _ (trim : String → String) (words_in : String → ℕ) where
  abbrev pub addable_spans : AddQueue → List PassageSpan → List PassageSpan
  addable_spans q selected = filter (λ s. is_addable (status_of trim s.text q)) selected

  unfoldable pub lookup_pos : (pos : String) (texts : List String) → String
  lookup_pos pos texts =
      if (pos == "Any") && not (any (λ text. leb (words_in text) 1) texts) then "phrase" else pos

  unfoldable pub add_selected :
      (next_id : ℕ → String) (deck_id language_code : Option String) → Capture → AddQueue → AddQueue
  unfolding enqueue_many lookup_pos
  add_selected next_id deck_id language_code c q = elim (addable_spans q c.selected) [
    | [] ↦ q
    | span ∷ spans ↦
        enqueue_many trim next_id (map (λ s. s.text) (span ∷ spans))
          (lookup_pos c.pos (map (λ s. s.text) (span ∷ spans))) deck_id language_code q
  ]

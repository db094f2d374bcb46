-- ===== src/Add/Capture/Selection.antt =====
-- What is selected in a passage: frontend/src/features/add/CaptureSection.tsx.
use project_pn.Prelude.{
  ℕ, ◌≡◌, ◌⊎◌, inl, inr, refl, sym, ap, subst, ◌∙◌, Bool, true, false, not, ◌&&◌, ◌||◌, Option,
  none, some, is_some, List, [], ◌∷◌, ◌==◌, find, get_elem?, eqb, arith, All, All-find,
  All-get_elem?, Bool-cases, Option-cases,
}
use project_pn.Add.Passage.{
  Matching, WordToken, PassageSpan, Tap, toggle, anchor_at, toggle_and_release, word_tokens_of,
  span_contains, span_from_word_range, handle_press, join_words,
}
use project_pn.Add.Capture.{
  Capture, empty_capture, clear_passage, undo_clear, toggle_span, change_text, toggle_phrase_mode,
  tapped, CaptureEvent, typed, clear_pressed, undo_pressed, undo_over, mode_pressed, word_pressed,
  chip_removed, pos_chosen, press, remove_chip, capture_step, capture_run,
}
use project_pn.Add.Capture.Spans.{
  IsSpan, IsApart, IsNumbered, number_words-IsNumbered, filter-word, toggle_span-IsApart,
  toggle_span-All,
}

-- The selected spans have no word in common, and each is a phrase of the passage; a passage that was
-- cleared is empty, with nothing selected, while it can be put back.
pub record IsSelection (matching : Matching) (c : Capture) : Type 0 where
  pub apart : IsApart c.selected
  pub spans : All (IsSpan (word_tokens_of matching c.passage)) c.selected
  pub cleared : (is_some c.cleared_at ≡ false) ⊎ ((c.selected ≡ []) × (c.passage ≡ ""))

-- The span of a tap.
abbrev pub IsTap : List WordToken → Tap → Type 0
IsTap words (toggle span) = IsSpan words span
IsTap words (anchor_at index) = Unit
IsTap words (toggle_and_release span) = IsSpan words span

span_from_word_range-IsSpan :
    (words : List WordToken) (i j : ℕ) → IsSpan words (span_from_word_range words i j)
unfolding span_from_word_range
span_from_word_range-IsSpan words i j = (omega arith, refl)

word-IsSpan :
    (place : ℕ) (words : List WordToken) (w : WordToken)
    → IsNumbered 0 words
    → get_elem? words place ≡ some w
    → IsSpan words (record { start = w.word_index; end = w.word_index; text = w.word })
word-IsSpan place words w numbered e =
    (omega arith, sym (ap join_words (filter-word 0 place words w numbered e)))

handle_press-IsTap :
    (words : List WordToken) (selected : List PassageSpan) (phrase_mode : Bool) (anchor : Option ℕ)
    (place : ℕ) (w : WordToken)
    → IsNumbered 0 words
    → get_elem? words place ≡ some w
    → All (IsSpan words) selected
    → IsTap words (handle_press words selected phrase_mode anchor w)
unfolding handle_press
handle_press-IsTap words selected true none place w numbered e h =
    elim (Option-cases
      (find (λ s. span_contains w.word_index s && not (eqb s.start s.end)) selected)) [
        | inl new ↦ rw (handle_press, new) tt
        | inr (span, found) ↦
            rw (handle_press, found) (All-find (IsSpan words) _ selected span h found)
      ]
handle_press-IsTap words selected true (some anchor) place w numbered e h =
    span_from_word_range-IsSpan words anchor w.word_index
handle_press-IsTap words selected false anchor place w numbered e h =
    elim (Option-cases (find (λ s. eqb s.start w.word_index && eqb s.end w.word_index) selected)) [
      | inl new ↦ rw (handle_press, new) (word-IsSpan place words w numbered e)
      | inr (span, found) ↦
          rw (handle_press, found) (All-find (IsSpan words) _ selected span h found)
    ]

no_element : {A : Type 0} (xs : List A) (i : ℕ) (a : A) → xs ≡ [] → get_elem? xs i ≡ some a → ⊥
no_element [] i a empty e = absurd (cc e)
no_element (x ∷ xs) i a empty e = absurd (cc empty)

chip-showing :
    (c : Capture) (place : ℕ) (span : PassageSpan)
    → get_elem? c.selected place ≡ some span
    → (is_some c.cleared_at ≡ false) ⊎ ((c.selected ≡ []) × (c.passage ≡ ""))
    → is_some c.cleared_at ≡ false
chip-showing c place span e (inl showing) = showing
chip-showing c place span e (inr (none_selected, empty)) =
    absurd (no_element c.selected place span none_selected e)

-- What is selected while a cleared passage can be put back: nothing.
none-selected :
    (c : Capture)
    → is_some c.cleared_at ≡ true
    → (is_some c.cleared_at ≡ false) ⊎ ((c.selected ≡ []) × (c.passage ≡ ""))
    → c.selected ≡ []
none-selected c waits (inl showing) = cc
none-selected c waits (inr (none_selected, empty)) = none_selected

module _ (matching : Matching) (none_empty : word_tokens_of matching "" ≡ []) where
  toggled :
      (span : PassageSpan) (c : Capture)
      → IsSpan (word_tokens_of matching c.passage) span
      → is_some c.cleared_at ≡ false
      → IsSelection matching c
      → IsSelection matching (record c { selected = toggle_span span c.selected })
  toggled span c good showing h = record {
    apart = toggle_span-IsApart span c.selected h.apart;
    spans = toggle_span-All _ span c.selected good h.spans;
    cleared = inl showing;
  }

  tapped-IsSelection :
      (tap : Tap) (c : Capture)
      → IsTap (word_tokens_of matching c.passage) tap
      → is_some c.cleared_at ≡ false
      → IsSelection matching c
      → IsSelection matching (tapped tap c)
  unfolding tapped
  tapped-IsSelection (toggle span) c good showing h = toggled span c good showing h
  tapped-IsSelection (anchor_at index) c good showing h = record {
    apart = h.apart;
    spans = h.spans;
    cleared = h.cleared;
  }
  tapped-IsSelection (toggle_and_release span) c good showing h =
      let next = toggled span c good showing h in
      record { apart = next.apart; spans = next.spans; cleared = next.cleared }

  press-showing :
      (place : ℕ) (c : Capture) (w : WordToken)
      → get_elem? (word_tokens_of matching c.passage) place ≡ some w
      → (is_some c.cleared_at ≡ false) ⊎ ((c.selected ≡ []) × (c.passage ≡ ""))
      → is_some c.cleared_at ≡ false
  press-showing place c w e (inl showing) = showing
  press-showing place c w e (inr (none_selected, empty)) = absurd (
      no_element (word_tokens_of matching c.passage) place w
        (ap (word_tokens_of matching) empty ∙ none_empty) e)

  press-IsSelection :
      (place : ℕ) (c : Capture)
      → IsSelection matching c
      → IsSelection matching (press matching place c)
  unfolding press
  press-IsSelection place c h =
      elim (Option-cases (get_elem? (word_tokens_of matching c.passage) place)) [
        | inl outside ↦ rw (press, outside) h
        | inr (w, e) ↦
            rw (press, e)
              (tapped-IsSelection _ c
                (handle_press-IsTap (word_tokens_of matching c.passage) c.selected c.phrase_mode
                  c.phrase_anchor place w
                  (number_words-IsNumbered matching 0 (matching.matches c.passage)) e h.spans)
                (press-showing place c w e h.cleared) h)
      ]

  remove_chip-IsSelection :
      (place : ℕ) (c : Capture)
      → IsSelection matching c
      → IsSelection matching (remove_chip place c)
  unfolding remove_chip
  remove_chip-IsSelection place c h = elim (Option-cases (get_elem? c.selected place)) [
    | inl outside ↦ rw (remove_chip, outside) h
    | inr (span, e) ↦
        rw (remove_chip, e)
          (toggled span c (All-get_elem? _ c.selected place span h.spans e)
            (chip-showing c place span e h.cleared) h)
  ]

  step-IsSelection :
      (event : CaptureEvent) (c : Capture)
      → IsSelection matching c
      → IsSelection matching (capture_step matching event c)
  unfolding capture_step change_text clear_passage undo_clear toggle_phrase_mode
  step-IsSelection (typed text) c h = record { apart = tt; spans = tt; cleared = inl refl }
  step-IsSelection (clear_pressed now) c h =
      elim (Bool-cases (is_some c.cleared_at || (c.passage == ""))) [
        | inl hidden ↦ rw hidden h
        | inr shown ↦ rw shown (record { apart = tt; spans = tt; cleared = inr (refl, refl) })
      ]
  step-IsSelection undo_pressed c h = elim (Bool-cases (is_some c.cleared_at)) [
    | inl waits ↦ rw waits (record {
      apart = h.apart;
      spans =
          subst (All (IsSpan (word_tokens_of matching c.previous_passage)))
            (sym (none-selected c waits h.cleared)) tt;
      cleared = inl refl;
    })
    | inr showing ↦ rw showing h
  ]
  step-IsSelection undo_over c h = record { apart = h.apart; spans = h.spans; cleared = inl refl }
  step-IsSelection mode_pressed c h = record {
    apart = h.apart;
    spans = h.spans;
    cleared = h.cleared;
  }
  step-IsSelection (word_pressed place) c h = press-IsSelection place c h
  step-IsSelection (chip_removed place) c h = remove_chip-IsSelection place c h
  step-IsSelection (pos_chosen pos) c h = record {
    apart = h.apart;
    spans = h.spans;
    cleared = h.cleared;
  }

  later-IsSelection :
      (events : List CaptureEvent) (c : Capture)
      → IsSelection matching c
      → IsSelection matching (capture_run matching events c)
  later-IsSelection [] c h = h
  later-IsSelection (event ∷ events) c h =
      later-IsSelection events (capture_step matching event c) (step-IsSelection event c h)

  -- Where the empty text has no words, after any events of a new capture no two selected spans share a
  -- word, the text of each is the words of its range in the passage, and nothing is selected while a
  -- cleared passage can be put back.
  pub capture_run-IsSelection :
      (events : List CaptureEvent)
      → IsSelection matching (capture_run matching events empty_capture)
  capture_run-IsSelection events =
      later-IsSelection events empty_capture (record { apart = tt; spans = tt; cleared = inl refl })

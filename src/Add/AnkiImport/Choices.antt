-- ===== src/Add/AnkiImport/Choices.antt =====
-- The actions with which the cards are imported: frontend/src/features/import/useAnkiImport.ts.
use project_pn.Prelude.{
  ℕ, ◌+◌, ◌≡◌, inl, inr, refl, sym, ap, ◌∙◌, String, Bool, true, false, Option, none, some, List,
  [], ◌∷◌, map, ◌==◌, eqb, if◌then◌else◌, or_else, or_option, All, Bool-cases, Option-cases,
}
use project_pn.Add.AnkiImport.{
  AnkiCard, ImportAction, skip_card, ImportPreviewItem, ImportPreview, AnkiImport, Actions,
  action_at, begin_preview, initial_actions, preview_came, set_card_action, suggested,
  cards_with_actions, cards_to_send, begin_import, ImportEvent, text_typed, text_refused,
  cards_refused, preview_pressed, import_pressed, reset_pressed, previewed, action_chosen,
  cards_imported, import_step, import_run,
}

-- An event after which the preview is still there.
abbrev pub is_kept : ImportEvent → Bool
is_kept (text_typed text) = true
is_kept (text_refused message) = true
is_kept (cards_refused message) = true
is_kept preview_pressed = true
is_kept import_pressed = true
is_kept reset_pressed = false
is_kept (previewed data_) = false
is_kept (action_chosen index action) = true
is_kept (cards_imported result) = false

-- The choices among events.
abbrev pub choices : List ImportEvent → Actions
choices [] = []
choices (text_typed text ∷ events) = choices events
choices (text_refused message ∷ events) = choices events
choices (cards_refused message ∷ events) = choices events
choices (preview_pressed ∷ events) = choices events
choices (import_pressed ∷ events) = choices events
choices (reset_pressed ∷ events) = choices events
choices (previewed data_ ∷ events) = choices events
choices (action_chosen index action ∷ events) = (index, action) ∷ choices events
choices (cards_imported result ∷ events) = choices events

abbrev pub suggestions : List ImportPreviewItem → Actions
suggestions items = map (λ item. (item.index, item.suggested_action)) items

-- The last action that is given for a card.
abbrev pub last_for : ℕ → Actions → Option ImportAction
last_for index [] = none
last_for index ((key, action) ∷ rest) =
    or_option (last_for index rest) (if eqb key index then some action else none)

-- Each card with its last choice, or what was last suggested for it, or left out.
abbrev pub decided : (chosen suggested : Actions) → (index : ℕ) → List AnkiCard → List AnkiCard
decided chosen suggested index [] = []
decided chosen suggested index (card ∷ cards) =
    record card {
      action =
          some (or_else (or_option (last_for index chosen) (last_for index suggested)) skip_card);
    }
    ∷ decided chosen suggested (index + 1) cards

or_option-if :
    (o : Option ImportAction) (test : Bool) (a : ImportAction) (p : Option ImportAction)
    → or_option o (if test then some a else p)
      ≡ or_option (or_option o (if test then some a else none)) p
or_option-if none true a p = refl
or_option-if none false a p = refl
or_option-if (some b) test a p = refl

or_option-none : (o p : Option ImportAction) → or_option o p ≡ none → (o ≡ none) × (p ≡ none)
or_option-none none p h = (refl, h)
or_option-none (some a) p h = absurd (cc h)

or_option-nothing : (o : Option ImportAction) → or_option o none ≡ o
or_option-nothing none = refl
or_option-nothing (some a) = refl

or_option-some : (o : Option ImportAction) (a : ImportAction) → or_option o (some a) ≡ none → ⊥
or_option-some none a h = absurd (cc h)
or_option-some (some b) a h = absurd (cc h)

-- Prepending in turn: the last one stands first.
action_at-initial :
    (index : ℕ) (items : List ImportPreviewItem) (actions : Actions)
    → action_at (initial_actions actions items) index
      ≡ or_option (last_for index (suggestions items)) (action_at actions index)
action_at-initial index [] actions = refl
action_at-initial index (item ∷ items) actions =
    action_at-initial index items ((item.index, item.suggested_action) ∷ actions)
    ∙ or_option-if (last_for index (suggestions items)) (eqb item.index index) item.suggested_action
        (action_at actions index)

-- Asking for a preview, or for the import, keeps the preview and the actions.
module _ (trim : String → String) (s : AnkiImport) where
  begin_preview-keeps :
      ((begin_preview trim s).preview ≡ s.preview) × ((begin_preview trim s).actions ≡ s.actions)
  unfolding begin_preview
  begin_preview-keeps = elim (Bool-cases (trim s.csv_text == "")) [
    | inl blank ↦ rw blank (refl, refl)
    | inr written ↦ rw written (refl, refl)
  ]

  begin_import-keeps :
      ((begin_import s).preview ≡ s.preview) × ((begin_import s).actions ≡ s.actions)
  unfolding begin_import
  begin_import-keeps = elim (Option-cases s.preview) [
    | inl nothing ↦ rw (begin_import, nothing) (nothing, refl)
    | inr (preview, e) ↦ rw (begin_import, e) (e, refl)
  ]

module _ (trim : String → String) where
  step-preview :
      (event : ImportEvent) (s : AnkiImport)
      → is_kept event ≡ true
      → (import_step trim event s).preview ≡ s.preview
  unfolding import_step set_card_action
  step-preview (text_typed text) s kept = refl
  step-preview (text_refused message) s kept = refl
  step-preview (cards_refused message) s kept = refl
  step-preview preview_pressed s kept = (begin_preview-keeps trim s).0
  step-preview import_pressed s kept = (begin_import-keeps trim s).0
  step-preview reset_pressed s kept = cc
  step-preview (previewed data_) s kept = cc
  step-preview (action_chosen index action) s kept = refl
  step-preview (cards_imported result) s kept = cc

  run-preview :
      (events : List ImportEvent) (s : AnkiImport)
      → All (λ event. is_kept event ≡ true) events
      → (import_run trim events s).preview ≡ s.preview
  run-preview [] s h = refl
  run-preview (event ∷ events) s (kept, h) =
      run-preview events (import_step trim event s) h ∙ step-preview event s kept

  step-actions :
      (event : ImportEvent) (events : List ImportEvent) (s : AnkiImport) (index : ℕ)
      → is_kept event ≡ true
      → or_option
          (last_for index (choices events))
          (action_at (import_step trim event s).actions index)
        ≡ or_option (last_for index (choices (event ∷ events))) (action_at s.actions index)
  unfolding import_step set_card_action
  step-actions (text_typed text) events s index kept = refl
  step-actions (text_refused message) events s index kept = refl
  step-actions (cards_refused message) events s index kept = refl
  step-actions preview_pressed events s index kept =
      ap (λ actions. or_option (last_for index (choices events)) (action_at actions index))
        (begin_preview-keeps trim s).1
  step-actions import_pressed events s index kept =
      ap (λ actions. or_option (last_for index (choices events)) (action_at actions index))
        (begin_import-keeps trim s).1
  step-actions reset_pressed events s index kept = cc
  step-actions (previewed data_) events s index kept = cc
  step-actions (action_chosen key action) events s index kept =
      or_option-if (last_for index (choices events)) (eqb key index) action
        (action_at s.actions index)
  step-actions (cards_imported result) events s index kept = cc

  run-actions :
      (events : List ImportEvent) (s : AnkiImport) (index : ℕ)
      → All (λ event. is_kept event ≡ true) events
      → action_at (import_run trim events s).actions index
        ≡ or_option (last_for index (choices events)) (action_at s.actions index)
  run-actions [] s index h = refl
  run-actions (event ∷ events) s index (kept, h) =
      run-actions events (import_step trim event s) index h ∙ step-actions event events s index kept

-- A card without a suggestion has none to fall back on either.
suggested-none :
    (items : List ImportPreviewItem) (index : ℕ)
    → last_for index (suggestions items) ≡ none
    → suggested items index ≡ none
suggested-none [] index h = refl
suggested-none (item ∷ items) index h = elim (Bool-cases (eqb item.index index)) [
  | inl here ↦ absurd (
      or_option-some (last_for index (suggestions items)) item.suggested_action
        (ap (or_option (last_for index (suggestions items))) (sym (rw here refl)) ∙ h))
  | inr other ↦
      rw (suggested, other)
        (suggested-none items index (or_option-none (last_for index (suggestions items)) _ h).0)
]

fall_back :
    (chosen last back : Option ImportAction)
    → (last ≡ none → back ≡ none)
    → or_else (or_option chosen last) (or_else back skip_card)
      ≡ or_else (or_option chosen last) skip_card
fall_back (some a) last back h = refl
fall_back none (some a) back h = refl
fall_back none none back h = rw (h refl) refl

cards_with_actions-decided :
    (actions chosen : Actions) (items : List ImportPreviewItem) (index : ℕ) (cards : List AnkiCard)
    → ((n : ℕ)
        → action_at actions n ≡ or_option (last_for n chosen) (last_for n (suggestions items)))
    → cards_with_actions actions items index cards ≡ decided chosen (suggestions items) index cards
cards_with_actions-decided actions chosen items index [] h = refl
cards_with_actions-decided actions chosen items index (card ∷ cards) h =
    let action =
      ap (λ a. or_else a (or_else (suggested items index) skip_card)) (h index)
      ∙ fall_back (last_for index chosen) (last_for index (suggestions items))
          (suggested items index) (suggested-none items index) in
    cc (action, cards_with_actions-decided actions chosen items (index + 1) cards h)

-- However a preview's actions are then chosen, texts typed, previews asked for and refused and imports
-- tried, until one succeeds, another preview comes or all is reset: the import sends the cards of that
-- preview, each with the last action chosen for its place, or else the last one suggested, or to skip.
pub cards_to_send-decided :
    (trim : String → String) (events : List ImportEvent) (data_ : ImportPreview) (s : AnkiImport)
    → All (λ event. is_kept event ≡ true) events
    → cards_to_send (import_run trim (previewed data_ ∷ events) s)
      ≡ some (decided (choices events) (suggestions data_.items) 0 data_.cards)
unfolding cards_to_send import_step preview_came
cards_to_send-decided trim events data_ s h =
    let then_ = import_step trim (previewed data_) s in
    rw (cards_to_send, run-preview trim events then_ h)
      (ap some (
        cards_with_actions-decided (import_run trim events then_).actions (choices events)
          data_.items 0 data_.cards
          (λ n.
            run-actions trim events then_ n h
            ∙ ap (or_option (last_for n (choices events))) (
                action_at-initial n data_.items []
                ∙ or_option-nothing (last_for n (suggestions data_.items))))))

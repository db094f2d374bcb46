-- ===== src/Add/AnkiImport.antt =====
-- The import of cards from Anki: frontend/src/features/import/useAnkiImport.ts.
-- The requests go to the gateway: their answers are events. `trim` is the platform's.
pub mod Choices
mod Tests
use project_pn.Prelude.{
  ℕ, ◌+◌, String, Bool, true, false, Option, none, some, List, [], ◌∷◌, ◌==◌, find, eqb,
  if◌then◌else◌, or_else, or_option,
}
use project_pn.Add.Senses.{SenseOption}

pub data ImportAction : Type 0 where
  add_card overwrite_meaning create_new_meaning skip_card : ImportAction

pub record AnkiCard : Type 0 where
  pub front : String
  pub back : String
  pub tags : Option String
  pub action : Option ImportAction

pub data ImportStatus : Type 0 where
  new_word existing_word_match conflict : ImportStatus

pub record ImportPreviewItem : Type 0 where
  pub index : ℕ
  pub front : String
  pub back : String
  pub status : ImportStatus
  pub matched_senses : List SenseOption
  pub suggested_action : ImportAction

pub record ImportPreview : Type 0 where
  pub cards : List AnkiCard
  pub items : List ImportPreviewItem

pub record ImportError : Type 0 where
  pub index : ℕ
  pub front : String
  pub error : String

pub record AnkiImportResult : Type 0 where
  pub total : ℕ
  pub imported : ℕ
  pub skipped : ℕ
  pub failed : ℕ
  pub errors : List ImportError

-- A `Record<number, ImportAction>`: the first entry of a key is its value.
abbrev pub Actions : Type 0
Actions = List (ℕ × ImportAction)

pub record AnkiImport : Type 0 where
  pub csv_text : String
  pub preview : Option ImportPreview
  pub actions : Actions
  pub loading : Bool
  pub importing : Bool
  pub error : Option String
  pub result : Option AnkiImportResult

abbrev pub action_at : Actions → ℕ → Option ImportAction
action_at [] index = none
action_at ((key, action) ∷ actions) index =
    if eqb key index then some action else action_at actions index

-- `previewFromText`, up to the request.
unfoldable pub begin_preview : (trim : String → String) → AnkiImport → AnkiImport
begin_preview trim s =
    if trim s.csv_text == ""
    then record s { error = some "Paste Anki CSV export first" }
    else record s { loading = true; error = none; result = none }

abbrev pub initial_actions : Actions → List ImportPreviewItem → Actions
initial_actions actions [] = actions
initial_actions actions (item ∷ items) =
    initial_actions ((item.index, item.suggested_action) ∷ actions) items

unfoldable pub preview_came : ImportPreview → AnkiImport → AnkiImport
preview_came data_ s = record s {
  preview = some data_;
  actions = initial_actions [] data_.items;
  loading = false;
}

abbrev pub preview_failed : String → AnkiImport → AnkiImport
preview_failed message s = record s { error = some message; loading = false }

unfoldable pub set_card_action : ℕ → ImportAction → AnkiImport → AnkiImport
set_card_action index action s = record s { actions = (index, action) ∷ s.actions }

-- What the preview suggests for a card.
abbrev pub suggested : List ImportPreviewItem → ℕ → Option ImportAction
suggested items index = elim (find (λ item. eqb item.index index) items) [
  | none ↦ none
  | some item ↦ some item.suggested_action
]

-- The cards from `index` on, with their actions.
abbrev pub cards_with_actions :
    Actions → List ImportPreviewItem → (index : ℕ) → List AnkiCard → List AnkiCard
cards_with_actions actions items index [] = []
cards_with_actions actions items index (card ∷ cards) =
    record card {
      action = some (or_else (action_at actions index) (or_else (suggested items index) skip_card));
    }
    ∷ cards_with_actions actions items (index + 1) cards

-- The cards that `importCards` sends, if there is a preview.
unfoldable pub cards_to_send : AnkiImport → Option (List AnkiCard)
cards_to_send s = elim s.preview [
  | none ↦ none
  | some preview ↦ some (cards_with_actions s.actions preview.items 0 preview.cards)
]

unfoldable pub begin_import : AnkiImport → AnkiImport
begin_import s = elim s.preview [
  | none ↦ s
  | some preview ↦ record s { importing = true; error = none }
]

unfoldable pub import_came : AnkiImportResult → AnkiImport → AnkiImport
import_came result s = record s { result = some result; preview = none; importing = false }

abbrev pub import_failed : String → AnkiImport → AnkiImport
import_failed message s = record s { error = some message; importing = false }

unfoldable pub reset : AnkiImport → AnkiImport
reset s = record s { csv_text = ""; preview = none; actions = []; error = none; result = none }

pub data ImportEvent : Type 0 where
  text_typed text_refused cards_refused : String → ImportEvent
  preview_pressed import_pressed reset_pressed : ImportEvent
  previewed : ImportPreview → ImportEvent
  action_chosen : ℕ → ImportAction → ImportEvent
  cards_imported : AnkiImportResult → ImportEvent

module _ (trim : String → String) where
  unfoldable pub import_step : ImportEvent → AnkiImport → AnkiImport
  unfolding begin_preview preview_came set_card_action begin_import import_came reset
  import_step (text_typed text) s = record s { csv_text = text }
  import_step preview_pressed s = begin_preview trim s
  import_step (previewed data_) s = preview_came data_ s
  import_step (text_refused message) s = preview_failed message s
  import_step (action_chosen index action) s = set_card_action index action s
  import_step import_pressed s = begin_import s
  import_step (cards_imported result) s = import_came result s
  import_step (cards_refused message) s = import_failed message s
  import_step reset_pressed s = reset s

  abbrev pub import_run : List ImportEvent → AnkiImport → AnkiImport
  import_run [] s = s
  import_run (event ∷ events) s = import_run events (import_step event s)

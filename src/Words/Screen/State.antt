-- ===== src/Words/Screen/State.antt =====
-- The state of the screen of saved words: frontend/src/features/words/MyWordsScreen.tsx.
use project_pn.Prelude.{String, Bool, false, Option, none, List, []}
use project_pn.Words.Item.{Deck}
use project_pn.Words.LearningItems.{LearningItems, initial}

-- A call of `listDecks` with what its answer needs.
pub record DeckLoad : Type 0 where
  pub language : String
  pub route_deck_id : Option String
  pub silent : Bool

-- `WordsScreen.list` is the state of `useLearningItems`; `form_open` is `formMode === 'create'`.
pub record WordsScreen : Type 0 where
  pub list : LearningItems
  pub decks : List Deck
  pub decks_loading : Bool
  pub decks_error : Option String
  pub selected_deck_id : Option String
  pub form_open : Bool
  pub form_loading : Bool
  pub operation_error : Option String
  pub move_modal_open : Bool
  pub move_item_ids : List String
  pub move_exclude_deck_id : Option String
  pub move_loading : Bool
  pub move_error : Option String
  pub remove_loading : Bool
  pub pending_remove_ids : Option (List String)
  pub selected_item_ids : List String
  pub deck_loads : List DeckLoad

abbrev pub first_screen : (route_deck_id : Option String) → WordsScreen
first_screen route_deck_id = record {
  list = initial;
  decks = [];
  decks_loading = false;
  decks_error = none;
  selected_deck_id = route_deck_id;
  form_open = false;
  form_loading = false;
  operation_error = none;
  move_modal_open = false;
  move_item_ids = [];
  move_exclude_deck_id = none;
  move_loading = false;
  move_error = none;
  remove_loading = false;
  pending_remove_ids = none;
  selected_item_ids = [];
  deck_loads = [];
}

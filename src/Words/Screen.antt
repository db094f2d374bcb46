-- ===== src/Words/Screen.antt =====
-- The screen of the saved words: the state and the handlers of
-- frontend/src/features/words/MyWordsScreen.tsx.
-- Each `async` handler is its parts between the `await`s. What a closure captured (the filters of
-- the list, the language, the deck of the route) is an argument; the calls of `listDecks` that run
-- are in `deck_loads`.
pub mod Counts
pub mod Filtering
pub mod Totals
mod State
pub use State.*
use project_pn.Prelude.{
  ℕ, String, Bool, true, false, not, Option, none, some, List, [], ◌∷◌, ◌++◌, ◌==◌, ◌&&◌, filter,
  any, length, contains, add, is_some, if◌then◌else◌, eqb,
}
use project_pn.Words.Item.{LearningItemListItem, Deck}
use project_pn.Words.DeckCounts.{adjust_deck_counts_for_removed_items, adjust_deck_counts_for_move}
use project_pn.Words.LearningItems.{
  LearningItems, Filters, initial, begin_refresh, remove_items_locally,
}

-- `loadDecks`, without a target language nothing.
unfoldable pub begin_load_decks :
    (target_language route_deck_id : Option String) (silent : Bool) → WordsScreen → WordsScreen
begin_load_decks none route silent s = s
begin_load_decks (some language) route silent s = if language == "" then s else record s {
  decks_loading = if silent then s.decks_loading else true;
  decks_error = none;
  deck_loads =
      s.deck_loads ++ record { language = language; route_deck_id = route; silent = silent } ∷ [];
}

abbrev pub has_deck : List Deck → String → Bool
has_deck decks id = any (λ (d : Deck). d.id == id) decks

-- The deck of the route where it was loaded, else the one that was selected where it was.
abbrev pub reselect : List Deck → (route prev : Option String) → Option String
reselect decks route prev =
    let kept : Option String = elim prev [
      | none ↦ none
      | some id ↦ if has_deck decks id then some id else none
    ] in
    elim route [
      | none ↦ kept
      | some id ↦ if not (id == "") && has_deck decks id then some id else kept
    ]

unfoldable pub decks_loaded : DeckLoad → List Deck → WordsScreen → WordsScreen
decks_loaded load decks s = record s {
  decks = decks;
  selected_deck_id = reselect decks load.route_deck_id s.selected_deck_id;
  decks_loading = if load.silent then s.decks_loading else false;
}

unfoldable pub decks_failed : DeckLoad → (message : String) → WordsScreen → WordsScreen
decks_failed load message s = record s {
  decks_error = some message;
  decks_loading = if load.silent then s.decks_loading else false;
}

unfoldable pub refresh_list : Filters → WordsScreen → WordsScreen
unfolding begin_refresh
refresh_list filters s = record s { list = begin_refresh filters s.list }

-- `handleCreate`: the request, its answer, the loaded decks with the refresh, and the `finally`.
unfoldable pub begin_create : (target_language : String) → WordsScreen → WordsScreen
begin_create language s =
    if language == "" then s else record s { form_loading = true; operation_error = none }

unfoldable pub deck_created : (target_language route : Option String) → WordsScreen → WordsScreen
unfolding begin_load_decks
deck_created language route s =
    begin_load_decks language route false (record s { form_open = false })

unfoldable pub create_failed : (message : String) → WordsScreen → WordsScreen
create_failed message s = record s { operation_error = some message; form_loading = false }

unfoldable pub create_over : WordsScreen → WordsScreen
create_over s = record s { form_loading = false }

unfoldable pub close_modal : WordsScreen → WordsScreen
close_modal s = record s { form_open = false; operation_error = none }

unfoldable pub open_create : WordsScreen → WordsScreen
open_create s = record s { form_open = true; operation_error = none }

unfoldable pub open_move_modal :
    List String → (exclude_deck_id : Option String) → WordsScreen → WordsScreen
open_move_modal ids exclude s = record s {
  move_item_ids = ids;
  move_exclude_deck_id = exclude;
  move_error = none;
  move_modal_open = true;
}

unfoldable pub close_move_modal : WordsScreen → WordsScreen
close_move_modal s = record s {
  move_modal_open = false;
  move_item_ids = [];
  move_exclude_deck_id = none;
  move_error = none;
}

-- `ids.length === 0`
abbrev pub is_empty : List String → Bool
is_empty [] = true
is_empty (id ∷ ids) = false

abbrev pub among : List String → LearningItemListItem → Bool
among ids item = contains ids item.id

abbrev pub leaves_current_deck : (deck_id : String) → (selected : Option String) → Bool
leaves_current_deck deck_id none = false
leaves_current_deck deck_id (some selected) = not (selected == deck_id)

-- `handleMoveToDeck` up to the request. `seen` is the state of the render that made the callback.
unfoldable pub begin_move : (seen : WordsScreen) (deck_id : String) → WordsScreen → WordsScreen
unfolding remove_items_locally adjust_deck_counts_for_move
begin_move seen deck_id s = if is_empty seen.move_item_ids then s else record s {
  move_loading = true;
  move_error = none;
  decks =
      adjust_deck_counts_for_move s.decks (filter (among seen.move_item_ids) seen.list.items)
        deck_id;
  list =
      if leaves_current_deck deck_id seen.selected_deck_id
      then remove_items_locally seen.move_item_ids s.list
      else s.list;
}

-- The answer: without an error the silent load of the decks and, where words of the shown deck
-- stay, the refresh; `move_over` is the `finally`.
unfoldable pub moved :
    (seen : WordsScreen) (deck_id : String) (language route : Option String)
    → Filters
    → WordsScreen
    → WordsScreen
unfolding close_move_modal begin_load_decks refresh_list
moved seen deck_id language route filters s =
    let loading : WordsScreen =
      begin_load_decks language route true
        (record (close_move_modal s) { selected_item_ids = [] }) in
    if leaves_current_deck deck_id seen.selected_deck_id
    then loading
    else refresh_list filters loading

unfoldable pub move_failed : (message : String) → Filters → WordsScreen → WordsScreen
unfolding refresh_list
move_failed message filters s = refresh_list filters (record s { move_error = some message })

-- After the refresh of a failed move or removal.
unfoldable pub reload_decks : (language route : Option String) → WordsScreen → WordsScreen
unfolding begin_load_decks
reload_decks language route s = begin_load_decks language route true s

unfoldable pub move_over : WordsScreen → WordsScreen
move_over s = record s { move_loading = false }

-- `handleRemoveItems` up to the request; `seen` is the list of the render.
unfoldable pub begin_remove :
    (seen : List LearningItemListItem) → List String → WordsScreen → WordsScreen
unfolding remove_items_locally adjust_deck_counts_for_removed_items
begin_remove seen ids s = if is_empty ids then s else record s {
  remove_loading = true;
  operation_error = none;
  list = remove_items_locally ids s.list;
  decks = adjust_deck_counts_for_removed_items s.decks (filter (among ids) seen);
}

unfoldable pub removed : (language route : Option String) → WordsScreen → WordsScreen
unfolding begin_load_decks
removed language route s =
    record (begin_load_decks language route true (record s { selected_item_ids = [] })) {
      remove_loading = false;
    }

unfoldable pub remove_failed : (message : String) → Filters → WordsScreen → WordsScreen
unfolding refresh_list
remove_failed message filters s = refresh_list filters (record s { operation_error = some message })

unfoldable pub remove_over : WordsScreen → WordsScreen
remove_over s = record s { remove_loading = false }

unfoldable pub request_remove_items : List String → WordsScreen → WordsScreen
request_remove_items [] s = s
request_remove_items (id ∷ ids) s = record s { pending_remove_ids = some (id ∷ ids) }

unfoldable pub confirm_remove_items : (seen : WordsScreen) → WordsScreen → WordsScreen
unfolding begin_remove
confirm_remove_items seen s = elim seen.pending_remove_ids [
  | none ↦ record s { pending_remove_ids = none }
  | some ids ↦ begin_remove seen.list.items ids (record s { pending_remove_ids = none })
]

unfoldable pub cancel_remove_items : WordsScreen → WordsScreen
cancel_remove_items s = record s { pending_remove_ids = none }

-- `selectedItemIds`, a set.
unfoldable pub toggle : String → List String → List String
toggle id selected =
    if contains selected id then filter (λ k. not (k == id)) selected else selected ++ id ∷ []

unfoldable pub toggle_item_selection : String → WordsScreen → WordsScreen
unfolding toggle
toggle_item_selection id s = record s { selected_item_ids = toggle id s.selected_item_ids }

unfoldable pub clear_item_selection : WordsScreen → WordsScreen
clear_item_selection s = record s { selected_item_ids = [] }

-- The screen after a press on a row, and whether it opens the word.
unfoldable pub handle_row_press :
    (seen : WordsScreen) → LearningItemListItem → WordsScreen → WordsScreen × Bool
unfolding toggle_item_selection
handle_row_press seen item s =
    if is_empty seen.selected_item_ids then (s, true) else (toggle_item_selection item.id s, false)

unfoldable pub handle_row_long_press : LearningItemListItem → WordsScreen → WordsScreen
handle_row_long_press item s = record s { selected_item_ids = add s.selected_item_ids item.id }

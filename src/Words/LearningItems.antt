-- ===== src/Words/LearningItems.antt =====
-- The paged list of words: frontend/src/features/words/useLearningItems.ts.
-- Each `async` function is its part up to the request, `begin_…`, which leaves the request in
-- `pending`, and the part that runs when its answer is there. Answers come in any order. What a
-- closure captured (the filters, `status`, `enabled`) is an argument of the operation.
use project_pn.Prelude.{
  ℕ, ◌+◌, String, Bool, true, false, not, ◌||◌, Option, none, some, List, [], ◌∷◌, ◌++◌, ◌==◌, ◌≡◌,
  eqb, if◌then◌else◌, filter, contains,
}
use project_pn.Words.Item.{LearningItemListItem, LearningItemsPage}

pub data Status : Type 0 where
  loading ready failed : Status

abbrev pub is_loading : Status → Bool
is_loading loading = true
is_loading ready = false
is_loading failed = false

-- `debouncedQ.trim() || undefined`, `deckId`, `languageCode`
pub record Filters : Type 0 where
  pub q : Option String
  pub deck_id : Option String
  pub language_code : Option String

pub record ListRequest : Type 0 where
  pub limit : ℕ
  pub descending : Bool
  pub filters : Filters
  pub cursor : Option String

pub data Origin : Type 0 where
  reload load_more refresh : Origin

pub record Pending : Type 0 where
  pub origin : Origin
  pub request_id : ℕ
  pub request : ListRequest

pub data Answer : Type 0 where
  listed : LearningItemsPage → Answer
  api_failure : (message : String) → Answer
  other_failure : Answer

pub record LearningItems : Type 0 where
  pub items : List LearningItemListItem
  pub next_cursor : Option String
  pub status : Status
  pub is_loading_more : Bool
  pub is_refreshing : Bool
  pub error : Option String
  pub request_id_ref : ℕ
  pub loading_more_ref : Bool
  pub next_cursor_ref : Option String
  pub pending : List Pending

abbrev pub initial : LearningItems
initial = record {
  items = [];
  next_cursor = none;
  status = loading;
  is_loading_more = false;
  is_refreshing = false;
  error = none;
  request_id_ref = 0;
  loading_more_ref = false;
  next_cursor_ref = none;
  pending = [];
}

abbrev pub page_size : ℕ
page_size = 50

abbrev pub list_request : Filters → Option String → ListRequest
list_request filters cursor = record {
  limit = page_size;
  descending = true;
  filters = filters;
  cursor = cursor;
}

-- The call of `fetchPage` up to its `await`.
abbrev pub ask : Origin → ℕ → ListRequest → LearningItems → LearningItems
ask origin id request s = record s {
  pending = s.pending ++ record { origin = origin; request_id = id; request = request } ∷ [];
}

abbrev pub appends : Origin → Bool
appends reload = false
appends load_more = true
appends refresh = false

-- `fetchPage` from its `await` on, where the request is still the current one.
unfoldable pub accept : Bool → LearningItemsPage → LearningItems → LearningItems
accept append page s = record s {
  items = if append then s.items ++ page.items else page.items;
  next_cursor = page.next_cursor;
  next_cursor_ref = page.next_cursor;
  status = ready;
  error = none;
}

unfoldable pub begin_reload : (enabled : Bool) → Filters → LearningItems → LearningItems
begin_reload false filters s = record s {
  items = [];
  next_cursor = none;
  next_cursor_ref = none;
  status = ready;
  error = none;
}
begin_reload true filters s =
    ask reload (s.request_id_ref + 1) (list_request filters none) (record s {
      request_id_ref = s.request_id_ref + 1;
      status = loading;
      error = none;
      next_cursor = none;
      next_cursor_ref = none;
    })

-- `status` is the one of the render that made the callback. An empty cursor counts as none.
unfoldable pub begin_load_more : (status : Status) → Filters → LearningItems → LearningItems
begin_load_more status filters s = elim s.next_cursor_ref [
  | none ↦ s
  | some cursor ↦
      if cursor == "" || s.loading_more_ref || is_loading status
      then s
      else ask load_more s.request_id_ref (list_request filters (some cursor))
          (record s { loading_more_ref = true; is_loading_more = true })
]

unfoldable pub begin_refresh : Filters → LearningItems → LearningItems
begin_refresh filters s =
    ask refresh (s.request_id_ref + 1) (list_request filters none)
      (record s { request_id_ref = s.request_id_ref + 1; is_refreshing = true; error = none })

unfoldable pub remove_items_locally : List String → LearningItems → LearningItems
remove_items_locally [] s = s
remove_items_locally (id ∷ ids) s = record s {
  items = filter (λ item. not (contains (id ∷ ids) item.id)) s.items;
}

-- The `finally` blocks.
unfoldable pub conclude : Origin → ℕ → LearningItems → LearningItems
conclude reload id s = s
conclude load_more id s = record s { loading_more_ref = false; is_loading_more = false }
conclude refresh id s = if eqb id s.request_id_ref then record s { is_refreshing = false } else s

module _ (something_wrong : String) where
  unfoldable pub message_of : Answer → String
  message_of (listed p) = something_wrong
  message_of (api_failure message) = message
  message_of other_failure = something_wrong

  -- The `catch` blocks: only a load of more pages leaves the status.
  unfoldable pub show_error : Origin → Answer → LearningItems → LearningItems
  unfolding message_of
  show_error reload answer s = record s { error = some (message_of answer); status = failed }
  show_error load_more answer s = record s { error = some (message_of answer) }
  show_error refresh answer s = record s { error = some (message_of answer); status = failed }

  -- The answer of a request, shown only if no later reload or refresh was begun.
  unfoldable pub receive : Pending → Answer → LearningItems → LearningItems
  unfolding accept show_error
  receive p (listed next) s =
      if eqb p.request_id s.request_id_ref then accept (appends p.origin) next s else s
  receive p (api_failure message) s =
      if eqb p.request_id s.request_id_ref then show_error p.origin (api_failure message) s else s
  receive p other_failure s =
      if eqb p.request_id s.request_id_ref then show_error p.origin other_failure s else s

  unfoldable pub settle : Pending → Answer → LearningItems → LearningItems
  unfolding receive conclude
  settle p answer s = conclude p.origin p.request_id (receive p answer s)

  -- What can happen next. `settled` takes any request out of `pending`.
  pub data Step : LearningItems → LearningItems → Type 0 where
    reloaded :
        (s : LearningItems) (enabled : Bool) (filters : Filters)
        → Step s (begin_reload enabled filters s)
    more_loaded :
        (s : LearningItems) (status : Status) (filters : Filters)
        → Step s (begin_load_more status filters s)
    refreshed : (s : LearningItems) (filters : Filters) → Step s (begin_refresh filters s)
    removed : (s : LearningItems) (ids : List String) → Step s (remove_items_locally ids s)
    settled :
        (s : LearningItems) (before after : List Pending) (p : Pending) (answer : Answer)
        → s.pending ≡ before ++ p ∷ after
        → Step s (settle p answer (record s { pending = before ++ after }))

  pub data Steps (s : LearningItems) : LearningItems → Type 0 where
    done : Steps s s
    then_ : {t u : LearningItems} → Steps s t → Step t u → Steps s u

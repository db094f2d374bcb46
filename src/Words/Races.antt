-- ===== src/Words/Races.antt =====
-- Requests that cross: theorems about frontend/src/features/words/useLearningItems.ts.
use project_pn.Prelude.{
  ℕ, ◌+◌, ◌<◌, ◌≡◌, refl, sym, ap, ◌∙◌, String, true, false, ◌||◌, ◌==◌, Option, none, some, List,
  [], ◌∷◌, ◌++◌, arith, eqb, eqb_iff, if◌then◌else◌,
}
use project_pn.Words.Item.{LearningItemsPage}
use project_pn.Words.LearningItems.{
  Status, ready, Filters, Origin, reload, load_more, refresh, appends, Pending, Answer, listed,
  ListRequest, LearningItems, ask, is_loading, list_request, begin_reload, begin_load_more,
  begin_refresh, receive, conclude, settle, accept,
}
use project_pn.Words.Stale.{shown-conclude, id-settle, pending-settle}
use project_pn.Words.Loading.{flags-receive}

-- The request of the reload, the refresh or the load that is begun in a state.
abbrev pub asked : Origin → ℕ → Filters → Option String → Pending
asked origin id filters cursor = record {
  origin = origin;
  request_id = id;
  request = list_request filters cursor;
}

-- The state with one request fewer, and that request answered.
abbrev pub answer_one : String → Pending → Answer → List Pending → LearningItems → LearningItems
answer_one m p a rest s = settle m p a (record s { pending = rest })

-- The page of the current request is shown.
shown-settle :
    (m : String) (p : Pending) (q : LearningItemsPage) (s : LearningItems)
    → p.request_id ≡ s.request_id_ref
    → ((settle m p (listed q) s).items ≡ (if appends p.origin then s.items ++ q.items else q.items))
      × ((settle m p (listed q) s).next_cursor ≡ q.next_cursor)
unfolding settle receive accept
shown-settle m p q s e =
    let view = shown-conclude p.origin p.request_id (receive m p (listed q) s) in
    let same : eqb p.request_id s.request_id_ref ≡ true =
      (eqb_iff p.request_id s.request_id_ref).1 e in
    (ap (λ x. x.0) view ∙ rw same refl, ap (λ x. x.1) view ∙ rw same refl)

-- Disabling the list does not supersede the running request: the page of a reload or refresh that
-- was current when the list was disabled replaces the empty list.
pub disabled-shows-running :
    (m : String) (f : Filters) (s : LearningItems) (p : Pending) (q : LearningItemsPage)
    → appends p.origin ≡ false
    → p.request_id ≡ s.request_id_ref
    → ((begin_reload false f s).items ≡ [])
      × ((settle m p (listed q) (begin_reload false f s)).items ≡ q.items)
unfolding begin_reload
disabled-shows-running m f s p q h e =
    (refl, (shown-settle m p q (begin_reload false f s) e).0 ∙ rw h refl)

refreshing-settle_reload :
    (m : String) (id : ℕ) (r : ListRequest) (a : Answer) (s : LearningItems)
    → (settle m (record { origin = reload; request_id = id; request = r }) a s).is_refreshing
      ≡ s.is_refreshing
unfolding settle conclude
refreshing-settle_reload m id r a s =
    (flags-receive m (record { origin = reload; request_id = id; request = r }) a s).4

refreshing-settle_stale :
    (m : String) (id : ℕ) (r : ListRequest) (a : Answer) (s : LearningItems)
    → id < s.request_id_ref
    → (settle m (record { origin = refresh; request_id = id; request = r }) a s).is_refreshing
      ≡ s.is_refreshing
unfolding settle conclude
refreshing-settle_stale m id r a s h =
    let flags = flags-receive m (record { origin = refresh; request_id = id; request = r }) a s in
    ground (arith, flags.3, flags.4, eqb_iff id s.request_id_ref, h)

-- A refresh that a reload supersedes leaves the list refreshing: when both are answered, with
-- pages or failures, nothing is running and `isRefreshing` is still set.
pub refreshing-stuck :
    (m : String) (f g : Filters) (s : LearningItems) (a b : Answer)
    → s.pending ≡ []
    → let first : Pending = asked refresh (s.request_id_ref + 1) f none in
      let second : Pending = asked reload (s.request_id_ref + 1 + 1) g none in
      let crossed : LearningItems = begin_reload true g (begin_refresh f s) in
      let answered : LearningItems =
        answer_one m second b [] (answer_one m first a (second ∷ []) crossed) in
      (crossed.pending ≡ first ∷ second ∷ [])
      × (answered.pending ≡ [])
      × (answered.is_refreshing ≡ true)
unfolding begin_reload begin_refresh
refreshing-stuck m f g s a b h = (
  rw h refl,
  pending-settle m _ b _,
  refreshing-settle_reload m _ _ b _ ∙ refreshing-settle_stale m _ _ a _ (omega arith),
)

begin_load_more-asks :
    (status : Status) (g : Filters) (cursor : String) (s : LearningItems)
    → s.next_cursor_ref ≡ some cursor
    → s.loading_more_ref ≡ false
    → (cursor == "" || false || is_loading status) ≡ false
    → begin_load_more status g s
      ≡ ask load_more s.request_id_ref
          (list_request g (some cursor))
          (record s { loading_more_ref = true; is_loading_more = true })
unfolding begin_load_more
begin_load_more-asks status g cursor s here free unblocked = rw (here, free, unblocked) refl

-- More can be asked for while a refresh is running, from the cursor of the list that the refresh
-- replaces. When the refresh is answered first and the request for more after it, the page after
-- that old cursor stands directly after the first page, and its cursor is the one that the list
-- goes on from.
pub old-cursor-appended :
    (m : String) (f g : Filters) (s : LearningItems) (cursor : String) (q r : LearningItemsPage)
    → s.pending ≡ []
    → s.loading_more_ref ≡ false
    → s.next_cursor_ref ≡ some cursor
    → (cursor == "") ≡ false
    → let first : Pending = asked refresh (s.request_id_ref + 1) f none in
      let second : Pending = asked load_more (s.request_id_ref + 1) g (some cursor) in
      let crossed : LearningItems = begin_load_more ready g (begin_refresh f s) in
      let answered : LearningItems =
        answer_one m second (listed r) [] (answer_one m first (listed q) (second ∷ []) crossed) in
      (crossed.pending ≡ first ∷ second ∷ [])
      × (answered.items ≡ q.items ++ r.items)
      × (answered.next_cursor ≡ r.next_cursor)
unfolding begin_refresh
old-cursor-appended m f g s cursor q r none_pending free at_cursor non_empty =
    rw (begin_load_more-asks ready g cursor (begin_refresh f s) at_cursor free (rw non_empty refl))
      (
        rw none_pending refl,
        (shown-settle m _ r _ (sym (id-settle m _ (listed q) _))).0
            ∙ ap (λ xs. xs ++ r.items) (shown-settle m _ q _ refl).0,
        (shown-settle m _ r _ (sym (id-settle m _ (listed q) _))).1,
      )

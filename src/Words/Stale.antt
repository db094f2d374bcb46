-- ===== src/Words/Stale.antt =====
-- Which answers reach the list of words: theorems about the request ids of
-- frontend/src/features/words/useLearningItems.ts.
use project_pn.Prelude.{
  ℕ, ◌+◌, ◌≤◌, ◌<◌, ◌≡◌, refl, ◌⊎◌, ◌||◌, ◌==◌, String, true, false, inl, inr, Option, some, List,
  [], ◌∷◌, ◌++◌, arith, eqb, Bool-cases, Option-cases, All, All-append,
}
use project_pn.Words.Item.{LearningItemListItem}
use project_pn.Words.LearningItems.{
  Status, Filters, Origin, reload, load_more, refresh, Pending, Answer, listed, api_failure,
  other_failure, LearningItems, initial, ask, list_request, is_loading, begin_reload,
  begin_load_more, begin_refresh, remove_items_locally, receive, conclude, settle, accept,
  show_error, Step, reloaded, more_loaded, refreshed, removed, settled, Steps, done, then_,
}

-- What the list shows, the flags of the running requests aside.
abbrev pub shown :
    LearningItems
    → List LearningItemListItem × Option String × Option String × Status × Option String
shown s = (s.items, s.next_cursor, s.next_cursor_ref, s.status, s.error)

pub id-settle :
    (m : String) (p : Pending) (a : Answer) (s : LearningItems)
    → (settle m p a s).request_id_ref ≡ s.request_id_ref
unfolding settle conclude receive accept show_error
id-settle m p (listed q) s = ground arith
id-settle m p (api_failure e) s = ground arith
id-settle m p other_failure s = ground arith

id-Step : {m : String} {s t : LearningItems} → Step m s t → s.request_id_ref ≤ t.request_id_ref
unfolding begin_reload begin_load_more begin_refresh remove_items_locally
id-Step (reloaded s false f) = omega arith
id-Step (reloaded s true f) = omega arith
id-Step (more_loaded s st f) = ground arith
id-Step (refreshed s f) = omega arith
id-Step (removed s []) = omega arith
id-Step (removed s (i ∷ is)) = omega arith
id-Step {m} (settled s before after p a e) =
    omega (arith, id-settle m p a (record s { pending = before ++ after }))

id-Steps : {m : String} {s t : LearningItems} → Steps m s t → s.request_id_ref ≤ t.request_id_ref
id-Steps done = omega arith
id-Steps (then_ steps step) = omega (arith, id-Steps steps, id-Step step)

-- No request has an id that was not given out yet.
abbrev IdsGiven : LearningItems → Type 0
IdsGiven s = All (λ (p : Pending). p.request_id ≤ s.request_id_ref) s.pending

All-split :
    (P : Pending → Type 0) (before after : List Pending) (p : Pending)
    → All P (before ++ p ∷ after)
    → P p × All P (before ++ after)
All-split P [] after p a = a
All-split P (q ∷ before) after p a =
    let rest = All-split P before after p a.1 in (rest.0, (a.0, rest.1))

All-mono :
    {a b : ℕ} (ps : List Pending)
    → a ≤ b
    → All (λ (p : Pending). p.request_id ≤ a) ps
    → All (λ (p : Pending). p.request_id ≤ b) ps
All-mono [] le h = h
All-mono {a} {b} (p ∷ ps) le h = (omega (arith, le, h.0), All-mono {a = a} {b = b} ps le h.1)

pub pending-settle :
    (m : String) (p : Pending) (a : Answer) (s : LearningItems)
    → (settle m p a s).pending ≡ s.pending
unfolding settle receive conclude accept show_error
pending-settle m p (listed q) s = ground arith
pending-settle m p (api_failure e) s = ground arith
pending-settle m p other_failure s = ground arith

-- Either nothing happens, or more is asked for from the cursor at hand.
pub begin_load_more-cases :
    (status : Status) (f : Filters) (s : LearningItems)
    → (begin_load_more status f s ≡ s)
      ⊎ ((cursor : String) × (s.next_cursor_ref ≡ some cursor)
          × (s.loading_more_ref ≡ false)
          × (begin_load_more status f s
              ≡ ask load_more s.request_id_ref
                  (list_request f (some cursor))
                  (record s { loading_more_ref = true; is_loading_more = true })))
unfolding begin_load_more
begin_load_more-cases status f s = elim (Option-cases s.next_cursor_ref) [
  | inl absent ↦ inl (rw absent refl)
  | inr (cursor, present) ↦
      elim (Bool-cases (cursor == "" || s.loading_more_ref || is_loading status)) [
        | inl blocked ↦ inl (rw (present, blocked) refl)
        | inr free ↦ inr (cursor, present, ground arith, rw (present, free) refl)
      ]
]

IdsGiven-Step : {m : String} {s t : LearningItems} → Step m s t → IdsGiven s → IdsGiven t
unfolding begin_reload begin_load_more begin_refresh remove_items_locally
IdsGiven-Step (reloaded s false f) h = h
IdsGiven-Step (reloaded s true f) h =
    All-append (λ (p : Pending). p.request_id ≤ s.request_id_ref + 1) s.pending (_ ∷ [])
      (All-mono s.pending (omega arith) h) (omega arith, tt)
IdsGiven-Step (more_loaded s st f) h = elim (begin_load_more-cases st f s) [
  | inl same ↦ rw same h
  | inr (cursor, present, free, asked) ↦ rw asked (
      All-append (λ (p : Pending). p.request_id ≤ s.request_id_ref) s.pending (_ ∷ []) h
        (omega arith, tt))
]
IdsGiven-Step (refreshed s f) h =
    All-append (λ (p : Pending). p.request_id ≤ s.request_id_ref + 1) s.pending (_ ∷ [])
      (All-mono s.pending (omega arith) h) (omega arith, tt)
IdsGiven-Step (removed s []) h = h
IdsGiven-Step (removed s (i ∷ is)) h = h
IdsGiven-Step {m} (settled s before after p a e) h =
    rw
      (
        pending-settle m p a (record s { pending = before ++ after }),
        id-settle m p a (record s { pending = before ++ after }),
      )
      (All-split (λ (q : Pending). q.request_id ≤ s.request_id_ref) before after p (rw e at h)).1

IdsGiven-Steps : {m : String} {s t : LearningItems} → Steps m s t → IdsGiven s → IdsGiven t
IdsGiven-Steps done h = h
IdsGiven-Steps (then_ steps step) h = IdsGiven-Step step (IdsGiven-Steps steps h)

pub shown-conclude : (o : Origin) (id : ℕ) (s : LearningItems) → shown (conclude o id s) ≡ shown s
unfolding conclude
shown-conclude reload id s = refl
shown-conclude load_more id s = refl
shown-conclude refresh id s = elim (Bool-cases (eqb id s.request_id_ref)) [
  | inl current ↦ rw current refl
  | inr stale ↦ rw stale refl
]

receive-stale :
    (m : String) (p : Pending) (a : Answer) (s : LearningItems)
    → eqb p.request_id s.request_id_ref ≡ false
    → receive m p a s ≡ s
unfolding receive
receive-stale m p (listed q) s h = rw h refl
receive-stale m p (api_failure e) s h = rw h refl
receive-stale m p other_failure s h = rw h refl

settle-stale :
    (m : String) (p : Pending) (a : Answer) (s : LearningItems)
    → p.request_id < s.request_id_ref
    → shown (settle m p a s) ≡ shown s
unfolding settle
settle-stale m p a s h =
    rw (receive-stale m p a s (ground arith)) (shown-conclude p.origin p.request_id s)

-- The answer of a request that was running when a later refresh or enabled reload began, whenever
-- it comes after that and whatever else happened, changes nothing of the items, the cursor, the
-- status or the error.
pub superseded-not_shown :
    (m : String) (s t : LearningItems) (f : Filters) (before after : List Pending) (p : Pending)
    (a : Answer)
    → Steps m initial s
    → s.pending ≡ before ++ p ∷ after
    → Steps m (begin_refresh f s) t ⊎ Steps m (begin_reload true f s) t
    → shown (settle m p a t) ≡ shown t
unfolding begin_refresh begin_reload
superseded-not_shown m s t f before after p a reached e (inl steps) = settle-stale m p a t (
    omega (
      arith,
      id-Steps steps,
      (All-split (λ (q : Pending). q.request_id ≤ s.request_id_ref) before after p
          (rw e at (IdsGiven-Steps reached tt))).0,
    ))
superseded-not_shown m s t f before after p a reached e (inr steps) = settle-stale m p a t (
    omega (
      arith,
      id-Steps steps,
      (All-split (λ (q : Pending). q.request_id ≤ s.request_id_ref) before after p
          (rw e at (IdsGiven-Steps reached tt))).0,
    ))

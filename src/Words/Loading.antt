-- ===== src/Words/Loading.antt =====
-- The flags of the running requests: theorems about
-- frontend/src/features/words/useLearningItems.ts.
use project_pn.Prelude.{
  ℕ, ◌+◌, ◌≡◌, refl, String, Bool, true, false, inl, inr, List, [], ◌∷◌, ◌++◌, arith, eqb,
  if◌then◌else◌, Bool-cases, count_p, count_p-append,
}
use project_pn.Words.LearningItems.{
  Origin, reload, load_more, refresh, Pending, Answer, listed, api_failure, other_failure,
  LearningItems, initial, begin_reload, begin_refresh, remove_items_locally, receive, conclude,
  settle, accept, show_error, Step, reloaded, more_loaded, refreshed, removed, settled, Steps, done,
  then_,
}
use project_pn.Words.Stale.{begin_load_more-cases}

abbrev pub is_more : Origin → Bool
is_more reload = false
is_more load_more = true
is_more refresh = false

abbrev pub asks_more : Pending → Bool
asks_more p = is_more p.origin

-- The references hold what the state holds, and more is being loaded just while one request for
-- more is running.
abbrev pub IsConsistent : LearningItems → Type 0
IsConsistent s =
    (s.next_cursor ≡ s.next_cursor_ref)
    × (s.is_loading_more ≡ s.loading_more_ref)
    × (count_p asks_more s.pending ≡ (if s.loading_more_ref then 1 else 0))

cursors-receive :
    (m : String) (p : Pending) (a : Answer) (s : LearningItems)
    → s.next_cursor ≡ s.next_cursor_ref
    → (receive m p a s).next_cursor ≡ (receive m p a s).next_cursor_ref
unfolding receive accept show_error
cursors-receive m p (listed q) s h = ground arith
cursors-receive m p (api_failure e) s h = ground arith
cursors-receive m p other_failure s h = ground arith

pub flags-receive :
    (m : String) (p : Pending) (a : Answer) (s : LearningItems)
    → ((receive m p a s).is_loading_more ≡ s.is_loading_more)
      × ((receive m p a s).loading_more_ref ≡ s.loading_more_ref)
      × ((receive m p a s).pending ≡ s.pending)
      × ((receive m p a s).request_id_ref ≡ s.request_id_ref)
      × ((receive m p a s).is_refreshing ≡ s.is_refreshing)
unfolding receive accept show_error
flags-receive m p (listed q) s =
    (ground arith, ground arith, ground arith, ground arith, ground arith)
flags-receive m p (api_failure e) s =
    (ground arith, ground arith, ground arith, ground arith, ground arith)
flags-receive m p other_failure s =
    (ground arith, ground arith, ground arith, ground arith, ground arith)

-- A request that is no longer pending is concluded.
IsConsistent-conclude :
    (o : Origin) (id : ℕ) (s : LearningItems)
    → s.next_cursor ≡ s.next_cursor_ref
    → s.is_loading_more ≡ s.loading_more_ref
    → count_p asks_more s.pending + (if is_more o then 1 else 0)
      ≡ (if s.loading_more_ref then 1 else 0)
    → IsConsistent (conclude o id s)
unfolding conclude
IsConsistent-conclude reload id s c l n = (c, l, omega (arith, n))
IsConsistent-conclude load_more id s c l n = (c, refl, ground arith)
IsConsistent-conclude refresh id s c l n = elim (Bool-cases (eqb id s.request_id_ref)) [
  | inl current ↦ rw current (c, l, omega (arith, n))
  | inr stale ↦ rw stale (c, l, omega (arith, n))
]

IsConsistent-settle :
    (m : String) (s : LearningItems) (before after : List Pending) (p : Pending) (a : Answer)
    → s.pending ≡ before ++ p ∷ after
    → IsConsistent s
    → IsConsistent (settle m p a (record s { pending = before ++ after }))
unfolding settle
IsConsistent-settle m s before after p a e h =
    let r : LearningItems = record s { pending = before ++ after } in
    let flags = flags-receive m p a r in
    IsConsistent-conclude p.origin p.request_id (receive m p a r) (cursors-receive m p a r h.0)
      (rw (flags.0, flags.1) h.1)
      (rw (flags.1, flags.2)
        (ground (
          arith,
          rw e at h.2,
          count_p-append asks_more before after,
          count_p-append asks_more before (p ∷ after),
        )))

IsConsistent-Step :
    {m : String} {s t : LearningItems} → Step m s t → IsConsistent s → IsConsistent t
unfolding begin_reload begin_refresh remove_items_locally
IsConsistent-Step (reloaded s false f) h = (refl, h.1, h.2)
IsConsistent-Step (reloaded s true f) h =
    (refl, h.1, omega (arith, h.2, count_p-append asks_more s.pending (_ ∷ [])))
IsConsistent-Step (more_loaded s st f) h = elim (begin_load_more-cases st f s) [
  | inl same ↦ rw same h
  | inr (cursor, present, free, asked) ↦
      rw asked
        (h.0, refl, omega (arith, rw free at h.2, count_p-append asks_more s.pending (_ ∷ [])))
]
IsConsistent-Step (refreshed s f) h =
    (h.0, h.1, omega (arith, h.2, count_p-append asks_more s.pending (_ ∷ [])))
IsConsistent-Step (removed s []) h = h
IsConsistent-Step (removed s (i ∷ is)) h = h
IsConsistent-Step {m} (settled s before after p a e) h =
    IsConsistent-settle m s before after p a e h

-- In every state that can be reached, the references agree with the state, and more is being
-- loaded exactly while one request for more is running: there are never two.
pub Steps-IsConsistent : {m : String} {s : LearningItems} → Steps m initial s → IsConsistent s
Steps-IsConsistent done = (refl, refl, refl)
Steps-IsConsistent (then_ steps step) = IsConsistent-Step step (Steps-IsConsistent steps)

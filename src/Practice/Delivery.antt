-- ===== src/Practice/Delivery.antt =====
-- The way of a session's attempts to the server: confirmGrade and flushPending of
-- frontend/src/features/practice/PracticeScreen.tsx.
use project_pn.Prelude.{
  ℕ, ◌+◌, ◌≡◌, refl, sym, ap, ◌∙◌, ◌⊎◌, String, Bool, true, false, ◌||◌, inl, inr, List, [], ◌∷◌,
  ◌++◌, arith, append-nil, append_assoc, if◌then◌else◌, Bool-cases, Option-cases, get_elem?,
}
use project_pn.Api.Client.{Error}
use project_pn.Words.Item.{LearningItemListItem}
use project_pn.Practice.Item.{
  DueItem, BatchReviewItemUpdate, ReviewAttemptParams, is_passing_score,
  optimistic_due_item_after_again, resolve_due_item,
}
use project_pn.Practice.Session.{
  Session, apply_due_item_updates, handle_meaning_changed, sync_index, reset_card_interaction,
}
use project_pn.Practice.Flush.{
  is_nil, flush_pending, flush_saved, is_retryable, flush_failed, add_attempt, mark_retry, advance,
  move_on, confirm_grade,
}

-- What a step may change of the session while its attempts stay.
abbrev Keeps : Session → Session → Type 0
Keeps s t = (t.pending ≡ s.pending) × (t.flushing ≡ s.flushing)

Keeps-updates :
    (us : List BatchReviewItemUpdate) (s : Session) → Keeps s (apply_due_item_updates us s)
unfolding apply_due_item_updates
Keeps-updates [] s = (refl, refl)
Keeps-updates (u ∷ us) s = (refl, refl)

flush_pending-cases :
    (s : Session)
    → ((flush_pending s).1 ++ (flush_pending s).0.pending ≡ s.pending)
      × (((flush_pending s).0 ≡ s) × ((flush_pending s).1 ≡ [])
          ⊎ (s.flushing ≡ false) × ((flush_pending s).0.flushing ≡ true))
unfolding flush_pending
flush_pending-cases s = elim (Bool-cases (s.flushing || is_nil s.pending)) [
  | inl stays ↦ rw stays (refl, inl (refl, refl))
  | inr sends ↦ rw sends (append-nil s.pending, inr (ground arith, refl))
]

-- A batch is taken off the front of what waits, and more is put behind it.
order-batch :
    (g d f b p q a : List ReviewAttemptParams)
    → g ≡ d ++ f ++ p
    → b ++ q ≡ p ++ a
    → g ++ a ≡ d ++ (f ++ b) ++ q
order-batch g d f b p q a h e =
    cc (h, e, append_assoc (d ++ f) p a, append_assoc d f b, append_assoc (d ++ f) b q)

flushing-batch :
    (f b : List ReviewAttemptParams) (s t : Session)
    → (s.flushing ≡ true) ⊎ (f ≡ [])
    → (t.flushing ≡ true) ⊎ (b ≡ []) × (t.flushing ≡ s.flushing)
    → (t.flushing ≡ true) ⊎ (f ++ b ≡ [])
flushing-batch f b s t before (inl flushing) = inl flushing
flushing-batch f b s t (inl flushing) (inr (nothing, same)) = inl (same ∙ flushing)
flushing-batch f b s t (inr none_yet) (inr (nothing, same)) = inr (rw (none_yet, nothing) refl)

pending-flush_saved :
    (xp : ℕ) (us : List BatchReviewItemUpdate) (s : Session)
    → (flush_saved xp us s).pending ≡ s.pending
unfolding flush_saved
pending-flush_saved xp us s = (Keeps-updates us (record s { xp_earned = s.xp_earned + xp })).0

order-flush_failed :
    (g d f : List ReviewAttemptParams) (err : Error) (s : Session)
    → g ≡ d ++ f ++ s.pending
    → g ≡ (if is_retryable err then d else d ++ f) ++ (flush_failed f err s).pending
unfolding flush_failed
order-flush_failed g d f err s h = elim (Bool-cases (is_retryable err)) [
  | inl again ↦ rw again (h ∙ append_assoc d f s.pending)
  | inr refused ↦ rw refused h
]

module _ (blank : String → String → String) (trim : String → String) (decimal : ℕ → String)
    (same : DueItem → DueItem → Bool) {S : Type 0} (draw : S → ℕ → ℕ × S) where
  Keeps-advance :
      (q : List DueItem) (s : Session) (seed : S)
      → Keeps s (advance blank trim decimal same draw q s seed).0
  unfolding advance reset_card_interaction
  Keeps-advance q s seed = elim (Option-cases (get_elem? q (s.current_index + 1))) [
    | inl end ↦ rw (advance, end) (refl, refl)
    | inr (next, there) ↦ rw (advance, there) (refl, refl)
  ]

  Keeps-move_on :
      (item : DueItem) (score : ℕ) (s : Session) (seed : S)
      → Keeps s (move_on blank trim decimal same draw item score s seed).0
  unfolding move_on mark_retry
  Keeps-move_on item score s seed = elim (Bool-cases (is_passing_score score)) [
    | inl passed ↦ rw (move_on, passed) (Keeps-advance _ s _)
    | inr again ↦
        rw (move_on, again)
          (Keeps-advance _
            (mark_retry blank trim decimal same draw item
              (optimistic_due_item_after_again decimal item s.learning_steps) s)
            _)
  ]

  -- A grade adds its attempt behind the pending ones, and takes a batch off the front.
  pending-confirm_grade :
      (score elapsed : ℕ) (s : Session) (seed : S)
      → let graded = confirm_grade blank trim decimal same draw score elapsed s seed in
        (graded.1 ++ graded.0.pending ≡ s.pending ++ graded.2)
        × ((graded.0.flushing ≡ true) ⊎ (graded.1 ≡ []) × (graded.0.flushing ≡ s.flushing))
  unfolding confirm_grade add_attempt
  pending-confirm_grade score elapsed s seed =
      elim (Option-cases (get_elem? s.queue s.current_index)) [
        | inl end ↦ rw (confirm_grade, end) (sym (append-nil s.pending), inr (refl, refl))
        | inr (raw, there) ↦
            let item : DueItem = resolve_due_item raw s.item_overrides in
            let added : Session = add_attempt blank trim decimal same draw item score elapsed s in
            let keeps = Keeps-move_on item score (flush_pending added).0 seed in
            let cases = flush_pending-cases added in
            rw (confirm_grade, there)
              (
                ap (λ ps. (flush_pending added).1 ++ ps) keeps.0 ∙ cases.0,
                elim cases.1 [
                  | inl (stays, nothing) ↦ inr (nothing, keeps.1 ∙ ap (λ x. x.flushing) stays)
                  | inr (idle, flushing) ↦ inl (keeps.1 ∙ flushing)
                ],
              )
      ]

  abbrev pub grade :
      (score elapsed : ℕ)
      → Session
      → S
      → Session × List ReviewAttemptParams × List ReviewAttemptParams
  grade = confirm_grade blank trim decimal same draw

  -- A session with what was graded in it, what the server has taken or refused for good, and the
  -- batch that is on its way. An answer comes only while a batch is.
  pub data Run : (graded concluded in_flight : List ReviewAttemptParams) → Session → Type 0 where
    opened : (s : Session) → s.pending ≡ [] → s.flushing ≡ false → Run [] [] [] s
    graded :
        {g d f : List ReviewAttemptParams} {s : Session}
        → Run g d f s
        → (score elapsed : ℕ) (seed : S)
        → Run
            (g ++ (grade score elapsed s seed).2)
            d
            (f ++ (grade score elapsed s seed).1)
            (grade score elapsed s seed).0
    flushed :
        {g d f : List ReviewAttemptParams} {s : Session}
        → Run g d f s
        → Run g d (f ++ (flush_pending s).1) (flush_pending s).0
    saved :
        {g d f : List ReviewAttemptParams} {s : Session}
        → Run g d f s
        → s.flushing ≡ true
        → (xp : ℕ) (us : List BatchReviewItemUpdate) → Run g (d ++ f) [] (flush_saved xp us s)
    failed :
        {g d f : List ReviewAttemptParams} {s : Session}
        → Run g d f s
        → s.flushing ≡ true
        → (err : Error) → Run g (if is_retryable err then d else d ++ f) [] (flush_failed f err s)
    meaning_changed :
        {g d f : List ReviewAttemptParams} {s : Session}
        → Run g d f s
        → (next : LearningItemListItem) → Run g d f (handle_meaning_changed next s)
    synced :
        {g d f : List ReviewAttemptParams} {s : Session} → Run g d f s → Run g d f (sync_index s)

  -- In every state of a session, the attempts that were graded are, in order, those that the server
  -- has taken or refused for good, those on their way, and those that wait: no failure that can be
  -- retried loses, doubles or reorders one, whatever is graded while a batch is on its way. And
  -- nothing is on its way unless the session is flushing.
  pub Run-order :
      {g d f : List ReviewAttemptParams} {s : Session}
      → Run g d f s
      → (g ≡ d ++ f ++ s.pending) × ((s.flushing ≡ true) ⊎ (f ≡ []))
  unfolding handle_meaning_changed sync_index flush_failed flush_saved
  Run-order (opened s nothing idle) = (rw nothing refl, inr refl)
  Run-order (graded {g} {d} {f} {s} run score elapsed seed) =
      let before = Run-order run in
      let next = pending-confirm_grade score elapsed s seed in
      (
        order-batch g d f (grade score elapsed s seed).1 s.pending
            (grade score elapsed s seed).0.pending (grade score elapsed s seed).2 before.0 next.0,
        flushing-batch f (grade score elapsed s seed).1 s (grade score elapsed s seed).0 before.1
            next.1,
      )
  Run-order (flushed {g} {d} {f} {s} run) =
      let before = Run-order run in
      let next = flush_pending-cases s in
      (
        sym (append-nil g)
            ∙ order-batch g d f (flush_pending s).1 s.pending (flush_pending s).0.pending []
                before.0 (next.0 ∙ sym (append-nil s.pending)),
        flushing-batch f (flush_pending s).1 s (flush_pending s).0 before.1 (elim next.1 [
          | inl (stays, nothing) ↦ inr (nothing, ap (λ x. x.flushing) stays)
          | inr (idle, flushing) ↦ inl flushing
        ]),
      )
  Run-order (saved {g} {d} {f} {s} run flushing xp us) =
      (rw (pending-flush_saved xp us s, append-nil (d ++ f)) (Run-order run).0, inr refl)
  Run-order (failed {g} {d} {f} {s} run flushing err) = (
    rw (append-nil (if is_retryable err then d else d ++ f))
        (order-flush_failed g d f err s (Run-order run).0),
    inr refl,
  )
  Run-order (meaning_changed run next) = Run-order run
  Run-order (synced run) = Run-order run

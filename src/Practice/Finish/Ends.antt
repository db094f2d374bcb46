-- ===== src/Practice/Finish/Ends.antt =====
-- The end of a repeat session: frontend/src/features/practice/PracticeScreen.tsx.
use project_pn.Prelude.{
  ℕ, ◌+◌, ◌≤◌, ◌≡◌, ◌⊎◌, append_assoc, refl, sym, ap, ◌∙◌, Bool, true, false, not, ◌||◌, inl, inr,
  List, [], ◌∷◌, ◌++◌, arith, append-nil, if◌then◌else◌, Bool-cases, count_p,
}
use project_pn.Practice.Item.{BatchReviewItemUpdate, ReviewAttemptParams}
use project_pn.Practice.Session.{Session, success, submitting, apply_due_item_updates}
use project_pn.Practice.Flush.{is_nil, flush_pending, flush_saved, is_retryable, flush_failed}
use project_pn.Practice.Finish.{
  must_wait, BatchAnswer, saved, failed, answered, wait_for_pending_flushes, finish_repeat_session,
  session_finished, finish_with,
}

-- An answer that settles its batch: saved, or refused for good.
abbrev pub is_conclusive : BatchAnswer → Bool
is_conclusive (saved xp updates) = true
is_conclusive (failed err) = not (is_retryable err)

-- The batches that a session still has to settle, but for those on its way while it is not
-- flushing.
abbrev pub batches : Session → ℕ
batches s = (if is_nil s.pending then 0 else 1) + (if s.flushing then 1 else 0)

batches_idle : (s : Session) → batches s ≡ 0 → must_wait s ≡ false
batches_idle s h = ground arith

Keeps-updates :
    (us : List BatchReviewItemUpdate) (s : Session)
    → ((apply_due_item_updates us s).pending ≡ s.pending)
      × ((apply_due_item_updates us s).status ≡ s.status)
unfolding apply_due_item_updates
Keeps-updates [] s = (refl, refl)
Keeps-updates (u ∷ us) s = (refl, refl)

-- After an answer nothing is on its way, and what waits is as before, or the batch again before it.
after-answered :
    (answer : BatchAnswer) (batch : List ReviewAttemptParams) (s : Session)
    → ((answered answer batch s).flushing ≡ false)
      × ((answered answer batch s).pending
          ≡ (if is_conclusive answer then s.pending else batch ++ s.pending))
      × ((answered answer batch s).status ≡ s.status)
unfolding answered flush_saved flush_failed
after-answered (saved xp us) batch s =
    let k = Keeps-updates us (record s { xp_earned = s.xp_earned + xp }) in (refl, k.0, k.1)
after-answered (failed err) batch s = elim (Bool-cases (is_retryable err)) [
  | inl retry ↦ rw retry (refl, refl, refl)
  | inr refused ↦ rw refused (refl, refl, refl)
]

nil_of : {A : Type 0} (xs : List A) → is_nil xs ≡ true → xs ≡ []
nil_of [] h = refl
nil_of (x ∷ xs) h = cc

-- One flush: the batch and what is left of the pending attempts.
after-flush :
    (s : Session)
    → ((flush_pending s).1 ++ (flush_pending s).0.pending ≡ s.pending)
      × ((flush_pending s).0.status ≡ s.status)
      × ((flush_pending s).0.pending ≡ (if s.flushing then s.pending else []))
      × ((flush_pending s).1 ≡ (if s.flushing then [] else s.pending))
unfolding flush_pending
after-flush s = elim (Bool-cases s.flushing) [
  | inl sending ↦ rw sending (refl, refl, refl, refl)
  | inr free ↦ rw free (elim (Bool-cases (is_nil s.pending)) [
    | inl empty ↦ rw empty (refl, refl, nil_of s.pending empty, sym (nil_of s.pending empty))
    | inr full ↦ rw full (append-nil s.pending, refl, refl, refl)
  ])
]

-- A batch is on its way only while the session is flushing.
abbrev pub IsFlying : List ReviewAttemptParams → Session → Type 0
IsFlying batch s = (s.flushing ≡ true) ⊎ (batch ≡ [])

-- The session after one round of the loop.
abbrev round : BatchAnswer → List ReviewAttemptParams → Session → Session
round answer batch s = answered answer (batch ++ (flush_pending s).1) (flush_pending s).0

pending-round :
    (answer : BatchAnswer) (batch : List ReviewAttemptParams) (s : Session)
    → (round answer batch s).pending ≡ (
        if is_conclusive answer then (if s.flushing then s.pending else []) else batch ++ s.pending)
pending-round answer batch s =
    let flushed = after-flush s in
    let after = after-answered answer (batch ++ (flush_pending s).1) (flush_pending s).0 in
    elim (Bool-cases (is_conclusive answer)) [
      | inl done ↦ rw done ((rw done at after.1) ∙ flushed.2)
      | inr again ↦ rw again (
          (rw again at after.1)
          ∙ append_assoc batch (flush_pending s).1 (flush_pending s).0.pending
          ∙ ap (batch ++◌) flushed.0)
    ]

batches-round :
    (answer : BatchAnswer) (batch : List ReviewAttemptParams) (s : Session)
    → IsFlying batch s
    → must_wait s ≡ true
    → batches (round answer batch s) + (if is_conclusive answer then 1 else 0) ≤ batches s
batches-round answer batch s f h =
    let p = pending-round answer batch s in
    let idle = (after-answered answer (batch ++ (flush_pending s).1) (flush_pending s).0).0 in
    elim (Bool-cases (is_conclusive answer)) [
      | inl done ↦ rw (done, idle, rw done at p) (ground arith)
      | inr again ↦ rw (again, idle, rw again at p) (ground arith)
    ]

status-round :
    (answer : BatchAnswer) (batch : List ReviewAttemptParams) (s : Session)
    → (round answer batch s).status ≡ s.status
status-round answer batch s =
    (after-answered answer (batch ++ (flush_pending s).1) (flush_pending s).0).2 ∙ (after-flush s).1

stopped : (s : Session) → must_wait s ≡ false → (flush_pending s).0 ≡ s
unfolding flush_pending
stopped s h =
    let nothing : (s.flushing || is_nil s.pending) ≡ true = ground (arith, h) in rw nothing refl

wait-stops :
    (answers : List BatchAnswer) (batch : List ReviewAttemptParams) (s : Session)
    → IsFlying batch s
    → batches s ≤ count_p is_conclusive answers
    → must_wait (wait_for_pending_flushes answers batch s).0 ≡ false
unfolding wait_for_pending_flushes
wait-stops [] batch s f h =
    let over : must_wait s ≡ false = batches_idle s (omega (arith, h)) in rw (stopped s over) over
wait-stops (answer ∷ answers) batch s f h = elim (Bool-cases (must_wait s)) [
  | inl waits ↦ rw waits (
      wait-stops answers [] (round answer batch s) (inr refl)
        (ground (arith, h, batches-round answer batch s f waits)))
  | inr over ↦ rw over over
]

waits-flying :
    (batch : List ReviewAttemptParams) (s : Session)
    → IsFlying batch s
    → is_nil (batch ++ s.pending) ≡ false
    → must_wait s ≡ true
waits-flying batch s (inl flushing) n = ground (arith, flushing)
waits-flying batch s (inr e) n =
    let some_pending : is_nil s.pending ≡ false = rw e at n in ground (arith, some_pending)

waits-flush : (s : Session) → must_wait s ≡ true → must_wait (flush_pending s).0 ≡ true
unfolding flush_pending
waits-flush s h = elim (Bool-cases (s.flushing || is_nil s.pending)) [
  | inl stays ↦ rw stays h
  | inr sends ↦ rw sends refl
]

wait-goes_on :
    (answers : List BatchAnswer) (batch : List ReviewAttemptParams) (s : Session)
    → IsFlying batch s
    → is_nil (batch ++ s.pending) ≡ false
    → count_p is_conclusive answers ≡ 0
    → (must_wait (wait_for_pending_flushes answers batch s).0 ≡ true)
      × ((wait_for_pending_flushes answers batch s).1
            ++ (wait_for_pending_flushes answers batch s).0.pending
          ≡ batch ++ s.pending)
      × ((wait_for_pending_flushes answers batch s).0.status ≡ s.status)
unfolding wait_for_pending_flushes
wait-goes_on [] batch s f n h = (
  waits-flush s (waits-flying batch s f n),
  append_assoc batch (flush_pending s).1 (flush_pending s).0.pending
      ∙ ap (batch ++◌) (after-flush s).0,
  (after-flush s).1,
)
wait-goes_on (answer ∷ answers) batch s f n h =
    let waits : must_wait s ≡ true = waits-flying batch s f n in
    elim (Bool-cases (is_conclusive answer)) [
      | inl done ↦ absurd (ground (arith, h, done))
      | inr again ↦
          let p : (round answer batch s).pending ≡ batch ++ s.pending =
            rw again at (pending-round answer batch s) in
          let rest =
            wait-goes_on answers [] (round answer batch s) (inr refl) (rw p n)
              (ground (arith, h, again)) in
          rw waits (rest.0, rest.1 ∙ p, rest.2 ∙ status-round answer batch s)
    ]

-- A repeat session with attempts is shown as finished, with none of them waiting, as soon as the
-- server has saved or refused for good one batch, or two where one is on its way already, whatever
-- failures come in between: the wait does not go on for ever.
pub finish_with-ends :
    (answers : List BatchAnswer) (batch : List ReviewAttemptParams) (s : Session)
    → is_nil s.attempts ≡ false
    → IsFlying batch s
    → batches s ≤ count_p is_conclusive answers
    → ((finish_with answers batch s).status ≡ success)
      × (must_wait (finish_with answers batch s) ≡ false)
unfolding finish_with finish_repeat_session session_finished
finish_with-ends answers batch s a f h =
    let over : must_wait
          (wait_for_pending_flushes answers batch (record s { status = submitting })).0
        ≡ false =
      wait-stops answers batch (record s { status = submitting }) f h in
    rw (a, over) (refl, over)

-- As long as every answer is a failure that can be retried, a repeat session with an attempt that
-- is not saved stays at the screen that says so, and the batch on its way and the waiting attempts
-- are those that there were, in order: none is lost.
pub finish_with-waits :
    (answers : List BatchAnswer) (batch : List ReviewAttemptParams) (s : Session)
    → is_nil s.attempts ≡ false
    → IsFlying batch s
    → is_nil (batch ++ s.pending) ≡ false
    → count_p is_conclusive answers ≡ 0
    → let waited : Session × List ReviewAttemptParams =
        wait_for_pending_flushes answers batch (finish_repeat_session s) in
      (waited.1 ++ waited.0.pending ≡ batch ++ s.pending)
      × ((finish_with answers batch s).status ≡ submitting)
unfolding finish_with finish_repeat_session
finish_with-waits answers batch s a f n h =
    let on = wait-goes_on answers batch (record s { status = submitting }) f n h in
    rw (a, on.0) (on.1, on.2)

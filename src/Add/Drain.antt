-- ===== src/Add/Drain.antt =====
-- The rounds of the worker of frontend/src/hooks/useAddQueue.tsx while nothing is enqueued.
-- What the service answers is a parameter: senses or an error for a job, and an error or none for
-- an addition.
use Prim.Native.String
use project_pn.Prelude.{
  ℕ, zero, suc, ◌+◌, ◌*◌, ◌≤◌, ◌<◌, ◌≡◌, refl, sym, subst, ◌∙◌, ap, ◌⊎◌, String, Bool, false, inl,
  inr, Option, none, some, List, [], append-nil, arith, Option-cases, length, count_p-append,
  count_p-le-length,
}
use project_pn.Api.Client.{Error}
use project_pn.Add.Senses.{SenseOption, best_match}
use project_pn.Add.Queue.{
  AddJob, JobPatch, is_queued, Waiting, idle, looking_up, adding, AddQueue, all_jobs, render,
  error_patch, looked_up, failed, added, message_of, pending_count,
}
use project_pn.Add.Worker.{ids}
use project_pn.Add.Runs.{
  empty_queue, Step, found, lookup_failed, stored, store_failed, rendered, Steps, then_,
}
use project_pn.Add.Single.{Steps-IsSound}
use project_pn.Add.Rank.{
  waiting_rank, rank, rank-finish_job, ids-finish_job, done_patch, Result-cases, idle_of_rank,
  waiting_rank-le, pending_zero, all_jobs-render, rank-render,
}

module _ (t : String → String) (senses_of : AddJob → List SenseOption ⊎ Error)
    (refusal_of : AddJob → String → Option Error) where
  -- The answer that the worker waits for comes.
  unfoldable pub work_on : Waiting → AddQueue → AddQueue
  unfolding looked_up failed added
  work_on idle q = q
  work_on (looking_up job) q = elim (senses_of job) [
    | inl options ↦ looked_up t job options q
    | inr err ↦ failed t job err q
  ]
  work_on (adding job sense_id) q = elim (refusal_of job sense_id) [
    | none ↦ added job sense_id q
    | some err ↦ failed t job err q
  ]

  -- The provider has rendered when the answer comes.
  unfoldable pub work : AddQueue → AddQueue
  unfolding work_on render
  work q = work_on q.worker (render false q)

  -- A round that the worker is on: it has less to do after, and every job is still there.
  abbrev Round : (String → String) → AddQueue → AddQueue → Type 0
  Round trim q r = (suc (rank r) ≤ rank q) × (ids (all_jobs r) ≡ ids q.jobs) × Step t trim false q r

  Round-failed :
      (trim : String → String) (q : AddQueue) (job : AddJob) (err : Error)
      → 0 < waiting_rank q.worker
      → Step t trim false q (failed t job err q)
      → Round trim q (failed t job err q)
  unfolding failed
  Round-failed trim q job err busy step = (
    omega (
      arith,
      busy,
      count_p-append is_queued q.jobs q.deferred,
      rank-finish_job job.id (error_patch (message_of t err)) q (λ j. refl),
    ),
    ids-finish_job job.id (error_patch (message_of t err)) q,
    step,
  )

  Round-looked_up :
      (trim : String → String) (q : AddQueue) (job : AddJob) (options : List SenseOption)
      → q.worker ≡ looking_up job
      → q.deferred ≡ []
      → Round trim q (looked_up t job options q)
  unfolding looked_up
  Round-looked_up trim q job options w nothing = elim (Option-cases (best_match options)) [
    | inl absent ↦
        let patch : JobPatch =
          error_patch (String.◌++◌ "ADD-303: " (t "add.error.noAdditionalSense")) in
        (
          rw (looked_up, absent)
              (omega (
                arith,
                ap waiting_rank w,
                count_p-append is_queued q.jobs q.deferred,
                rank-finish_job job.id patch q (λ j. refl),
              )),
          rw (looked_up, absent) (ids-finish_job job.id patch q),
          found q job options w,
        )
    | inr (match_, present) ↦ (
      rw (looked_up, present) (omega (arith, ap waiting_rank w)),
      rw (looked_up, present, nothing, append-nil q.jobs) refl,
      found q job options w,
    )
  ]

  Round-work_on :
      (trim : String → String) (q : AddQueue) (w : Waiting)
      → q.worker ≡ w
      → q.deferred ≡ []
      → (w ≡ idle) ⊎ Round trim q (work_on w q)
  unfolding work_on added
  Round-work_on trim q idle e nothing = inl refl
  Round-work_on trim q (looking_up job) e nothing = elim (Result-cases (senses_of job)) [
    | inl (options, given) ↦
        inr (rw (work_on, given) (Round-looked_up trim q job options e nothing))
    | inr (err, given) ↦ inr (
        rw (work_on, given)
          (Round-failed trim q job err (omega (arith, ap waiting_rank e))
            (lookup_failed q job err e)))
  ]
  Round-work_on trim q (adding job sense_id) e nothing =
      elim (Option-cases (refusal_of job sense_id)) [
        | inl given ↦ inr (
            rw (work_on, given)
              (
                omega (
                  arith,
                  ap waiting_rank e,
                  count_p-append is_queued q.jobs q.deferred,
                  rank-finish_job job.id (done_patch sense_id) q (λ j. refl),
                ),
                ids-finish_job job.id (done_patch sense_id) q,
                stored q job sense_id e,
              ))
        | inr (err, given) ↦ inr (
            rw (work_on, given)
              (Round-failed trim q job err (omega (arith, ap waiting_rank e))
                (store_failed q job sense_id err e)))
      ]

  unfoldable pub work_for : ℕ → AddQueue → AddQueue
  unfolding work
  work_for zero q = q
  work_for (suc n) q = work_for n (work q)

  pub work-idle : (q : AddQueue) → q.worker ≡ idle → work q ≡ render false q
  unfolding work work_on
  work-idle q e = ap (λ w. work_on w (render false q)) e

  idle-render : (defers : Bool) (q : AddQueue) → (render defers q).worker ≡ q.worker
  unfolding render
  idle-render defers q = refl

  deferred-render : (defers : Bool) (q : AddQueue) → (render defers q).deferred ≡ []
  unfolding render
  deferred-render defers q = refl

  jobs-render : (defers : Bool) (q : AddQueue) → (render defers q).jobs ≡ all_jobs q
  unfolding render
  jobs-render defers q = refl

  -- A run that leaves the worker idle and every job in place.
  abbrev IsDrained : (String → String) → (o q r : AddQueue) → Type 0
  IsDrained trim o q r =
      (r.worker ≡ idle) × (ids (all_jobs r) ≡ ids (all_jobs q)) × Steps t trim false o r

  work_for-idle :
      (trim : String → String) (n : ℕ) (o q : AddQueue)
      → q.worker ≡ idle
      → Steps t trim false o q
      → IsDrained trim o q (work_for n q)
  unfolding work_for
  work_for-idle trim zero o q e steps = (e, refl, steps)
  work_for-idle trim (suc n) o q e steps =
      let rest =
        work_for-idle trim n o (render false q) (idle-render false q ∙ e)
          (then_ steps (rendered q false)) in
      subst (λ x. IsDrained trim o q (work_for n x)) (sym (work-idle q e))
        (rest.0, rest.1 ∙ ap ids (all_jobs-render false q), rest.2)

  work_for-IsDrained :
      (trim : String → String) (n : ℕ) (o q : AddQueue)
      → rank q ≤ n
      → Steps t trim false o q
      → IsDrained trim o q (work_for n q)
  unfolding work_for work
  work_for-IsDrained trim zero o q enough steps =
      (idle_of_rank q.worker (omega (arith, enough)), refl, steps)
  work_for-IsDrained trim (suc n) o q enough steps =
      elim (Round-work_on trim (render false q) q.worker (idle-render false q)
        (deferred-render false q)) [
          | inl free ↦ work_for-idle trim (suc n) o q free steps
          | inr (less, kept, step) ↦
              let rest =
                work_for-IsDrained trim n o (work q)
                  (omega (arith, less, enough, rank-render false q))
                  (then_ (then_ steps (rendered q false)) step) in
              (rest.0, rest.1 ∙ kept ∙ ap ids (jobs-render false q), rest.2)
        ]

  -- From any queue that can be reached without a word being added to an idle queue while React
  -- defers the updater, the worker stops. With every answer a success or an error and a render
  -- before each, two answers for each job, and two more, leave it idle; the next render then shows
  -- no job pending, and the jobs are the same, in their order.
  pub work_for-finishes :
      (trim : String → String) (q : AddQueue) (n : ℕ) (defers : Bool)
      → Steps t trim false empty_queue q
      → 2 * length (all_jobs q) + 2 ≤ n
      → ((work_for n q).worker ≡ idle)
        × (pending_count (render defers (work_for n q)) ≡ 0)
        × (ids (render defers (work_for n q)).shown ≡ ids (all_jobs q))
  unfolding render
  work_for-finishes trim q n defers steps enough =
      let drained =
        work_for-IsDrained trim n empty_queue q
          (omega
            (arith, enough, count_p-le-length is_queued (all_jobs q), waiting_rank-le q.worker))
          steps in
      let sound = Steps-IsSound drained.2 in
      (drained.0, pending_zero defers (work_for n q) drained.0 sound.2, drained.1)

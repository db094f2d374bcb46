-- ===== src/Add/Stranded.antt =====
-- A word added to an idle queue while React defers the updater: `enqueue` after `dismiss` in
-- frontend/src/hooks/useAddQueue.tsx.
use project_pn.Prelude.{
  ℕ, zero, suc, ◌≡◌, refl, String, true, false, ◌⊎◌, Option, none, List, [], ◌∷◌, ◌++◌, append-nil,
  ap, ◌∙◌, ◌==◌, arith, find, count_p,
}
use project_pn.Api.Client.{Error}
use project_pn.Add.Senses.{SenseOption}
use project_pn.Add.Queue.{
  AddJob, AddQueue, idle, is_queued, new_job, all_jobs, render, append_jobs, take_next, run_worker,
  enqueue, dismiss,
}
use project_pn.Add.Drain.{work_for, work-idle}

find-none : (jobs : List AddJob) → count_p is_queued jobs ≡ 0 → find is_queued jobs ≡ none
find-none [] h = refl
find-none (job ∷ jobs) h = ground (arith, find-none jobs)

-- A queue whose worker has nothing to do, and whose last render showed all its jobs.
abbrev IsAtRest : AddQueue → Type 0
IsAtRest q = (q.worker ≡ idle) × (q.deferred ≡ []) × (q.shown ≡ q.jobs)

append_jobs_deferred :
    (more : List AddJob) (q : AddQueue)
    → q.defers ≡ true
    → append_jobs more q ≡ record q { deferred = q.deferred ++ more }
unfolding append_jobs
append_jobs_deferred more q defers = rw defers refl

run_worker_nothing :
    (q : AddQueue)
    → q.worker ≡ idle
    → count_p is_queued q.jobs ≡ 0
    → run_worker q ≡ record q { worker = idle }
unfolding run_worker take_next
run_worker_nothing q free none_queued = rw free (rw (take_next, find-none q.jobs none_queued) refl)

-- The worker does not find the job while it waits in the updater.
missed :
    (trim : String → String) (id text pos : String) (deck_id language_code : Option String)
    (q : AddQueue)
    → q.worker ≡ idle
    → count_p is_queued q.jobs ≡ 0
    → q.defers ≡ true
    → (trim text == "") ≡ false
    → enqueue trim id text pos deck_id language_code q ≡ record q {
      deferred = q.deferred ++ new_job (trim text) pos deck_id language_code id ∷ [];
      worker = idle;
    }
unfolding enqueue
missed trim id text pos deck_id language_code q free none_queued defers written =
    let more : List AddJob = new_job (trim text) pos deck_id language_code id ∷ [] in
    rw (enqueue, written)
      (ap run_worker (append_jobs_deferred more q defers)
        ∙ run_worker_nothing (record q { deferred = q.deferred ++ more }) free none_queued)

module _ (t : String → String) (senses_of : AddJob → List SenseOption ⊎ Error)
    (refusal_of : AddJob → String → Option Error) where
  work_for-at_rest :
      (n : ℕ) (q : AddQueue)
      → IsAtRest q
      → ((work_for t senses_of refusal_of n q).worker ≡ idle)
        × ((work_for t senses_of refusal_of n q).shown ≡ q.jobs)
  unfolding work_for render
  work_for-at_rest zero q (free, nothing, same) = (free, same)
  work_for-at_rest (suc n) q (free, nothing, same) =
      let rest = work_for-at_rest n (render false q) (free, refl, refl) in
      let stays = work-idle t senses_of refusal_of q free in
      let kept : all_jobs q ≡ q.jobs = rw (nothing, append-nil q.jobs) refl in
      (
        ap (λ x. (work_for t senses_of refusal_of n x).worker) stays ∙ rest.0,
        ap (λ x. (work_for t senses_of refusal_of n x).shown) stays ∙ rest.1 ∙ kept,
      )

  -- Where the worker is idle, nothing is queued or deferred, and a notice is dismissed, a word that is
  -- then added before the next render is shown as queued after it, and the worker does not take it,
  -- however long it is waited for: React defers the updater behind the dismissal, so that the
  -- worker is started before the job is there.
  pub dismissed-strands :
      (trim : String → String) (gone id text pos : String) (deck_id language_code : Option String)
      (q : AddQueue) (n : ℕ)
      → q.worker ≡ idle
      → q.deferred ≡ []
      → count_p is_queued q.jobs ≡ 0
      → (trim text == "") ≡ false
      → let added =
          render false (enqueue trim id text pos deck_id language_code (dismiss gone q)) in
        ((work_for t senses_of refusal_of n added).worker ≡ idle)
        × ((work_for t senses_of refusal_of n added).shown
            ≡ q.jobs ++ new_job (trim text) pos deck_id language_code id ∷ [])
  unfolding dismiss render
  dismissed-strands trim gone id text pos deck_id language_code q n free nothing none_queued
        written =
      rw
        (
          missed trim id text pos deck_id language_code (dismiss gone q) free none_queued refl
              written,
          nothing,
        )
        (work_for-at_rest n _ (refl, refl, refl))

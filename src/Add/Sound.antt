-- ===== src/Add/Sound.antt =====
-- What the worker of frontend/src/hooks/useAddQueue.tsx does to a sound queue.
use Prim.Native.String
use project_pn.Prelude.{
  ◌≤◌, ◌≡◌, ◌⊎◌, refl, sym, subst, String, Bool, true, false, ◌&&◌, inl, inr, List, [], ◌∷◌, ◌++◌,
  append-nil, arith, Option-cases, contains, find, find-eq-none, count_p, count_p-eq-zero,
  IsDistinct,
}
use project_pn.Api.Client.{Error}
use project_pn.Add.Senses.{SenseOption, best_match}
use project_pn.Add.Queue.{
  processing, AddJob, JobPatch, is_queued, is_processing, patch_job, update_job, looking_up,
  AddQueue, status_patch, take_next, finish_job, error_patch, message_of, all_jobs, set_jobs,
  looked_up, failed,
}
use project_pn.Add.Worker.{
  ids, ids-update_job, with_id, count-update_job, count-update_job-at, count-none, count-and-le,
  count-with_id-le, find-queued,
}
use project_pn.Add.Runs.{AtWork, IsSound}

-- One job with the id is there, and it is not processing yet.
begin-processing :
    (jobs : List AddJob) (k : String)
    → IsDistinct (ids jobs)
    → count_p is_processing jobs ≡ 0
    → 1 ≤ count_p (λ j. is_queued j && with_id k j) jobs
    → (count_p is_processing (update_job k (status_patch processing) jobs) ≡ 1)
      × (count_p (λ j. is_processing j && with_id k j) (update_job k (status_patch processing) jobs)
          ≡ 1)
begin-processing jobs k d none_yet there = (
  omega (
    arith,
    count-update_job is_processing k (status_patch processing) jobs,
    count-with_id-le k jobs d,
    (count-and-le is_queued (with_id k) jobs).1,
    (count-and-le is_processing (with_id k) jobs).0,
    none_yet,
    there,
  ),
  omega (
    arith,
    count-update_job-at is_processing k (status_patch processing) jobs,
    count-with_id-le k jobs d,
    (count-and-le is_queued (with_id k) jobs).1,
    there,
  ),
)

contains-prefix :
    (xs ys : List AddJob) (k : String)
    → contains (ids (xs ++ ys)) k ≡ false
    → contains (ids xs) k ≡ false
contains-prefix [] ys k h = refl
contains-prefix (x ∷ xs) ys k h = ground (arith, contains-prefix xs ys k)

IsDistinct-prefix : (xs ys : List AddJob) → IsDistinct (ids (xs ++ ys)) → IsDistinct (ids xs)
IsDistinct-prefix [] ys d = tt
IsDistinct-prefix (x ∷ xs) ys d = (contains-prefix xs ys x.id d.0, IsDistinct-prefix xs ys d.1)

none_left :
    (deferring : Bool) (q : AddQueue)
    → count_p is_queued q.jobs ≡ 0
    → (deferring ≡ true) ⊎ (q.deferred ≡ [])
    → (deferring ≡ true) ⊎ ((count_p is_queued q.jobs ≡ 0) × (q.deferred ≡ []))
none_left deferring q none_queued (inl may) = inl may
none_left deferring q none_queued (inr nothing) = inr (none_queued, nothing)

-- A worker that is done with its job is idle, or on the next job.
pub IsSound-take_next :
    (deferring : Bool) (q : AddQueue)
    → IsDistinct (ids (all_jobs q))
    → count_p is_processing q.jobs ≡ 0
    → count_p is_processing q.deferred ≡ 0
    → (deferring ≡ true) ⊎ (q.deferred ≡ [])
    → IsSound deferring (take_next q)
unfolding take_next set_jobs
IsSound-take_next deferring q d none_yet later left = elim (Option-cases (find is_queued q.jobs)) [
  | inl absent ↦
      rw (take_next, absent)
        (
          d,
          later,
          (
            none_yet,
            none_left deferring q
                (count_p-eq-zero is_queued q.jobs (find-eq-none is_queued q.jobs absent)) left,
          ),
        )
  | inr (next, present) ↦
      let one = IsDistinct-prefix q.jobs q.deferred d in
      let begun = update_job next.id (status_patch processing) q.jobs in
      rw (take_next, present)
        (
          subst (λ xs. IsDistinct (ids xs)) (sym (append-nil begun))
              (rw (ids-update_job next.id (status_patch processing) q.jobs) one),
          refl,
          begin-processing q.jobs next.id one none_yet (find-queued q.jobs next present),
        )
]

pub IsSound-finish :
    (deferring : Bool) (k : String) (patch : JobPatch) (q : AddQueue)
    → ((j : AddJob) → is_processing (patch_job patch j) ≡ false)
    → IsDistinct (ids (all_jobs q))
    → count_p is_processing q.jobs ≡ 1
    → count_p (λ j. is_processing j && with_id k j) q.jobs ≡ 1
    → IsSound deferring (finish_job k patch q)
unfolding finish_job set_jobs
IsSound-finish deferring k patch q over d one there =
    IsSound-take_next deferring (set_jobs (update_job k patch q.jobs) q)
      (subst (λ xs. IsDistinct (ids xs)) (sym (append-nil (update_job k patch q.jobs)))
        (rw (ids-update_job k patch q.jobs) (IsDistinct-prefix q.jobs q.deferred d)))
      (omega (
        arith,
        one,
        there,
        count-update_job is_processing k patch q.jobs,
        count-none (λ j. is_processing (patch_job patch j)) (with_id k) q.jobs over,
      ))
      refl (inr refl)

pub IsSound-looked_up :
    (t : String → String) (deferring : Bool) (job : AddJob) (options : List SenseOption)
    (q : AddQueue)
    → q.worker ≡ looking_up job
    → IsSound deferring q
    → IsSound deferring (looked_up t job options q)
unfolding looked_up
IsSound-looked_up t deferring job options q w h = elim (Option-cases (best_match options)) [
  | inl absent ↦
      rw (looked_up, absent)
        (IsSound-finish deferring job.id
          (error_patch (String.◌++◌ "ADD-303: " (t "add.error.noAdditionalSense"))) q (λ j. refl)
          h.0 (rw w at h.2).0 (rw w at h.2).1)
  | inr (match_, present) ↦ rw (looked_up, present) (h.0, h.1, rw w at h.2)
]

pub IsSound-failed :
    (t : String → String) (deferring : Bool) (job : AddJob) (err : Error) (q : AddQueue)
    → IsDistinct (ids (all_jobs q))
    → AtWork deferring (looking_up job) q.jobs q.deferred
    → IsSound deferring (failed t job err q)
unfolding failed
IsSound-failed t deferring job err q d h =
    IsSound-finish deferring job.id (error_patch (message_of t err)) q (λ j. refl) d h.0 h.1

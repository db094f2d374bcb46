-- ===== src/Add/Rank.antt =====
-- How much the worker of frontend/src/hooks/useAddQueue.tsx has still to do, and what a render keeps.
use project_pn.Prelude.{
  ℕ, ◌+◌, ◌*◌, ◌≤◌, ◌≡◌, refl, ◌∙◌, ◌⊎◌, String, Bool, false, ◌&&◌, ◌||◌, inl, inr, none, some,
  List, [], ◌∷◌, append-nil, arith, Option-cases, length, find, filter, count_p,
}
use project_pn.Api.Client.{Error}
use project_pn.Add.Senses.{SenseOption}
use project_pn.Add.Queue.{
  AddJob, processing, done, JobPatch, is_queued, is_processing, patch_job, update_job, Waiting,
  idle, looking_up, adding, AddQueue, all_jobs, set_jobs, render, status_patch, take_next,
  finish_job, pending_count,
}
use project_pn.Add.Worker.{ids, ids-update_job, with_id, count-update_job, count-none, find-queued}
use project_pn.Add.Runs.{AtWork}

-- What is still to do: two answers for a queued job.
abbrev pub waiting_rank : Waiting → ℕ
waiting_rank idle = 0
waiting_rank (looking_up job) = 2
waiting_rank (adding job sense_id) = 1

abbrev pub rank : AddQueue → ℕ
rank q = 2 * count_p is_queued (all_jobs q) + waiting_rank q.worker

queued-update_job :
    (k : String) (patch : JobPatch) (jobs : List AddJob)
    → ((j : AddJob) → is_queued (patch_job patch j) ≡ false)
    → count_p is_queued (update_job k patch jobs) + count_p (λ j. is_queued j && with_id k j) jobs
      ≡ count_p is_queued jobs
queued-update_job k patch jobs h = omega (
  arith,
  count-update_job is_queued k patch jobs,
  count-none (λ j. is_queued (patch_job patch j)) (with_id k) jobs h,
)

rank-take_next :
    (q : AddQueue) → q.deferred ≡ [] → rank (take_next q) ≤ 2 * count_p is_queued q.jobs
unfolding take_next set_jobs
rank-take_next q nothing = elim (Option-cases (find is_queued q.jobs)) [
  | inl absent ↦ rw (take_next, absent, nothing, append-nil q.jobs) (omega arith)
  | inr (next, present) ↦
      let begun = update_job next.id (status_patch processing) q.jobs in
      rw (take_next, present, append-nil begun)
        (omega (
          arith,
          queued-update_job next.id (status_patch processing) q.jobs (λ j. refl),
          find-queued q.jobs next present,
        ))
]

pub rank-finish_job :
    (k : String) (patch : JobPatch) (q : AddQueue)
    → ((j : AddJob) → is_queued (patch_job patch j) ≡ false)
    → rank (finish_job k patch q) ≤ 2 * count_p is_queued q.jobs
unfolding finish_job set_jobs
rank-finish_job k patch q h = omega (
  arith,
  rank-take_next (set_jobs (update_job k patch q.jobs) q) refl,
  queued-update_job k patch q.jobs h,
)

ids-take_next : (q : AddQueue) → q.deferred ≡ [] → ids (all_jobs (take_next q)) ≡ ids q.jobs
unfolding take_next set_jobs
ids-take_next q nothing = elim (Option-cases (find is_queued q.jobs)) [
  | inl absent ↦ rw (take_next, absent, nothing, append-nil q.jobs) refl
  | inr (next, present) ↦
      let begun = update_job next.id (status_patch processing) q.jobs in
      rw (take_next, present, append-nil begun)
        (ids-update_job next.id (status_patch processing) q.jobs)
]

pub ids-finish_job :
    (k : String) (patch : JobPatch) (q : AddQueue)
    → ids (all_jobs (finish_job k patch q)) ≡ ids q.jobs
unfolding finish_job set_jobs
ids-finish_job k patch q =
    ids-take_next (set_jobs (update_job k patch q.jobs) q) refl ∙ ids-update_job k patch q.jobs

abbrev pub done_patch : String → JobPatch
done_patch sense_id = record { status = done; error_text = none; word_sense_id = some sense_id }

pub Result-cases :
    (r : List SenseOption ⊎ Error)
    → ((os : List SenseOption) × (r ≡ inl os)) ⊎ ((err : Error) × (r ≡ inr err))
Result-cases (inl os) = inl (os, refl)
Result-cases (inr err) = inr (err, refl)

pub idle_of_rank : (w : Waiting) → waiting_rank w ≤ 0 → w ≡ idle
idle_of_rank idle h = refl
idle_of_rank (looking_up job) h = absurd (omega (arith, h))
idle_of_rank (adding job sense_id) h = absurd (omega (arith, h))

pub waiting_rank-le : (w : Waiting) → waiting_rank w ≤ 2
waiting_rank-le idle = omega arith
waiting_rank-le (looking_up job) = omega arith
waiting_rank-le (adding job sense_id) = omega arith

filter_none :
    (jobs : List AddJob)
    → count_p is_processing jobs ≡ 0
    → count_p is_queued jobs ≡ 0
    → length (filter (λ job. is_queued job || is_processing job) jobs) ≡ 0
filter_none [] p q = refl
filter_none (job ∷ jobs) p q = ground (arith, filter_none jobs, p, q)

-- What the next render shows of a sound queue that is idle.
pub pending_zero :
    (defers : Bool) (q : AddQueue)
    → q.worker ≡ idle
    → AtWork false q.worker q.jobs q.deferred
    → pending_count (render defers q) ≡ 0
unfolding pending_count render
pending_zero defers q e h = elim (rw e at h).1 [
  | inl never ↦ absurd (cc never)
  | inr (none_queued, nothing) ↦
      rw (nothing, append-nil q.jobs) (filter_none q.jobs (rw e at h).0 none_queued)
]

-- A render keeps the jobs that there will be.
pub all_jobs-render : (defers : Bool) (q : AddQueue) → all_jobs (render defers q) ≡ all_jobs q
unfolding render
all_jobs-render defers q = append-nil (all_jobs q)

pub rank-render : (defers : Bool) (q : AddQueue) → rank (render defers q) ≡ rank q
unfolding render
rank-render defers q = rw (append-nil (all_jobs q)) refl

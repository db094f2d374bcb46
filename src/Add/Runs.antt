-- ===== src/Add/Runs.antt =====
-- The runs of the queue of frontend/src/hooks/useAddQueue.tsx, and what holds in each state: which jobs
-- wait while the worker is idle, and which job a busy worker is on.
use project_pn.Prelude.{
  ℕ, ◌≡◌, ◌⊎◌, String, Bool, true, false, not, ◌&&◌, ◌||◌, Option, List, [], ◌∷◌, ◌++◌, count_p,
  IsDistinct,
}
use project_pn.Api.Client.{Error}
use project_pn.Add.Senses.{SenseOption}
use project_pn.Add.Queue.{
  AddJob, is_queued, is_processing, Waiting, idle, looking_up, adding, AddQueue, is_idle, all_jobs,
  render, looked_up, failed, added, new_job, new_jobs, trimmed_texts, enqueue, enqueue_many,
  dismiss,
}
use project_pn.Add.Worker.{ids, with_id}

abbrev pub empty_queue : AddQueue
empty_queue = record {
  jobs = [];
  deferred = [];
  defers = false;
  shown = [];
  dismissed_ids = [];
  worker = idle;
}

-- An idle worker is started while the new job waits in a deferred updater, and so does not find it.
abbrev pub is_missed : AddQueue → Bool
is_missed q = is_idle q.worker && q.defers

-- What can happen next. The answers are those that the worker waits for; a new job has a new id.
-- Only where `deferring` is true may an idle worker miss the job that it is started for.
pub data Step (t trim : String → String) (deferring : Bool) : AddQueue → AddQueue → Type 0 where
  enqueued :
      (q : AddQueue) (id text pos : String) (deck_id language_code : Option String)
      → IsDistinct (ids (all_jobs q ++ new_job (trim text) pos deck_id language_code id ∷ []))
      → (deferring || not (is_missed q)) ≡ true
      → Step t trim deferring q (enqueue trim id text pos deck_id language_code q)
  enqueued_many :
      (q : AddQueue) (next_id : ℕ → String) (texts : List String) (pos : String)
      (deck_id language_code : Option String)
      → IsDistinct (
          ids
            (all_jobs q ++ new_jobs next_id 0 (trimmed_texts trim texts) pos deck_id language_code))
      → (deferring || not (is_missed q)) ≡ true
      → Step t trim deferring q (enqueue_many trim next_id texts pos deck_id language_code q)
  rendered : (q : AddQueue) (defers : Bool) → Step t trim deferring q (render defers q)
  found :
      (q : AddQueue) (job : AddJob) (options : List SenseOption)
      → q.worker ≡ looking_up job
      → Step t trim deferring q (looked_up t job options q)
  lookup_failed :
      (q : AddQueue) (job : AddJob) (err : Error)
      → q.worker ≡ looking_up job
      → Step t trim deferring q (failed t job err q)
  stored :
      (q : AddQueue) (job : AddJob) (sense_id : String)
      → q.worker ≡ adding job sense_id
      → Step t trim deferring q (added job sense_id q)
  store_failed :
      (q : AddQueue) (job : AddJob) (sense_id : String) (err : Error)
      → q.worker ≡ adding job sense_id
      → Step t trim deferring q (failed t job err q)
  dismissed : (q : AddQueue) (id : String) → Step t trim deferring q (dismiss id q)

pub data Steps (t trim : String → String) (deferring : Bool) (q : AddQueue)
    : AddQueue → Type 0 where
  start : Steps t trim deferring q q
  then_ :
      {r u : AddQueue}
      → Steps t trim deferring q r
      → Step t trim deferring r u
      → Steps t trim deferring q u

-- What the worker is busy with: the one processing job; or, where it is idle, no job, and then none
-- is queued or deferred unless a job may have been missed.
abbrev pub AtWork : (deferring : Bool) → Waiting → (jobs deferred : List AddJob) → Type 0
AtWork deferring idle jobs deferred =
    (count_p is_processing jobs ≡ 0)
    × ((deferring ≡ true) ⊎ ((count_p is_queued jobs ≡ 0) × (deferred ≡ [])))
AtWork deferring (looking_up job) jobs deferred =
    (count_p is_processing jobs ≡ 1) × (count_p (λ j. is_processing j && with_id job.id j) jobs ≡ 1)
AtWork deferring (adding job sense_id) jobs deferred =
    (count_p is_processing jobs ≡ 1) × (count_p (λ j. is_processing j && with_id job.id j) jobs ≡ 1)

-- The ids of the jobs, in `jobsRef.current` and deferred, are distinct, and no deferred job is
-- processing.
abbrev pub IsSound : (deferring : Bool) → AddQueue → Type 0
IsSound deferring q =
    IsDistinct (ids (all_jobs q))
    × (count_p is_processing q.deferred ≡ 0)
    × AtWork deferring q.worker q.jobs q.deferred

-- ===== src/Add/Queue.antt =====
-- The queue of words to add: frontend/src/hooks/useAddQueue.tsx.
-- `runWorker` is a sequence of steps: a state holds `jobsRef.current`, whether the worker runs,
-- and what the worker waits for. `enqueue` reaches `jobsRef.current` in the updater that it gives to
-- `setJobs`. React runs that updater at once only while the provider has no other update pending,
-- and else defers it to the next render. A value that is set for `jobs` in between, as `updateJob`
-- does, stands after the deferred updaters, so that what they add is lost.
use Prim.Native.String
use project_pn.Prelude.{
  ℕ, ◌+◌, String, Bool, true, false, not, ◌||◌, Option, none, some, List, [], ◌∷◌, ◌++◌, ◌==◌, map,
  if◌then◌else◌, length, filter, find, add,
}
use project_pn.Api.Client.{Error}
use project_pn.Add.Senses.{SenseOption, best_match}
use project_pn.Add.Errors.{classify_add_error}

pub data AddJobStatus : Type 0 where
  queued processing done error : AddJobStatus

pub record AddJob : Type 0 where
  pub id : String
  pub text : String
  pub pos : String
  pub deck_id : Option String
  pub language_code : Option String
  pub status : AddJobStatus
  pub error_text : Option String
  pub word_sense_id : Option String

-- What `updateJob` changes: the status, and the fields that are given.
pub record JobPatch : Type 0 where
  pub status : AddJobStatus
  pub error_text : Option String
  pub word_sense_id : Option String

abbrev pub is_queued : AddJob → Bool
is_queued job = elim job.status [
  | queued ↦ true
  | processing ↦ false
  | done ↦ false
  | error ↦ false
]

abbrev pub is_processing : AddJob → Bool
is_processing job = elim job.status [
  | queued ↦ false
  | processing ↦ true
  | done ↦ false
  | error ↦ false
]

abbrev pub given_or : {A : Type 0} → Option A → Option A → Option A
given_or none old = old
given_or (some new) old = some new

abbrev pub patch_job : JobPatch → AddJob → AddJob
patch_job patch job = record job {
  status = patch.status;
  error_text = given_or patch.error_text job.error_text;
  word_sense_id = given_or patch.word_sense_id job.word_sense_id;
}

unfoldable pub update_job : String → JobPatch → List AddJob → List AddJob
update_job id patch [] = []
update_job id patch (job ∷ jobs) =
    (if job.id == id then patch_job patch job else job) ∷ update_job id patch jobs

-- What the worker waits for: nothing, the lookup of a job's word, or the addition of its sense.
pub data Waiting : Type 0 where
  idle : Waiting
  looking_up : AddJob → Waiting
  adding : AddJob → (sense_id : String) → Waiting

pub record AddQueue : Type 0 where
  -- `jobsRef.current`.
  pub jobs : List AddJob
  -- What the deferred updaters will append.
  pub deferred : List AddJob
  -- Whether React defers the next updater: an update is pending.
  pub defers : Bool
  -- The `jobs` of the last render.
  pub shown : List AddJob
  pub dismissed_ids : List String
  pub worker : Waiting

-- The jobs that the next render will have.
abbrev pub all_jobs : AddQueue → List AddJob
all_jobs q = q.jobs ++ q.deferred

-- The provider renders: the deferred updaters run, and `jobsRef.current` is `jobs` again. React may
-- still defer the updater after a render.
unfoldable pub render : (defers : Bool) → AddQueue → AddQueue
render defers q = record q { jobs = all_jobs q; deferred = []; defers = defers; shown = all_jobs q }

-- `setJobs` with the updater that appends jobs, which are queued.
unfoldable pub append_jobs : List AddJob → AddQueue → AddQueue
append_jobs more q =
    if q.defers
    then record q { deferred = q.deferred ++ more }
    else record q { jobs = all_jobs q ++ more; deferred = []; defers = true }

-- `updateJob` sets the list itself.
unfoldable pub set_jobs : List AddJob → AddQueue → AddQueue
set_jobs jobs q = record q { jobs = jobs; deferred = []; defers = true }

abbrev pub is_idle : Waiting → Bool
is_idle idle = true
is_idle (looking_up job) = false
is_idle (adding job sense_id) = false

abbrev pub status_patch : AddJobStatus → JobPatch
status_patch status = record { status = status; error_text = none; word_sense_id = none }

-- The head of the worker's loop: the next queued job, or the end.
unfoldable pub take_next : AddQueue → AddQueue
unfolding update_job set_jobs
take_next q = elim (find is_queued q.jobs) [
  | none ↦ record q { worker = idle }
  | some next ↦ record (set_jobs (update_job next.id (status_patch processing) q.jobs) q) {
    worker = looking_up next;
  }
]

-- `runWorker`, up to what it first waits for.
unfoldable pub run_worker : AddQueue → AddQueue
unfolding take_next
run_worker q = if is_idle q.worker then take_next q else q

-- `updateJob`, then the next round.
unfoldable pub finish_job : String → JobPatch → AddQueue → AddQueue
unfolding take_next update_job set_jobs
finish_job id patch q = take_next (set_jobs (update_job id patch q.jobs) q)

abbrev pub error_patch : String → JobPatch
error_patch message = record { status = error; error_text = some message; word_sense_id = none }

-- `t` translates the key of a message.
module _ (t : String → String) where
  unfoldable pub message_of : Error → String
  unfolding classify_add_error
  message_of err =
      String.◌++◌ (classify_add_error err).code
        (String.◌++◌ ": " (t (classify_add_error err).message_key))

  -- The answer of `lookupWord`.
  unfoldable pub looked_up : AddJob → List SenseOption → AddQueue → AddQueue
  unfolding best_match finish_job
  looked_up next options q = elim (best_match options) [
    | none ↦
        finish_job next.id (error_patch (String.◌++◌ "ADD-303: " (t "add.error.noAdditionalSense")))
          q
    | some match_ ↦ record q { worker = adding next match_.word_sense_id }
  ]

  -- The `catch` of a round.
  unfoldable pub failed : AddJob → Error → AddQueue → AddQueue
  unfolding message_of finish_job
  failed next err q = finish_job next.id (error_patch (message_of err)) q

-- The answer of `addLearningItem`.
unfoldable pub added : AddJob → String → AddQueue → AddQueue
unfolding finish_job
added next sense_id q =
    finish_job next.id (record { status = done; error_text = none; word_sense_id = some sense_id })
      q

abbrev pub new_job : String → String → Option String → Option String → String → AddJob
new_job text pos deck_id language_code id = record {
  id = id;
  text = text;
  pos = pos;
  deck_id = deck_id;
  language_code = language_code;
  status = queued;
  error_text = none;
  word_sense_id = none;
}

abbrev pub new_jobs :
    (next_id : ℕ → String)
    → ℕ
    → List String
    → (pos : String) (deck_id language_code : Option String) → List AddJob
new_jobs next_id n [] pos deck_id language_code = []
new_jobs next_id n (text ∷ texts) pos deck_id language_code =
    new_job text pos deck_id language_code (next_id n)
    ∷ new_jobs next_id (n + 1) texts pos deck_id language_code

-- `trim` is the platform's, and `ids` are what `nextJobId` gives, one for each word.
module _ (trim : String → String) where
  unfoldable pub enqueue :
      (id : String) (text pos : String) (deck_id language_code : Option String)
      → AddQueue
      → AddQueue
  unfolding run_worker append_jobs
  enqueue id text pos deck_id language_code q =
      if trim text == ""
      then q
      else run_worker (append_jobs (new_job (trim text) pos deck_id language_code id ∷ []) q)

  abbrev pub trimmed_texts : List String → List String
  trimmed_texts texts = filter (λ text. not (text == "")) (map trim texts)

  unfoldable pub enqueue_many :
      (next_id : ℕ → String) (texts : List String) (pos : String)
      (deck_id language_code : Option String)
      → AddQueue
      → AddQueue
  unfolding run_worker append_jobs
  enqueue_many next_id texts pos deck_id language_code q = elim (trimmed_texts texts) [
    | [] ↦ q
    | text ∷ more ↦
        run_worker (append_jobs (new_jobs next_id 0 (text ∷ more) pos deck_id language_code) q)
  ]

pub data WordStatus : Type 0 where
  idle_word pending_word added_word error_word : WordStatus

abbrev pub status_word : AddJobStatus → WordStatus
status_word queued = pending_word
status_word processing = pending_word
status_word done = added_word
status_word error = error_word

-- The status of the last job of the list, and `idle` without one.
abbrev pub latest_status : WordStatus → List AddJob → WordStatus
latest_status status [] = status
latest_status status (job ∷ jobs) = latest_status (status_word job.status) jobs

unfoldable pub status_of : (trim : String → String) → String → AddQueue → WordStatus
status_of trim text q = latest_status idle_word (filter (λ job. job.text == trim text) q.shown)

unfoldable pub dismiss : String → AddQueue → AddQueue
dismiss id q = record q { defers = true; dismissed_ids = add q.dismissed_ids id }

unfoldable pub pending_count : AddQueue → ℕ
pending_count q = length (filter (λ job. is_queued job || is_processing job) q.shown)

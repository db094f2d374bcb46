-- ===== src/Add/Single.antt =====
-- The invariant of the queue of frontend/src/hooks/useAddQueue.tsx under every step.
use project_pn.Prelude.{
  ℕ, ◌+◌, ◌≡◌, ◌⊎◌, refl, sym, subst, String, Bool, true, false, not, ◌&&◌, ◌||◌, ◌==◌, inl, inr,
  Option, none, some, List, [], ◌∷◌, ◌++◌, append-nil, append_assoc, arith, Bool-cases, List-cases,
  count_p, count_p-append, IsDistinct,
}
use project_pn.Add.Queue.{
  done, AddJob, is_processing, Waiting, idle, looking_up, adding, AddQueue, is_idle, run_worker,
  all_jobs, append_jobs, render, added, new_job, new_jobs, trimmed_texts, enqueue, enqueue_many,
  dismiss,
}
use project_pn.Add.Worker.{ids, with_id, count-and-le}
use project_pn.Add.Runs.{
  empty_queue, is_missed, Step, enqueued, enqueued_many, rendered, found, lookup_failed, stored,
  store_failed, dismissed, Steps, start, then_, AtWork, IsSound,
}
use project_pn.Add.Sound.{IsSound-take_next, IsSound-finish, IsSound-looked_up, IsSound-failed}

count-new_jobs :
    (next_id : ℕ → String) (n : ℕ) (texts : List String) (pos : String)
    (deck language : Option String)
    → count_p is_processing (new_jobs next_id n texts pos deck language) ≡ 0
count-new_jobs next_id n [] pos deck language = refl
count-new_jobs next_id n (text ∷ texts) pos deck language =
    count-new_jobs next_id (n + 1) texts pos deck language

-- What lets the worker be started.
abbrev Ready : (deferring : Bool) → Waiting → (jobs deferred : List AddJob) → Type 0
Ready deferring idle jobs deferred =
    (count_p is_processing jobs ≡ 0) × ((deferring ≡ true) ⊎ (deferred ≡ []))
Ready deferring (looking_up job) jobs deferred = AtWork deferring (looking_up job) jobs deferred
Ready deferring (adding job sense_id) jobs deferred =
    AtWork deferring (adding job sense_id) jobs deferred

IsSound-run_worker :
    (deferring : Bool) (w : Waiting) (q : AddQueue)
    → q.worker ≡ w
    → IsDistinct (ids (all_jobs q))
    → count_p is_processing q.deferred ≡ 0
    → Ready deferring w q.jobs q.deferred
    → IsSound deferring (run_worker q)
unfolding run_worker
IsSound-run_worker deferring idle q e d later (none_yet, left) =
    rw e (IsSound-take_next deferring q d none_yet later left)
IsSound-run_worker deferring (looking_up job) q e d later h = rw e (d, later, h)
IsSound-run_worker deferring (adding job sense_id) q e d later h = rw e (d, later, h)

AtWork-grown :
    (k : String) (jobs more : List AddJob)
    → count_p is_processing more ≡ 0
    → (count_p is_processing jobs ≡ 1) × (count_p (λ j. is_processing j && with_id k j) jobs ≡ 1)
    → (count_p is_processing (jobs ++ more) ≡ 1)
      × (count_p (λ j. is_processing j && with_id k j) (jobs ++ more) ≡ 1)
AtWork-grown k jobs more none_yet h = (
  omega (arith, h.0, none_yet, count_p-append is_processing jobs more),
  omega (
    arith,
    h.1,
    none_yet,
    count_p-append (λ j. is_processing j && with_id k j) jobs more,
    (count-and-le is_processing (with_id k) more).0,
  ),
)

Ready-grown :
    (deferring : Bool) (w : Waiting) (jobs deferred more : List AddJob)
    → count_p is_processing deferred ≡ 0
    → count_p is_processing more ≡ 0
    → AtWork deferring w jobs deferred
    → Ready deferring w ((jobs ++ deferred) ++ more) []
Ready-grown deferring idle jobs deferred more later new h = (
  omega (
    arith,
    h.0,
    later,
    new,
    count_p-append is_processing jobs deferred,
    count_p-append is_processing (jobs ++ deferred) more,
  ),
  inr refl,
)
Ready-grown deferring (looking_up job) jobs deferred more later new h =
    AtWork-grown job.id (jobs ++ deferred) more new (AtWork-grown job.id jobs deferred later h)
Ready-grown deferring (adding job sense_id) jobs deferred more later new h =
    AtWork-grown job.id (jobs ++ deferred) more new (AtWork-grown job.id jobs deferred later h)

Ready-deferred :
    (deferring : Bool) (w : Waiting) (jobs deferred more : List AddJob)
    → (deferring ≡ true) ⊎ (is_idle w ≡ false)
    → AtWork deferring w jobs deferred
    → Ready deferring w jobs (deferred ++ more)
Ready-deferred deferring idle jobs deferred more (inl may) h = (h.0, inl may)
Ready-deferred deferring idle jobs deferred more (inr busy) h = absurd (cc busy)
Ready-deferred deferring (looking_up job) jobs deferred more may h = h
Ready-deferred deferring (adding job sense_id) jobs deferred more may h = h

AtWork-rendered :
    (deferring : Bool) (w : Waiting) (jobs deferred : List AddJob)
    → count_p is_processing deferred ≡ 0
    → AtWork deferring w jobs deferred
    → AtWork deferring w (jobs ++ deferred) []
AtWork-rendered deferring idle jobs deferred later (none_yet, inl may) =
    (omega (arith, none_yet, later, count_p-append is_processing jobs deferred), inl may)
AtWork-rendered deferring idle jobs deferred later (none_yet, inr (none_queued, nothing)) =
    rw (nothing, append-nil jobs) (none_yet, inr (none_queued, refl))
AtWork-rendered deferring (looking_up job) jobs deferred later h =
    AtWork-grown job.id jobs deferred later h
AtWork-rendered deferring (adding job sense_id) jobs deferred later h =
    AtWork-grown job.id jobs deferred later h

deferred_busy :
    (deferring : Bool) (q : AddQueue)
    → (deferring || not (is_missed q)) ≡ true
    → q.defers ≡ true
    → (deferring ≡ true) ⊎ (is_idle q.worker ≡ false)
deferred_busy true q h e = inl refl
deferred_busy false q h e = inr (ground arith)

-- More jobs, none of which is processing, and a worker that is started if it is idle.
IsSound-more :
    (deferring : Bool) (q : AddQueue) (more : List AddJob)
    → count_p is_processing more ≡ 0
    → IsDistinct (ids (all_jobs q ++ more))
    → (deferring || not (is_missed q)) ≡ true
    → IsSound deferring q
    → IsSound deferring (run_worker (append_jobs more q))
unfolding append_jobs
IsSound-more deferring q more new d seen (old, later, h) = elim (Bool-cases q.defers) [
  | inl waits ↦ rw waits (
      IsSound-run_worker deferring q.worker
        (record q { deferred = q.deferred ++ more; defers = true }) refl
        (subst (λ xs. IsDistinct (ids xs)) (append_assoc q.jobs q.deferred more) d)
        (omega (arith, later, new, count_p-append is_processing q.deferred more))
        (Ready-deferred deferring q.worker q.jobs q.deferred more
          (deferred_busy deferring q seen waits) h))
  | inr at_once ↦ rw at_once (
      IsSound-run_worker deferring q.worker
        (record q { jobs = all_jobs q ++ more; deferred = []; defers = true }) refl
        (subst (λ xs. IsDistinct (ids xs)) (sym (append-nil (all_jobs q ++ more))) d) refl
        (Ready-grown deferring q.worker q.jobs q.deferred more later new h))
]

IsSound-enqueue :
    (trim : String → String) (deferring : Bool) (q : AddQueue) (id text pos : String)
    (deck language : Option String)
    → IsDistinct (ids (all_jobs q ++ new_job (trim text) pos deck language id ∷ []))
    → (deferring || not (is_missed q)) ≡ true
    → IsSound deferring q
    → IsSound deferring (enqueue trim id text pos deck language q)
unfolding enqueue
IsSound-enqueue trim deferring q id text pos deck language d seen h =
    elim (Bool-cases (trim text == "")) [
      | inl blank ↦ rw (enqueue, blank) h
      | inr some_text ↦
          rw (enqueue, some_text)
            (IsSound-more deferring q (new_job (trim text) pos deck language id ∷ []) refl d seen h)
    ]

IsSound-enqueue_many :
    (trim : String → String) (deferring : Bool) (q : AddQueue) (next_id : ℕ → String)
    (texts : List String) (pos : String) (deck language : Option String)
    → IsDistinct
        (ids (all_jobs q ++ new_jobs next_id 0 (trimmed_texts trim texts) pos deck language))
    → (deferring || not (is_missed q)) ≡ true
    → IsSound deferring q
    → IsSound deferring (enqueue_many trim next_id texts pos deck language q)
unfolding enqueue_many
IsSound-enqueue_many trim deferring q next_id texts pos deck language d seen h =
    elim (List-cases (trimmed_texts trim texts)) [
      | inl blank ↦ rw (enqueue_many, blank) h
      | inr (text, more, some_text) ↦
          rw (enqueue_many, some_text)
            (IsSound-more deferring q (new_jobs next_id 0 (text ∷ more) pos deck language)
              (count-new_jobs next_id 0 (text ∷ more) pos deck language)
              (subst
                (λ ts. IsDistinct (ids (all_jobs q ++ new_jobs next_id 0 ts pos deck language)))
                some_text d)
              seen h)
    ]

IsSound-render :
    (deferring : Bool) (defers : Bool) (q : AddQueue)
    → IsSound deferring q
    → IsSound deferring (render defers q)
unfolding render
IsSound-render deferring defers q (d, later, h) = (
  subst (λ xs. IsDistinct (ids xs)) (sym (append-nil (all_jobs q))) d,
  refl,
  AtWork-rendered deferring q.worker q.jobs q.deferred later h,
)

IsSound-Step :
    {t trim : String → String} {deferring : Bool} {q r : AddQueue}
    → Step t trim deferring q r
    → IsSound deferring q
    → IsSound deferring r
unfolding added dismiss
IsSound-Step {t} {trim} {deferring = b} (enqueued q id text pos deck language d seen) h =
    IsSound-enqueue trim b q id text pos deck language d seen h
IsSound-Step {t} {trim} {deferring = b} (enqueued_many q next_id texts pos deck language d seen) h =
    IsSound-enqueue_many trim b q next_id texts pos deck language d seen h
IsSound-Step {t} {trim} {deferring = b} (rendered q defers) h = IsSound-render b defers q h
IsSound-Step {t} {trim} {deferring = b} (found q job options w) h =
    IsSound-looked_up t b job options q w h
IsSound-Step {t} {trim} {deferring = b} (lookup_failed q job err w) h =
    IsSound-failed t b job err q h.0 (rw w at h.2)
IsSound-Step {t} {trim} {deferring = b} (stored q job sense_id w) h =
    IsSound-finish b job.id
      (record { status = done; error_text = none; word_sense_id = some sense_id }) q (λ j. refl) h.0
      (rw w at h.2).0 (rw w at h.2).1
IsSound-Step {t} {trim} {deferring = b} (store_failed q job sense_id err w) h =
    IsSound-failed t b job err q h.0 (rw w at h.2)
IsSound-Step (dismissed q id) h = h

-- However words are added, answers come and the provider renders, while every new job has a new
-- id: the ids stay distinct; a busy worker is processing just one job, the one whose lookup or
-- addition it waits for; and an idle one has left no job processing. Where no word is added to an
-- idle queue while React defers the updater, an idle worker has left no job queued or deferred.
pub Steps-IsSound :
    {t trim : String → String} {deferring : Bool} {q : AddQueue}
    → Steps t trim deferring empty_queue q
    → IsSound deferring q
Steps-IsSound start = (tt, refl, (refl, inr (refl, refl)))
Steps-IsSound (then_ steps step) = IsSound-Step step (Steps-IsSound steps)

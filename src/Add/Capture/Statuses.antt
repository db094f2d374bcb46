-- ===== src/Add/Capture/Statuses.antt =====
-- The status of a word while jobs are added and begun: frontend/src/hooks/useAddQueue.tsx.
use project_pn.Prelude.{
  ℕ, ◌+◌, ◌≡◌, ◌⊎◌, inl, inr, refl, sym, ap, subst, ◌∙◌, String, true, false, Option, List, [], ◌∷◌,
  ◌++◌, append-nil, ◌==◌, filter, find, any, arith, Bool-cases, Option-cases, List-cases,
  filter-append,
}
use project_pn.Add.Queue.{
  AddJob, AddQueue, processing, WordStatus, idle_word, pending_word, is_idle, is_queued,
  status_word, latest_status, status_patch, all_jobs, append_jobs, set_jobs, render, update_job,
  take_next, run_worker, new_jobs, trimmed_texts, enqueue_many,
}
use project_pn.Add.Capture.{is_addable}

-- What is pending or added is so still after more jobs that are, and after a job is begun.
module _ (word : String) where
  abbrev pub about : List AddJob → List AddJob
  about jobs = filter (λ job. job.text == word) jobs

  head-status :
      (job : AddJob) (jobs : List AddJob) (old : WordStatus)
      → (job.text == word) ≡ true
      → is_addable (latest_status old (about (job ∷ jobs))) ≡ false
      → is_addable (latest_status (status_word job.status) (about jobs)) ≡ false
  head-status job jobs old here h = ap is_addable (sym (rw here refl)) ∙ h

  skipped-status :
      (job : AddJob) (jobs : List AddJob) (old : WordStatus)
      → (job.text == word) ≡ false
      → is_addable (latest_status old (about (job ∷ jobs))) ≡ false
      → is_addable (latest_status old (about jobs)) ≡ false
  skipped-status job jobs old elsewhere h = ap is_addable (sym (rw elsewhere refl)) ∙ h

  begun-status :
      (id : String) (jobs : List AddJob) (old new : WordStatus)
      → (is_addable old ≡ false → is_addable new ≡ false)
      → is_addable (latest_status old (about jobs)) ≡ false
      → is_addable (latest_status new (about (update_job id (status_patch processing) jobs)))
        ≡ false
  unfolding update_job
  begun-status id [] old new keeps h = keeps h
  begun-status id (job ∷ jobs) old new keeps h = elim (Bool-cases (job.text == word)) [
    | inl here ↦ elim (Bool-cases (job.id == id)) [
      | inl begun ↦
          rw (begun, here)
            (begun-status id jobs (status_word job.status) pending_word (λ e. refl)
              (head-status job jobs old here h))
      | inr other ↦
          rw (other, here)
            (begun-status id jobs (status_word job.status) (status_word job.status) (λ e. e)
              (head-status job jobs old here h))
    ]
    | inr elsewhere ↦ elim (Bool-cases (job.id == id)) [
      | inl begun ↦
          rw (begun, elsewhere)
            (begun-status id jobs old new keeps (skipped-status job jobs old elsewhere h))
      | inr other ↦
          rw (other, elsewhere)
            (begun-status id jobs old new keeps (skipped-status job jobs old elsewhere h))
    ]
  ]

  latest-append :
      (old : WordStatus) (xs ys : List AddJob)
      → latest_status old (xs ++ ys) ≡ latest_status (latest_status old xs) ys
  latest-append old [] ys = refl
  latest-append old (x ∷ xs) ys = latest-append (status_word x.status) xs ys

  rest_word :
      {P : Type 0} (text : String) (texts : List String)
      → (text == word) ≡ false
      → P ⊎ (any (λ t. t == word) (text ∷ texts) ≡ true)
      → P ⊎ (any (λ t. t == word) texts ≡ true)
  rest_word text texts elsewhere (inl h) = inl h
  rest_word text texts elsewhere (inr h) = inr (ground arith)

  new-status :
      (next_id : ℕ → String) (n : ℕ) (texts : List String) (pos : String)
      (deck_id language_code : Option String) (old : WordStatus)
      → (is_addable old ≡ false) ⊎ (any (λ text. text == word) texts ≡ true)
      → is_addable (latest_status old (about (new_jobs next_id n texts pos deck_id language_code)))
        ≡ false
  new-status next_id n [] pos deck_id language_code old (inl h) = h
  new-status next_id n [] pos deck_id language_code old (inr h) = cc
  new-status next_id n (text ∷ texts) pos deck_id language_code old h =
      elim (Bool-cases (text == word)) [
        | inl here ↦
            rw here
              (new-status next_id (n + 1) texts pos deck_id language_code pending_word (inl refl))
        | inr elsewhere ↦ rw elsewhere (
            new-status next_id (n + 1) texts pos deck_id language_code old
              (rest_word text texts elsewhere h))
      ]

  take_next-status :
      (q : AddQueue)
      → q.deferred ≡ []
      → is_addable (latest_status idle_word (about q.jobs)) ≡ false
      → is_addable (latest_status idle_word (about (all_jobs (take_next q)))) ≡ false
  unfolding take_next set_jobs
  take_next-status q nothing h = elim (Option-cases (find is_queued q.jobs)) [
    | inl over ↦ rw (take_next, over, nothing, append-nil q.jobs) h
    | inr (next, found) ↦
        rw (take_next, found, append-nil (update_job next.id (status_patch processing) q.jobs))
          (begun-status next.id q.jobs idle_word idle_word (λ e. e) h)
  ]

  run_worker-status :
      (q : AddQueue)
      → q.deferred ≡ []
      → is_addable (latest_status idle_word (about q.jobs)) ≡ false
      → is_addable (latest_status idle_word (about (all_jobs (run_worker q)))) ≡ false
  unfolding run_worker
  run_worker-status q nothing h = elim (Bool-cases (is_idle q.worker)) [
    | inl idle ↦ rw idle (take_next-status q nothing h)
    | inr busy ↦ rw (busy, nothing, append-nil q.jobs) h
  ]

  grown-status :
      (next_id : ℕ → String) (texts : List String) (pos : String)
      (deck_id language_code : Option String) (jobs : List AddJob)
      → (is_addable (latest_status idle_word (about jobs)) ≡ false)
        ⊎ (any (λ text. text == word) texts ≡ true)
      → is_addable (
          latest_status idle_word
            (about (jobs ++ new_jobs next_id 0 texts pos deck_id language_code)))
        ≡ false
  grown-status next_id texts pos deck_id language_code jobs h =
      rw
        (filter-append (λ job. job.text == word) jobs
          (new_jobs next_id 0 texts pos deck_id language_code))
        (rw
          (latest-append idle_word (about jobs)
            (about (new_jobs next_id 0 texts pos deck_id language_code)))
          (new-status next_id 0 texts pos deck_id language_code
            (latest_status idle_word (about jobs)) h))

  none_new :
      (texts : List String) (trim : String → String) (jobs : List AddJob)
      → trimmed_texts trim texts ≡ []
      → (is_addable (latest_status idle_word (about jobs)) ≡ false)
        ⊎ (any (λ text. text == word) (trimmed_texts trim texts) ≡ true)
      → is_addable (latest_status idle_word (about jobs)) ≡ false
  none_new texts trim jobs nothing (inl h) = h
  none_new texts trim jobs nothing (inr h) =
      absurd (cc (ap (any (λ text. text == word)) nothing, h))

  -- After a render that leaves no update pending, the updater of `enqueueMany` runs at once.
  pub enqueue_many-status :
      (trim : String → String) (next_id : ℕ → String) (texts : List String) (pos : String)
      (deck_id language_code : Option String) (q : AddQueue)
      → (is_addable (latest_status idle_word (about (all_jobs q))) ≡ false)
        ⊎ (any (λ text. text == word) (trimmed_texts trim texts) ≡ true)
      → is_addable (
          latest_status idle_word (
            about (
              all_jobs
                (enqueue_many trim next_id texts pos deck_id language_code (render false q)))))
        ≡ false
  unfolding enqueue_many append_jobs render
  enqueue_many-status trim next_id texts pos deck_id language_code q h =
      elim (List-cases (trimmed_texts trim texts)) [
        | inl nothing ↦
            rw (enqueue_many, nothing, append-nil (all_jobs q))
              (none_new texts trim (all_jobs q) nothing h)
        | inr (text, more, e) ↦
            rw (enqueue_many, e, append-nil (all_jobs q))
              (run_worker-status
                (record q {
                  jobs = all_jobs q ++ new_jobs next_id 0 (text ∷ more) pos deck_id language_code;
                  deferred = [];
                  defers = true;
                  shown = all_jobs q;
                })
                refl
                (grown-status next_id (text ∷ more) pos deck_id language_code (all_jobs q) (
                  subst
                    (λ ts.
                      (is_addable (latest_status idle_word (about (all_jobs q))) ≡ false)
                      ⊎ (any (λ t. t == word) ts ≡ true))
                    e h)))
      ]

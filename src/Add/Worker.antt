-- ===== src/Add/Worker.antt =====
-- The jobs under an update of one of them: lemmas about `updateJob` of
-- frontend/src/hooks/useAddQueue.tsx.
use project_pn.Prelude.{
  ◌+◌, ◌≤◌, ◌≡◌, refl, subst, String, Bool, false, ◌&&◌, inl, inr, some, List, [], ◌∷◌, arith, ◌==◌,
  eq_iff, eq_refl, map, Bool-cases, find, count_p, contains, IsDistinct,
}
use project_pn.Add.Queue.{AddJob, JobPatch, is_queued, patch_job, update_job}

abbrev pub id_of : AddJob → String
id_of job = job.id

abbrev pub ids : List AddJob → List String
ids jobs = map id_of jobs

pub ids-update_job :
    (k : String) (patch : JobPatch) (jobs : List AddJob) → ids (update_job k patch jobs) ≡ ids jobs
unfolding update_job
ids-update_job k patch [] = refl
ids-update_job k patch (job ∷ jobs) = elim (Bool-cases (job.id == k)) [
  | inl hit ↦ rw (hit, ids-update_job k patch jobs) refl
  | inr miss ↦ rw (miss, ids-update_job k patch jobs) refl
]

abbrev pub with_id : String → AddJob → Bool
with_id k job = job.id == k

-- The jobs that the update touches are counted as the patch makes them, the others as they are.
pub count-update_job :
    (p : AddJob → Bool) (k : String) (patch : JobPatch) (jobs : List AddJob)
    → count_p p (update_job k patch jobs) + count_p (λ j. p j && with_id k j) jobs
      ≡ count_p p jobs + count_p (λ j. p (patch_job patch j) && with_id k j) jobs
unfolding update_job
count-update_job p k patch [] = omega arith
count-update_job p k patch (job ∷ jobs) = elim (Bool-cases (job.id == k)) [
  | inl hit ↦ rw hit (ground (arith, count-update_job p k patch jobs))
  | inr miss ↦ rw miss (ground (arith, count-update_job p k patch jobs))
]

count-missing :
    (k : String) (jobs : List AddJob) → contains (ids jobs) k ≡ false → count_p (with_id k) jobs ≡ 0
count-missing k [] h = refl
count-missing k (job ∷ jobs) h = ground (arith, count-missing k jobs)

pub count-with_id-le :
    (k : String) (jobs : List AddJob) → IsDistinct (ids jobs) → count_p (with_id k) jobs ≤ 1
count-with_id-le k [] d = omega arith
count-with_id-le k (job ∷ jobs) d = elim (Bool-cases (job.id == k)) [
  | inl hit ↦
      let e : job.id ≡ k = (eq_iff job.id k).0 hit in
      ground (arith, hit, count-missing k jobs (rw e at d.0))
  | inr miss ↦ ground (arith, miss, count-with_id-le k jobs d.1)
]

-- After the update, those with the id count as the patch makes them.
pub count-update_job-at :
    (p : AddJob → Bool) (k : String) (patch : JobPatch) (jobs : List AddJob)
    → count_p (λ j. p j && with_id k j) (update_job k patch jobs)
      ≡ count_p (λ j. p (patch_job patch j) && with_id k j) jobs
unfolding update_job
count-update_job-at p k patch [] = refl
count-update_job-at p k patch (job ∷ jobs) = elim (Bool-cases (job.id == k)) [
  | inl hit ↦ rw hit (ground (arith, hit, count-update_job-at p k patch jobs))
  | inr miss ↦ rw miss (ground (arith, miss, count-update_job-at p k patch jobs))
]

pub count-none :
    (p q : AddJob → Bool) (jobs : List AddJob)
    → ((j : AddJob) → p j ≡ false)
    → count_p (λ j. p j && q j) jobs ≡ 0
count-none p q [] h = refl
count-none p q (job ∷ jobs) h = ground (arith, h job, count-none p q jobs h)

pub count-and-le :
    (p q : AddJob → Bool) (jobs : List AddJob)
    → (count_p (λ j. p j && q j) jobs ≤ count_p p jobs)
      × (count_p (λ j. p j && q j) jobs ≤ count_p q jobs)
count-and-le p q [] = (omega arith, omega arith)
count-and-le p q (job ∷ jobs) = ground (arith, count-and-le p q jobs)

-- The job that is found is queued, and it is there once.
pub find-queued :
    (jobs : List AddJob) (job : AddJob)
    → find is_queued jobs ≡ some job
    → 1 ≤ count_p (λ j. is_queued j && with_id job.id j) jobs
find-queued [] job h = cc
find-queued (j ∷ jobs) job h = elim (Bool-cases (is_queued j)) [
  | inl hit ↦
      let e : j ≡ job = (let g : some j ≡ some job = rw hit at h in cc) in
      let there : 1 ≤ count_p (λ i. is_queued i && with_id j.id i) (j ∷ jobs) =
        ground (arith, hit, eq_refl j.id) in
      subst (λ x. 1 ≤ count_p (λ i. is_queued i && with_id x.id i) (j ∷ jobs)) e there
  | inr miss ↦ ground (arith, miss, find-queued jobs job (rw miss at h))
]

-- ===== src/Practice/Progress.antt =====
-- The progress of a practice session: sessionProgress of
-- features/practice/practiceItemState.ts.
use project_pn.Prelude.{
  ℕ, ◌+◌, ◌≤◌, ◌<◌, min, max, String, ◌≡◌, refl, sym, ap, ◌∙◌, inl, inr, Bool, false, true, ◌&&◌,
  ◌||◌, List, [], ◌∷◌, ◌++◌, arith, ◌==◌, eq_iff, Bool-cases, if◌then◌else◌, length, count_p, any,
  contains, add, set_of, contains-add, IsDistinct, IsDistinct-set_of, count_p_congr, count_p-add,
  count_p-eq-zero, count_p-le-length, count_p_mono, length-append, any-append,
}
use project_pn.Practice.Item.{ReviewAttemptParams}

pub record SessionProgress : Type 0 where
  pub completed : ℕ
  pub total : ℕ
  pub current : ℕ
  pub percent : ℕ

-- The loop that fills `completedIds`.
unfoldable pub completed_ids : List String → List String → List ReviewAttemptParams → List String
completed_ids due done [] = done
completed_ids due done (att ∷ attempts) =
    completed_ids due
      (if att.is_correct && contains due att.user_word_sense_id
        then add done att.user_word_sense_id
        else done)
      attempts

-- `percent_of c t` is the floating-point `Math.floor((c / t) * 100)`.
unfoldable pub session_progress :
    (percent_of : ℕ → ℕ → ℕ) → List ReviewAttemptParams → List String → SessionProgress
unfolding completed_ids
session_progress percent_of attempts due_ids =
    let distinct : List String = set_of due_ids in
    let total : ℕ = max (length distinct) 1 in
    let completed : ℕ = length (completed_ids distinct [] attempts) in
    record {
      completed = completed;
      total = total;
      current = min (completed + 1) total;
      percent = percent_of completed total;
    }

-- What IEEE division and multiplication, both monotone, give of the percentage.
pub record IsPercent (percent_of : ℕ → ℕ → ℕ) : Type 0 where
  pub monotone : (c d t : ℕ) → c ≤ d → percent_of c t ≤ percent_of d t
  pub full : (t : ℕ) → 0 < t → percent_of t t ≡ 100

-- Some attempt for this id was correct.
abbrev pub answered : List ReviewAttemptParams → String → Bool
answered attempts k = any (λ a. a.is_correct && a.user_word_sense_id == k) attempts

any-false : (ks : List String) → any (λ (k : String). false) ks ≡ false
any-false [] = refl
any-false (k ∷ ks) = any-false ks

-- One round of the loop.
abbrev mark : List String → List String → ReviewAttemptParams → List String
mark due done att =
    if att.is_correct && contains due att.user_word_sense_id
    then add done att.user_word_sense_id
    else done

length-mark :
    (due done : List String) (att : ReviewAttemptParams)
    → IsDistinct due
    → length done ≡ count_p (contains done) due
    → length (mark due done att) ≡ count_p (contains (mark due done att)) due
length-mark due done att d h =
    elim (Bool-cases (att.is_correct && contains due att.user_word_sense_id)) [
      | inr skip ↦ rw skip h
      | inl take ↦ elim (Bool-cases (contains done att.user_word_sense_id)) [
        | inl old ↦ rw (take, old) h
        | inr new ↦
            rw (take, new, count_p-add done due att.user_word_sense_id d (ground arith) new)
              (omega (arith, h, length-append done (att.user_word_sense_id ∷ [])))
      ]
    ]

contains-mark :
    (due done : List String) (att : ReviewAttemptParams) (attempts : List ReviewAttemptParams)
    (k : String)
    → contains due k ≡ true
    → (contains (mark due done att) k || answered attempts k)
      ≡ (contains done k || answered (att ∷ attempts) k)
contains-mark due done att attempts k m = elim (Bool-cases (att.user_word_sense_id == k)) [
  | inl same ↦
      let e : att.user_word_sense_id ≡ k = (eq_iff _ k).0 same in
      ground (arith, contains-add done att.user_word_sense_id k, ap (contains due) e, m)
  | inr other ↦ ground (arith, contains-add done att.user_word_sense_id k)
]

-- The loop counts each due id once, if it is in `done` or some attempt answers it.
length-completed_ids :
    (due done : List String) (attempts : List ReviewAttemptParams)
    → IsDistinct due
    → length done ≡ count_p (contains done) due
    → length (completed_ids due done attempts)
      ≡ count_p (λ k. contains done k || answered attempts k) due
unfolding completed_ids
length-completed_ids due done [] d h =
    h ∙ count_p_congr (contains done) (λ k. contains done k || false) due (λ k m. ground arith)
length-completed_ids due done (att ∷ attempts) d h =
    length-completed_ids due (mark due done att) attempts d (length-mark due done att d h)
    ∙ count_p_congr (λ k. contains (mark due done att) k || answered attempts k)
        (λ k. contains done k || answered (att ∷ attempts) k) due
        (contains-mark due done att attempts)

length-completed_of_nil :
    (attempts : List ReviewAttemptParams) (due_ids : List String)
    → length (completed_ids (set_of due_ids) [] attempts)
      ≡ count_p (answered attempts) (set_of due_ids)
length-completed_of_nil attempts due_ids =
    length-completed_ids (set_of due_ids) [] attempts (IsDistinct-set_of due_ids)
      (sym (count_p-eq-zero (λ x. false) (set_of due_ids) (any-false (set_of due_ids))))

completed_le :
    (attempts : List ReviewAttemptParams) (due_ids : List String)
    → length (completed_ids (set_of due_ids) [] attempts) ≤ length (set_of due_ids)
completed_le attempts due_ids = omega (
  arith,
  length-completed_of_nil attempts due_ids,
  count_p-le-length (answered attempts) (set_of due_ids),
)

answered-append :
    (attempts : List ReviewAttemptParams) (att : ReviewAttemptParams) (k : String)
    → answered attempts k ≡ true
    → answered (attempts ++ att ∷ []) k ≡ true
answered-append attempts att k h =
    ground (arith, any-append (λ a. a.is_correct && a.user_word_sense_id == k) attempts (att ∷ []))

module _ (percent_of : ℕ → ℕ → ℕ) where
  -- `completed` is the number of distinct due ids that some attempt answered correctly, however
  -- often it was tried and in whatever order.
  pub completed-session_progress :
      (attempts : List ReviewAttemptParams) (due_ids : List String)
      → (session_progress percent_of attempts due_ids).completed
        ≡ count_p (answered attempts) (set_of due_ids)
  unfolding session_progress
  completed-session_progress attempts due_ids = length-completed_of_nil attempts due_ids

  -- The counters stay in range: `completed` and `current` at most `total`, which is at least 1,
  -- `current` at least 1, and the percentage at most 100, if the platform's percentage is one.
  pub session_progress_bounds :
      IsPercent percent_of
      → (attempts : List ReviewAttemptParams) (due_ids : List String)
      → let p = session_progress percent_of attempts due_ids in
        (p.completed ≤ p.total) × (1 ≤ p.current) × (p.current ≤ p.total) × (p.percent ≤ 100)
  unfolding session_progress
  session_progress_bounds law attempts due_ids =
      let c : ℕ = length (completed_ids (set_of due_ids) [] attempts) in
      let t : ℕ = max (length (set_of due_ids)) 1 in
      let fits : c ≤ t = omega (arith, completed_le attempts due_ids) in
      (
        fits,
        omega arith,
        omega arith,
        omega (arith, law.monotone c t t fits, law.full t (omega arith)),
      )

  -- One more attempt never takes progress away: the total stays, the completed count and the
  -- percentage do not fall, if the platform's percentage is monotone.
  pub session_progress_mono :
      IsPercent percent_of
      → (attempts : List ReviewAttemptParams) (att : ReviewAttemptParams) (due_ids : List String)
      → let p = session_progress percent_of attempts due_ids in
        let q = session_progress percent_of (attempts ++ att ∷ []) due_ids in
        (q.total ≡ p.total) × (p.completed ≤ q.completed) × (p.percent ≤ q.percent)
  unfolding session_progress
  session_progress_mono law attempts att due_ids =
      let c : ℕ = length (completed_ids (set_of due_ids) [] attempts) in
      let d : ℕ = length (completed_ids (set_of due_ids) [] (attempts ++ att ∷ [])) in
      let grows : c ≤ d = omega (
        arith,
        length-completed_of_nil attempts due_ids,
        length-completed_of_nil (attempts ++ att ∷ []) due_ids,
        count_p_mono (answered attempts) (answered (attempts ++ att ∷ [])) (set_of due_ids)
            (answered-append attempts att),
      ) in
      (refl, grows, law.monotone c d _ grows)

-- ===== src/Add/BestMatch.antt =====
-- The sense that bestMatch of frontend/src/utils/senses.ts chooses.
use project_pn.Prelude.{
  ℕ, ◌≤◌, ◌≡◌, refl, ◌⊎◌, String, true, inl, inr, some, List, [], ◌∷◌, arith, eq_refl, ltb,
  Bool-cases, Option-cases, List-cases, or_else, filter, All, contains, map,
}
use project_pn.Add.Senses.{
  SenseOption, similarity_of, closer, earlier, reduce, is_scored, best_match,
}

abbrev pub score : SenseOption → ℕ
score option = or_else (similarity_of option) 0

abbrev pub id_of : SenseOption → String
id_of option = option.word_sense_id

reduce-closer-le :
    (best : SenseOption) (options : List SenseOption)
    → score best ≤ score (reduce closer best options)
reduce-closer-le best [] = omega arith
reduce-closer-le best (o ∷ options) = ground (arith, reduce-closer-le (closer best o) options)

reduce-closer-max :
    (best : SenseOption) (options : List SenseOption)
    → All (λ o. score o ≤ score (reduce closer best options)) options
reduce-closer-max best [] = tt
reduce-closer-max best (o ∷ options) = (
  ground (arith, reduce-closer-le (closer best o) options),
  reduce-closer-max (closer best o) options,
)

reduce-earlier-le :
    (best : SenseOption) (options : List SenseOption)
    → (reduce earlier best options).meaning_order ≤ best.meaning_order
reduce-earlier-le best [] = omega arith
reduce-earlier-le best (o ∷ options) = ground (arith, reduce-earlier-le (earlier best o) options)

reduce-earlier-min :
    (best : SenseOption) (options : List SenseOption)
    → All (λ o. (reduce earlier best options).meaning_order ≤ o.meaning_order) options
reduce-earlier-min best [] = tt
reduce-earlier-min best (o ∷ options) = (
  ground (arith, reduce-earlier-le (earlier best o) options),
  reduce-earlier-min (earlier best o) options,
)

-- A `reduce` that keeps one of its two arguments gives one of the options.
reduce-among :
    (f : SenseOption → SenseOption → SenseOption)
    → ((a b : SenseOption) → (f a b ≡ a) ⊎ (f a b ≡ b))
    → (P : SenseOption → Type 0) (best : SenseOption) (options : List SenseOption) → P best
    → All P options
    → P (reduce f best options)
reduce-among f pick P best [] h all = h
reduce-among f pick P best (o ∷ options) h all = elim (pick best o) [
  | inl kept ↦ reduce-among f pick P (f best o) options (rw kept h) all.1
  | inr taken ↦ reduce-among f pick P (f best o) options (rw taken all.0) all.1
]

closer-picks : (a b : SenseOption) → (closer a b ≡ a) ⊎ (closer a b ≡ b)
closer-picks a b = elim (Bool-cases (ltb (score a) (score b))) [
  | inl is_true ↦ inr (rw is_true refl)
  | inr is_false ↦ inl (rw is_false refl)
]

earlier-picks : (a b : SenseOption) → (earlier a b ≡ a) ⊎ (earlier a b ≡ b)
earlier-picks a b = elim (Bool-cases (ltb b.meaning_order a.meaning_order)) [
  | inl is_true ↦ inr (rw is_true refl)
  | inr is_false ↦ inl (rw is_false refl)
]

All-members :
    (all options : List SenseOption)
    → ((k : String) → contains (map id_of options) k ≡ true → contains (map id_of all) k ≡ true)
    → All (λ o. contains (map id_of all) (id_of o) ≡ true) options
All-members all [] h = tt
All-members all (o ∷ options) h = (
  h (id_of o) (ground (arith, eq_refl (id_of o))),
  All-members all options (λ k m. h k (ground (arith, m))),
)

members-filter :
    (options : List SenseOption) (k : String)
    → contains (map id_of (filter is_scored options)) k ≡ true
    → contains (map id_of options) k ≡ true
members-filter [] k h = h
members-filter (o ∷ options) k h = ground (arith, members-filter options k)

All-scored : (options : List SenseOption) → All (λ o. is_scored o ≡ true) (filter is_scored options)
All-scored [] = tt
All-scored (o ∷ options) = elim (Bool-cases (is_scored o)) [
  | inl is_true ↦ rw is_true (is_true, All-scored options)
  | inr is_false ↦ rw is_false (All-scored options)
]

-- An option without a score counts as 0.
All-unscored :
    (n : ℕ) (options : List SenseOption)
    → All (λ o. score o ≤ n) (filter is_scored options)
    → All (λ o. score o ≤ n) options
All-unscored n [] h = h
All-unscored n (o ∷ options) h = elim (Option-cases (similarity_of o)) [
  | inl absent ↦ (rw absent (omega arith), All-unscored n options (rw absent at h))
  | inr (s, present) ↦
      let kept = rw present at h in (rw present kept.0, All-unscored n options kept.1)
]

-- What makes a sense the best of the options: the highest score when any option has one, and else
-- the lowest order among the meanings.
pub data IsBest (options : List SenseOption) (best : SenseOption) : Type 0 where
  by_score : is_scored best ≡ true → All (λ o. score o ≤ score best) options → IsBest options best
  by_order :
      filter is_scored options ≡ []
      → All (λ (o : SenseOption). best.meaning_order ≤ o.meaning_order) options
      → IsBest options best

-- Any options but none have a best match: one of them, with the highest score when any of them has
-- a score, and with the lowest order among the meanings when none has.
pub best_match-IsBest :
    (option : SenseOption) (options : List SenseOption)
    → (best : SenseOption) × (best_match (option ∷ options) ≡ some best)
      × (contains (map id_of (option ∷ options)) (id_of best) ≡ true)
      × IsBest (option ∷ options) best
unfolding best_match
best_match-IsBest option options = elim (List-cases (filter is_scored (option ∷ options))) [
  | inl unscored ↦ (
    reduce earlier option options,
    rw unscored refl,
    reduce-among earlier earlier-picks
        (λ o. contains (map id_of (option ∷ options)) (id_of o) ≡ true) option options
        (All-members (option ∷ options) (option ∷ options) (λ k m. m)).0
        (All-members (option ∷ options) (option ∷ options) (λ k m. m)).1,
    by_order unscored (reduce-earlier-le option options, reduce-earlier-min option options),
  )
  | inr (first, more, scored) ↦
      let members = rw scored at (
        All-members (option ∷ options) (filter is_scored (option ∷ options))
          (members-filter (option ∷ options))) in
      let scores = rw scored at (All-scored (option ∷ options)) in
      (
        reduce closer first more,
        rw scored refl,
        reduce-among closer closer-picks
            (λ o. contains (map id_of (option ∷ options)) (id_of o) ≡ true) first more members.0
            members.1,
        by_score
            (reduce-among closer closer-picks (λ o. is_scored o ≡ true) first more scores.0
              scores.1)
            (All-unscored (score (reduce closer first more)) (option ∷ options)
              (rw scored (reduce-closer-le first more, reduce-closer-max first more))),
      )
]

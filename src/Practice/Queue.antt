-- ===== src/Practice/Queue.antt =====
-- The order of the practice queue: shufflePracticeQueue, fisherYates, interleaveByWordId and
-- insertRetryCard of features/practice/practiceItemState.ts.
-- `draw s n` is one evaluation of `Math.floor(random() * n)`: the index drawn and the state of the
-- generator after it. An item is what the array holds, a reference; `same` compares references.
use project_pn.Prelude.{
  ℕ, zero, suc, ◌+◌, ◌-◌, min, String, Bool, ◌&&◌, Option, none, some, List, [], ◌∷◌, ◌++◌, ◌==◌,
  if◌then◌else◌, ltb, length, get_elem?, set, take, drop,
}

-- `next[i] = b; next[j] = a`, unless an index is out of range.
unfoldable pub exchange {ℓ} : {T : Type ℓ} → List T → ℕ → ℕ → List T
exchange xs i j = elim (get_elem? xs i) [
  | none ↦ xs
  | some a ↦ elim (get_elem? xs j) [ none ↦ xs | some b ↦ set (set xs i b) j a ]
]

module _ {S : Type 0} (draw : S → ℕ → ℕ × S) where
  -- The rounds of `fisherYates` from index `i` down to 1.
  unfoldable pub fisher_yates_from : {T : Type 0} → ℕ → List T → S → List T × S
  fisher_yates_from zero next s = (next, s)
  fisher_yates_from (suc i) next s =
      let (j, s') = draw s (suc i + 1) in fisher_yates_from i (exchange next (suc i) j) s'

  unfoldable pub fisher_yates : {T : Type 0} → List T → S → List T × S
  unfolding fisher_yates_from exchange
  fisher_yates items s = fisher_yates_from (length items - 1) items s

module _ {T : Type 0} (word_id : T → String) where
  -- `buckets[idx]?.push(item)`, with the entry of `bucketIndex` beside its bucket.
  unfoldable pub push_bucket : List (String × List T) → T → List (String × List T)
  push_bucket [] item = (word_id item, item ∷ []) ∷ []
  push_bucket ((w, bucket) ∷ rest) item =
      if w == word_id item
      then (w, bucket ++ item ∷ []) ∷ rest
      else (w, bucket) ∷ push_bucket rest item

  unfoldable pub fill_buckets : List (String × List T) → List T → List (String × List T)
  unfolding push_bucket
  fill_buckets buckets [] = buckets
  fill_buckets buckets (item ∷ items) = fill_buckets (push_bucket buckets item) items

module _ {T : Type 0} where
  -- What one pass over the buckets shifts out of them.
  unfoldable pub heads : List (String × List T) → List T
  heads [] = []
  heads ((w, []) ∷ rest) = heads rest
  heads ((w, x ∷ bucket) ∷ rest) = x ∷ heads rest

  -- What that pass leaves in them.
  unfoldable pub tails : List (String × List T) → List (String × List T)
  tails [] = []
  tails ((w, []) ∷ rest) = (w, []) ∷ tails rest
  tails ((w, x ∷ bucket) ∷ rest) = (w, bucket) ∷ tails rest

  -- The `while` loop: it stops at `total` items, or when a pass makes no progress.
  unfoldable pub interleave_rounds : ℕ → ℕ → List T → List (String × List T) → List T
  unfolding heads tails
  interleave_rounds zero total result buckets = result
  interleave_rounds (suc fuel) total result buckets =
      let next = interleave_rounds fuel total (result ++ heads buckets) (tails buckets) in
      if ltb (length result) total
      then elim (heads buckets) [ [] ↦ result | x ∷ xs ↦ next ]
      else result

module _ {T : Type 0} (word_id : T → String) where
  unfoldable pub interleave_by_word_id : List T → List T
  unfolding fill_buckets interleave_rounds
  interleave_by_word_id [] = []
  interleave_by_word_id (x ∷ []) = x ∷ []
  interleave_by_word_id (x ∷ y ∷ items) =
      interleave_rounds (suc (length (x ∷ y ∷ items))) (length (x ∷ y ∷ items)) []
        (fill_buckets word_id [] (x ∷ y ∷ items))

module _ {S : Type 0} (draw : S → ℕ → ℕ × S) {T : Type 0} (word_id : T → String) where
  unfoldable pub shuffle_practice_queue : List T → S → List T × S
  unfolding fisher_yates interleave_by_word_id
  shuffle_practice_queue items s =
      let (shuffled, s') = fisher_yates draw items s in (interleave_by_word_id word_id shuffled, s')

-- `mixed.indexOf(item)`, `none` for -1
unfoldable pub index_of {ℓ} : {T : Type ℓ} → (T → T → Bool) → List T → T → Option ℕ
index_of same [] item = none
index_of same (x ∷ xs) item =
    if same x item
    then some 0
    else elim (index_of same xs item) [ none ↦ none | some i ↦ some (suc i) ]

module _ {S : Type 0} (draw : S → ℕ → ℕ × S) {T : Type 0} (same : T → T → Bool) where
  -- The exchange that moves the retried card out of the first `gap` slots.
  unfoldable pub enforce_gap : List T → T → ℕ → S → List T × S
  unfolding index_of exchange
  enforce_gap mixed item gap s = elim (index_of same mixed item) [
    | none ↦ (mixed, s)
    | some retry_pos ↦
        if ltb retry_pos gap && ltb gap (length mixed)
        then (let (d, s') = draw s (length mixed - gap) in (exchange mixed retry_pos (gap + d), s'))
        else (mixed, s)
  ]

  unfoldable pub insert_retry_card : List T → ℕ → T → S → List T × S
  unfolding enforce_gap fisher_yates
  insert_retry_card queue from_index item s =
      let start : ℕ = min from_index (length queue) in
      let tail : List T = drop start queue in
      let (mixed, s') = fisher_yates draw (tail ++ item ∷ []) s in
      let (spaced, s'') = enforce_gap mixed item (min 2 (length tail)) s' in
      (take start queue ++ spaced, s'')

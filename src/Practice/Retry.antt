-- ===== src/Practice/Retry.antt =====
-- Where a failed card goes: insertRetryCard of features/practice/practiceItemState.ts.
use mathlib.Core.List.{Perm, Permᴰ, perm_append_comm}
use mathlib.Core.List.Perm
use mathlib.Core.Logic.{∥∥₁_elim}
use native.Mathlib.Nat.{ℕ_set}
use project_pn.Prelude.{
  ℕ, zero, suc, ◌+◌, ◌-◌, ◌≤◌, ◌<◌, min, ◌≡◌, refl, sym, ap, ◌∙◌, inl, inr, Bool, false, true, ◌&&◌,
  none, some, List, [], ◌∷◌, ◌++◌, arith, Bool-cases, Option-cases, length, get_elem?, set, take,
  drop, ltb, length-append, length_of_perm, append_assoc, any, count_p, count_p-append,
  count_p-eq-zero, take-append-drop, length-take, length-drop, take-append,
}
use project_pn.Practice.Queue.{exchange, fisher_yates, index_of, enforce_gap, insert_retry_card}
use project_pn.Practice.Shuffle.{exchange-perm, fisher_yates-perm}

module _ {T : Type 0} where
  count_p_of_permᴰ : (p : T → Bool) {xs ys : List T} → Permᴰ xs ys → count_p p xs ≡ count_p p ys
  count_p_of_permᴰ p Permᴰ.nil = refl
  count_p_of_permᴰ p (Permᴰ.cons e d) = rw e (ground (arith, count_p_of_permᴰ p d))
  count_p_of_permᴰ p (Permᴰ.swap e e') = rw (e, e') (ground arith)
  count_p_of_permᴰ p (Permᴰ.trans d d') = count_p_of_permᴰ p d ∙ count_p_of_permᴰ p d'

  count_p_of_perm : (p : T → Bool) {xs ys : List T} → Perm xs ys → count_p p xs ≡ count_p p ys
  count_p_of_perm p d = ∥∥₁_elim d (ℕ_set _ _) (count_p_of_permᴰ p)

  count_p-pos :
      (p : T → Bool) (xs : List T) (i : ℕ) {a : T}
      → get_elem? xs i ≡ some a
      → p a ≡ true
      → 1 ≤ count_p p xs
  count_p-pos p [] i h t = cc
  count_p-pos p (x ∷ xs) zero {a} h t = ground arith
  count_p-pos p (x ∷ xs) (suc i) {a} h t = ground (arith, count_p-pos p xs i {a = a} h t)

  count_p-set :
      (p : T → Bool) (xs : List T) (i : ℕ) (b : T) {a : T}
      → get_elem? xs i ≡ some a
      → p a ≡ true
      → p b ≡ false
      → suc (count_p p (set xs i b)) ≡ count_p p xs
  count_p-set p [] i b h t f = cc
  count_p-set p (x ∷ xs) zero b h t f = ground arith
  count_p-set p (x ∷ xs) (suc i) b {a} h t f = ground (arith, count_p-set p xs i b {a = a} h t f)

  get_elem?-take : (n : ℕ) (xs : List T) (i : ℕ) → i < n → get_elem? (take n xs) i ≡ get_elem? xs i
  get_elem?-take zero xs i h = absurd (omega arith)
  get_elem?-take (suc n) [] i h = refl
  get_elem?-take (suc n) (x ∷ xs) zero h = refl
  get_elem?-take (suc n) (x ∷ xs) (suc i) h = get_elem?-take n xs i (omega arith)

  get_elem?-drop : (n : ℕ) (xs : List T) (i : ℕ) → get_elem? (drop n xs) i ≡ get_elem? xs (n + i)
  get_elem?-drop zero xs i = let e : 0 + i ≡ i = omega arith in rw e
  get_elem?-drop (suc n) [] i = refl
  get_elem?-drop (suc n) (x ∷ xs) i =
      let e : suc n + i ≡ suc (n + i) = omega arith in rw e (get_elem?-drop n xs i)

  take-set_past : (n : ℕ) (xs : List T) (i : ℕ) (v : T) → n ≤ i → take n (set xs i v) ≡ take n xs
  take-set_past zero xs i v h = refl
  take-set_past (suc n) [] i v h = refl
  take-set_past (suc n) (x ∷ xs) zero v h = absurd (omega arith)
  take-set_past (suc n) (x ∷ xs) (suc i) v h = rw (take-set_past n xs i v (omega arith))

  take-set :
      (n : ℕ) (xs : List T) (i : ℕ) (v : T) → i < n → take n (set xs i v) ≡ set (take n xs) i v
  take-set zero xs i v h = absurd (omega arith)
  take-set (suc n) [] i v h = refl
  take-set (suc n) (x ∷ xs) zero v h = refl
  take-set (suc n) (x ∷ xs) (suc i) v h = rw (take-set n xs i v (omega arith))

  take-append_add :
      (n m : ℕ) (xs ys : List T) → length xs ≡ n → take (n + m) (xs ++ ys) ≡ xs ++ take m ys
  take-append_add zero m [] ys e = let z : 0 + m ≡ m = omega arith in rw z
  take-append_add zero m (x ∷ xs) ys e = absurd (omega arith)
  take-append_add (suc n) m [] ys e = absurd (omega arith)
  take-append_add (suc n) m (x ∷ xs) ys e =
      let z : suc n + m ≡ suc (n + m) = omega arith in
      rw (z, take-append_add n m xs ys (omega arith))

  count_p-take-drop :
      (p : T → Bool) (n : ℕ) (xs : List T)
      → count_p p (take n xs) + count_p p (drop n xs) ≡ count_p p xs
  count_p-take-drop p n xs =
      sym (count_p-append p (take n xs) (drop n xs)) ∙ ap (count_p p) (take-append-drop n xs)

  any_of_count_p : (p : T → Bool) (xs : List T) → count_p p xs ≡ 0 → any p xs ≡ false
  any_of_count_p p [] h = refl
  any_of_count_p p (x ∷ xs) h = ground (arith, any_of_count_p p xs)

  get_elem?_of_lt : (xs : List T) (i : ℕ) → i < length xs → (a : T) × (get_elem? xs i ≡ some a)
  get_elem?_of_lt [] i h = absurd (omega arith)
  get_elem?_of_lt (x ∷ xs) zero h = (x, refl)
  get_elem?_of_lt (x ∷ xs) (suc i) h = get_elem?_of_lt xs i (omega arith)

module _ {T : Type 0} (same : T → T → Bool) (item : T) where
  index_of-some :
      (xs : List T) (i : ℕ)
      → index_of same xs item ≡ some i
      → (a : T) × (get_elem? xs i ≡ some a) × (same a item ≡ true)
  unfolding index_of
  index_of-some [] i h = cc
  index_of-some (x ∷ xs) i h = elim (Bool-cases (same x item)) [
    | inl here ↦ let e : zero ≡ i = ground arith in rw (← e) (x, refl, here)
    | inr other ↦ elim (Option-cases (index_of same xs item)) [
      | inl missing ↦ absurd (ground arith)
      | inr (j, found) ↦ let e : suc j ≡ i = ground arith in rw (← e) (index_of-some xs j found)
    ]
  ]

  -- Nothing before the first occurrence is the item.
  count-take_of_index_of :
      (xs : List T) (i n : ℕ)
      → index_of same xs item ≡ some i
      → n ≤ i
      → count_p (λ x. same x item) (take n xs) ≡ 0
  unfolding index_of
  count-take_of_index_of [] i n h le = cc
  count-take_of_index_of (x ∷ xs) i zero h le = refl
  count-take_of_index_of (x ∷ xs) i (suc n) h le = elim (Option-cases (index_of same xs item)) [
    | inl missing ↦ absurd (ground arith)
    | inr (j, found) ↦ ground (arith, count-take_of_index_of xs j n found)
  ]

  count_of_index_of-none :
      (xs : List T) → index_of same xs item ≡ none → count_p (λ x. same x item) xs ≡ 0
  unfolding index_of
  count_of_index_of-none [] h = refl
  count_of_index_of-none (x ∷ xs) h = ground (arith, count_of_index_of-none xs)

module _ {T : Type 0} (p : T → Bool) where
  -- Exchanging the only marked element of the first `gap` slots with one behind them.
  count-take-exchange :
      (xs : List T) (i j gap : ℕ) {a b : T}
      → i < gap
      → gap ≤ j
      → get_elem? xs i ≡ some a
      → get_elem? xs j ≡ some b
      → p a ≡ true
      → count_p p xs ≡ 1
      → count_p p (take gap (exchange xs i j)) ≡ 0
  unfolding exchange
  count-take-exchange xs i j gap {a} {b} lt le ha hb pa one =
      let front : get_elem? (take gap xs) i ≡ some a = get_elem?-take gap xs i lt ∙ ha in
      let j' : gap + (j - gap) ≡ j = omega arith in
      let back : get_elem? (drop gap xs) (j - gap) ≡ some b =
        get_elem?-drop gap xs (j - gap) ∙ ap (get_elem? xs) j' ∙ hb in
      let pb : p b ≡ false = ground (
        arith,
        count_p-take-drop p gap xs,
        count_p-pos p (take gap xs) i front pa,
        count_p-pos p (drop gap xs) (j - gap) back,
      ) in
      rw (ha, hb, exchange, take-set_past gap (set xs i b) j a le, take-set gap xs i b lt)
        (omega (arith, count_p-set p (take gap xs) i b front pa pb, count_p-take-drop p gap xs))

module _ {S : Type 0} (draw : S → ℕ → ℕ × S) {T : Type 0} (same : T → T → Bool) where
  enforce_gap-perm :
      (mixed : List T) (item : T) (gap : ℕ) (s : S)
      → Perm (enforce_gap draw same mixed item gap s).0 mixed
  unfolding enforce_gap
  enforce_gap-perm mixed item gap s = elim (Option-cases (index_of same mixed item)) [
    | inl missing ↦ rw (missing, enforce_gap) (Perm.refl mixed)
    | inr (i, found) ↦ elim (Bool-cases (ltb i gap && ltb gap (length mixed))) [
      | inl close ↦
          rw (found, enforce_gap, close)
            (exchange-perm mixed i (gap + (draw s (length mixed - gap)).0))
      | inr far ↦ rw (found, enforce_gap, far) (Perm.refl mixed)
    ]
  ]

  enforce_gap-count :
      (mixed : List T) (item : T) (gap : ℕ) (s : S)
      → ((s : S) (n : ℕ) → 0 < n → (draw s n).0 < n)
      → count_p (λ x. same x item) mixed ≡ 1
      → gap < length mixed
      → count_p (λ x. same x item) (take gap (enforce_gap draw same mixed item gap s).0) ≡ 0
  unfolding enforce_gap
  enforce_gap-count mixed item gap s fair one room =
      elim (Option-cases (index_of same mixed item)) [
        | inl missing ↦ absurd (omega (arith, count_of_index_of-none same item mixed missing))
        | inr (i, found) ↦ elim (Bool-cases (ltb i gap)) [
          | inr far ↦
              let stay : (ltb i gap && ltb gap (length mixed)) ≡ false = ground arith in
              rw (found, enforce_gap, stay)
                (count-take_of_index_of same item mixed i gap found (ground arith))
          | inl close ↦
              let d : ℕ = (draw s (length mixed - gap)).0 in
              let (a, ha, pa) = index_of-some same item mixed i found in
              let (b, hb) =
                get_elem?_of_lt mixed (gap + d)
                  (omega (arith, fair s (length mixed - gap) (omega arith))) in
              let move : (ltb i gap && ltb gap (length mixed)) ≡ true = ground arith in
              rw (found, enforce_gap, move)
                (count-take-exchange (λ x. same x item) mixed i (gap + d) gap (ground arith)
                  (omega arith) ha hb pa one)
        ]
      ]

  -- Requeueing a card keeps the slots before `from_index` as they are, and the queue then holds
  -- the old cards and the new one, whatever the generator draws.
  pub insert_retry_card-keeps :
      (queue : List T) (from_index : ℕ) (item : T) (s : S)
      → (take
            (min from_index (length queue))
            (insert_retry_card draw same queue from_index item s).0
          ≡ take (min from_index (length queue)) queue)
        × Perm (insert_retry_card draw same queue from_index item s).0 (item ∷ queue)
  unfolding insert_retry_card
  insert_retry_card-keeps queue from_index item s =
      let start : ℕ = min from_index (length queue) in
      let mixed = fisher_yates draw (drop start queue ++ item ∷ []) s in
      let spaced = enforce_gap draw same mixed.0 item (min 2 (length (drop start queue))) mixed.1 in
      (
        take-append start (take start queue) spaced.0 (omega (arith, length-take start queue)),
        Perm.trans
            (Perm.append_left (take start queue) (
              Perm.trans (enforce_gap-perm mixed.0 item (min 2 (length (drop start queue))) mixed.1)
                (fisher_yates-perm draw (drop start queue ++ item ∷ []) s)))
            (rw
              (
                ← append_assoc (take start queue) (drop start queue) (item ∷ []),
                take-append-drop start queue,
              )
              (perm_append_comm queue (item ∷ []))),
      )

  -- A card that is not in the queue yet does not come back in the first two slots after
  -- `from_index`, or in any but the last where fewer cards are left, if every draw is in range.
  pub insert_retry_card-gap :
      (queue : List T) (from_index : ℕ) (item : T) (s : S)
      → ((s : S) (n : ℕ) → 0 < n → (draw s n).0 < n)
      → same item item ≡ true
      → any (λ x. same x item) queue ≡ false
      → let start : ℕ = min from_index (length queue) in
        any
          (λ x. same x item)
          (take
            (start + min 2 (length queue - start))
            (insert_retry_card draw same queue from_index item s).0)
        ≡ false
  unfolding insert_retry_card
  insert_retry_card-gap queue from_index item s fair self fresh =
      let start : ℕ = min from_index (length queue) in
      let rest : List T = drop start queue in
      let gap : ℕ = min 2 (length rest) in
      let p : T → Bool = λ x. same x item in
      let mixed = fisher_yates draw (rest ++ item ∷ []) s in
      let permuted = fisher_yates-perm draw (rest ++ item ∷ []) s in
      let spaced = enforce_gap draw same mixed.0 item gap mixed.1 in
      let split = count_p-take-drop p start queue in
      let none_there = count_p-eq-zero p queue fresh in
      let alone : count_p p (item ∷ []) ≡ 1 = rw self in
      let one : count_p p mixed.0 ≡ 1 = omega (
        arith,
        count_p_of_perm p permuted,
        count_p-append p rest (item ∷ []),
        alone,
        split,
        none_there,
      ) in
      let room : gap < length mixed.0 =
        omega (arith, length_of_perm permuted, length-append rest (item ∷ [])) in
      let e : min 2 (length queue - start) ≡ gap = omega (arith, length-drop start queue) in
      let front : length (take start queue) ≡ start = omega (arith, length-take start queue) in
      any_of_count_p p _ (
        rw (e, take-append_add start gap (take start queue) spaced.0 front)
          (omega (
            arith,
            count_p-append p (take start queue) (take gap spaced.0),
            enforce_gap-count mixed.0 item gap mixed.1 fair one room,
            split,
            none_there,
          )))

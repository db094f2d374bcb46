-- ===== src/Practice/Shuffle.antt =====
-- The cards of a shuffled and interleaved queue: shufflePracticeQueue of
-- features/practice/practiceItemState.ts.
use mathlib.Core.List.{Perm, perm_middle, perm_append_comm}
use mathlib.Core.List.Perm
use project_pn.Prelude.{
  ℕ, zero, suc, ◌+◌, ◌-◌, ◌<◌, String, ◌≡◌, refl, ap, inl, inr, false, true, some, List, [], ◌∷◌,
  ◌++◌, arith, ◌==◌, Bool-cases, Option-cases, List-cases, length, get_elem?, set, ltb,
  length-append, length_of_perm, append-nil, append_assoc,
}
use project_pn.Practice.Queue.{
  exchange, fisher_yates_from, fisher_yates, push_bucket, fill_buckets, heads, tails,
  interleave_rounds, interleave_by_word_id, shuffle_practice_queue,
}

module _ {T : Type 0} where
  swap_head :
      (x : T) (xs : List T) (j : ℕ) {b : T}
      → get_elem? xs j ≡ some b
      → Perm (b ∷ set xs j x) (x ∷ xs)
  swap_head x [] j h = cc
  swap_head x (y ∷ ys) zero {b} h = let e : b ≡ y = cc in rw e (Perm.swap x y ys)
  swap_head x (y ∷ ys) (suc j) {b} h =
      Perm.trans (Perm.swap y b (set ys j x))
        (Perm.trans (Perm.cons y (swap_head x ys j h)) (Perm.swap x y ys))

  set_set-perm :
      (xs : List T) (i j : ℕ) {a b : T}
      → get_elem? xs i ≡ some a
      → get_elem? xs j ≡ some b
      → Perm (set (set xs i b) j a) xs
  set_set-perm [] i j ha hb = cc
  set_set-perm (x ∷ xs) zero zero {a} {b} ha hb = let e : a ≡ x = cc in rw e (Perm.refl (x ∷ xs))
  set_set-perm (x ∷ xs) zero (suc j) {a} {b} ha hb =
      let e : a ≡ x = cc in rw e (swap_head x xs j hb)
  set_set-perm (x ∷ xs) (suc i) zero {a} {b} ha hb =
      let e : b ≡ x = cc in rw e (swap_head x xs i ha)
  set_set-perm (x ∷ xs) (suc i) (suc j) ha hb = Perm.cons x (set_set-perm xs i j ha hb)

  -- An exchange permutes, in range or out of it.
  pub exchange-perm : (xs : List T) (i j : ℕ) → Perm (exchange xs i j) xs
  unfolding exchange
  exchange-perm xs i j = elim (Option-cases (get_elem? xs i)) [
    | inl out ↦ rw (out, exchange) (Perm.refl xs)
    | inr (a, ha) ↦ elim (Option-cases (get_elem? xs j)) [
      | inl out ↦ rw (ha, out, exchange) (Perm.refl xs)
      | inr (b, hb) ↦ rw (ha, hb, exchange) (set_set-perm xs i j ha hb)
    ]
  ]

module _ {S : Type 0} (draw : S → ℕ → ℕ × S) {T : Type 0} where
  fisher_yates_from-perm : (i : ℕ) (xs : List T) (s : S) → Perm (fisher_yates_from draw i xs s).0 xs
  unfolding fisher_yates_from
  fisher_yates_from-perm zero xs s = Perm.refl xs
  fisher_yates_from-perm (suc i) xs s =
      let (j, s') = draw s (suc i + 1) in
      Perm.trans (fisher_yates_from-perm i (exchange xs (suc i) j) s') (exchange-perm xs (suc i) j)

  pub fisher_yates-perm : (xs : List T) (s : S) → Perm (fisher_yates draw xs s).0 xs
  unfolding fisher_yates
  fisher_yates-perm xs s = fisher_yates_from-perm (length xs - 1) xs s

-- All that the buckets hold.
abbrev contents : {T : Type 0} → List (String × List T) → List T
contents [] = []
contents ((w, bucket) ∷ rest) = bucket ++ contents rest

module _ {T : Type 0} where
  append_left_comm : (xs ys zs : List T) → Perm (xs ++ (ys ++ zs)) (ys ++ (xs ++ zs))
  append_left_comm xs ys zs =
      rw (← append_assoc xs ys zs, ← append_assoc ys xs zs)
        (Perm.append_right zs (perm_append_comm xs ys))

  -- A pass splits the contents into what it shifts and what it leaves.
  heads-tails-perm :
      (bs : List (String × List T)) → Perm (heads bs ++ contents (tails bs)) (contents bs)
  unfolding heads tails
  heads-tails-perm [] = Perm.refl []
  heads-tails-perm ((w, []) ∷ rest) = heads-tails-perm rest
  heads-tails-perm ((w, x ∷ bucket) ∷ rest) = Perm.cons x (
      Perm.trans (append_left_comm (heads rest) bucket (contents (tails rest)))
        (Perm.append_left bucket (heads-tails-perm rest)))

  contents_of_no_heads : (bs : List (String × List T)) → heads bs ≡ [] → contents bs ≡ []
  unfolding heads
  contents_of_no_heads [] h = refl
  contents_of_no_heads ((w, []) ∷ rest) h = contents_of_no_heads rest h
  contents_of_no_heads ((w, x ∷ bucket) ∷ rest) h = cc

  length-contents :
      (bs : List (String × List T))
      → length (heads bs) + length (contents (tails bs)) ≡ length (contents bs)
  length-contents bs =
      omega (
        arith,
        length-append (heads bs) (contents (tails bs)),
        length_of_perm (heads-tails-perm bs),
      )

  nil_of_length : (xs : List T) → length xs ≡ 0 → xs ≡ []
  nil_of_length [] h = refl
  nil_of_length (x ∷ xs) h = absurd (omega arith)

  interleave_rounds_step :
      (fuel total : ℕ) (result : List T) (bs : List (String × List T)) {x : T} {xs : List T}
      → ltb (length result) total ≡ true
      → heads bs ≡ x ∷ xs
      → interleave_rounds (suc fuel) total result bs
        ≡ interleave_rounds fuel total (result ++ heads bs) (tails bs)
  unfolding interleave_rounds
  interleave_rounds_step fuel total result bs more shifted = ground arith

  interleave_rounds_done :
      (fuel total : ℕ) (result : List T) (bs : List (String × List T))
      → ltb (length result) total ≡ false
      → interleave_rounds (suc fuel) total result bs ≡ result
  unfolding interleave_rounds
  interleave_rounds_done fuel total result bs done = ground arith

  -- With more fuel than cards left, the loop ends with all of them in the result.
  interleave_rounds-perm :
      (fuel total : ℕ) (result : List T) (bs : List (String × List T))
      → length (contents bs) < fuel
      → length result + length (contents bs) ≡ total
      → Perm (interleave_rounds fuel total result bs) (result ++ contents bs)
  interleave_rounds-perm zero total result bs h e = absurd (omega arith)
  interleave_rounds-perm (suc fuel) total result bs h e =
      elim (Bool-cases (ltb (length result) total)) [
        | inr done ↦
            let none_left : contents bs ≡ [] = nil_of_length (contents bs) (ground arith) in
            rw (interleave_rounds_done fuel total result bs done, none_left, append-nil)
              (Perm.refl result)
        | inl more ↦ elim (List-cases (heads bs)) [
          | inl stuck ↦ absurd (grind (arith, ap length (contents_of_no_heads bs stuck)))
          | inr (x, xs, shifted) ↦
              let count = length-contents bs in
              rw (interleave_rounds_step fuel total result bs more shifted) (
                Perm.trans
                  (interleave_rounds-perm fuel total (result ++ heads bs) (tails bs)
                    (omega (arith, count, ap length shifted))
                    (omega (arith, count, length-append result (heads bs))))
                  (rw append_assoc (Perm.append_left result (heads-tails-perm bs))))
        ]
      ]

module _ {T : Type 0} (word_id : T → String) where
  push_bucket-perm :
      (bs : List (String × List T)) (item : T)
      → Perm (contents (push_bucket word_id bs item)) (item ∷ contents bs)
  unfolding push_bucket
  push_bucket-perm [] item = Perm.refl (item ∷ [])
  push_bucket-perm ((w, bucket) ∷ rest) item = elim (Bool-cases (w == word_id item)) [
    | inl same ↦ rw (same, append_assoc) (perm_middle bucket (contents rest))
    | inr other ↦ rw other (
        Perm.trans (Perm.append_left bucket (push_bucket-perm rest item))
          (perm_middle bucket (contents rest)))
  ]

  fill_buckets-perm :
      (bs : List (String × List T)) (items : List T)
      → Perm (contents (fill_buckets word_id bs items)) (items ++ contents bs)
  unfolding fill_buckets
  fill_buckets-perm bs [] = Perm.refl (contents bs)
  fill_buckets-perm bs (item ∷ items) =
      Perm.trans (fill_buckets-perm (push_bucket word_id bs item) items) (
        Perm.trans (Perm.append_left items (push_bucket-perm bs item))
          (perm_middle items (contents bs)))

  pub interleave-perm : (items : List T) → Perm (interleave_by_word_id word_id items) items
  unfolding interleave_by_word_id
  interleave-perm [] = Perm.refl []
  interleave-perm (x ∷ []) = Perm.refl (x ∷ [])
  interleave-perm (x ∷ y ∷ items) =
      let all : List T = x ∷ y ∷ items in
      let filled = fill_buckets-perm [] all in
      let count = length_of_perm filled in
      Perm.trans
        (interleave_rounds-perm (suc (length all)) (length all) [] (fill_buckets word_id [] all)
          (rw (count, append-nil) (omega arith)) (rw (count, append-nil) (omega arith)))
        (rw append-nil at filled)

module _ {S : Type 0} (draw : S → ℕ → ℕ × S) {T : Type 0} (word_id : T → String) where
  -- Whatever the generator draws, in range or not, the shuffled queue holds exactly the items that
  -- it was given: no card is lost, repeated or invented, and the interleaving loop ends by itself.
  pub shuffle_practice_queue-perm :
      (items : List T) (s : S) → Perm (shuffle_practice_queue draw word_id items s).0 items
  unfolding shuffle_practice_queue
  shuffle_practice_queue-perm items s =
      Perm.trans (interleave-perm word_id (fisher_yates draw items s).0)
        (fisher_yates-perm draw items s)

-- ===== src/Add/Capture/Spans.antt =====
-- The spans of a passage and their lists: frontend/src/components/TappablePassage.tsx and
-- frontend/src/features/add/CaptureSection.tsx.
use project_pn.Prelude.{
  ℕ, ◌+◌, ◌≡◌, ◌≤◌, ◌<◌, ◌⊎◌, inl, inr, refl, sym, ap, ◌∙◌, String, Bool, some, is_some, List, [],
  ◌∷◌, ◌++◌, filter, find, get_elem?, arith, All, All-append, All-filter, subst, zero, suc,
  Bool-cases,
}
use project_pn.Add.Passage.{
  Matching, WordToken, PassageSpan, number_words, words_among, join_words, is_within,
}
use project_pn.Add.Capture.{is_same_span, remove_first, is_apart, toggle_span}

-- The words of a range, in order.
abbrev pub phrase : List WordToken → (lo hi : ℕ) → String
phrase words lo hi = join_words (filter (is_within lo hi) words)

abbrev pub IsSpan : List WordToken → PassageSpan → Type 0
IsSpan words s = (s.start ≤ s.end) × (s.text ≡ phrase words s.start s.end)

abbrev pub AreApart : PassageSpan → PassageSpan → Type 0
AreApart t s = (s.end < t.start) ⊎ (t.end < s.start)

abbrev pub IsApart : List PassageSpan → Type 0
IsApart [] = Unit
IsApart (s ∷ rest) = All (λ t. AreApart t s) rest × IsApart rest

All-remove_first :
    (P : PassageSpan → Type 0) (p : PassageSpan → Bool) (xs : List PassageSpan)
    → All P xs
    → All P (remove_first p xs)
All-remove_first P p [] h = h
All-remove_first P p (x ∷ xs) (px, h) = elim (Bool-cases (p x)) [
  | inl found ↦ rw found h
  | inr other ↦ rw other (px, All-remove_first P p xs h)
]

filter-AreApart :
    (span : PassageSpan) (xs : List PassageSpan)
    → All (λ s. AreApart span s) (filter (is_apart span) xs)
filter-AreApart span [] = tt
filter-AreApart span (x ∷ xs) = elim (Bool-cases (is_apart span x)) [
  | inl kept ↦ rw kept (ground arith, filter-AreApart span xs)
  | inr dropped ↦ rw dropped (filter-AreApart span xs)
]

filter-IsApart :
    (p : PassageSpan → Bool) (xs : List PassageSpan) → IsApart xs → IsApart (filter p xs)
filter-IsApart p [] h = h
filter-IsApart p (x ∷ xs) (hx, h) = elim (Bool-cases (p x)) [
  | inl kept ↦ rw kept (All-filter (λ t. AreApart t x) p xs hx, filter-IsApart p xs h)
  | inr dropped ↦ rw dropped (filter-IsApart p xs h)
]

remove_first-IsApart :
    (p : PassageSpan → Bool) (xs : List PassageSpan) → IsApart xs → IsApart (remove_first p xs)
remove_first-IsApart p [] h = h
remove_first-IsApart p (x ∷ xs) (hx, h) = elim (Bool-cases (p x)) [
  | inl found ↦ rw found h
  | inr other ↦ rw other (All-remove_first (λ t. AreApart t x) p xs hx, remove_first-IsApart p xs h)
]

snoc-IsApart :
    (span : PassageSpan) (xs : List PassageSpan)
    → IsApart xs
    → All (λ s. AreApart span s) xs
    → IsApart (xs ++ span ∷ [])
snoc-IsApart span [] h apart = (tt, tt)
snoc-IsApart span (x ∷ xs) (hx, h) (ax, apart) =
    (All-append (λ t. AreApart t x) xs (span ∷ []) hx (ax, tt), snoc-IsApart span xs h apart)

-- Toggling keeps the selected spans apart, whatever span is toggled.
pub toggle_span-IsApart :
    (span : PassageSpan) (xs : List PassageSpan) → IsApart xs → IsApart (toggle_span span xs)
unfolding toggle_span
toggle_span-IsApart span xs h = elim (Bool-cases (is_some (find (is_same_span span) xs))) [
  | inl selected ↦ rw selected (remove_first-IsApart (is_same_span span) xs h)
  | inr new ↦ rw new (
      snoc-IsApart span (filter (is_apart span) xs) (filter-IsApart (is_apart span) xs h)
        (filter-AreApart span xs))
]

pub toggle_span-All :
    (P : PassageSpan → Type 0) (span : PassageSpan) (xs : List PassageSpan)
    → P span
    → All P xs
    → All P (toggle_span span xs)
unfolding toggle_span
toggle_span-All P span xs good h = elim (Bool-cases (is_some (find (is_same_span span) xs))) [
  | inl selected ↦ rw selected (All-remove_first P (is_same_span span) xs h)
  | inr new ↦ rw new (
      All-append P (filter (is_apart span) xs) (span ∷ []) (All-filter P (is_apart span) xs h)
        (good, tt))
]

-- The words of a passage are numbered from `n`.
abbrev pub IsNumbered : ℕ → List WordToken → Type 0
IsNumbered n [] = Unit
IsNumbered n (w ∷ ws) = (w.word_index ≡ n) × IsNumbered (n + 1) ws

pub number_words-IsNumbered :
    (matching : Matching) (n : ℕ) (raws : List String)
    → IsNumbered n (words_among (number_words matching n raws))
number_words-IsNumbered matching n [] = tt
number_words-IsNumbered matching n (raw ∷ raws) =
    elim (Bool-cases (matching.has_word_character raw)) [
      | inl word ↦ rw word (refl, number_words-IsNumbered matching (n + 1) raws)
      | inr other ↦ rw other (number_words-IsNumbered matching n raws)
    ]

filter-before :
    (n k : ℕ) (ws : List WordToken) → IsNumbered n ws → k < n → filter (is_within k k) ws ≡ []
filter-before n k [] h before = refl
filter-before n k (w ∷ ws) (e, h) before = ground (arith, filter-before (n + 1) k ws h)

index_of_word :
    (n place : ℕ) (ws : List WordToken) (w : WordToken)
    → IsNumbered n ws
    → get_elem? ws place ≡ some w
    → w.word_index ≡ n + place
index_of_word n place [] w h e = cc
index_of_word n zero (v ∷ ws) w (numbered, h) e =
    let same : v ≡ w = ground arith in ap (λ u. u.word_index) (sym same) ∙ omega (arith, numbered)
index_of_word n (suc place) (v ∷ ws) w (numbered, h) e =
    omega (arith, index_of_word (n + 1) place ws w h e)

filter-first :
    (n : ℕ) (ws : List WordToken) (v : WordToken)
    → IsNumbered n (v ∷ ws)
    → filter (is_within v.word_index v.word_index) (v ∷ ws) ≡ v ∷ []
filter-first n ws v (numbered, h) =
    ground (arith, filter-before (n + 1) v.word_index ws h (omega arith))

-- A word is all that its own index selects.
pub filter-word :
    (n place : ℕ) (ws : List WordToken) (w : WordToken)
    → IsNumbered n ws
    → get_elem? ws place ≡ some w
    → filter (is_within w.word_index w.word_index) ws ≡ w ∷ []
filter-word n place [] w h e = cc
filter-word n zero (v ∷ ws) w h e =
    subst (λ u. filter (is_within u.word_index u.word_index) (v ∷ ws) ≡ u ∷ []) (ground arith)
      (filter-first n ws v h)
filter-word n (suc place) (v ∷ ws) w (numbered, h) e =
    ground (arith, index_of_word (n + 1) place ws w h e, filter-word (n + 1) place ws w h e)

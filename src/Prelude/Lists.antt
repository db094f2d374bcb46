-- ===== src/Prelude/Lists.antt =====
-- Lists measured and indexed by native numbers, and the Boolean searches of JavaScript arrays.
use Prim.Native.Nat.{ℕ, zero, suc, ◌+◌, ◌-◌, ◌≤◌, min}
use mathlib.Core.Path.{◌≡◌, refl, ap, subst, ◌∙◌}
use mathlib.Core.Bool.{Bool, true, false, ◌||◌}
use mathlib.Core.Option.{Option, none, some}
use mathlib.Core.List.{List, [], ◌∷◌, ◌++◌, map, Perm, Permᴰ}
use mathlib.Core.Logic.{∥∥₁_elim, ◌⊎◌, inl, inr}
use native.Mathlib.Nat.{ℕ_set}
use native.Mathlib.Omega.{arith}
use project_pn.Prelude.Tests.{if◌then◌else◌, Bool-cases}

module _ {ℓ} {A : Type ℓ} where
  abbrev pub length : List A → ℕ
  length [] = 0
  length (x ∷ xs) = suc (length xs)

  pub List-cases : (xs : List A) → (xs ≡ []) ⊎ ((x : A) × (ys : List A) × (xs ≡ x ∷ ys))
  List-cases [] = inl refl
  List-cases (x ∷ xs) = inr (x, xs, refl)

  abbrev pub get_elem? : List A → ℕ → Option A
  get_elem? [] i = none
  get_elem? (x ∷ xs) zero = some x
  get_elem? (x ∷ xs) (suc i) = get_elem? xs i

  -- A write out of bounds changes nothing.
  abbrev pub set : List A → ℕ → A → List A
  set [] i v = []
  set (x ∷ xs) zero v = v ∷ xs
  set (x ∷ xs) (suc i) v = x ∷ set xs i v

  -- `slice(0, n)`
  abbrev pub take : ℕ → List A → List A
  take zero xs = []
  take (suc n) [] = []
  take (suc n) (x ∷ xs) = x ∷ take n xs

  -- `slice(n)`
  abbrev pub drop : ℕ → List A → List A
  drop zero xs = xs
  drop (suc n) [] = []
  drop (suc n) (x ∷ xs) = drop n xs

  abbrev pub filter : (A → Bool) → List A → List A
  filter p [] = []
  filter p (x ∷ xs) = if p x then x ∷ filter p xs else filter p xs

  abbrev pub find : (A → Bool) → List A → Option A
  find p [] = none
  find p (x ∷ xs) = if p x then some x else find p xs

  abbrev pub any : (A → Bool) → List A → Bool
  any p [] = false
  any p (x ∷ xs) = p x || any p xs

  -- how many elements pass a test
  abbrev pub count_p : (A → Bool) → List A → ℕ
  count_p p [] = 0
  count_p p (x ∷ xs) = if p x then suc (count_p p xs) else count_p p xs

  pub length-append : (xs ys : List A) → length (xs ++ ys) ≡ length xs + length ys
  length-append [] ys = omega arith
  length-append (x ∷ xs) ys = omega (arith, length-append xs ys)

  pub take-append-drop : (n : ℕ) (xs : List A) → take n xs ++ drop n xs ≡ xs
  take-append-drop zero xs = refl
  take-append-drop (suc n) [] = refl
  take-append-drop (suc n) (x ∷ xs) = rw (take-append-drop n xs)

  pub length-take : (n : ℕ) (xs : List A) → length (take n xs) ≡ min n (length xs)
  length-take zero xs = omega arith
  length-take (suc n) [] = omega arith
  length-take (suc n) (x ∷ xs) = omega (arith, length-take n xs)

  pub length-drop : (n : ℕ) (xs : List A) → length (drop n xs) ≡ length xs - n
  length-drop zero xs = omega arith
  length-drop (suc n) [] = omega arith
  length-drop (suc n) (x ∷ xs) = omega (arith, length-drop n xs)

  -- The first elements of a list that begins with `xs`.
  pub take-append : (n : ℕ) (xs ys : List A) → length xs ≡ n → take n (xs ++ ys) ≡ xs
  take-append zero [] ys e = refl
  take-append zero (x ∷ xs) ys e = absurd (omega arith)
  take-append (suc n) [] ys e = absurd (omega arith)
  take-append (suc n) (x ∷ xs) ys e = rw (take-append n xs ys (omega arith))

  pub length-filter : (p : A → Bool) (xs : List A) → length (filter p xs) ≡ count_p p xs
  length-filter p [] = refl
  length-filter p (x ∷ xs) = ground (arith, length-filter p xs)

  pub count_p-le-length : (p : A → Bool) (xs : List A) → count_p p xs ≤ length xs
  count_p-le-length p [] = omega arith
  count_p-le-length p (x ∷ xs) = ground (arith, count_p-le-length p xs)

  -- A weaker test counts at least as many.
  pub count_p_mono :
      (p q : A → Bool) (xs : List A)
      → ((a : A) → p a ≡ true → q a ≡ true)
      → count_p p xs ≤ count_p q xs
  count_p_mono p q [] h = omega arith
  count_p_mono p q (x ∷ xs) h = ground (arith, h x, count_p_mono p q xs h)

  pub count_p-append :
      (p : A → Bool) (xs ys : List A) → count_p p (xs ++ ys) ≡ count_p p xs + count_p p ys
  count_p-append p [] ys = omega arith
  count_p-append p (x ∷ xs) ys = ground (arith, count_p-append p xs ys)

  pub count_p-eq-zero : (p : A → Bool) (xs : List A) → any p xs ≡ false → count_p p xs ≡ 0
  count_p-eq-zero p [] h = refl
  count_p-eq-zero p (x ∷ xs) h = ground (arith, count_p-eq-zero p xs)

  pub filter-append :
      (p : A → Bool) (xs ys : List A) → filter p (xs ++ ys) ≡ filter p xs ++ filter p ys
  filter-append p [] ys = refl
  filter-append p (x ∷ xs) ys = ground (arith, filter-append p xs ys)

  pub any-append : (p : A → Bool) (xs ys : List A) → any p (xs ++ ys) ≡ (any p xs || any p ys)
  any-append p [] ys = refl
  any-append p (x ∷ xs) ys = ground (arith, any-append p xs ys)

  pub find-eq-none : (p : A → Bool) (xs : List A) → find p xs ≡ none → any p xs ≡ false
  find-eq-none p [] h = refl
  find-eq-none p (x ∷ xs) h = ground (arith, find-eq-none p xs)

  length_of_permᴰ : {xs ys : List A} → Permᴰ xs ys → length xs ≡ length ys
  length_of_permᴰ Permᴰ.nil = refl
  length_of_permᴰ (Permᴰ.cons e d) = ap suc (length_of_permᴰ d)
  length_of_permᴰ (Permᴰ.swap e e') = refl
  length_of_permᴰ (Permᴰ.trans d d') = length_of_permᴰ d ∙ length_of_permᴰ d'

  pub length_of_perm : {xs ys : List A} → Perm xs ys → length xs ≡ length ys
  length_of_perm p = ∥∥₁_elim p (ℕ_set _ _) length_of_permᴰ

  -- A predicate on every element, which computes to a tuple.
  abbrev pub All {κ} : (A → Type κ) → List A → Type κ
  All P [] = Unit
  All P (x ∷ xs) = P x × All P xs

  pub All-append {κ} : (P : A → Type κ) (xs ys : List A) → All P xs → All P ys → All P (xs ++ ys)
  All-append P [] ys hx hy = hy
  All-append P (x ∷ xs) ys hx hy = (hx.0, All-append P xs ys hx.1 hy)

  pub All-implies {κ κ'} :
      (P : A → Type κ) (Q : A → Type κ')
      → ((a : A) → P a → Q a)
      → (xs : List A) → All P xs
      → All Q xs
  All-implies P Q f [] h = tt
  All-implies P Q f (x ∷ xs) h = (f x h.0, All-implies P Q f xs h.1)

  pub All-filter {κ} :
      (P : A → Type κ) (p : A → Bool) (xs : List A) → All P xs → All P (filter p xs)
  All-filter P p [] h = h
  All-filter P p (x ∷ xs) h = elim (Bool-cases (p x)) [
    | inl kept ↦ rw kept (h.0, All-filter P p xs h.1)
    | inr dropped ↦ rw dropped (All-filter P p xs h.1)
  ]

  pub All-find {κ} :
      (P : A → Type κ) (p : A → Bool) (xs : List A) (a : A) → All P xs → find p xs ≡ some a → P a
  All-find P p [] a h e = cc
  All-find P p (x ∷ xs) a h e = elim (Bool-cases (p x)) [
    | inl found ↦ subst P (ground arith) h.0
    | inr other ↦ All-find P p xs a h.1 (ground arith)
  ]

  pub All-get_elem? {κ} :
      (P : A → Type κ) (xs : List A) (i : ℕ) (a : A) → All P xs → get_elem? xs i ≡ some a → P a
  All-get_elem? P [] i a h e = cc
  All-get_elem? P (x ∷ xs) zero a h e = subst P (ground arith) h.0
  All-get_elem? P (x ∷ xs) (suc i) a h e = All-get_elem? P xs i a h.1 e

module _ {ℓ κ} {A : Type ℓ} {B : Type κ} where
  pub take-map : (f : A → B) (n : ℕ) (xs : List A) → take n (map f xs) ≡ map f (take n xs)
  take-map f zero xs = refl
  take-map f (suc n) [] = refl
  take-map f (suc n) (x ∷ xs) = rw (take-map f n xs)

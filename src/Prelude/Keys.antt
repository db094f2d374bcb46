-- ===== src/Prelude/Keys.antt =====
-- JavaScript's `Set`, `Map` and string-keyed objects: lists in insertion order.
use Prim.Native.String.{String}
use mathlib.Core.Path.{◌≡◌, refl}
use mathlib.Core.Bool.{Bool, true, false, ◌||◌}
use Prim.Native.Nat.{suc}
use mathlib.Core.Logic.{inl, inr}
use mathlib.Core.Option.{Option, none, some}
use mathlib.Core.List.{List, [], ◌∷◌, ◌++◌}
use native.Mathlib.Omega.{arith}
use text.Mathlib.Text.{◌==◌}
use text.Mathlib.TextEquality.{eq_iff}
use text.Mathlib.TextPositions.{eq_refl}
use project_pn.Prelude.Tests.{if◌then◌else◌, or_option, Bool-cases}
use project_pn.Prelude.Lists.{count_p}

-- `includes`, `Set.has`
abbrev pub contains : List String → String → Bool
contains [] k = false
contains (x ∷ xs) k = x == k || contains xs k

-- `Set.add`
abbrev pub add : List String → String → List String
add xs k = if contains xs k then xs else xs ++ k ∷ []

module _ {ℓ} {V : Type ℓ} where
  -- `Map.get`, `object[key]`
  abbrev pub get : List (String × V) → String → Option V
  get [] k = none
  get ((j, v) ∷ m) k = if j == k then some v else get m k

  -- `Map.set`, `object[key] = v`
  abbrev pub put : List (String × V) → String → V → List (String × V)
  put [] k v = (k, v) ∷ []
  put ((j, w) ∷ m) k v = if j == k then (k, v) ∷ m else (j, w) ∷ put m k v

  -- `delete object[key]`
  abbrev pub remove : List (String × V) → String → List (String × V)
  remove [] k = []
  remove ((j, w) ∷ m) k = if j == k then remove m k else (j, w) ∷ remove m k

  pub get-put :
      (m : List (String × V)) (k j : String) (v : V)
      → get (put m k v) j ≡ (if k == j then some v else get m j)
  get-put [] k j v = refl
  get-put ((i, w) ∷ m) k j v = ground (arith, eq_iff k j, eq_iff i k, eq_iff i j, get-put m k j v)

  pub get-remove :
      (m : List (String × V)) (k j : String)
      → get (remove m k) j ≡ (if k == j then none else get m j)
  get-remove [] k j = ground arith
  get-remove ((i, w) ∷ m) k j = ground (arith, eq_iff k j, eq_iff i k, eq_iff i j, get-remove m k j)

pub contains-append :
    (xs ys : List String) (k : String) → contains (xs ++ ys) k ≡ (contains xs k || contains ys k)
contains-append [] ys k = refl
contains-append (x ∷ xs) ys k = ground (arith, contains-append xs ys k)

pub contains-add :
    (xs : List String) (k j : String) → contains (add xs k) j ≡ (contains xs j || k == j)
contains-add xs k j = ground (arith, contains-append xs (k ∷ []) j, eq_iff k j)

-- `new Set(list)`
abbrev add_all : List String → List String → List String
add_all s [] = s
add_all s (k ∷ ks) = add_all (add s k) ks

abbrev pub set_of : List String → List String
set_of ks = add_all [] ks

contains-add_all :
    (s ks : List String) (k : String) → contains (add_all s ks) k ≡ (contains s k || contains ks k)
contains-add_all s [] k = ground arith
contains-add_all s (j ∷ ks) k = ground (arith, contains-add_all (add s j) ks k, contains-add s j k)

pub contains-set_of : (ks : List String) (k : String) → contains (set_of ks) k ≡ contains ks k
contains-set_of ks k = contains-add_all [] ks k

-- No element stands twice.
abbrev pub IsDistinct : List String → Type 0
IsDistinct [] = Unit
IsDistinct (x ∷ xs) = (contains xs x ≡ false) × IsDistinct xs

IsDistinct-concat :
    (xs : List String) (k : String)
    → IsDistinct xs
    → contains xs k ≡ false
    → IsDistinct (xs ++ k ∷ [])
IsDistinct-concat [] k d h = (refl, tt)
IsDistinct-concat (x ∷ xs) k d h = (
  ground (arith, contains-append xs (k ∷ []) x, eq_iff x k, eq_iff k x, d.0),
  IsDistinct-concat xs k d.1 (ground arith),
)

IsDistinct-add : (xs : List String) (k : String) → IsDistinct xs → IsDistinct (add xs k)
IsDistinct-add xs k d = elim (Bool-cases (contains xs k)) [
  | inl old ↦ rw old d
  | inr new ↦ rw new (IsDistinct-concat xs k d new)
]

IsDistinct-add_all : (s ks : List String) → IsDistinct s → IsDistinct (add_all s ks)
IsDistinct-add_all s [] d = d
IsDistinct-add_all s (k ∷ ks) d = IsDistinct-add_all (add s k) ks (IsDistinct-add s k d)

pub IsDistinct-set_of : (ks : List String) → IsDistinct (set_of ks)
IsDistinct-set_of ks = IsDistinct-add_all [] ks tt

pub or-true : (b : Bool) → (b || true) ≡ true
or-true true = refl
or-true false = refl

-- Tests that agree on the members of a list count alike.
pub count_p_congr :
    (p q : String → Bool) (ks : List String)
    → ((k : String) → contains ks k ≡ true → p k ≡ q k)
    → count_p p ks ≡ count_p q ks
count_p_congr p q [] h = refl
count_p_congr p q (k ∷ ks) h =
    ground (arith, h k (rw eq_refl), count_p_congr p q ks (λ j m. h j (rw m (or-true (k == j)))))

contains-append_other :
    (done ks : List String) (k j : String)
    → contains ks k ≡ false
    → contains ks j ≡ true
    → contains (done ++ k ∷ []) j ≡ contains done j
contains-append_other done ks k j h n = elim (Bool-cases (k == j)) [
  | inl same ↦ absurd (let e : k ≡ j = (eq_iff k j).0 same in cc (rw e at h))
  | inr other ↦ ground (arith, contains-append done (k ∷ []) j)
]

-- One more member of a set counts once more among the distinct keys that hold it.
pub count_p-add :
    (done ks : List String) (k : String)
    → IsDistinct ks
    → contains ks k ≡ true
    → contains done k ≡ false
    → count_p (contains (done ++ k ∷ [])) ks ≡ suc (count_p (contains done) ks)
count_p-add done [] k d m h = cc
count_p-add done (x ∷ ks) k d m h = elim (Bool-cases (x == k)) [
  | inl same ↦
      let e : x ≡ k = (eq_iff x k).0 same in
      let others : count_p (contains (done ++ k ∷ [])) ks ≡ count_p (contains done) ks =
        count_p_congr (contains (done ++ k ∷ [])) (contains done) ks
          (λ j n. contains-append_other done ks k j (rw e at d.0) n) in
      rw e (ground (arith, others, contains-append done (k ∷ []) k, eq_refl k))
  | inr other ↦
      ground
        (arith, contains-append done (k ∷ []) x, eq_iff k x, eq_iff x k, count_p-add done ks k d.1)
]

module _ {ℓ} {V : Type ℓ} where
  -- `new Map(entries)`: a later entry replaces an earlier one.
  abbrev pub put_all : List (String × V) → List (String × V) → List (String × V)
  put_all m [] = m
  put_all m ((k, v) ∷ kvs) = put_all (put m k v) kvs

  -- The value of the last entry with a key.
  abbrev pub get_last : List (String × V) → String → Option V
  get_last [] k = none
  get_last ((j, v) ∷ kvs) k = or_option (get_last kvs k) (if j == k then some v else none)

  pub get-put_all :
      (m kvs : List (String × V)) (k : String)
      → get (put_all m kvs) k ≡ or_option (get_last kvs k) (get m k)
  get-put_all m [] k = refl
  get-put_all m ((j, v) ∷ kvs) k = ground (arith, get-put_all (put m j v) kvs k, get-put m j k v)

pub ruleset key_laws = (get-put, get-remove, contains-add, eq_refl)

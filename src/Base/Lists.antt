-- ===== src/Base/Lists.antt =====
-- Lists measured and indexed by native numbers, under the library's names.
use Prim.Native.Nat.{ℕ, zero, suc, ◌+◌, ◌≤◌, ◌<◌}
use mathlib.Core.Path.{◌≡◌, refl, ap}
use mathlib.Core.Logic.{◌⊎◌}
use mathlib.Core.List.{List, [], ◌∷◌, ◌++◌}
use mathlib.Core.Option.{Option, none, some}
use native.Mathlib.Omega.{arith}
use vmnet_broker.Base.Tests.{◌==◌, if◌then◌else◌}

module _ {ℓ} {A : Type ℓ} where
  abbrev pub length : List A → ℕ
  length [] = 0
  length (x ∷ xs) = suc (length xs)

  abbrev pub get_elem? : List A → ℕ → Option A
  get_elem? [] i = none
  get_elem? (x ∷ xs) zero = some x
  get_elem? (x ∷ xs) (suc i) = get_elem? xs i

  -- A write out of bounds changes nothing; callers test the bound.
  abbrev pub set : List A → ℕ → A → List A
  set [] i v = []
  set (x ∷ xs) zero v = v ∷ xs
  set (x ∷ xs) (suc i) v = x ∷ set xs i v

  abbrev pub take : ℕ → List A → List A
  take zero xs = []
  take (suc n) [] = []
  take (suc n) (x ∷ xs) = x ∷ take n xs

  abbrev pub drop : ℕ → List A → List A
  drop zero xs = xs
  drop (suc n) [] = []
  drop (suc n) (x ∷ xs) = drop n xs

  abbrev pub replicate : ℕ → A → List A
  replicate zero a = []
  replicate (suc n) a = a ∷ replicate n a

  pub length-set : (xs : List A) (i : ℕ) (v : A) → length (set xs i v) ≡ length xs
  length-set [] i v = refl
  length-set (x ∷ xs) zero v = refl
  length-set (x ∷ xs) (suc i) v = ap suc (length-set xs i v)

  pub length-take_of_le : (n : ℕ) (xs : List A) → n ≤ length xs → length (take n xs) ≡ n
  length-take_of_le zero xs h = refl
  length-take_of_le (suc n) [] h = elim h [ ]
  length-take_of_le (suc n) (x ∷ xs) h = omega (arith, length-take_of_le n xs)

  -- A write just behind the first `n` elements is an append to them.
  pub take-set :
      (n : ℕ) (xs : List A) (v : A)
      → n < length xs
      → take (suc n) (set xs n v) ≡ take n xs ++ v ∷ []
  take-set zero [] v h = elim h [ ]
  take-set zero (x ∷ xs) v h = refl
  take-set (suc n) [] v h = elim h [ ]
  take-set (suc n) (x ∷ xs) v h = ap (λ r. x ∷ r) (take-set n xs v (omega arith))

  pub take-suc :
      (n : ℕ) (xs : List A) (v : A)
      → get_elem? xs n ≡ some v
      → take (suc n) xs ≡ take n xs ++ v ∷ []
  take-suc n [] v h = cc
  take-suc zero (x ∷ xs) v h = ground arith
  take-suc (suc n) (x ∷ xs) v h = ap (λ r. x ∷ r) (take-suc n xs v h)

  pub get_elem?_of_lt : (xs : List A) (n : ℕ) → n < length xs → (v : A) × (get_elem? xs n ≡ some v)
  get_elem?_of_lt [] n h = elim h [ ]
  get_elem?_of_lt (x ∷ xs) zero h = (x, refl)
  get_elem?_of_lt (x ∷ xs) (suc n) h = get_elem?_of_lt xs n (omega arith)

  pub drop_of_some :
      (n : ℕ) (xs : List A) (v : A) → get_elem? xs n ≡ some v → drop n xs ≡ v ∷ drop (suc n) xs
  drop_of_some n [] v h = cc
  drop_of_some zero (x ∷ xs) v h = ground arith
  drop_of_some (suc n) (x ∷ xs) v h = drop_of_some n xs v h

  pub drop_of_none : (n : ℕ) (xs : List A) → get_elem? xs n ≡ none → drop n xs ≡ []
  drop_of_none zero [] h = refl
  drop_of_none (suc n) [] h = refl
  drop_of_none zero (x ∷ xs) h = cc
  drop_of_none (suc n) (x ∷ xs) h = drop_of_none n xs h

  abbrev pub All {κ} : (A → Type κ) → List A → Type κ
  All P [] = Unit
  All P (x ∷ xs) = P x × All P xs

-- How often a number stands in a list.
abbrev pub count : ℕ → List ℕ → ℕ
count a [] = 0
count a (x ∷ xs) = (if x == a then 1 else 0) + count a xs

-- The occurrences in both parts.
pub count-append :
    (value : ℕ) (front back : List ℕ)
    → count value (front ++ back) ≡ count value front + count value back
count-append value [] back = omega arith
count-append value (u ∷ front) back = ground (arith, count-append value front back)

-- A list over two values is no longer than their counts together.
pub length-le-count :
    (a b : ℕ) (xs : List ℕ) → All (λ x. (x ≡ a) ⊎ (x ≡ b)) xs → length xs ≤ count a xs + count b xs
length-le-count a b [] h = omega arith
length-le-count a b (x ∷ xs) h = ground (arith, length-le-count a b xs h.1, h.0)

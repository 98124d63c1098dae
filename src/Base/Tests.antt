-- ===== src/Base/Tests.antt =====
-- Boolean tests on the native numbers and on C strings, and the conditional.
use Prim.Native.Char.{code}
use Prim.Native.Nat.{ℕ, compare, Ordering}
use Prim.Native.String.{String}
use mathlib.Core.Path.{◌≡◌, refl}
use mathlib.Core.Logic.{◌↔◌, ◌⊎◌, inl, inr}
use mathlib.Core.Bool.{Bool, true, false, ◌&&◌}
use mathlib.Core.List.{List, [], ◌∷◌}
use mathlib.Core.Option.{Option, none, some}
use native.Mathlib.Omega.{arith}

abbrev pub ltb : ℕ → ℕ → Bool
ltb a b = elim (compare a b) [ Ordering.lt ↦ true | _ ↦ false ]

abbrev pub leb : ℕ → ℕ → Bool
leb a b = elim (compare a b) [ Ordering.gt ↦ false | _ ↦ true ]

infix 50 ◌==◌
abbrev pub ◌==◌ : ℕ → ℕ → Bool
a == b = elim (compare a b) [ Ordering.eq ↦ true | _ ↦ false ]

infix 1 if◌then◌else◌
abbrev pub if◌then◌else◌ {ℓ} : {A : Type ℓ} → Bool → A → A → A
if true then x else y = x
if false then x else y = y

pub ==_iff : (a b : ℕ) → ((a == b) ≡ true) ↔ (a ≡ b)
==_iff a b = ground arith

pub Bool-cases : (b : Bool) → (b ≡ true) ⊎ (b ≡ false)
Bool-cases true = inl refl
Bool-cases false = inr refl

pub Option-cases {ℓ} : {A : Type ℓ} (o : Option A) → (o ≡ none) ⊎ ((a : A) × (o ≡ some a))
Option-cases none = inl refl
Option-cases (some a) = inr (a, refl)

-- A C string without its terminating NUL.
abbrev pub CString : Type 0
CString = List ℕ

-- The bytes of an ASCII literal.
abbrev pub bytes : String → CString
bytes String.[] = []
bytes (String.◌∷◌ c s) = code c ∷ bytes s

-- `strcmp(a, b) == 0`
abbrev pub bytes_eq : CString → CString → Bool
bytes_eq [] [] = true
bytes_eq (a ∷ x) (b ∷ y) = a == b && bytes_eq x y
bytes_eq x y = false

pub bytes_eq→eq : (x y : CString) → bytes_eq x y ≡ true → x ≡ y
bytes_eq→eq [] [] h = refl
bytes_eq→eq [] (b ∷ y) h = cc
bytes_eq→eq (a ∷ x) [] h = cc
bytes_eq→eq (a ∷ x) (b ∷ y) h = ground (arith, bytes_eq→eq x y)

pub bytes_eq_refl : (x : CString) → bytes_eq x x ≡ true
bytes_eq_refl [] = refl
bytes_eq_refl (a ∷ x) = ground (arith, bytes_eq_refl x)

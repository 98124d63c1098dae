-- ===== src/Base/Dict.antt =====
-- Maps with numbers for keys: association lists, and functions changed at one point.
use Prim.Native.Nat.{ℕ}
use mathlib.Core.Path.{◌≡◌}
use mathlib.Core.List.{List, [], ◌∷◌}
use mathlib.Core.Option.{Option, none, some}
use native.Mathlib.Omega.{arith}
use vmnet_broker.Base.Tests.{◌==◌, if◌then◌else◌}

module _ {ℓ} {V : Type ℓ} where
  unfoldable pub lookup : ℕ → List (ℕ × V) → Option V
  lookup k [] = none
  lookup k ((j, v) ∷ m) = if j == k then some v else lookup k m

  -- Drops every entry of `k`.
  unfoldable pub erase : ℕ → List (ℕ × V) → List (ℕ × V)
  erase k [] = []
  erase k ((j, v) ∷ m) = let rest = erase k m in if j == k then rest else (j, v) ∷ rest

  unfoldable pub insert : ℕ → V → List (ℕ × V) → List (ℕ × V)
  insert k v m = (k, v) ∷ erase k m

  pub lookup-erase :
      (k j : ℕ) (m : List (ℕ × V)) → lookup j (erase k m) ≡ (if k == j then none else lookup j m)
  unfolding lookup erase
  lookup-erase k j [] = ground arith
  lookup-erase k j ((i, w) ∷ m) = ground (arith, lookup-erase k j m)

  pub lookup-insert :
      (k j : ℕ) (v : V) (m : List (ℕ × V))
      → lookup j (insert k v m) ≡ (if k == j then some v else lookup j m)
  unfolding lookup insert
  lookup-insert k j v m = ground (arith, lookup-erase k j m)

  abbrev pub update : (ℕ → Option V) → ℕ → Option V → ℕ → Option V
  update h p v q = if p == q then v else h q

  -- No key stands twice.
  abbrev pub Unique : List (ℕ × V) → Type ℓ
  Unique [] = Unit
  Unique ((k, v) ∷ m) = (lookup k m ≡ none) × Unique m

  pub erase-Unique : (k : ℕ) (m : List (ℕ × V)) → Unique m → Unique (erase k m)
  unfolding erase
  erase-Unique k [] u = u
  erase-Unique k ((j, v) ∷ m) u = ground (arith, erase-Unique k m u.1, lookup-erase k j m, u.0)

  pub insert-Unique : (k : ℕ) (v : V) (m : List (ℕ × V)) → Unique m → Unique (insert k v m)
  unfolding insert
  insert-Unique k v m u = (ground (arith, lookup-erase k k m), erase-Unique k m u)

-- ===== src/Machine/Returns.antt =====
-- Total correctness of a command: it ends normally, with a postcondition.
use vmnet_broker.Base.{◌≡◌, refl}
use vmnet_broker.Machine.{State, Run, ok, crashed, exited, Cmd, and_then}

pub data Returns {ℓ κ} {A : Type ℓ} (P : A → State → Type κ) : Run A → Type (ℓ ⊔ κ) where
  returns : {a : A} {s : State} → P a s → Returns P (ok a s)

module _ {ℓ κ} {A : Type ℓ} {P : A → State → Type κ} where
  pub bind {ℓ' κ'} :
      {B : Type ℓ'} {Q : B → State → Type κ'} {r : Run A} {f : A → Cmd B}
      → Returns P r
      → ((a : A) (s : State) → P a s → Returns Q (f a s))
      → Returns Q (and_then r f)
  bind (returns p) next = next _ _ p

  pub weaken {κ'} :
      {Q : A → State → Type κ'} {r : Run A}
      → Returns P r
      → ((a : A) (s : State) → P a s → Q a s)
      → Returns Q r
  weaken (returns p) f = returns (f _ _ p)

module _ {ℓ κ} {A : Type ℓ} where
  abbrev Holds : (A → State → Type κ) → Run A → Type κ
  Holds Q (ok a s) = Q a s
  Holds Q (crashed f) = Unit
  Holds Q (exited n s) = Unit

  Holds-of_Returns : {P : A → State → Type κ} (r : Run A) → Returns P r → Holds P r
  Holds-of_Returns r (returns p) = p

pub result {ℓ κ} :
    {A : Type ℓ} {P : A → State → Type κ} {r : Run A}
    → Returns P r
    → (a : A) × (s : State) × (r ≡ ok a s) × P a s
result (returns p) = (_, _, refl, p)

-- Two postconditions of one command.
pub both {ℓ κ κ'} :
    {A : Type ℓ} {P : A → State → Type κ} {Q : A → State → Type κ'} {r : Run A}
    → Returns P r
    → Returns Q r
    → Returns (λ a s. P a s × Q a s) r
both (returns p) q = returns (p, Holds-of_Returns _ q)

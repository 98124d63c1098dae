-- ===== src/Machine/Ledger/Stock.antt =====
-- How the objects of the registry's networks change with the heap and the registry.
use vmnet_broker.Base.{
  ℕ, ◌+◌, ◌≡◌, ◌≢◌, ◌==◌, refl, ap, sym, ◌∙◌, none, some, Option, List, [], ◌∷◌, lookup, erase,
  insert, update, Unique, erase-Unique, lookup-erase, arith, Bool-cases, inl, inr,
}
use vmnet_broker.Machine.{Ptr, Network}
use vmnet_broker.Machine.Ledger.{Tracked, uses, held}

module _ (o : Tracked) where
  pub held-same :
      (heap heap' : Ptr → Option Network) (m : List (ℕ × Ptr))
      → ((q : Ptr) → uses (heap' q) o ≡ uses (heap q) o)
      → held heap' m o ≡ held heap m o
  held-same heap heap' [] same = refl
  held-same heap heap' ((k, p) ∷ m) same = omega (arith, held-same heap heap' m same, same p)

  -- One network changes, and its objects do not.
  pub held-at :
      (heap heap' : Ptr → Option Network) (m : List (ℕ × Ptr)) (p : Ptr) (n n' : Network)
      → heap p ≡ some n
      → heap' p ≡ some n'
      → n'.ref ≡ n.ref
      → n'.serialization ≡ n.serialization
      → ((q : Ptr) → q ≢ p → heap' q ≡ heap q)
      → held heap' m o ≡ held heap m o
  held-at heap heap' m p n n' at there ref x off = held-same heap heap' m same
    where
      same : (q : Ptr) → uses (heap' q) o ≡ uses (heap q) o
      same q = elim (Bool-cases (q == p)) [
        | inl here ↦
            let e : q ≡ p = ground arith in
            ap (λ r. uses (heap' r) o) e
            ∙ ground (arith, at, there, ref, x)
            ∙ sym (ap (λ r. uses (heap r) o) e)
        | inr far ↦ ap (λ n. uses n o) (off q (ground arith))
      ]

  -- A network that is not in the registry changes.
  pub held-off :
      (heap heap' : Ptr → Option Network) (p : Ptr) (m : List (ℕ × Ptr))
      → ((q : Ptr) → q ≢ p → heap' q ≡ heap q)
      → Unique m
      → ((k : ℕ) → lookup k m ≢ some p)
      → held heap' m o ≡ held heap m o
  unfolding lookup
  held-off heap heap' p [] off u unfiled = refl
  held-off heap heap' p ((k, q) ∷ m) off u unfiled =
      let far : q ≢ p = λ e. unfiled k (ground (arith, e)) in
      omega (
        arith,
        held-off heap heap' p m off u.1 (λ j e. unfiled j (ground (arith, u.0, e))),
        ap (λ n. uses n o) (off q far),
      )

  held-absent :
      (heap : Ptr → Option Network) (k : ℕ) (m : List (ℕ × Ptr))
      → lookup k m ≡ none
      → held heap (erase k m) o ≡ held heap m o
  unfolding lookup erase
  held-absent heap k [] missing = refl
  held-absent heap k ((j, q) ∷ m) missing = ground (arith, held-absent heap k m)

  held-erase :
      (heap : Ptr → Option Network) (k : ℕ) (p : Ptr) (m : List (ℕ × Ptr))
      → Unique m
      → lookup k m ≡ some p
      → held heap m o ≡ held heap (erase k m) o + uses (heap p) o
  unfolding lookup erase
  held-erase heap k p [] u filed = cc
  held-erase heap k p ((j, q) ∷ m) u filed = elim (Bool-cases (j == k)) [
    | inl here ↦
        let e : q ≡ p = ground (arith, here, filed) in
        let e' : j ≡ k = ground arith in
        ground (
          arith,
          here,
          ap (λ r. uses (heap r) o) e,
          held-absent heap k m (ap (λ i. lookup i m) (sym e') ∙ u.0),
        )
    | inr far ↦ ground (arith, far, held-erase heap k p m u.1 (ground (arith, far, filed)))
  ]

  module _ (heap : Ptr → Option Network) (k : ℕ) (p : Ptr) (m : List (ℕ × Ptr))
      (unique : Unique m) where
    -- A network is filed that was not.
    pub held-new :
        (n : Network)
        → lookup k m ≡ none
        → ((j : ℕ) → lookup j m ≢ some p)
        → held (update heap p (some n)) (insert k p m) o ≡ held heap m o + uses (some n) o
    unfolding insert
    held-new n missing unfiled =
        let heap' = update heap p (some n) in
        let here : heap' p ≡ some n = ground arith in
        omega (
          arith,
          held-absent heap' k m missing,
          held-off heap heap' p m (λ q far. ground arith) unique unfiled,
          ap (λ x. uses x o) here,
        )

    -- A network is freed that was filed under one key.
    pub held-gone :
        lookup k m ≡ some p
        → ((j : ℕ) → lookup j m ≡ some p → j ≡ k)
        → held heap m o ≡ held (update heap p none) (erase k m) o + uses (heap p) o
    held-gone filed once = omega (
      arith,
      held-erase heap k p m unique filed,
      held-off heap (update heap p none) p (erase k m) (λ q far. ground arith)
          (erase-Unique k m unique) (λ j e. ground (arith, e, lookup-erase k j m, once j)),
    )

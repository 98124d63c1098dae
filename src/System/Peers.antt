-- ===== src/System/Peers.antt =====
-- The open connections as a whole: how often a network is owned, over all contexts.
use vmnet_broker.Base.{
  ◌<◌, ℕ, suc, ◌+◌, ◌≡◌, refl, ap, fun_ext, [], ◌∷◌, none, some, lookup, erase, insert, Unique,
  count, length, arith,
}
use vmnet_broker.Machine.{Ptr, Context}
use vmnet_broker.Network.Ownership.{owned}
use vmnet_broker.Network.Contract.{owners}
use vmnet_broker.System.{Peers}

unfoldable pub total : Peers → Ptr → ℕ
total [] p = 0
total ((c, ctx) ∷ peers) p = total peers p + count p (owned ctx)

erase_absent : (c : ℕ) (peers : Peers) → lookup c peers ≡ none → erase c peers ≡ peers
unfolding lookup erase
erase_absent c [] absent = refl
erase_absent c ((d, ctx) ∷ peers) absent = ground (arith, erase_absent c peers)

module _ (c : ℕ) (ctx : Context) where
  total-erase :
      (peers : Peers) (p : Ptr)
      → Unique peers
      → lookup c peers ≡ some ctx
      → total peers p ≡ total (erase c peers) p + count p (owned ctx)
  unfolding total lookup erase
  total-erase [] p u e = cc
  total-erase ((d, x) ∷ peers) p u e =
      ground (arith, total-erase peers p u.1, ap (λ l. total l p) (erase_absent d peers u.0), u.0)

  pub length-erase :
      (peers : Peers)
      → Unique peers
      → lookup c peers ≡ some ctx
      → length peers ≡ suc (length (erase c peers))
  unfolding lookup erase
  length-erase [] u e = cc
  length-erase ((d, x) ∷ peers) u e =
      ground (arith, length-erase peers u.1, ap length (erase_absent d peers u.0), u.0)

  -- One context, and the others.
  pub total-owners :
      (peers : Peers)
      → Unique peers
      → lookup c peers ≡ some ctx
      → total peers ≡ owners (total (erase c peers)) ctx
  total-owners peers u e = fun_ext λ p. total-erase peers p u e

  pub total-insert :
      (peers : Peers) → total (insert c ctx peers) ≡ owners (total (erase c peers)) ctx
  unfolding total insert
  total-insert peers = refl

  pub length-insert : (peers : Peers) → length (insert c ctx peers) ≡ suc (length (erase c peers))
  unfolding insert
  length-insert peers = refl

pub total-erase_absent :
    (c : ℕ) (peers : Peers) → lookup c peers ≡ none → total (erase c peers) ≡ total peers
total-erase_absent c peers absent = ap total (erase_absent c peers absent)

pub length-erase_absent :
    (c : ℕ) (peers : Peers) → lookup c peers ≡ none → length (erase c peers) ≡ length peers
length-erase_absent c peers absent = ap length (erase_absent c peers absent)

-- A network that one context holds.
pub total-positive :
    (c : ℕ) (ctx : Context) (peers : Peers) (p : Ptr)
    → Unique peers
    → lookup c peers ≡ some ctx
    → 0 < count p (owned ctx)
    → 0 < total peers p
total-positive c ctx peers p u found has =
    omega (arith, ap (λ f. f p) (total-owners c ctx peers u found))

-- ===== src/System/View.antt =====
-- The broker as its clients see it.
use vmnet_broker.Base.{
  ℕ, ◌<◌, ◌≡◌, ◌≢◌, ◌||◌, Bool, false, refl, ap, fun_ext, inl, inr, Option, none, some, List, [],
  ◌∷◌, ◌++◌, CString, bytes_eq, lookup, insert, erase, lookup-insert, lookup-erase, update, count,
  arith, Bool-cases, Option-cases, ◌==◌,
}
use vmnet_broker.Machine.{Ptr, Network, Context, State, replies}
use vmnet_broker.Network.Invariant.{Heap}
use vmnet_broker.Network.Ownership.{owned}
use vmnet_broker.Network.Steady.{Survives}
use vmnet_broker.System.{Peers}
use vmnet_broker.System.Spec.{Holdings, Abstract}

abbrev pub is_named : Option Network → CString → Bool
is_named none x = false
is_named (some n) x = elim n.name [ none ↦ false | some name ↦ bytes_eq name x ]

-- Whether one of the networks has that name.
abbrev pub holds : Heap → List Ptr → CString → Bool
holds heap [] x = false
holds heap (p ∷ ps) x = is_named (heap p) x || holds heap ps x

abbrev pub holdings : Heap → Peers → Holdings
holdings heap peers c = elim (lookup c peers) [
  | none ↦ none
  | some ctx ↦ some (holds heap (owned ctx))
]

abbrev pub view : Peers → State → Abstract
view peers s = record { holdings = holdings s.heap peers; outbox = replies s.effects }

-- The networks of a list live on.
abbrev pub Carried : Heap → Heap → List Ptr → Type 0
Carried heap heap' ps =
    (p : Ptr) → 0 < count p ps → (n : Network) × (heap p ≡ some n) × Survives n heap' p

module _ (heap heap' : Heap) where
  is_named-Carried :
      (p : Ptr) (x : CString) (n : Network)
      → heap p ≡ some n
      → Survives n heap' p
      → is_named (heap' p) x ≡ is_named (heap p) x
  is_named-Carried p x n at (n', at', name, _, _) = ground (arith, at, at', name)

  pub holds-Carried : (ps : List Ptr) → Carried heap heap' ps → holds heap' ps ≡ holds heap ps
  holds-Carried [] h = refl
  holds-Carried (p ∷ ps) h = fun_ext λ x.
      let (n, at, live) = h p (ground arith) in
      ground (
        arith,
        is_named-Carried p x n at live,
        ap (λ f. f x) (holds-Carried ps (λ q k. h q (ground (arith, k)))),
      )

pub holds-append :
    (heap : Heap) (ps : List Ptr) (p : Ptr) (x : CString)
    → holds heap (ps ++ p ∷ []) x ≡ (holds heap ps x || is_named (heap p) x)
holds-append heap [] p x = ground arith
holds-append heap (q ∷ ps) p x = ground (arith, holds-append heap ps p x)

-- The other connections hold what they held.
abbrev pub OthersCarried : Heap → Heap → ℕ → Peers → Type 0
OthersCarried heap heap' c peers =
    (d : ℕ) (x : Context) → d ≢ c → lookup d peers ≡ some x → Carried heap heap' (owned x)

module _ (heap heap' : Heap) (peers : Peers) where
  holdings-at :
      (d : ℕ)
      → ((x : Context) → lookup d peers ≡ some x → Carried heap heap' (owned x))
      → holdings heap' peers d ≡ holdings heap peers d
  holdings-at d carried = elim (Option-cases (lookup d peers)) [
    | inl e ↦ ground (arith, e)
    | inr (ctx, e) ↦ ground (arith, e, holds-Carried heap heap' (owned ctx) (carried ctx e))
  ]

  pub holdings-same :
      ((d : ℕ) (x : Context) → lookup d peers ≡ some x → Carried heap heap' (owned x))
      → holdings heap' peers ≡ holdings heap peers
  holdings-same carried = fun_ext λ d. holdings-at d (carried d)

  module _ (c : ℕ) (carried : OthersCarried heap heap' c peers) where
    pub holdings-insert :
        (ctx : Context)
        → holdings heap' (insert c ctx peers)
          ≡ update (holdings heap peers) c (some (holds heap' (owned ctx)))
    holdings-insert ctx = fun_ext λ d. elim (Bool-cases (c == d)) [
      | inl here ↦ ground (arith, here, lookup-insert c d ctx peers)
      | inr far ↦ ground (
        arith,
        far,
        lookup-insert c d ctx peers,
        holdings-at d (λ x e. carried d x (ground (arith, far)) e),
      )
    ]

    pub holdings-erase : holdings heap' (erase c peers) ≡ update (holdings heap peers) c none
    holdings-erase = fun_ext λ d. elim (Bool-cases (c == d)) [
      | inl here ↦ ground (arith, here, lookup-erase c d peers)
      | inr far ↦ ground (
        arith,
        far,
        lookup-erase c d peers,
        holdings-at d (λ x e. carried d x (ground (arith, far)) e),
      )
    ]

    -- What the connection itself holds is as before, too.
    pub holdings-insert_same :
        (ctx : Context)
        → lookup c peers ≡ some ctx
        → Carried heap heap' (owned ctx)
        → holdings heap' (insert c ctx peers) ≡ holdings heap peers
    holdings-insert_same ctx found mine = fun_ext λ d. elim (Bool-cases (c == d)) [
      | inl here ↦ ground (
        arith,
        here,
        found,
        lookup-insert c d ctx peers,
        holds-Carried heap heap' (owned ctx) mine,
      )
      | inr far ↦ ground (
        arith,
        far,
        lookup-insert c d ctx peers,
        holdings-at d (λ x e. carried d x (ground (arith, far)) e),
      )
    ]

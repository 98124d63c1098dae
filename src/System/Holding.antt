-- ===== src/System/Holding.antt =====
-- What a connection holds, as long as it is open.
use vmnet_broker.Base.{
  ℕ, ◌<◌, ◌≡◌, ◌≢◌, refl, ap, subst, ◌∙◌, inl, inr, Bool, true, none, some, List, [], ◌∷◌, CString,
  bytes_eq→eq, bytes_eq_refl, lookup, count, arith, Bool-cases, Option-cases, ◌==◌,
}
use vmnet_broker.Machine.{Ptr, Network, Context, State, ok, CoreFoundation}
use vmnet_broker.Xpc.{connection_invalid}
use vmnet_broker.Network.Invariant.{Heap, Healthy-of_Inv}
use vmnet_broker.Network.Ownership.{owned}
use vmnet_broker.Network.Steady.{Survives}
use vmnet_broker.Broker.{Env}
use vmnet_broker.System.{Event, peer, Peers, step}
use vmnet_broker.System.Spec.{Abstract, with_name, Rule, connect, grant, refuse, leave, stay}
use vmnet_broker.System.View.{view, holds, is_named}
use vmnet_broker.System.Invariant.{Allowed}
use vmnet_broker.System.Later.{Later, now, later, Reach-Later}
use vmnet_broker.System.Safety.{Reach, next, Reach-SystemInv, step-Moved, held_is_live}
use vmnet_broker.System.Sharing.{one_network_of_name}

-- The connection holds the name.
abbrev pub Has : Abstract → ℕ → CString → Type 0
Has a c name = (held : CString → Bool) × (a.holdings c ≡ some held) × (held name ≡ true)

Rule-Has :
    {a b : Abstract} {e : Event} (c : ℕ) (name : CString)
    → Rule a e b
    → e ≢ peer c connection_invalid
    → Has a c name
    → Has b c name
Rule-Has {a} {b} c name (connect {c = d} closed now_held _) still (held, e, has) =
    (held, ground (arith, closed, ap (λ f. f c) now_held, e), has)
Rule-Has {a} {b} c name (grant {c = d} held' asked x e' _ _ now_held _) still (held, e, has) =
    elim (Bool-cases (d == c)) [
      | inl here ↦
          let same : held' ≡ held = ground (arith, here, e, e') in
          (
            with_name held' asked,
            ap (λ f. f c) now_held ∙ ground (arith, here),
            ground (arith, ap (λ f. f name) same, has),
          )
      | inr far ↦ (held, ap (λ f. f c) now_held ∙ ground (arith, far, e), has)
    ]
Rule-Has c name (refuse _ _ same _) still (held, e, has) = (held, ap (λ f. f c) same ∙ e, has)
Rule-Has {a} {b} c name (leave {c = d} now_held _) still (held, e, has) =
    elim (Bool-cases (d == c)) [
      | inl here ↦ absurd (still (ap (λ k. peer k connection_invalid) (ground (arith, here))))
      | inr far ↦ (held, ap (λ f. f c) now_held ∙ ground (arith, far, e), has)
    ]
Rule-Has c name (stay _ same _) still (held, e, has) = (held, ap (λ f. f c) same ∙ e, has)

module _ (heap : Heap) (name : CString) where
  holds-of_count :
      (p : Ptr) (n : Network) (ps : List Ptr)
      → heap p ≡ some n
      → n.name ≡ some name
      → 0 < count p ps
      → holds heap ps name ≡ true
  holds-of_count p n [] at named mine = absurd (omega (arith, mine))
  holds-of_count p n (q ∷ ps) at named mine = elim (Bool-cases (q == p)) [
    | inl here ↦
        let e : q ≡ p = ground (arith, here) in
        rw e (rw at (rw named (rw (bytes_eq_refl name) refl)))
    | inr far ↦ ground (arith, far, mine, holds-of_count p n ps at named)
  ]

  named_of :
      (p : Ptr)
      → is_named (heap p) name ≡ true
      → (n : Network) × (heap p ≡ some n) × (n.name ≡ some name)
  named_of p e = elim (Option-cases (heap p)) [
    | inl gone ↦ ground (arith, e, gone)
    | inr (n, at) ↦ elim (Option-cases n.name) [
      | inl unnamed ↦ ground (arith, e, at, unnamed)
      | inr (x, named) ↦
          (n, at, named ∙ ap some (bytes_eq→eq x name (ground (arith, e, at, named))))
    ]
  ]

  count-of_holds :
      (ps : List Ptr)
      → holds heap ps name ≡ true
      → (p : Ptr) × (n : Network) × (heap p ≡ some n) × (n.name ≡ some name) × (0 < count p ps)
  count-of_holds [] e = ground (arith, e)
  count-of_holds (q ∷ ps) e = elim (Bool-cases (is_named (heap q) name)) [
    | inl here ↦ let (n, at, named) = named_of q here in (q, n, at, named, ground arith)
    | inr far ↦
        let (p, n, at, named, mine) = count-of_holds ps (ground (arith, e, far)) in
        (p, n, at, named, ground (arith, mine))
  ]

Has-of_owned :
    (peers : Peers) (s : State) (c : ℕ) (ctx : Context) (p : Ptr) (n : Network) (name : CString)
    → lookup c peers ≡ some ctx
    → s.heap p ≡ some n
    → n.name ≡ some name
    → 0 < count p (owned ctx)
    → Has (view peers s) c name
Has-of_owned peers s c ctx p n name found at named mine = (
  holds s.heap (owned ctx),
  ground (arith, found),
  holds-of_count s.heap name p n (owned ctx) at named mine,
)

-- The connection holds a network of that name.
abbrev Holds : Peers → State → ℕ → CString → Type 0
Holds peers s c name =
    (ctx : Context) × (p : Ptr) × (n : Network) × (lookup c peers ≡ some ctx)
    × (s.heap p ≡ some n)
    × (n.name ≡ some name)
    × (0 < count p (owned ctx))

owned-of_Has :
    (peers : Peers) (s : State) (c : ℕ) (name : CString)
    → Has (view peers s) c name
    → Holds peers s c name
owned-of_Has peers s c name (held, e, has) = elim (Option-cases (lookup c peers)) [
  | inl closed ↦ ground (arith, e, closed)
  | inr (ctx, found) ↦
      let same : holds s.heap (owned ctx) ≡ held = ground (arith, e, found) in
      let (p, n, at, named, mine) =
        count-of_holds s.heap name (owned ctx) (ap (λ f. f name) same ∙ has) in
      (ctx, p, n, found, at, named, mine)
]

-- The connection is not closed on the way.
abbrev pub KeepsOpen :
    {cf : CoreFoundation} {peers : Peers} {s : State} (c : ℕ) {peers' : Peers} {s' : State}
    → Later cf peers s peers' s'
    → Type 0
KeepsOpen c now = Unit
KeepsOpen c (later env e l can run) = (e ≢ peer c connection_invalid) × KeepsOpen c l

-- The connection holds the network at the address, which is the one that was `n`.
abbrev pub StillHolds : Peers → State → ℕ → Ptr → Network → Type 0
StillHolds peers s c p n =
    (ctx : Context) × (lookup c peers ≡ some ctx) × (0 < count p (owned ctx)) × Survives n s.heap p

module _ {cf : CoreFoundation} where
  -- One step that does not close the connection.
  StillHolds-step :
      {peers peers' : Peers} {s s' : State} (reach : Reach cf peers s) (env : Env) (e : Event)
      (c : ℕ) (p : Ptr) (n : Network)
      → Allowed cf env peers s e
      → step cf env e peers s ≡ ok peers' s'
      → e ≢ peer c connection_invalid
      → StillHolds peers s c p n
      → StillHolds peers' s' c p n
  StillHolds-step {peers} {peers'} {s} {s'} reach env e c p n can run still
        (ctx, found, mine, (m, at, name, ref, x)) =
      let inv = Reach-SystemInv reach in
      let (_, moved) = step-Moved env e inv can run in
      let (m₀, at₀, _, quiet₀) = held_is_live reach c ctx p found mine in
      let quiet : m.idle_timer ≡ none = ground (arith, at, at₀, quiet₀) in
      let h = Healthy-of_Inv p m inv.consistent at in
      let has =
        Rule-Has c h.name moved.rule still
          (Has-of_owned peers s c ctx p m h.name found at h.named mine) in
      let (ctx', q, n', found', there, named, mine') = owned-of_Has peers' s' c h.name has in
      elim (moved.frame p m at) [
        | inr (t, d, _, set, _, _) ↦ cc (quiet, set)
        | inl (m', at', name', ref', x') ↦
            let same =
              one_network_of_name (next env e reach can run) q p n' m' h.name there at' named
                (name' ∙ h.named) in
            (
              ctx',
              found',
              subst (λ r. 0 < count r (owned ctx')) same mine',
              (m', at', name' ∙ name, ref' ∙ ref, x' ∙ x),
            )
      ]

  -- A network that an open connection holds in a state that the broker comes to is held by it,
  -- and alive with its name, its vmnet reference and its serialization, in every later state
  -- that is reached without a disconnection of that connection, however much time passes and
  -- whatever the other peers do.
  pub held-StillHolds :
      {peers : Peers} {s : State} {peers' : Peers} {s' : State} (reach : Reach cf peers s) (c : ℕ)
      (ctx : Context) (p : Ptr) (n : Network)
      → lookup c peers ≡ some ctx
      → 0 < count p (owned ctx)
      → s.heap p ≡ some n
      → (l : Later cf peers s peers' s') → KeepsOpen c l
      → StillHolds peers' s' c p n
  held-StillHolds reach c ctx p n found mine at now kept =
      (ctx, found, mine, (n, at, refl, refl, refl))
  held-StillHolds reach c ctx p n found mine at (later env e l can run) (still, kept) =
      StillHolds-step (Reach-Later reach l) env e c p n can run still
        (held-StillHolds reach c ctx p n found mine at l kept)

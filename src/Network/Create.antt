-- ===== src/Network/Create.antt =====
-- create_network and create_and_register: a new network, all or nothing.
use vmnet_broker.Base.{
  ℕ, ◌≡◌, refl, ap, inl, inr, true, false, Option, none, some, List, ◌∷◌, pos, CString, update,
  fun_ext, arith, Option-cases, Bool-cases,
}
use vmnet_broker.Status.{create_failure}
use vmnet_broker.Machine.{
  replies, Ptr, Network, State, Result, value, err, ok, created, released, network_ref,
  serialization, Effect, Outcomes,
}
use vmnet_broker.Machine.Returns.{Returns, returns}
use vmnet_broker.Network.{create_network, zeroed}
use vmnet_broker.Machine.Ledger.{Quiet, Even}
use vmnet_broker.Network.Registry.{free_network}

-- The network that create_network returns.
abbrev pub built : CString → ℕ → ℕ → Network
built name r x = record {
  name = some name;
  peers = pos 0;
  ref = some r;
  serialization = some x;
  idle_timer = none;
}

-- A failure leaves everything but the log of effects as it was.
abbrev pub Created : CString → State → Result Ptr → State → Type 0
Created name s (err e) s' =
    (e ≡ create_failure)
    × (log : List Effect) × Quiet log s.effects
    × (s' ≡ record s { effects = log })
Created name s (value p) s' =
    (r x : ℕ) × (log : List Effect) × (replies log ≡ replies s.effects)
    × Even (released (serialization x) ∷ released (network_ref r) ∷ log) s.effects
    × (s.heap p ≡ none)
    × (s' ≡ record s { heap = update s.heap p (some (built name r x)); effects = log })

module _ (out : Outcomes) (name : CString) (s : State) where
  create_no_memory : out.calloc ≡ none → create_network out name s ≡ ok (err create_failure) s
  unfolding create_network free_network
  create_no_memory e = ground (arith, e)

  module _ (p : Ptr) (allocated : out.calloc ≡ some p) where
    create_no_name :
        out.strdup ≡ false
        → create_network out name s
          ≡ ok
              (err create_failure)
              (record s { heap = update (update s.heap p (some zeroed)) p none })
    unfolding create_network free_network
    create_no_name e = ground (arith, allocated, e)

    abbrev named : Network
    named = record zeroed { name = some name }

    abbrev heap₁ : Ptr → Option Network
    heap₁ = update (update s.heap p (some zeroed)) p (some named)

    create_no_ref :
        out.strdup ≡ true
        → out.network_create ≡ none
        → create_network out name s
          ≡ ok (err create_failure) (record s { heap = update heap₁ p none })
    unfolding create_network free_network
    create_no_ref e f = ground (arith, allocated, e, f)

    module _ (r : ℕ) (copied : out.strdup ≡ true) (made : out.network_create ≡ some r) where
      abbrev heap₂ : Ptr → Option Network
      heap₂ = update heap₁ p (some (record named { ref = some r }))

      create_no_serialization :
          out.copy_serialization ≡ none
          → create_network out name s
            ≡ ok (err create_failure) (record s {
              heap = update heap₂ p none;
              effects = released (network_ref r) ∷ created (network_ref r) ∷ s.effects;
            })
      unfolding create_network free_network
      create_no_serialization e = ground (arith, allocated, copied, made, e)

      pub create_all :
          (x : ℕ)
          → out.copy_serialization ≡ some x
          → create_network out name s
            ≡ ok (value p) (record s {
              heap = update heap₂ p (some (built name r x));
              effects = created (serialization x) ∷ created (network_ref r) ∷ s.effects;
            })
      unfolding create_network
      create_all x e = ground (arith, allocated, copied, made, e)

same_heap :
    (s : State) (h g : Ptr → Option Network) (e : List Effect)
    → ((q : Ptr) → h q ≡ g q)
    → ◌≡◌ {A = State} (record s { heap = h; effects = e }) (record s { heap = g; effects = e })
same_heap s h g e same = ap (λ f. record s { heap = f; effects = e }) (fun_ext same)

module _ (out : Outcomes) (name : CString) (s : State)
    (fresh : (p : Ptr) → out.calloc ≡ some p → s.heap p ≡ none) where
  module _ (p : Ptr) (allocated : out.calloc ≡ some p) where
    Created-made :
        (r : ℕ)
        → out.strdup ≡ true
        → out.network_create ≡ some r
        → Returns (Created name s) (create_network out name s)
    Created-made r copied made = elim (Option-cases out.copy_serialization) [
      | inl e ↦ rw (create_no_serialization out name s p allocated r copied made e) (
          returns (
            refl,
            _,
            (refl, λ o. ground arith),
            same_heap s _ s.heap _ (λ q. ground (arith, fresh p allocated)),
          ))
      | inr (x, e) ↦ rw (create_all out name s p allocated r copied made x e) (
          returns {a = value p} (
            r,
            x,
            _,
            refl,
            (λ o. ground arith),
            fresh p allocated,
            same_heap s _ _ _ (λ q. ground arith),
          ))
    ]

    Created-allocated : Returns (Created name s) (create_network out name s)
    Created-allocated = elim (Bool-cases out.strdup) [
      | inr e ↦ rw (create_no_name out name s p allocated e) (
          returns (
            refl,
            _,
            (refl, λ o. ground arith),
            same_heap s _ s.heap _ (λ q. ground (arith, fresh p allocated)),
          ))
      | inl copied ↦ elim (Option-cases out.network_create) [
        | inl e ↦ rw (create_no_ref out name s p allocated copied e) (
            returns (
              refl,
              _,
              (refl, λ o. ground arith),
              same_heap s _ s.heap _ (λ q. ground (arith, fresh p allocated)),
            ))
        | inr (r, made) ↦ Created-made r copied made
      ]
    ]

  -- create_network returns a network with its name, its reference and its serialization at a
  -- fresh address, or fails with CREATE_FAILURE and leaves the heap as it was, whichever of its
  -- calls failed, if memory from calloc is not in use.
  pub create_network-Created : Returns (Created name s) (create_network out name s)
  create_network-Created = elim (Option-cases out.calloc) [
    | inl e ↦
        rw (create_no_memory out name s e) (returns (refl, s.effects, (refl, λ o. refl), refl))
    | inr (p, allocated) ↦ Created-allocated p allocated
  ]

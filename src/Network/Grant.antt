-- ===== src/Network/Grant.antt =====
-- acquire_network grants what it can.
use vmnet_broker.Base.{
  ℕ, ◌≡◌, ◌∙◌, ap, refl, subst, sym, ◌∷◌, inl, inr, true, some, none, lookup, arith, CString,
  Option-cases, Bool-cases,
}
use vmnet_broker.Machine.{
  shared_mode, host_mode, Ptr, Network, Context, State, Result, value, ok, created, released,
  cf_string, configuration, CoreFoundation, Outcomes,
}
use vmnet_broker.Machine.Returns
use vmnet_broker.Machine.Returns.{Returns, returns}
use vmnet_broker.Config.{create_network_configuration}
use vmnet_broker.Config.Builtin.{IsBuiltin, mode_of}
use vmnet_broker.Network.{
  acquire_network, acquire_found, share_network, share_created, create_and_register,
  create_configured, register_created, can_add_network_to_peer,
}
use vmnet_broker.Network.Create.{built, create_all}
use vmnet_broker.Network.Invariant.{Entries, Site, vacant, taken}
use vmnet_broker.Network.Ownership.{owns, IsValid}
use vmnet_broker.Network.Contract.{entries, owners, Consistent, Settled}
use vmnet_broker.Network.Share.{share_owned, share_new, share_idle}
use vmnet_broker.Network.Acquire.{init_registry_lem, registry_get_lem, registry_set_lem}
use vmnet_broker.Network.Reacquire.{acquire_found-some, quiet_of_owned}

-- The external calls of one request for a builtin name succeed.
pub record IsAvailable (out : Outcomes) (name : CString) : Type 0 where
  pub configured : (c : ℕ) × (out.configuration_create (mode_of name) ≡ some c)
  pub allocated : (p : ℕ) × (out.calloc ≡ some p)
  pub copied : out.strdup ≡ true
  pub made : (r : ℕ) × (out.network_create ≡ some r)
  pub serialized : (x : ℕ) × (out.copy_serialization ≡ some x)

-- The outcome is a network.
abbrev pub IsGranted : Context × Result ℕ → State → Type 0
IsGranted (ctx, r) s = (x : ℕ) × (r ≡ value x)

module _ (ctx : Context) (p : Ptr) (n : Network) (x : ℕ) (s : State) (at : s.heap p ≡ some n)
    (serialized : n.serialization ≡ some x) (v : IsValid ctx)
    (room : can_add_network_to_peer ctx ≡ true)
    (quiet : owns ctx p ≡ true → n.idle_timer ≡ none) where
  -- share_network hands out the serialization of the network.
  pub share-value : Returns (λ a s'. a.1 ≡ value x) (share_network ctx p s)
  share-value = elim (Bool-cases (owns ctx p)) [
    | inl mine ↦
        rw (share_owned ctx p n x s at serialized mine (quiet mine))
          (returns {a = (ctx, value x)} refl)
    | inr free ↦ elim (Option-cases n.idle_timer) [
      | inl e ↦ rw (share_new ctx p n x s at serialized v free room e) (returns refl)
      | inr (t, e) ↦ rw (share_idle ctx p n x s at serialized v free room t e) (returns refl)
    ]
  ]

  share-IsGranted : Returns IsGranted (share_network ctx p s)
  share-IsGranted = Returns.weaken share-value λ a s' e. (x, e)

configuration_granted :
    (out : Outcomes) (name : CString) (c : ℕ) (s : State)
    → IsBuiltin name
    → out.configuration_create (mode_of name) ≡ some c
    → create_network_configuration out name s
      ≡ ok (value c) (record s { effects = created (configuration c) ∷ s.effects })
unfolding create_network_configuration
configuration_granted out name c s (inl e) made =
    let created : out.configuration_create shared_mode ≡ some c =
      ap (λ n. out.configuration_create (mode_of n)) (sym e) ∙ made in
    rw e (ground (arith, created))
configuration_granted out name c s (inr e) made =
    let created : out.configuration_create host_mode ≡ some c =
      ap (λ n. out.configuration_create (mode_of n)) (sym e) ∙ made in
    rw e (ground (arith, created))

module _ (cf : CoreFoundation) (out : Outcomes) (ctx : Context) (name : CString) (k : ℕ)
    (m : Entries) (s : State) (keyed : cf.create_string name ≡ some k) (ready : s.registry ≡ some m)
    (missing : lookup k m ≡ none) (b : IsBuiltin name) (v : IsValid ctx)
    (room : can_add_network_to_peer ctx ≡ true) where
  register_granted :
      (p : Ptr) (n : Network) (t : State)
      → t.registry ≡ some m
      → t.heap p ≡ some n
      → Returns
          (λ made s'. (made ≡ value p) × (s'.heap p ≡ some n))
          (register_created cf name (value p) t)
  unfolding register_created
  register_granted p n t same at =
      rw (registry_set_lem cf name k m t keyed same p missing) (returns (refl, at))

  create_granted :
      (a : IsAvailable out name)
      → Returns
          (λ made s'.
            (made ≡ value a.allocated.0)
            × (s'.heap a.allocated.0 ≡ some (built name a.made.0 a.serialized.0)))
          (create_and_register cf out ctx name s)
  unfolding create_and_register create_configured
  create_granted a =
      let (c, configured) = a.configured in
      let (p, allocated) = a.allocated in
      let (r, made) = a.made in
      let (x, serialized) = a.serialized in
      let s₁ : State = record s { effects = created (configuration c) ∷ s.effects } in
      rw room (
        rw (configuration_granted out name c s b configured) (
          rw (create_all out name s₁ p allocated r a.copied made x serialized)
            (register_granted p (built name r x) _ ready (ground arith))))

  new-IsGranted : IsAvailable out name → Returns IsGranted (acquire_found cf out ctx name none s)
  unfolding acquire_found share_created
  new-IsGranted a = Returns.bind (create_granted a) λ made s' (is_new, at).
      subst (λ r. Returns IsGranted (share_created ctx r s')) (sym is_new)
        (share-IsGranted ctx a.allocated.0 (built name a.made.0 a.serialized.0) a.serialized.0 s' at
          refl v room (λ _. refl))

-- A peer that has room is granted a builtin network, new or in use, if the name makes a
-- CFString, the external calls succeed, and the context and the state are in order.
pub acquire_network-IsGranted :
    (cf : CoreFoundation) (others : Ptr → ℕ) (out : Outcomes) (ctx : Context) (name : CString)
    (k : ℕ) (s : State)
    → IsValid ctx
    → can_add_network_to_peer ctx ≡ true
    → IsBuiltin name
    → cf.create_string name ≡ some k
    → Consistent cf (owners others ctx) s
    → Settled s.heap (owners others ctx)
    → (s.registry ≡ none → out.dictionary_create ≡ true)
    → IsAvailable out name
    → Returns IsGranted (acquire_network cf out ctx name s)
unfolding acquire_network
acquire_network-IsGranted cf others out ctx name k s v room b keyed consistent settled made a =
    let m = entries s.registry in
    let s₁ : State = record s { registry = some m } in
    let s₂ : State = record s₁ {
      effects = released (cf_string k) ∷ created (cf_string k) ∷ s.effects;
    } in
    rw (init_registry_lem out.dictionary_create s made) (
      rw (registry_get_lem cf name k m s₁ keyed refl) (elim (Option-cases (lookup k m)) [
        | inl missing ↦
            rw missing (new-IsGranted cf out ctx name k m s₂ keyed refl missing b v room a)
        | inr (p, filed) ↦
            rw (acquire_found-some cf out ctx name (lookup k m) p s₂ filed)
              (existing p filed (consistent.site p))
      ]))
  where
    existing :
        (p : Ptr)
        → lookup k (entries s.registry) ≡ some p
        → Site cf s.heap (entries s.registry) s.timers (owners others ctx) p
        → Returns IsGranted (
            share_network ctx p (record s {
              registry = some (entries s.registry);
              effects = released (cf_string k) ∷ created (cf_string k) ∷ s.effects;
            }))
    existing p filed (vacant _ u) = absurd (u.unfiled k filed)
    existing p filed (taken n at h) =
        share-IsGranted ctx p n h.handle _ at h.serialized v room
          (λ mine. quiet_of_owned (owners others ctx p) n (settled p n at) (ground (arith, mine)))

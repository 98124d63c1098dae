-- ===== src/Config/Builtin.antt =====
-- Which names have a configuration, and what the configuration of a builtin network needs.
use vmnet_broker.Machine.Ledger.{Quiet, Even}
use vmnet_broker.Base.{
  List, ◌∷◌, ℕ, refl, sym, ◌∙◌, inl, inr, Bool-cases, Option-cases, none, some, ap, true, false,
  if◌then◌else◌, bytes_eq, ◌≡◌, ◌⊎◌, CString, bytes_eq→eq, arith,
}
use vmnet_broker.Status.{Status, create_failure, not_found, is_success}
use vmnet_broker.Machine.Returns
use vmnet_broker.Machine.Returns.{Returns, returns}
use vmnet_broker.Machine.{
  ok, Mode, shared_mode, host_mode, created, released, configuration, replies, Effect, State,
  Outcomes, Result, Result-cases, err, value,
}
use vmnet_broker.Config.{
  create_vmnet_configuration, create_network_configuration, set_subnet, shared_name, host_name,
  NetworkConfig, find_network_config,
}

-- "shared" or "host".
abbrev pub IsBuiltin : CString → Type 0
IsBuiltin name = (name ≡ shared_name) ⊎ (name ≡ host_name)

-- The vmnet mode of a builtin network.
abbrev pub mode_of : CString → Mode
mode_of name = if bytes_eq name shared_name then shared_mode else host_mode

-- A builtin name is configured in its mode or vmnet refuses that; any other is not found. Only the
-- log changes.
abbrev pub Configured : Outcomes → CString → State → Result ℕ → State → Type 0
Configured out name s (value c) s' =
    IsBuiltin name
    × (out.configuration_create (mode_of name) ≡ some c)
    × (log : List Effect) × (replies log ≡ replies s.effects)
    × Even (released (configuration c) ∷ log) s.effects
    × (s' ≡ record s { effects = log })
Configured out name s (err e) s' =
    ((e ≡ create_failure) × IsBuiltin name × (out.configuration_create (mode_of name) ≡ none)
      ⊎ (e ≡ not_found) × ¬ IsBuiltin name)
    × (log : List Effect) × Quiet log s.effects
    × (s' ≡ record s { effects = log })

-- The table has the mode of a name, and no subnet.
IsBuiltin-of_found :
    (name : CString) (c : NetworkConfig)
    → find_network_config name ≡ value c
    → IsBuiltin name × (c.mode ≡ mode_of name) × (c.subnet ≡ none)
unfolding find_network_config
IsBuiltin-of_found name c h = elim (Bool-cases (bytes_eq shared_name name)) [
  | inl same ↦
      let e = bytes_eq→eq shared_name name same in
      (inl (sym e), ground (arith, h, e), ground (arith, h, same))
  | inr other ↦ elim (Bool-cases (bytes_eq host_name name)) [
    | inl same ↦
        let e = bytes_eq→eq host_name name same in
        (inr (sym e), ground (arith, h, e), ground (arith, h, other, same))
    | inr other' ↦ absurd (ground (arith, h, other, other'))
  ]
]

found_of_IsBuiltin :
    (name : CString) → IsBuiltin name → (c : NetworkConfig) × (find_network_config name ≡ value c)
unfolding find_network_config
found_of_IsBuiltin name (inl e) = rw e (_, refl)
found_of_IsBuiltin name (inr e) = rw e (_, refl)

not_found_of_err :
    (name : CString) (e : Status)
    → find_network_config name ≡ err e
    → (e ≡ not_found) × ¬ IsBuiltin name
unfolding find_network_config
not_found_of_err name e h =
    (ground (arith, h), λ b. let (c, found) = found_of_IsBuiltin name b in cc (sym h ∙ found))

-- With a subnet and a mask, both parse and vmnet takes the addresses.
abbrev pub TakesSubnet : Outcomes → (configuration : ℕ) → NetworkConfig → Type 0
TakesSubnet out c config =
    (subnet mask : CString)
    → config.subnet ≡ some subnet
    → config.mask ≡ some mask
    → (a : List ℕ) × (b : List ℕ) × (out.inet_pton subnet ≡ some a)
      × (out.inet_pton mask ≡ some b)
      × (is_success (out.set_ipv4_subnet c a b) ≡ true)

-- The configuration is made in the mode of the entry and takes its subnet; or vmnet makes none; or
-- the one that it makes does not take the subnet, and is released.
abbrev pub IsMade : Outcomes → NetworkConfig → State → Result ℕ → State → Type 0
IsMade out config s (value c) s' =
    (out.configuration_create config.mode ≡ some c)
    × TakesSubnet out c config
    × (s' ≡ record s { effects = created (configuration c) ∷ s.effects })
IsMade out config s (err e) s' =
    (e ≡ create_failure)
    × ((out.configuration_create config.mode ≡ none) × (s' ≡ s)
        ⊎ (c : ℕ) × (out.configuration_create config.mode ≡ some c)
          × ¬ TakesSubnet out c config
          × (s' ≡ record s {
            effects = released (configuration c) ∷ created (configuration c) ∷ s.effects;
          }))

module _ (out : Outcomes) (c : ℕ) (config : NetworkConfig) where
  set_subnet-TakesSubnet :
      set_subnet out c config.subnet config.mask ≡ true → TakesSubnet out c config
  unfolding set_subnet
  set_subnet-TakesSubnet done subnet mask e f = elim (Option-cases (out.inet_pton subnet)) [
    | inl bad ↦ absurd (ground (arith, done, e, f, bad))
    | inr (a, parsed) ↦ elim (Option-cases (out.inet_pton mask)) [
      | inl bad ↦ absurd (ground (arith, done, e, f, parsed, bad))
      | inr (b, parsed') ↦ (a, b, parsed, parsed', ground (arith, done, e, f, parsed, parsed'))
    ]
  ]

  TakesSubnet-false :
      set_subnet out c config.subnet config.mask ≡ false → ¬ TakesSubnet out c config
  unfolding set_subnet
  TakesSubnet-false failed takes = elim (Option-cases config.subnet) [
    | inl e ↦ ground (arith, failed, e)
    | inr (subnet, e) ↦ elim (Option-cases config.mask) [
      | inl f ↦ ground (arith, failed, e, f)
      | inr (mask, f) ↦
          let (a, b, parsed, parsed', taken) = takes subnet mask e f in
          ground (arith, failed, e, f, parsed, parsed', taken)
    ]
  ]

module _ (out : Outcomes) (s : State) where
  module _ (config : NetworkConfig) where
    refused :
        out.configuration_create config.mode ≡ none
        → create_vmnet_configuration out config s ≡ ok (err create_failure) s
    unfolding create_vmnet_configuration
    refused e = ground (arith, e)

    configured :
        (c : ℕ)
        → out.configuration_create config.mode ≡ some c
        → set_subnet out c config.subnet config.mask ≡ true
        → create_vmnet_configuration out config s
          ≡ ok (value c) (record s { effects = created (configuration c) ∷ s.effects })
    unfolding create_vmnet_configuration
    configured c e done = ground (arith, e, done)

    given_up :
        (c : ℕ)
        → out.configuration_create config.mode ≡ some c
        → set_subnet out c config.subnet config.mask ≡ false
        → create_vmnet_configuration out config s
          ≡ ok (err create_failure) (record s {
            effects = released (configuration c) ∷ created (configuration c) ∷ s.effects;
          })
    unfolding create_vmnet_configuration
    given_up c e failed = ground (arith, e, failed)

  -- For any entry of a table of networks, create_vmnet_configuration returns the configuration
  -- that vmnet makes in the mode of the entry, if vmnet makes one and, where the entry has both
  -- a subnet and a mask, both parse and vmnet takes the two addresses for that configuration.
  -- Otherwise it fails with CREATE_FAILURE and releases the configuration, if there is one. It
  -- changes nothing but the log of effects.
  pub create_vmnet_configuration-IsMade :
      (config : NetworkConfig)
      → Returns (IsMade out config s) (create_vmnet_configuration out config s)
  create_vmnet_configuration-IsMade config =
      elim (Option-cases (out.configuration_create config.mode)) [
        | inl e ↦ rw (refused config e) (returns (refl, inl (e, refl)))
        | inr (c, e) ↦ elim (Bool-cases (set_subnet out c config.subnet config.mask)) [
          | inl done ↦
              rw (configured config c e done)
                (returns (e, set_subnet-TakesSubnet out c config done, refl))
          | inr failed ↦
              rw (given_up config c e failed)
                (returns (refl, inr (c, e, TakesSubnet-false out c config failed, refl)))
        ]
      ]

  Configured-found :
      (name : CString) (config : NetworkConfig)
      → IsBuiltin name
      → config.mode ≡ mode_of name
      → config.subnet ≡ none
      → (r : Result ℕ) (s' : State) → IsMade out config s r s'
      → Configured out name s r s'
  Configured-found name config b mode any (value c) s' (made, takes, same) =
      (b, ap out.configuration_create (sym mode) ∙ made, _, refl, (λ o. ground arith), same)
  Configured-found name config b mode any (err e) s' (failure, inl (refused, same)) = (
    inl (failure, b, ap out.configuration_create (sym mode) ∙ refused),
    s.effects,
    (refl, λ o. refl),
    same,
  )
  Configured-found name config b mode any (err e) s' (failure, inr (c, made, untaken, same)) =
      absurd (untaken λ subnet mask e f. cc (any, e))

  -- create_network_configuration makes a configuration of a builtin name, in the vmnet mode of
  -- that name, or fails: with NOT_FOUND exactly if the name is not builtin, and with
  -- CREATE_FAILURE if vmnet makes none in that mode. It changes nothing but the log of effects.
  pub create_network_configuration-Configured :
      (name : CString) → Returns (Configured out name s) (create_network_configuration out name s)
  unfolding create_network_configuration
  create_network_configuration-Configured name = elim (Result-cases (find_network_config name)) [
    | inl (config, e) ↦
        let (b, mode, any) = IsBuiltin-of_found name config e in
        rw e (
          Returns.weaken (create_vmnet_configuration-IsMade config)
            (Configured-found name config b mode any))
    | inr (status, e) ↦
        let (missing, other) = not_found_of_err name status e in
        rw e (returns (inr (missing, other), s.effects, (refl, λ o. refl), refl))
  ]

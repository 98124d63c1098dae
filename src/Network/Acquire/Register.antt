-- ===== src/Network/Acquire/Register.antt =====
-- The registry of acquire_network, and the branch that creates a network.
use vmnet_broker.Base.{
  ℕ, Bool, Option-cases, ap, ◌≡◌, refl, ◌∙◌, inl, inr, true, false, none, some, List, ◌∷◌, CString,
  lookup, insert, update, arith,
}
use vmnet_broker.Status.{internal_error}
use vmnet_broker.Machine.{
  replies, Ptr, Context, State, Result, value, err, ok, created, released, configuration,
  network_ref, serialization, CoreFoundation, Effect, Outcomes, cf_string,
}
use vmnet_broker.Machine.Returns
use vmnet_broker.Machine.Returns.{Returns, returns}
use vmnet_broker.Config.Builtin.{IsBuiltin, Configured, create_network_configuration-Configured}
use vmnet_broker.Network.{
  register_created, create_configured, create_and_register, can_add_network_to_peer,
}
use vmnet_broker.Network.Registry.{init_registry, registry_get, registry_set, free_network}
use vmnet_broker.Machine.Ledger.{Quiet, Even}
use vmnet_broker.Network.Create.{built, Created, create_network-Created}
use vmnet_broker.Network.Invariant.{Entries}
use vmnet_broker.Network.Contract.{entries, IsRefusal}

pub init_registry_lem :
    (made : Bool) (s : State)
    → (s.registry ≡ none → made ≡ true)
    → init_registry made s ≡ ok tt (record s { registry = some (entries s.registry) })
unfolding init_registry
init_registry_lem made s h = elim (Option-cases s.registry) [
  | inl e ↦ ground (arith, e, h e)
  | inr (m, e) ↦ ground (arith, e)
]

-- A registry with an entry is there.
pub made_of_filed :
    (made : Bool) (s : State) (k : ℕ) (p : Ptr)
    → lookup k (entries s.registry) ≡ some p
    → s.registry ≡ none
    → made ≡ true
unfolding lookup
made_of_filed made s k p filed e = absurd (ground (arith, filed, ap (λ r. lookup k (entries r)) e))

module _ (cf : CoreFoundation) (name : CString) (k : ℕ) (m : Entries) (s : State)
    (keyed : cf.create_string name ≡ some k) (ready : s.registry ≡ some m) where
  pub registry_get_lem :
      registry_get cf name s
      ≡ ok
          (lookup k m)
          (record s { effects = released (cf_string k) ∷ created (cf_string k) ∷ s.effects })
  unfolding registry_get
  registry_get_lem = ground (arith, keyed, ready)

  pub registry_set_lem :
      (p : Ptr)
      → lookup k m ≡ none
      → registry_set cf name p s
        ≡ ok tt (record s {
          registry = some (insert k p m);
          effects = released (cf_string k) ∷ created (cf_string k) ∷ s.effects;
        })
  unfolding registry_set free_network
  registry_set_lem p missing = ground (arith, keyed, ready, missing)

-- What create_and_register leaves: a new network in the registry, or nothing but the log.
abbrev pub Registered : CoreFoundation → CString → ℕ → Entries → State → Result Ptr → State → Type 0
Registered cf name k m s (err e) s' =
    IsRefusal name e × (log : List Effect) × Quiet log s.effects × (s' ≡ record s { effects = log })
Registered cf name k m s (value p) s' =
    (r x : ℕ) × (log : List Effect) × (replies log ≡ replies s.effects)
    × Even (released (serialization x) ∷ released (network_ref r) ∷ log) s.effects
    × (s.heap p ≡ none)
    × IsBuiltin name
    × (s' ≡ record s {
      heap = update s.heap p (some (built name r x));
      registry = some (insert k p m);
      effects = log;
    })

module _ (cf : CoreFoundation) (name : CString) (k : ℕ) (m : Entries) (s : State)
    (keyed : cf.create_string name ≡ some k) (ready : s.registry ≡ some m)
    (missing : lookup k m ≡ none) (b : IsBuiltin name) where
  Registered-Created :
      (made : Result Ptr) (s' : State) (before : List Effect) (c : ℕ)
      → replies before ≡ replies s.effects
      → Even (released (configuration c) ∷ before) s.effects
      → Created name (record s { effects = before }) made s'
      → Returns (Registered cf name k m s) (
          register_created cf name made
            (record s' { effects = released (configuration c) ∷ s'.effects }))
  unfolding register_created
  Registered-Created (err e) s' before c unseen even (failed, log, (unseen', even'), same) =
      rw (same, failed)
        (returns (inl (refl, b), _, (unseen' ∙ unseen, λ o. ground (arith, even o, even' o)), refl))
  Registered-Created (value p) s' before c unseen even (r, x, log, unseen', even', free, same) =
      rw (same) (
        rw
          (registry_set_lem cf name k m
            (record s {
              heap = update s.heap p (some (built name r x));
              effects = released (configuration c) ∷ log;
            })
            keyed ready p missing)
          (returns {a = value p}
            (r, x, _, unseen' ∙ unseen, (λ o. ground (arith, even o, even' o)), free, b, refl)))

module _ (cf : CoreFoundation) (out : Outcomes) (ctx : Context) (name : CString) (k : ℕ)
    (m : Entries) (s : State) (keyed : cf.create_string name ≡ some k) (ready : s.registry ≡ some m)
    (missing : lookup k m ≡ none) (fresh : (p : Ptr) → out.calloc ≡ some p → s.heap p ≡ none) where
  Registered-Configured :
      (configured : Result ℕ) (s' : State)
      → Configured out name s configured s'
      → Returns (Registered cf name k m s) (create_configured cf out name configured s')
  unfolding create_configured
  Registered-Configured (err e) s' (inl (failure, b, refused), log, quiet, same) =
      rw same (returns (inl (failure, b), log, quiet, refl))
  Registered-Configured (err e) s' (inr unknown, log, quiet, same) =
      rw same (returns (inr unknown, log, quiet, refl))
  Registered-Configured (value c) s' (b, made, log, unseen, even, same) = rw same (
      Returns.bind (create_network-Created out name (record s { effects = log }) fresh)
        λ made t created.
          Registered-Created cf name k m s keyed ready missing b made t log c unseen even created)

  pub create_and_register-Registered :
      can_add_network_to_peer ctx ≡ true
      → Returns (Registered cf name k m s) (create_and_register cf out ctx name s)
  unfolding create_and_register
  create_and_register-Registered room =
      rw room
        (Returns.bind (create_network_configuration-Configured out s name) Registered-Configured)

pub create_and_register_full :
    (cf : CoreFoundation) (out : Outcomes) (ctx : Context) (name : CString) (s : State)
    → can_add_network_to_peer ctx ≡ false
    → create_and_register cf out ctx name s ≡ ok (err internal_error) s
unfolding create_and_register
create_and_register_full cf out ctx name s full = rw full

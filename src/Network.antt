-- ===== src/Network.antt =====
-- broker/network.c: the shared networks, the registry of them by name, and who owns them.
-- A network lives on the heap from `calloc` to `free_network`; the registry and the peers' contexts
-- hold its address.
pub mod Registry
pub mod Invariant
pub mod Ownership
pub mod Steady
pub mod Contract
pub mod Share
pub mod Create
pub mod Acquire
pub mod Remove
pub mod Shutdown
pub mod Faults
pub mod Reacquire
pub mod Grant
pub mod Release
pub mod Lookup
pub mod Sharing
pub mod Alike
use vmnet_broker.Base.{
  ℕ, zero, suc, ◌+◌, Bool, true, false, not, Option, none, some, ℤ, pos, incr, decr, is, CString,
  get_elem?, set, length, ltb, leb, ◌==◌, if◌then◌else◌,
}
use vmnet_broker.Status.{create_failure, internal_error}
use vmnet_broker.Machine.{
  Ptr, Network, Context, max_peer_networks, remove_network, serialization, configuration,
  network_ref, created, retained, released, failed_assertion, out_of_bounds, Cmd, pure, ◌>>=◌, ◌>>◌,
  crash, emit, load, store, non_null, start_timer, cancel_timer, CoreFoundation, Outcomes, Result,
  value, err,
}
use vmnet_broker.Config.{create_network_configuration}
use Registry.{free_network, init_registry, registry_get, registry_set}

-- `calloc` zeroes the network.
abbrev pub zeroed : Network
zeroed = record { name = none; peers = pos 0; ref = none; serialization = none; idle_timer = none }

-- `goto failure` with `network` not NULL
create_network_failure : Ptr → Cmd (Result Ptr)
create_network_failure p = do free_network (some p); pure (err create_failure)

copy_serialization : Outcomes → Ptr → Cmd (Result Ptr)
unfolding create_network_failure
copy_serialization out p = elim out.copy_serialization [
  | none ↦ create_network_failure p
  | some x ↦ do
    emit (created (serialization x))
    n ← load p
    store p (some (record n { serialization = some x }))
    pure (value p)
]

create_ref : Outcomes → Ptr → Cmd (Result Ptr)
unfolding create_network_failure copy_serialization
create_ref out p = elim out.network_create [
  | none ↦ create_network_failure p
  | some r ↦ do
    emit (created (network_ref r))
    n ← load p
    store p (some (record n { ref = some r }))
    copy_serialization out p
]

copy_name : Outcomes → CString → Ptr → Cmd (Result Ptr)
unfolding create_network_failure create_ref
copy_name out name p =
    if out.strdup
    then (do n ← load p; store p (some (record n { name = some name })); create_ref out p)
    else create_network_failure p

unfoldable pub create_network : Outcomes → CString → Cmd (Result Ptr)
unfolding copy_name
create_network out name = elim out.calloc [
  | none ↦ do free_network none; pure (err create_failure)
  | some p ↦ do store p (some zeroed); copy_name out name p
]

-- `source` is what dispatch_source_create returns.
unfoldable pub remove_later : Option ℕ → Ptr → Cmd (Unit {0})
remove_later source p = do
  n ← load p
  elim n.idle_timer [
    | some t ↦ crash failed_assertion
    | none ↦ elim source [
      | none ↦ crash failed_assertion
      | some t ↦ do
        store p (some (record n { idle_timer = some t }))
        start_timer t (remove_network p)
    ]
  ]

unfoldable pub cancel_remove_later : Ptr → Cmd (Unit {0})
cancel_remove_later p = do
  n ← load p
  elim n.idle_timer [
    | none ↦ pure tt
    | some t ↦ do cancel_timer t; store p (some (record n { idle_timer = none }))
  ]

-- The loop of peer_owns_network, with `rounds` rounds left at the index `i`.
owns_from : (rounds i : ℕ) → Context → Ptr → Cmd Bool
owns_from zero i ctx p = pure false
owns_from (suc rounds) i ctx p = elim (get_elem? ctx.networks i) [
  | none ↦ crash out_of_bounds
  | some q ↦ let rest = owns_from rounds (i + 1) ctx p in if q == p then pure true else rest
]

unfoldable pub peer_owns_network : Context → Ptr → Cmd Bool
unfolding owns_from
peer_owns_network ctx p = owns_from ctx.network_count 0 ctx p

abbrev pub can_add_network_to_peer : Context → Bool
can_add_network_to_peer ctx = not (leb max_peer_networks ctx.network_count)

-- `ctx->networks[ctx->network_count++] = net; net->peers++`
unfoldable pub add_network_to_peer : Context → Ptr → Cmd Context
add_network_to_peer ctx p =
    if ltb ctx.network_count (length ctx.networks)
    then (do
      n ← load p
      store p (some (record n { peers = incr n.peers }))
      pure (record ctx {
        networks = set ctx.networks ctx.network_count p;
        network_count = ctx.network_count + 1;
      }))
    else crash out_of_bounds

-- The context with its changes, and whether it owns the network now.
unfoldable pub update_peer_ownership : Context → Ptr → Cmd (Context × Result (Unit {0}))
update_peer_ownership ctx p = do
  owns ← peer_owns_network ctx p
  if owns
      then pure (ctx, value tt)
      else if can_add_network_to_peer ctx
      then (do ctx' ← add_network_to_peer ctx p; pure (ctx', value tt))
      else pure (ctx, err internal_error)

-- acquire_network after create_network
unfoldable pub register_created : CoreFoundation → CString → Result Ptr → Cmd (Result Ptr)
register_created cf name (err e) = pure (err e)
register_created cf name (value p) = do registry_set cf name p; pure (value p)

-- acquire_network after create_network_configuration
unfoldable pub create_configured : CoreFoundation → Outcomes → CString → Result ℕ → Cmd (Result Ptr)
create_configured cf out name (err e) = pure (err e)
create_configured cf out name (value c) = do
  made ← create_network out name
  emit (released (configuration c))
  register_created cf name made

-- The branch of acquire_network for a name that the registry lacks.
unfoldable pub create_and_register :
    CoreFoundation → Outcomes → Context → CString → Cmd (Result Ptr)
create_and_register cf out ctx name =
    if can_add_network_to_peer ctx
    then (do
      configured ← create_network_configuration out name
      create_configured cf out name configured)
    else pure (err internal_error)

-- From the registered network on.
unfoldable pub share_network : Context → Ptr → Cmd (Context × Result ℕ)
share_network ctx p = do
  (ctx', owned) ← update_peer_ownership ctx p
  elim owned [
    | err e ↦ pure (ctx', err e)
    | value _ ↦ do
      cancel_remove_later p
      n ← load p
      x ← non_null n.serialization
      emit (retained (serialization x))
      pure (ctx', value x)
  ]

unfoldable pub share_created : Context → Result Ptr → Cmd (Context × Result ℕ)
share_created ctx (err e) = pure (ctx, err e)
share_created ctx (value p) = share_network ctx p

-- acquire_network after the first registry_get
unfoldable pub acquire_found :
    CoreFoundation → Outcomes → Context → CString → Option Ptr → Cmd (Context × Result ℕ)
unfolding share_created
acquire_found cf out ctx name (some p) = share_network ctx p
acquire_found cf out ctx name none = do
  made ← create_and_register cf out ctx name
  share_created ctx made

unfoldable pub acquire_network :
    CoreFoundation → Outcomes → Context → CString → Cmd (Context × Result ℕ)
acquire_network cf out ctx name = do
  init_registry out.dictionary_create
  found ← registry_get cf name
  acquire_found cf out ctx name found

-- One round of the loop of release_peer_networks, at the slot `i`. `sources` has what
-- dispatch_source_create returns for the timer of each network.
unfoldable pub release_network : (Ptr → Option ℕ) → Context → (i : ℕ) → Cmd (Unit {0})
release_network sources ctx i = elim (get_elem? ctx.networks i) [
  | none ↦ crash out_of_bounds
  | some p ↦ do
    n ← load p
    store p (some (record n { peers = decr n.peers }))
    if is (decr n.peers) 0 then remove_later (sources p) p else pure tt
]

-- `while (ctx->network_count)`, by recursion on that count
unfoldable pub release_loop : (Ptr → Option ℕ) → Context → (network_count : ℕ) → Cmd Context
release_loop sources ctx zero = pure (record ctx { network_count = 0 })
release_loop sources ctx (suc k) = do release_network sources ctx k; release_loop sources ctx k

unfoldable pub release_peer_networks : (Ptr → Option ℕ) → Context → Cmd Context
unfolding release_loop
release_peer_networks sources ctx = release_loop sources ctx ctx.network_count

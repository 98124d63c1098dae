-- ===== src/Tests/Examples.antt =====
-- The theorems of the development, each at a concrete input.
use vmnet_broker.Base.{
  ◌+◌, ℕ, ◌≤◌, ◌≡◌, ◌≢◌, refl, subst, ap, arith, [], ◌∷◌, none, some, pos, bytes, lookup, update,
}
use vmnet_broker.Machine.{
  host_mode, Ptr, Network, dangling_pointer, crashed, null_argument, Timer, value,
}
use vmnet_broker.Machine.Returns.{Returns}
use vmnet_broker.Config.{
  NetworkConfig, shared_name, create_vmnet_configuration, create_network_configuration,
}
use vmnet_broker.Config.Builtin.{
  Configured, IsMade, create_vmnet_configuration-IsMade, create_network_configuration-Configured,
}
use vmnet_broker.Network.{acquire_network, create_network, release_peer_networks}
use vmnet_broker.Network.Registry.{shutdown_networks}
use vmnet_broker.Network.Invariant.{Inv}
use vmnet_broker.Network.Contract.{entries, Kept, Served}
use vmnet_broker.Network.Create.{Created, create_network-Created}
use vmnet_broker.Network.Acquire.{acquire_network-Served}
use vmnet_broker.Network.Reacquire.{acquire_network_again}
use vmnet_broker.Network.Release.{Released, with_count, release_peer_networks-Released}
use vmnet_broker.Network.Shutdown.{shutdown_networks_lem, IsStopped, IsReleased}
use vmnet_broker.Broker.{on_peer_request}
use vmnet_broker.Broker.Requests.{Answered, on_peer_request-Answered}
use vmnet_broker.Broker.Lifecycle.{Counts}
use vmnet_broker.Broker.Faults.{on_peer_request-crash}
use vmnet_broker.System.{step, timer}
use vmnet_broker.System.Peers.{total}
use vmnet_broker.System.Invariant.{SystemInv, requests, disconnects, Progress}
use vmnet_broker.System.Safety.{
  step-Progress, Reach-SystemInv, never_crashes, held_is_live, network_count-bound,
}
use vmnet_broker.System.Idle.{unowned_is_removed}
use vmnet_broker.System.Later.{idle_timeout}
use vmnet_broker.Tests.Scenario.{
  cf, out, env, request, acquire, leave, connected, connected-Reach, connected-peer,
  connected-IsServable, acquired, acquired-Reach, acquired-peer, acquired-HasTimers, left,
  left-Reach, peer_of,
}
use vmnet_broker.Tests.Scenario.Facts.{
  connected-IsValid, connected-Consistent, connected-Settled, acquired-IsValid, acquired-Consistent,
  acquired-Settled, acquired-network, acquired-name, acquired-owned, left-network, left-unowned,
  left-registry, left-alone, entries_of, network_of, nobody,
}

left-Counts : Counts 0 left.1
left-Counts = subst (λ k. Counts k left.1) left-alone (Reach-SystemInv left-Reach).counts

left-Inv : Inv cf left.1.heap (entries_of left.1) left.1.timers left.1.idle_timer (total left.0)
left-Inv =
    subst (λ m. Inv cf left.1.heap m left.1.timers left.1.idle_timer (total left.0))
      (ap entries left-registry) (Reach-SystemInv left-Reach).consistent

step-Progress_example :
    Progress cf connected.0 connected.1 acquire (step cf env acquire connected.0 connected.1)
step-Progress_example =
    step-Progress cf env connected.0 connected.1 acquire (Reach-SystemInv connected-Reach)
      (requests (peer_of connected) connected-peer connected-IsServable)

Reach-SystemInv_example : SystemInv cf acquired.0 acquired.1
Reach-SystemInv_example = Reach-SystemInv acquired-Reach

never_crashes_example : step cf env leave acquired.0 acquired.1 ≢ crashed dangling_pointer
never_crashes_example =
    never_crashes acquired-Reach env leave dangling_pointer
      (disconnects (peer_of acquired) acquired-peer acquired-HasTimers)

held_is_live_example :
    (n : Network) × (acquired.1.heap 100 ≡ some n)
    × (n.peers ≡ pos (total acquired.0 100))
    × (n.idle_timer ≡ none)
held_is_live_example =
    held_is_live acquired-Reach 5 (peer_of acquired) 100 acquired-peer
      (omega (arith, acquired-owned))

network_count-bound_example : (peer_of acquired).network_count ≤ 2
network_count-bound_example = network_count-bound acquired-Reach 5 (peer_of acquired) acquired-peer

unowned_is_removed_example :
    (t : ℕ) × (d : Timer) × ((network_of left).idle_timer ≡ some t)
    × (lookup t left.1.timers ≡ some d)
    × (d.deadline ≤ left.1.now + idle_timeout)
    × Returns
        (λ peers' s'. (peers' ≡ left.0) × (s'.heap ≡ update left.1.heap 100 none))
        (step cf env (timer t) left.0 left.1)
unowned_is_removed_example =
    unowned_is_removed env 100 (network_of left) left-Reach left-network left-unowned

acquire_network-Served_example :
    Returns
      (Served cf nobody shared_name (peer_of connected) connected.1)
      (acquire_network cf out (peer_of connected) shared_name connected.1)
acquire_network-Served_example =
    acquire_network-Served cf nobody out (peer_of connected) shared_name 0 connected.1
      connected-IsValid refl connected-Consistent connected-Settled connected-IsServable.fresh
      connected-IsServable.registered

on_peer_request-Answered_example :
    Returns
      (Answered cf nobody request (peer_of connected) connected.1)
      (on_peer_request cf out (peer_of connected) request connected.1)
on_peer_request-Answered_example =
    on_peer_request-Answered cf nobody out (peer_of connected) request connected.1 connected-IsValid
      connected-Consistent connected-Settled connected-IsServable

acquire_network_again_example :
    Returns
      (λ (ctx', r) s'.
        (ctx' ≡ peer_of acquired)
        × ((x : ℕ) × ((network_of acquired).serialization ≡ some x) × (r ≡ value x))
        × (s'.heap ≡ acquired.1.heap)
        × (entries s'.registry ≡ entries acquired.1.registry)
        × (s'.timers ≡ acquired.1.timers))
      (acquire_network cf out (peer_of acquired) shared_name acquired.1)
acquire_network_again_example =
    acquire_network_again cf nobody out (peer_of acquired) shared_name 100 (network_of acquired)
      acquired.1 acquired-Consistent acquired-Settled (omega (arith, acquired-owned))
      acquired-network acquired-name

release_peer_networks-Released_example :
    Returns
      (λ ctx' s'.
        Released cf nobody env.sources acquired.1 s' × (ctx' ≡ with_count (peer_of acquired) 0))
      (release_peer_networks env.sources (peer_of acquired) acquired.1)
release_peer_networks-Released_example =
    release_peer_networks-Released cf nobody env.sources (peer_of acquired) acquired.1
      acquired-IsValid acquired-Consistent acquired-Settled acquired-HasTimers.networks

shutdown_networks_lem_example :
    Returns
      (λ _ s'.
        Kept left.1 s'
        × (s'.registry ≡ none)
        × ((p : Ptr) → s'.heap p ≡ none)
        × IsStopped left.1 s'
        × IsReleased left.1 s')
      (shutdown_networks left.1)
shutdown_networks_lem_example = shutdown_networks_lem left.1 (Reach-SystemInv left-Reach).consistent

create_network-Created_example :
    Returns (Created shared_name connected.1) (create_network out shared_name connected.1)
create_network-Created_example =
    create_network-Created out shared_name connected.1 connected-IsServable.fresh

create_network_configuration-Configured_example :
    Returns
      (Configured out (bytes "bridge") connected.1)
      (create_network_configuration out (bytes "bridge") connected.1)
create_network_configuration-Configured_example =
    create_network_configuration-Configured out connected.1 (bytes "bridge")

-- An entry that the table does not have.
abbrev with_subnet : NetworkConfig
with_subnet = record {
  name = bytes "subnet";
  mode = host_mode;
  subnet = some (bytes "192.168.64.0");
  mask = some (bytes "255.255.255.0");
}

create_vmnet_configuration-IsMade_example :
    Returns
      (IsMade out with_subnet connected.1)
      (create_vmnet_configuration out with_subnet connected.1)
create_vmnet_configuration-IsMade_example =
    create_vmnet_configuration-IsMade out connected.1 with_subnet

on_peer_request-crash_example :
    on_peer_request cf out
      (peer_of connected)
      (record request { network_name = some (255 ∷ []) })
      connected.1
    ≡ crashed null_argument
on_peer_request-crash_example =
    on_peer_request-crash cf out (peer_of connected)
      (record request { network_name = some (255 ∷ []) }) (255 ∷ []) connected.1 (refl, refl) refl

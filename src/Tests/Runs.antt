-- ===== src/Tests/Runs.antt =====
-- The theorems on whole runs and on the registry, each at a concrete input.
use vmnet_broker.Base.{
  ltb, ◌≢◌, [], ◌∷◌, length, ℕ, ◌+◌, ◌≡◌, refl, arith, some, none, if◌then◌else◌, bytes_eq,
}
use vmnet_broker.Machine.{Ptr, exited, Network, replies, ◌>>◌}
use vmnet_broker.Machine.Returns.{Returns}
use vmnet_broker.Config.{shared_name, host_name}
use vmnet_broker.Network.Registry.{registry_get, registry_set, registry_remove}
use vmnet_broker.Network.Lookup.{registry_get_after}
use vmnet_broker.Network.Steady.{Survives}
use vmnet_broker.Broker.{on_peer_request}
use vmnet_broker.Broker.Sharing.{IsAnsweredWith}
use vmnet_broker.NetworkInfo.{NetworkInfo, Addresses, network_info}
use vmnet_broker.Client.{Client, Message, ReplyObject, xpc_error}
use vmnet_broker.Client.Session.{acquire_each, IsOver, acquire_each-IsOver}
use vmnet_broker.System.{step, signal}
use vmnet_broker.Machine.Ledger.{obtained, given_back, stock, handle_of, ref_of}
use vmnet_broker.System.Balance.{obtained-given_back, exit-released}
use vmnet_broker.System.Uptime.{stays_up}
use vmnet_broker.System.View.{view}
use vmnet_broker.System.Invariant.{disconnects, signals}
use vmnet_broker.System.Refinement.{Specified, history, Reach-Specified}
use vmnet_broker.System.Answers.{answers_to, requests_of, answers_to-requests_of}
use vmnet_broker.System.Later.{now, later}
use vmnet_broker.System.Grace.{held-Survives}
use vmnet_broker.System.Sharing.{one_network_of_name, connected_peer_shares}
use vmnet_broker.System.Drain.{Drains, Reach-Drains}
use vmnet_broker.Tests.Scenario.{
  cf, out, out_of_order, env, request, leave, acquired, acquired-Reach, acquired-peer,
  acquired-HasTimers, left, left-Reach, left_run, peer_of, stopped, stopped_run,
}
use vmnet_broker.Tests.Scenario.Facts.{
  acquired-owned, acquired-many, network_of, entries_of, left-now, left-network, left-name,
  left-IsLive, left-registry, acquired-network, acquired-name, acquired-serialization,
  acquired-IsServable,
}

Reach-Specified_example : Specified (history left-Reach) (view left.0 left.1)
Reach-Specified_example = Reach-Specified left-Reach

answers_to-requests_of_example :
    answers_to 5 (replies left.1.effects) ≡ requests_of 5 (history left-Reach)
answers_to-requests_of_example = answers_to-requests_of 5 left-Reach

held-Survives_example : (n : Network) × (acquired.1.heap 100 ≡ some n) × Survives n left.1.heap 100
held-Survives_example =
    held-Survives acquired-Reach 5 (peer_of acquired) 100 acquired-peer
      (omega (arith, acquired-owned))
      (later env leave now (disconnects (peer_of acquired) acquired-peer acquired-HasTimers)
        left_run)
      (omega (arith, left-now))

one_network_of_name_example : ◌≡◌ {A = ℕ} 100 100
one_network_of_name_example =
    one_network_of_name left-Reach 100 100 (network_of left) (network_of left) shared_name
      left-network left-network left-name left-name

connected_peer_shares_example :
    Returns
      (λ ctx' s'. IsAnsweredWith request (peer_of acquired) 70 acquired.1 s')
      (on_peer_request cf out_of_order (peer_of acquired) request acquired.1)
connected_peer_shares_example =
    connected_peer_shares acquired-Reach out_of_order 5 (peer_of acquired) request shared_name 100
      (network_of acquired) 70 acquired-peer (refl, refl) acquired-IsServable acquired-network
      acquired-name acquired-serialization

registry_get_after_example :
    Returns
      (λ before _.
        Returns
          (λ after _. after ≡ (if bytes_eq shared_name host_name then some 200 else before))
          ((registry_set cf shared_name 200 >> registry_get cf host_name) left.1)
        × Returns
            (λ after _. after ≡ (if bytes_eq shared_name host_name then none else before))
            ((registry_remove cf shared_name >> registry_get cf host_name) left.1))
      (registry_get cf host_name left.1)
registry_get_after_example =
    registry_get_after cf shared_name host_name 0 1 (entries_of left.1) left.1 refl refl
      left-registry left-IsLive 200

Reach-Drains_example : Drains cf acquired.0 acquired.1
Reach-Drains_example = Reach-Drains out acquired-Reach acquired-many

stays_up_example : step cf env leave acquired.0 acquired.1 ≢ exited 0 left.1
stays_up_example =
    stays_up acquired-Reach acquired-many env leave now (omega arith)
      (disconnects (peer_of acquired) acquired-peer acquired-HasTimers) (λ e. cc e)

-- The bytes of an address, as they are.
abbrev addresses : Addresses
addresses = record {
  get_ipv4_subnet = λ network. (192 ∷ 168 ∷ network ∷ 0 ∷ [], 255 ∷ 255 ∷ 255 ∷ 0 ∷ []);
  get_ipv6_prefix = λ network. (253 ∷ network ∷ [], 64);
  inet_ntop = λ family address size. if ltb (length address) size then some address else none;
}

abbrev no_info : NetworkInfo
no_info = record { subnet = []; mask = []; ipv6_prefix = []; prefix_len = 0 }

info_of_network : network_info addresses 60 no_info ≡ record {
  subnet = 192 ∷ 168 ∷ 60 ∷ 0 ∷ [];
  mask = 255 ∷ 255 ∷ 255 ∷ 0 ∷ [];
  ipv6_prefix = 253 ∷ 60 ∷ [];
  prefix_len = 64;
}
unfolding network_info
info_of_network = refl

abbrev failures : ℕ → Message → ReplyObject
failures connection m = xpc_error

abbrev closed : Client
closed = record { connection = none; sent = []; retained = [] }

acquire_each-IsOver_example :
    IsOver 9 (acquire_each failures ((9, shared_name) ∷ (8, host_name) ∷ []) closed)
    × (length (acquire_each failures ((9, shared_name) ∷ (8, host_name) ∷ []) closed).sent ≡ 2)
acquire_each-IsOver_example =
    acquire_each-IsOver failures 9 shared_name ((8, host_name) ∷ []) closed refl refl

obtained-given_back_example :
    obtained (handle_of 70) left.1.effects
    ≡ given_back (handle_of 70) left.1.effects + stock left.1 (handle_of 70)
obtained-given_back_example = obtained-given_back (handle_of 70) left-Reach

exit-released_example :
    (obtained (ref_of 60) stopped.effects ≡ given_back (ref_of 60) stopped.effects)
    × ((p : Ptr) → stopped.heap p ≡ none)
exit-released_example = exit-released env signal (ref_of 60) left-Reach signals stopped_run refl

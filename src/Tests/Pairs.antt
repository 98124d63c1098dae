-- ===== src/Tests/Pairs.antt =====
-- The theorems on two clients and on the start of the broker, each at a concrete input.
use vmnet_broker.Base.{
  inl, insert, ℕ, ◌≡◌, refl, Option, some, [], pos, ℤ, true, false, length, arith,
}
use vmnet_broker.Machine.{Ptr, Network, Context, exited}
use vmnet_broker.Machine.Returns.{Returns}
use vmnet_broker.Config.{shared_name}
use vmnet_broker.Machine.Alike.{Alike, RunAlike}
use vmnet_broker.Broker.Startup.{main}
use vmnet_broker.Client.{Client, retain}
use vmnet_broker.Client.Outcome.{Received}
use vmnet_broker.Clients.{call}
use vmnet_broker.Clients.Calls.{call-Received}
use vmnet_broker.Clients.Grant.{call-IsGiven}
use vmnet_broker.Clients.Agree.{IsGiven, clients_agree}
use vmnet_broker.System.Order.{events_of, replay, runs-Alike}
use vmnet_broker.Tests.Scenario.Two.{shared, shared-Later, two, two-Reach, two_swapped, two-Alike}
use vmnet_broker.Xpc.{connection_invalid}
use vmnet_broker.System.{step, peer, initial}
use vmnet_broker.System.Safety.{Reach}
use vmnet_broker.System.Counters.{IsCount, counters_fit}
use vmnet_broker.System.Holding.{StillHolds, held-StillHolds}
use vmnet_broker.System.Startup.{Prepared, main-Prepared}
use vmnet_broker.Tests.Scenario.{available, cf, env}
use vmnet_broker.Tests.Scenario.Facts.{network_of}
use vmnet_broker.Tests.Scenario.Pair.{
  pair, pair-Reach, pair-peer, pair-IsServable, context_of, idle_client, served, served_run,
  served-Reach, served-peer, served-holds, served-network, served_client, served_few, waited,
  served-Later, served-KeepsOpen, alone, alone-Later, alone_soon, alone-peer, alone-IsServable,
  env_out_of_order,
}

clients_agree_example :
    Returns
      (λ (got, peers) s. IsGiven 70 idle_client got)
      (call cf env_out_of_order 6 11 shared_name idle_client alone.0 alone.1)
clients_agree_example =
    clients_agree pair-Reach env env_out_of_order shared_name 5 9 idle_client served_client
      (context_of 5 pair) 70 (pos 0) pair-peer pair-IsServable served_run served-Later
      served-KeepsOpen alone-Later alone_soon 6 11 idle_client (context_of 6 alone) alone-peer
      alone-IsServable

call-Received_example :
    Returns
      (λ (got, peers') s'.
        (result : Option ℕ × ℤ) × (client' : Client) × (ctx' : Context) × (got
          ≡ some (result, client'))
        × Received shared_name (context_of 5 pair) ctx' s' result
        × (client'.retained ≡ retain result.0 [])
        × (peers' ≡ insert 5 ctx' pair.0)
        × Reach cf peers' s')
      (call cf env 5 9 shared_name idle_client pair.0 pair.1)
call-Received_example =
    call-Received pair-Reach env 5 9 shared_name idle_client (context_of 5 pair) pair-peer
      pair-IsServable

call-IsGiven_example :
    Returns
      (λ (got, peers') s'. (x : ℕ) × IsGiven x idle_client got)
      (call cf env 5 9 shared_name idle_client pair.0 pair.1)
call-IsGiven_example =
    call-IsGiven pair-Reach env 5 9 shared_name idle_client (context_of 5 pair) pair-peer (inl refl)
      pair-IsServable available

counters_fit_example :
    IsCount (length served.0) served.1.connected_peers
    × ((p : Ptr) (n : Network) → served.1.heap p ≡ some n → IsCount (length served.0) n.peers)
    × IsCount 1 served.1.transactions
counters_fit_example = counters_fit served-Reach served_few

main-Prepared_example :
    Returns
      (λ process s'. Prepared cf env process × (s' ≡ initial))
      (main cf env (λ sig. some sig) true initial)
    × (main cf env (λ sig. some sig) false initial ≡ exited 1 initial)
main-Prepared_example =
    main-Prepared cf env (λ sig. some sig) 2 15 initial refl refl (λ e. ground (arith, e))

held-StillHolds_example : StillHolds waited.0 waited.1 5 100 (network_of served)
held-StillHolds_example =
    held-StillHolds served-Reach 5 (context_of 5 served) 100 (network_of served) served-peer
      served-holds served-network served-Later served-KeepsOpen

runs-Alike_example :
    Returns
      (λ peers t.
        (peers ≡ shared.0)
        × Alike shared.1 t
        × RunAlike
            (step cf env (peer 5 connection_invalid) shared.0 shared.1)
            (step cf env (peer 5 connection_invalid) shared.0 t))
      (replay cf (events_of shared-Later) two.0 two_swapped)
runs-Alike_example =
    runs-Alike two_swapped two-Reach two-Alike shared-Later env (peer 5 connection_invalid)

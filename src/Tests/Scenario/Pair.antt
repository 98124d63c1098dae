-- ===== src/Tests/Scenario/Pair.antt =====
-- Two peers: the first acquires the shared network and stays for a while, leaves, and the second asks
-- for the network.
use vmnet_broker.Base.{
  count, length, ◌^◌, ℕ, ◌+◌, ◌<◌, ◌≡◌, [], ◌∷◌, refl, Option, none, some, pos, ℤ, lookup, arith,
}
use vmnet_broker.Network.Ownership.{owned}
use vmnet_broker.Machine.{Context, State, Run, ok}
use vmnet_broker.Config.{shared_name}
use vmnet_broker.Xpc.{new_connection, connection_invalid}
use vmnet_broker.Broker.{Env}
use vmnet_broker.Broker.Requests.{IsServable}
use vmnet_broker.Broker.Lifecycle.{HasTimers}
use vmnet_broker.Client.{Client, message, vmnet_broker_acquire_network}
use vmnet_broker.Clients.{asks, call}
use vmnet_broker.System.{Event, listener, peer, elapse, Peers, step}
use vmnet_broker.System.Invariant.{connects, requests, disconnects, elapses}
use vmnet_broker.System.Safety.{Reach, next}
use vmnet_broker.System.Later.{idle_timeout, Later, now, later, Reach-Later}
use vmnet_broker.System.Holding.{KeepsOpen}
use vmnet_broker.Tests.Scenario.Facts.{network_of}
use vmnet_broker.Tests.Scenario.{
  cf, env, out_of_order, request, run, connected, connected-Reach, encodable,
}

abbrev join : Event
join = listener (new_connection 6 (pos 43))

abbrev pub pair : Peers × State
pair = run join connected.0 connected.1

pair_run : step cf env join connected.0 connected.1 ≡ ok pair.0 pair.1
unfolding run
pair_run = refl

pub pair-Reach : Reach cf pair.0 pair.1
unfolding run lookup
pair-Reach = next env join connected-Reach (connects refl) pair_run

abbrev no_context : Context
no_context = record { connection = 0; name = []; networks = []; network_count = 0 }

abbrev pub context_of : ℕ → Peers × State → Context
context_of c (peers, s) = elim (lookup c peers) [ none ↦ no_context | some ctx ↦ ctx ]

pub pair-peer : lookup 5 pair.0 ≡ some (context_of 5 pair)
unfolding run
pair-peer = refl

pub pair-IsServable : IsServable cf env.outcomes request pair.1
unfolding run
pair-IsServable = record {
  encodable = λ name asked. encodable name asked.1;
  fresh = λ p e. refl;
  registered = λ e. refl;
}

-- A library that has no connection yet.
abbrev pub idle_client : Client
idle_client = record { connection = none; sent = []; retained = [] }

abbrev pub served_client : Client
served_client = record {
  connection = some 9;
  sent = (9, message shared_name) ∷ [];
  retained = 70 ∷ [];
}

abbrev after_call : Run (Option ((Option ℕ × ℤ) × Client) × Peers) → Peers × State
after_call (ok (got, peers) s) = (peers, s)
after_call r = pair

-- The first peer's call.
abbrev pub served : Peers × State
served = after_call (call cf env 5 9 shared_name idle_client pair.0 pair.1)

pub served_run :
    call cf env 5 9 shared_name idle_client pair.0 pair.1
    ≡ ok (some ((some 70, pos 0), served_client), served.0) served.1
unfolding run call vmnet_broker_acquire_network
served_run = refl

pub served_step : step cf env (asks 5 shared_name) pair.0 pair.1 ≡ ok served.0 served.1
unfolding run call
served_step = refl

pub served-Reach : Reach cf served.0 served.1
served-Reach =
    next env (asks 5 shared_name) pair-Reach
      (requests (context_of 5 pair) pair-peer pair-IsServable) served_step

pub served-peer : lookup 5 served.0 ≡ some (context_of 5 served)
unfolding run call
served-peer = refl

abbrev wait : Event
wait = elapse 500_000_000_000

abbrev pub waited : Peers × State
waited = run wait served.0 served.1

waited_run : step cf env wait served.0 served.1 ≡ ok waited.0 waited.1
unfolding run
waited_run = refl

pub served-Later : Later cf served.0 served.1 waited.0 waited.1
served-Later = later env wait now elapses waited_run

pub served-KeepsOpen : KeepsOpen 5 served-Later
unfolding served-Later
served-KeepsOpen = (λ e. cc e, tt)

abbrev leave : Event
leave = peer 5 connection_invalid

abbrev pub alone : Peers × State
alone = run leave waited.0 waited.1

alone_run : step cf env leave waited.0 waited.1 ≡ ok alone.0 alone.1
unfolding run call
alone_run = refl

pub waited-peer : lookup 5 waited.0 ≡ some (context_of 5 waited)
unfolding run call
waited-peer = refl

waited-HasTimers : HasTimers env waited.1 (context_of 5 waited)
unfolding run call
waited-HasTimers = record {
  networks = record {
    given = λ q mine. (q + 10, refl, refl);
    distinct = λ q r t e f. ground (arith, e, f);
  };
  broker = (1, refl, refl, λ q e. ground (arith, e));
}

pub alone-Later : Later cf waited.0 waited.1 alone.0 alone.1
alone-Later =
    later env leave now (disconnects (context_of 5 waited) waited-peer waited-HasTimers) alone_run

pub alone_soon : alone.1.now < waited.1.now + idle_timeout
unfolding run call
alone_soon = omega arith

pub alone-peer : lookup 6 alone.0 ≡ some (context_of 6 alone)
unfolding run call
alone-peer = refl

abbrev pub env_out_of_order : Env
env_out_of_order = record env { outcomes = out_of_order }

pub alone-IsServable : IsServable cf env_out_of_order.outcomes request alone.1
unfolding run call
alone-IsServable = record {
  encodable = λ name asked. encodable name asked.1;
  fresh = λ p e. cc e;
  registered = λ e. cc e;
}

pub waited-Reach : Reach cf waited.0 waited.1
waited-Reach = Reach-Later served-Reach served-Later

pub waited-holds : 0 < count 100 (owned (context_of 5 waited))
unfolding run call
waited-holds = omega arith

pub waited-network : waited.1.heap 100 ≡ some (network_of waited)
unfolding run call
waited-network = refl

pub waited-name : (network_of waited).name ≡ some shared_name
unfolding run call
waited-name = refl

pub waited-serialization : (network_of waited).serialization ≡ some 70
unfolding run call
waited-serialization = refl

pub served-holds : 0 < count 100 (owned (context_of 5 served))
unfolding run call
served-holds = omega arith

pub served-network : served.1.heap 100 ≡ some (network_of served)
unfolding run call
served-network = refl

pub served_few : length served.0 < 2 ^ 31
unfolding run call
served_few = omega arith

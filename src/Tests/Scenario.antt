-- ===== src/Tests/Scenario.antt =====
-- One peer connects, acquires the shared network, and disconnects.
pub mod Facts
pub mod Pair
pub mod Two
pub mod Again
pub mod Missing
use vmnet_broker.Base.{
  ◌∷◌, false, ℕ, ◌+◌, ◌≡◌, refl, ap, true, [], Option, none, some, pos, CString, bytes_eq,
  bytes_eq→eq, lookup, insert, erase, arith, if◌then◌else◌,
}
use vmnet_broker.Status.{vmnet_success, vmnet_failure}
use vmnet_broker.Machine.{Network, Context, State, Run, ok, exited, CoreFoundation, Outcomes}
use vmnet_broker.Config.{create_network_configuration, shared_name, host_name}
use vmnet_broker.Network
use vmnet_broker.Network.Grant.{IsAvailable}
use vmnet_broker.Network.Registry
use vmnet_broker.Xpc.{Request, connection_invalid, new_connection}
use vmnet_broker.Xpc
use vmnet_broker.Broker.{Env, command_acquire}
use vmnet_broker.Broker
use vmnet_broker.Broker.Requests.{IsServable}
use vmnet_broker.Broker.Lifecycle.{HasTimers}
use vmnet_broker.System.{Event, signal, listener, peer, Peers, initial, step}
use vmnet_broker.System
use vmnet_broker.System.Invariant.{connects, requests, disconnects}
use vmnet_broker.System.Safety.{Reach, start, next}

-- A CFString for each builtin name alone.
abbrev pub create_string : CString → Option ℕ
create_string name =
    if bytes_eq shared_name name then some 0 else if bytes_eq host_name name then some 1 else none

pub create_string-one :
    (a b : CString) (k : ℕ) → create_string a ≡ some k → create_string b ≡ some k → a ≡ b
create_string-one a b k e f = ground (
  arith,
  bytes_eq→eq shared_name a,
  bytes_eq→eq shared_name b,
  bytes_eq→eq host_name a,
  bytes_eq→eq host_name b,
)

abbrev pub cf : CoreFoundation
cf = record { create_string = create_string; create_string_injective = create_string-one }

-- Every call succeeds.
abbrev pub out : Outcomes
out = record {
  dictionary_create = true;
  configuration_create = λ mode. some 50;
  inet_pton = λ text. some (192 ∷ 168 ∷ 64 ∷ 0 ∷ []);
  set_ipv4_subnet = λ c subnet mask. vmnet_success;
  calloc = some 100;
  strdup = true;
  network_create = some 60;
  copy_serialization = some 70;
}

pub available : IsAvailable out shared_name
available = record {
  configured = (50, refl);
  allocated = (100, refl);
  copied = refl;
  made = (60, refl);
  serialized = (70, refl);
}

-- Every call fails.
abbrev pub out_of_order : Outcomes
out_of_order = record {
  dictionary_create = false;
  configuration_create = λ mode. none;
  inet_pton = λ text. none;
  set_ipv4_subnet = λ c subnet mask. vmnet_failure;
  calloc = none;
  strdup = false;
  network_create = none;
  copy_serialization = none;
}

abbrev pub env : Env
env = record { outcomes = out; sources = λ p. some (p + 10); source = some 1 }

abbrev pub request : Request
request = record {
  command = some command_acquire;
  network_name = some shared_name;
  has_return_address = true;
}

abbrev pub result : Run Peers → Peers × State
result (ok peers s) = (peers, s)
result r = ([], initial)

-- The step that goes on.
pub run : Event → Peers → State → Peers × State
unfolding step System.on_peer Xpc.handle_listener Xpc.handle_event Broker.on_peer_connect
    Broker.on_peer_request Broker.serve Broker.on_peer_disconnect Network.acquire_network
    Network.acquire_found Network.create_and_register Network.create_configured
    Network.create_network Network.register_created Network.share_created Network.share_network
    Network.update_peer_ownership Network.add_network_to_peer Network.cancel_remove_later
    Network.release_peer_networks Network.release_network Network.remove_later
    Registry.init_registry Registry.registry_get Registry.registry_set Registry.free_network
    Xpc.send_xpc_network Xpc.send_xpc_error initial lookup insert erase create_network_configuration
    Network.peer_owns_network
run e peers s = result (step cf env e peers s)

abbrev pub connect : Event
connect = listener (new_connection 5 (pos 42))

abbrev pub connected : Peers × State
connected = run connect [] initial

connected_run : step cf env connect [] initial ≡ ok connected.0 connected.1
unfolding run
connected_run = refl

pub connected-Reach : Reach cf connected.0 connected.1
unfolding lookup
connected-Reach = next env connect start (connects refl) connected_run

abbrev no_peer : Context
no_peer = record { connection = 0; name = []; networks = []; network_count = 0 }

abbrev pub peer_of : Peers × State → Context
peer_of (peers, s) = elim (lookup 5 peers) [ none ↦ no_peer | some ctx ↦ ctx ]

pub connected-peer : lookup 5 connected.0 ≡ some (peer_of connected)
unfolding run
connected-peer = refl

pub encodable :
    (name : CString) → some shared_name ≡ some name → (k : ℕ) × (create_string name ≡ some k)
encodable name e = let same : name ≡ shared_name = ground (arith, e) in (0, ap create_string same)

pub connected-IsServable : IsServable cf out request connected.1
unfolding run
connected-IsServable = record {
  encodable = λ name asked. encodable name asked.1;
  fresh = λ p e. refl;
  registered = λ e. refl;
}

abbrev pub acquire : Event
acquire = peer 5 (Xpc.dictionary request)

abbrev pub acquired : Peers × State
acquired = run acquire connected.0 connected.1

acquired_run : step cf env acquire connected.0 connected.1 ≡ ok acquired.0 acquired.1
unfolding run
acquired_run = refl

pub acquired-Reach : Reach cf acquired.0 acquired.1
acquired-Reach =
    next env acquire connected-Reach
      (requests (peer_of connected) connected-peer connected-IsServable) acquired_run

pub acquired-peer : lookup 5 acquired.0 ≡ some (peer_of acquired)
unfolding run
acquired-peer = refl

pub acquired-HasTimers : HasTimers env acquired.1 (peer_of acquired)
unfolding run
acquired-HasTimers = record {
  networks = record {
    given = λ q mine. (q + 10, refl, refl);
    distinct = λ q r t e f. ground (arith, e, f);
  };
  broker = (1, refl, refl, λ q e. ground (arith, e));
}

abbrev pub leave : Event
leave = peer 5 connection_invalid

abbrev pub left : Peers × State
left = run leave acquired.0 acquired.1

pub left_run : step cf env leave acquired.0 acquired.1 ≡ ok left.0 left.1
unfolding run
left_run = refl

pub left-Reach : Reach cf left.0 left.1
left-Reach =
    next env leave acquired-Reach (disconnects (peer_of acquired) acquired-peer acquired-HasTimers)
      left_run

abbrev final : Run Peers → State
final (exited n s) = s
final r = initial

-- A signal ends the process when the peer has left.
pub stopped : State
unfolding run step Broker.on_signal Registry.shutdown_networks Registry.release_values
    Registry.free_network
stopped = final (step cf env signal left.0 left.1)

pub stopped_run : step cf env signal left.0 left.1 ≡ exited 0 stopped
unfolding stopped
stopped_run = refl

-- ===== src/Broker.antt =====
-- broker/broker.c: the requests and the life of the peers, the shutdown of an idle broker, and the
-- signals.
pub mod Requests
pub mod Lifecycle
pub mod Faults
pub mod Grant
pub mod Sharing
pub mod Startup
pub mod Alike
use vmnet_broker.Base.{
  ℕ, Bool, true, false, Option, none, some, ℤ, incr, decr, is, is_positive, CString, bytes,
  bytes_eq, if◌then◌else◌,
}
use vmnet_broker.Status.{code, invalid_request}
use vmnet_broker.Machine.{
  Ptr, Context, Handler, remove_network, shutdown, serialization, released, failed_assertion, Cmd,
  ok, pure, ◌>>=◌, ◌>>◌, crash, exit, emit, load, non_null, start_timer, cancel_timer,
  CoreFoundation, Outcomes, Result, value, err,
}
use vmnet_broker.Network.{acquire_network, release_peer_networks}
use vmnet_broker.Network.Registry.{registry_remove, shutdown_networks}
use vmnet_broker.Xpc.{Request, BrokerOps, send_xpc_error, send_xpc_network, start_xpc_listener}

-- What the external calls return while an event is handled: those of a request, and the timers'
-- sources of the networks and of the broker.
pub record Env : Type 0 where
  pub outcomes : Outcomes
  pub sources : Ptr → Option ℕ
  pub source : Option ℕ

abbrev pub command_acquire : CString
command_acquire = bytes "acquire"

pub reject : Context → Request → Cmd Context
reject ctx event = do send_xpc_error ctx event (code invalid_request); pure ctx

-- on_peer_request after acquire_network
pub answer : Request → Context × Result ℕ → Cmd Context
answer event (ctx, err e) = do send_xpc_error ctx event (code e); pure ctx
answer event (ctx, value x) = do
  send_xpc_network ctx event x
  emit (released (serialization x))
  pure ctx

-- The part of on_peer_request from acquire_network on.
unfoldable pub serve : CoreFoundation → Outcomes → Context → Request → CString → Cmd Context
unfolding answer
serve cf out ctx event network_name = do
  acquired ← acquire_network cf out ctx network_name
  answer event acquired

unfoldable pub on_peer_request : CoreFoundation → Outcomes → Context → Request → Cmd Context
unfolding reject
on_peer_request cf out ctx event = elim event.command [
  | none ↦ reject ctx event
  | some command ↦
      if bytes_eq command command_acquire
      then elim event.network_name [
        | none ↦ reject ctx event
        | some network_name ↦ serve cf out ctx event network_name
      ]
      else reject ctx event
]

abbrev set_idle_timer : Option ℕ → Cmd (Unit {0})
set_idle_timer t s = ok tt (record s { idle_timer = t })

pub shutdown_later : Option ℕ → Cmd (Unit {0})
shutdown_later source s = elim s.idle_timer [
  | some t ↦ crash failed_assertion s
  | none ↦ elim source [
    | none ↦ crash failed_assertion s
    | some t ↦ (do set_idle_timer (some t); start_timer t shutdown) s
  ]
]

abbrev count_peers : (ℤ → ℤ) → Cmd (Unit {0})
count_peers f s = ok tt (record s { connected_peers = f s.connected_peers })

-- xpc_transaction_begin and xpc_transaction_end
abbrev count_transactions : (ℤ → ℤ) → Cmd (Unit {0})
count_transactions f s = ok tt (record s { transactions = f s.transactions })

unfoldable pub cancel_shutdown : Cmd (Unit {0})
cancel_shutdown s = elim s.idle_timer [
  | none ↦ ok tt s
  | some t ↦ (do cancel_timer t; set_idle_timer none) s
]

abbrev when : Bool → Cmd (Unit {0}) → Cmd (Unit {0})
when true m = m
when false m = pure tt

unfoldable pub on_peer_connect : Cmd (Unit {0})
unfolding cancel_shutdown
on_peer_connect = do
  count_peers incr
  λ s. when (is s.connected_peers 1) (do count_transactions incr; cancel_shutdown) s

-- on_peer_disconnect after release_peer_networks: `source` is what dispatch_source_create returns.
unfoldable pub end_if_last : (source : Option ℕ) → Cmd (Unit {0})
unfolding shutdown_later
end_if_last source s =
    when (is s.connected_peers 0) (do count_transactions decr; shutdown_later source) s

unfoldable pub on_peer_disconnect : Env → Context → Cmd Context
unfolding end_if_last
on_peer_disconnect env ctx = do
  count_peers decr
  ctx' ← release_peer_networks env.sources ctx
  end_if_last env.source
  pure ctx'

abbrev pub broker_ops : CoreFoundation → Env → BrokerOps
broker_ops cf env = record {
  on_peer_connect = some (λ ctx. on_peer_connect);
  on_peer_disconnect = some (on_peer_disconnect env);
  on_peer_request = some (on_peer_request cf env.outcomes);
}

-- The block of a timer.
unfoldable pub on_timer : CoreFoundation → Handler → Cmd (Unit {0})
on_timer cf (remove_network p) = do n ← load p; name ← non_null n.name; registry_remove cf name
on_timer cf shutdown = do shutdown_networks; exit 0

-- The block of the source of SIGINT and SIGTERM.
unfoldable pub on_signal : Cmd (Unit {0})
on_signal s = if is_positive s.connected_peers then ok tt s else (do shutdown_networks; exit 0) s

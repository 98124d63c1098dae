-- ===== src/Xpc.antt =====
-- broker/xpc.c: the contexts of the peers, the replies, and the handlers of XPC's events. The
-- handlers call the broker through `BrokerOps`, and skip a callback that is NULL.
pub mod Replies
pub mod Names
use vmnet_broker.Base.{
  ℕ, zero, suc, ◌+◌, ◌-◌, ◌/◌, ◌%◌, Bool, Option, none, some, [], ◌∷◌, ◌++◌, ℤ, pos, negsuc,
  CString, bytes, take, replicate, ◌==◌, if◌then◌else◌,
}
use vmnet_broker.Machine.{
  Context, max_peer_networks, Reply, reply, error, network, created, released, sent, Cmd, pure,
  ◌>>=◌, ◌>>◌, exit, emit,
}

-- The dictionary that a peer sends: `none` is a key that is missing or holds no string.
pub record Request : Type 0 where
  pub command : Option CString
  pub network_name : Option CString
  pub has_return_address : Bool

pub data PeerEvent : Type 0 where
  connection_invalid other_error other_object : PeerEvent
  dictionary : Request → PeerEvent

pub data ListenerEvent : Type 0 where
  listener_error other_listener_event : ListenerEvent
  new_connection : (connection : ℕ) (pid : ℤ) → ListenerEvent

-- struct broker_ops
pub record BrokerOps : Type 0 where
  pub on_peer_connect : Option (Context → Cmd (Unit {0}))
  pub on_peer_disconnect : Option (Context → Cmd Context)
  pub on_peer_request : Option (Context → Request → Cmd Context)

-- `%d` of a number: its decimal digits in front of `rest`, at most `fuel` of them.
unfoldable pub decimal : (fuel : ℕ) → ℕ → CString → CString
decimal zero n rest = rest
decimal (suc fuel) n rest =
    let digits = (b'0' + n % 10) ∷ rest in
    let more = decimal fuel (n / 10) digits in if n / 10 == 0 then digits else more

-- No 64-bit number has more digits.
abbrev pub max_digits : ℕ
max_digits = 20

unfoldable pub format_int : ℤ → CString
unfolding decimal
format_int (pos n) = decimal max_digits n []
format_int (negsuc n) = b'-' ∷ decimal max_digits (suc n) []

-- `sizeof(ctx->name)`
abbrev name_size : ℕ
name_size = 25

abbrev pub peer_name : ℤ → CString
peer_name pid = bytes "peer " ++ format_int pid

-- snprintf keeps `sizeof(ctx->name) - 1` bytes.
unfoldable pub init_context : (connection : ℕ) (pid : ℤ) → Context
unfolding format_int
init_context connection pid = record {
  connection = connection;
  name = take (name_size - 1) (peer_name pid);
  networks = replicate max_peer_networks 0;
  network_count = 0;
}

-- Both functions that send a reply: none is sent for an event with no return address.
unfoldable pub send : Context → Request → Reply → Cmd (Unit {0})
send ctx event r =
    if event.has_return_address
    then (do
      emit (created (reply ctx.connection))
      emit (sent ctx.connection r)
      emit (released (reply ctx.connection)))
    else pure tt

unfoldable pub send_xpc_error : Context → Request → ℕ → Cmd (Unit {0})
unfolding send
send_xpc_error ctx event code = send ctx event (error code)

unfoldable pub send_xpc_network : Context → Request → ℕ → Cmd (Unit {0})
unfolding send
send_xpc_network ctx event serialization = send ctx event (network serialization)

-- The event handler of a peer's connection.
unfoldable pub handle_event : BrokerOps → PeerEvent → Context → Cmd Context
handle_event ops connection_invalid ctx = elim ops.on_peer_disconnect [
  | none ↦ pure ctx
  | some f ↦ f ctx
]
handle_event ops other_error ctx = pure ctx
handle_event ops other_object ctx = pure ctx
handle_event ops (dictionary event) ctx = elim ops.on_peer_request [
  | none ↦ pure ctx
  | some f ↦ f ctx event
]

-- The context of a new connection, which its event handler captures.
unfoldable pub handle_connection : BrokerOps → (connection : ℕ) (pid : ℤ) → Cmd Context
unfolding init_context
handle_connection ops connection pid =
    let ctx = init_context connection pid in
    elim ops.on_peer_connect [ none ↦ pure ctx | some f ↦ do f ctx; pure ctx ]

-- The event handler of the listener: the context of the connection that it accepts, if any.
unfoldable pub handle_listener : BrokerOps → ListenerEvent → Cmd (Option Context)
unfolding handle_connection
handle_listener ops listener_error = exit 1
handle_listener ops other_listener_event = pure none
handle_listener ops (new_connection connection pid) = do
  ctx ← handle_connection ops connection pid
  pure (some ctx)

-- The operations that the handlers use, or none for the result -1. `available` says whether
-- xpc_connection_create_mach_service returns a listener.
unfoldable pub start_xpc_listener : Option BrokerOps → (available : Bool) → Option BrokerOps
start_xpc_listener none available = none
start_xpc_listener (some ops) available = if available then some ops else none

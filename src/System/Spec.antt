-- ===== src/System/Spec.antt =====
-- What the broker promises its clients: which network names each open connection holds, and which
-- replies are sent. There are no addresses, no registry, no timers and no time.
use vmnet_broker.Base.{
  ℕ, ◌≡◌, ◌||◌, Bool, false, Option, none, some, List, ◌∷◌, CString, bytes_eq, update, ℤ, ◌⊎◌,
  if◌then◌else◌,
}
use vmnet_broker.Status.{Status, code, invalid_request}
use vmnet_broker.Machine.{Reply, error, network}
use vmnet_broker.Config.Builtin.{IsBuiltin}
use vmnet_broker.Network.Contract.{IsRefusal}
use vmnet_broker.Xpc.{
  Request, connection_invalid, other_error, other_object, dictionary, other_listener_event,
  new_connection,
}
use vmnet_broker.Broker.Requests.{IsAcquire}
use vmnet_broker.System.{Event, listener, peer, timer, elapse, signal}

-- For an open connection, the set of the names that it holds.
abbrev pub Holdings : Type 0
Holdings = ℕ → Option (CString → Bool)

pub record Abstract : Type 0 where
  pub holdings : Holdings
  pub outbox : List (ℕ × Reply)

abbrev pub nothing_held : CString → Bool
nothing_held name = false

abbrev pub with_name : (CString → Bool) → CString → CString → Bool
with_name held name x = held x || bytes_eq name x

-- A reply to an event that has a return address.
abbrev pub post : Request → ℕ → Reply → List (ℕ × Reply) → List (ℕ × Reply)
post event c r outbox = if event.has_return_address then (c, r) ∷ outbox else outbox

-- The error of a request: it is none to acquire a network by name, or there is none of that name to
-- share.
abbrev pub IsReason : Request → ℕ → Type 0
IsReason event e =
    ((e ≡ code invalid_request) × ((name : CString) → ¬ IsAcquire event name))
    ⊎ (name : CString) × IsAcquire event name × (why : Status) × IsRefusal name why × (e ≡ code why)

-- The events that clients do not see.
pub data IsInternal : Event → Type 0 where
  other_message : IsInternal (listener other_listener_event)
  noise : {c : ℕ} → IsInternal (peer c other_error)
  object : {c : ℕ} → IsInternal (peer c other_object)
  fired : {t : ℕ} → IsInternal (timer t)
  ignored_signal : IsInternal signal
  time : {d : ℕ} → IsInternal (elapse d)

pub data Rule (a : Abstract) : Event → Abstract → Type 0 where
  connect :
      {c : ℕ} {pid : ℤ} {b : Abstract}
      → a.holdings c ≡ none
      → b.holdings ≡ update a.holdings c (some nothing_held)
      → b.outbox ≡ a.outbox
      → Rule a (listener (new_connection c pid)) b
  grant :
      {c : ℕ} {event : Request} {b : Abstract} (held : CString → Bool) (name : CString) (x : ℕ)
      → a.holdings c ≡ some held
      → IsAcquire event name
      → IsBuiltin name
      → b.holdings ≡ update a.holdings c (some (with_name held name))
      → b.outbox ≡ post event c (network x) a.outbox
      → Rule a (peer c (dictionary event)) b
  refuse :
      {c : ℕ} {event : Request} {b : Abstract} (e : ℕ)
      → IsReason event e
      → b.holdings ≡ a.holdings
      → b.outbox ≡ post event c (error e) a.outbox
      → Rule a (peer c (dictionary event)) b
  leave :
      {c : ℕ} {b : Abstract}
      → b.holdings ≡ update a.holdings c none
      → b.outbox ≡ a.outbox
      → Rule a (peer c connection_invalid) b
  stay :
      {e : Event} {b : Abstract}
      → IsInternal e
      → b.holdings ≡ a.holdings
      → b.outbox ≡ a.outbox
      → Rule a e b

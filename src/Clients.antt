-- ===== src/Clients.antt =====
-- The client library against the broker: a call of vmnet_broker_acquire_network of client/client.c
-- whose message is an event of the broker, and whose reply is what the broker's handler sends.
pub mod Calls
pub mod Agree
pub mod Grant
pub mod Asked
pub mod Served
pub mod Unknown
use vmnet_broker.Base.{
  ℕ, Option, none, some, List, [], ◌∷◌, ℤ, CString, length, ◌==◌, ◌&&◌, if◌then◌else◌,
}
use vmnet_broker.Machine.{Reply, replies, State, Run, ok, Cmd, and_then, CoreFoundation}
use vmnet_broker.Xpc.{dictionary}
use vmnet_broker.Broker.{Env}
use vmnet_broker.Client.{Client, vmnet_broker_acquire_network, message, deliver, reply_object}
use vmnet_broker.System.{Event, peer, Peers, step}

-- The reply that the handler of one event sent over the connection, if it sent one: the log of
-- replies was `before`.
abbrev pub new_reply : (connection : ℕ) (before after : List (ℕ × Reply)) → Option Reply
new_reply c before [] = none
new_reply c before ((d, r) ∷ older) =
    if (c == d) && (length older == length before) then some r else none

-- The event of a client's message on its connection.
abbrev pub asks : ℕ → CString → Event
asks c network_name = peer c (dictionary (deliver (message network_name)))

-- What the call returns, with the state of the library after it; none if no reply comes, and the
-- call waits.
abbrev pub returned :
    (mach_service : ℕ) (network_name : CString)
    → Client
    → Option Reply
    → Option ((Option ℕ × ℤ) × Client)
returned mach_service network_name client none = none
returned mach_service network_name client (some r) =
    some (vmnet_broker_acquire_network mach_service (λ _ _. reply_object r) network_name client)

-- The library's connection is the broker's connection `c`.
unfoldable pub call :
    CoreFoundation
    → Env
    → (c mach_service : ℕ) (network_name : CString) → Client
    → Peers
    → Cmd (Option ((Option ℕ × ℤ) × Client) × Peers)
call cf env c mach_service network_name client peers s =
    and_then (step cf env (asks c network_name) peers s) λ peers' s'.
      let r = new_reply c (replies s.effects) (replies s'.effects) in
      ok (returned mach_service network_name client r, peers') s'

-- ===== src/Clients/Grant.antt =====
-- The call of a process for a builtin network.
use vmnet_broker.Base.{ℕ, ◌≡◌, refl, some, lookup, insert, CString, arith}
use vmnet_broker.Machine.{network, Context, State, CoreFoundation}
use vmnet_broker.Machine.Returns.{Returns, returns}
use vmnet_broker.Config.Builtin.{IsBuiltin}
use vmnet_broker.Network.Grant.{IsAvailable}
use vmnet_broker.Broker.{Env}
use vmnet_broker.Broker.Requests.{IsServable}
use vmnet_broker.Client.{Client, message, deliver}
use vmnet_broker.System.{Peers}
use vmnet_broker.System.Safety.{Reach}
use vmnet_broker.System.Grant.{connected_peer_is_granted}
use vmnet_broker.Clients.{call, returned}
use vmnet_broker.Clients.Calls.{call-Done}
use vmnet_broker.Clients.Agree.{IsGiven, IsGiven-returned}

-- A call of the library for a builtin name over an open connection, with the broker in a state
-- that it comes to, returns a network, with success, and the library retains it, if the request
-- can be served and the external calls of the request succeed.
pub call-IsGiven :
    {cf : CoreFoundation} {peers : Peers} {s : State} (reach : Reach cf peers s) (env : Env)
    (c mach_service : ℕ) (name : CString) (client : Client) (ctx : Context)
    → lookup c peers ≡ some ctx
    → IsBuiltin name
    → IsServable cf env.outcomes (deliver (message name)) s
    → IsAvailable env.outcomes name
    → Returns
        (λ (got, peers') s'. (x : ℕ) × IsGiven x client got)
        (call cf env c mach_service name client peers s)
call-IsGiven {peers = peers} {s = s} reach env c mach_service name client ctx found b can
      available =
    let grants =
      connected_peer_is_granted env.outcomes c ctx (deliver (message name)) name reach found
        (refl, refl) b can available in
    let d = call-Done reach env c mach_service name client ctx found can grants in
    let (x, sent) = d.also in
    let is_x : d.reply ≡ network x = ground (arith, d.replied, sent) in
    rw d.came (
      returns {a = (returned mach_service name client (some d.reply), insert c d.context peers)}
        {s = d.state} (x, IsGiven-returned mach_service name client x d.reply is_x))

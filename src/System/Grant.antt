-- ===== src/System/Grant.antt =====
-- The broker serves its peers.
use vmnet_broker.Base.{ℕ, ◌≡◌, subst, true, some, lookup, erase, CString, arith}
use vmnet_broker.Machine.{Context, State, CoreFoundation, Outcomes}
use vmnet_broker.Machine.Returns.{Returns}
use vmnet_broker.Config.Builtin.{IsBuiltin}
use vmnet_broker.Network.{can_add_network_to_peer}
use vmnet_broker.Network.Contract.{Consistent, Settled}
use vmnet_broker.Network.Grant.{IsAvailable}
use vmnet_broker.Xpc.{Request}
use vmnet_broker.Broker.{on_peer_request}
use vmnet_broker.Broker.Requests.{IsAcquire, IsServable}
use vmnet_broker.Broker.Grant.{IsAnsweredWithNetwork, on_peer_request-grants}
use vmnet_broker.System.{Peers}
use vmnet_broker.System.Peers.{total, total-owners}
use vmnet_broker.System.Safety.{Reach, Reach-SystemInv, network_count-bound}

-- In every state that the broker comes to, a request of an open connection to acquire a builtin
-- network is answered with a network, if the request can be served and the external calls of
-- the request succeed. The answer is sent if the event has a return address.
pub connected_peer_is_granted :
    {cf : CoreFoundation} {peers : Peers} {s : State} (out : Outcomes) (c : ℕ) (ctx : Context)
    (event : Request) (name : CString)
    → Reach cf peers s
    → lookup c peers ≡ some ctx
    → IsAcquire event name
    → IsBuiltin name
    → IsServable cf out event s
    → IsAvailable out name
    → Returns (λ ctx' s'. IsAnsweredWithNetwork event ctx s s') (on_peer_request cf out ctx event s)
connected_peer_is_granted {cf} {peers} {s} out c ctx event name reach found asked b can a =
    let inv = Reach-SystemInv reach in
    let (v, _) = inv.contexts c ctx found in
    let few = network_count-bound reach c ctx found in
    let room : can_add_network_to_peer ctx ≡ true = ground (arith, few) in
    let e = total-owners c ctx peers inv.unique found in
    on_peer_request-grants cf (total (erase c peers)) out ctx event name s v room
      (subst (λ own. Consistent cf own s) e inv.consistent) (subst (Settled s.heap) e inv.settled)
      asked b can a

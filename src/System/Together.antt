-- ===== src/System/Together.antt =====
-- Clients that acquire a network of one name in the course of time are on one network.
use vmnet_broker.Base.{ℕ, ◌+◌, ◌<◌, ◌≡◌, some, lookup, count, CString, arith}
use vmnet_broker.Machine.{Ptr, Network, Context, State, CoreFoundation, Outcomes}
use vmnet_broker.Machine.Returns.{Returns}
use vmnet_broker.Network.Ownership.{owned}
use vmnet_broker.Xpc.{Request}
use vmnet_broker.Broker.{on_peer_request}
use vmnet_broker.Broker.Requests.{IsAcquire, IsServable}
use vmnet_broker.Broker.Sharing.{IsAnsweredWith}
use vmnet_broker.System.{Peers}
use vmnet_broker.System.Safety.{Reach}
use vmnet_broker.System.Later.{idle_timeout, Later, Reach-Later}
use vmnet_broker.System.Grace.{held-Survives}
use vmnet_broker.System.Sharing.{connected_peer_shares}

-- While less than the idle timeout has passed since an open connection held a network, a
-- request of any open connection for its name is answered with the serialization that it had
-- then, whatever happened in between, even if its holders are gone. The request can be served;
-- the answer is sent if the event has a return address.
pub latecomer_shares :
    {cf : CoreFoundation} {peers peers' : Peers} {s s' : State} (reach : Reach cf peers s) (c : ℕ)
    (holder : Context) (p : Ptr) (n : Network) (x : ℕ) (name : CString)
    → lookup c peers ≡ some holder
    → 0 < count p (owned holder)
    → s.heap p ≡ some n
    → n.name ≡ some name
    → n.serialization ≡ some x
    → Later cf peers s peers' s'
    → s'.now < s.now + idle_timeout
    → (out : Outcomes) (d : ℕ) (ctx : Context) (event : Request) → lookup d peers' ≡ some ctx
    → IsAcquire event name
    → IsServable cf out event s'
    → Returns (λ ctx' s''. IsAnsweredWith event ctx x s' s'') (on_peer_request cf out ctx event s')
latecomer_shares reach c holder p n x name held mine at named serialized l soon out d ctx event
      found asked can =
    let (m, at', (n', there, name', _, x')) = held-Survives reach c holder p held mine l soon in
    let same : m ≡ n = ground (arith, at', at) in
    connected_peer_shares (Reach-Later reach l) out d ctx event name p n' x found asked can there
      (ground (arith, name', same, named)) (ground (arith, x', same, serialized))

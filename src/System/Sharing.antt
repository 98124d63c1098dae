-- ===== src/System/Sharing.antt =====
-- There is one network of a name, and everybody who asks for it gets it.
use vmnet_broker.Base.{ℕ, ◌≡◌, subst, some, lookup, erase, CString}
use vmnet_broker.Machine.{Ptr, Network, Context, State, CoreFoundation, Outcomes}
use vmnet_broker.Machine.Returns.{Returns}
use vmnet_broker.Network.Contract.{Consistent, Settled}
use vmnet_broker.Xpc.{Request}
use vmnet_broker.Broker.{on_peer_request}
use vmnet_broker.Broker.Requests.{IsAcquire, IsServable}
use vmnet_broker.Broker.Sharing.{IsAnsweredWith, on_peer_request-shares}
use vmnet_broker.System.{Peers}
use vmnet_broker.System.Peers.{total, total-owners}
use vmnet_broker.System.Invariant.Held.{same_network, has_room}
use vmnet_broker.System.Safety.{Reach, Reach-SystemInv}

module _ {cf : CoreFoundation} {peers : Peers} {s : State} (reach : Reach cf peers s) where
  -- In every state that the broker comes to, two networks that are alive never have the same
  -- name.
  pub one_network_of_name :
      (p q : Ptr) (n m : Network) (name : CString)
      → s.heap p ≡ some n
      → s.heap q ≡ some m
      → n.name ≡ some name
      → m.name ≡ some name
      → p ≡ q
  one_network_of_name = same_network (Reach-SystemInv reach)

  -- In every state that the broker comes to, a request of an open connection to acquire a
  -- network that is alive is answered with the serialization of that network, whoever made it,
  -- even if nobody holds it any more, and whatever the external calls of the request would
  -- return. The request can be served; the answer is sent if the event has a return address.
  pub connected_peer_shares :
      (out : Outcomes) (c : ℕ) (ctx : Context) (event : Request) (name : CString) (p : Ptr)
      (n : Network) (x : ℕ)
      → lookup c peers ≡ some ctx
      → IsAcquire event name
      → IsServable cf out event s
      → s.heap p ≡ some n
      → n.name ≡ some name
      → n.serialization ≡ some x
      → Returns (λ ctx' s'. IsAnsweredWith event ctx x s s') (on_peer_request cf out ctx event s)
  connected_peer_shares out c ctx event name p n x found asked can at named serialized =
      let inv = Reach-SystemInv reach in
      let e = total-owners c ctx peers inv.unique found in
      on_peer_request-shares cf (total (erase c peers)) out ctx event name s p n x
        (inv.contexts c ctx found).0 (has_room inv c ctx found)
        (subst (λ own. Consistent cf own s) e inv.consistent) (subst (Settled s.heap) e inv.settled)
        asked can at named serialized

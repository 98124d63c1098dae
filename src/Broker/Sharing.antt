-- ===== src/Broker/Sharing.antt =====
-- A request for a network that exists is answered with that network.
use vmnet_broker.Base.{ℕ, ◌≡◌, ◌∷◌, true, some, CString, bytes_eq_refl, if◌then◌else◌}
use vmnet_broker.Machine.{
  replies, Ptr, Network, Context, State, Result, value, network, released, serialization,
  CoreFoundation, Outcomes,
}
use vmnet_broker.Machine.Returns
use vmnet_broker.Machine.Returns.{Returns, returns}
use vmnet_broker.Network.{can_add_network_to_peer}
use vmnet_broker.Network.Ownership.{IsValid}
use vmnet_broker.Network.Contract.{owners, Consistent, Settled, Served}
use vmnet_broker.Network.Acquire.{acquire_network-Served}
use vmnet_broker.Network.Sharing.{acquire_network-shares}
use vmnet_broker.Xpc.{Request}
use vmnet_broker.Xpc.Replies.{reply_log, send_xpc_network_lem}
use vmnet_broker.Broker.{on_peer_request, serve, answer, command_acquire}
use vmnet_broker.Broker.Requests.{IsAcquire, IsServable, serve_name, replied_after}

-- The reply to the event is that network.
abbrev pub IsAnsweredWith : Request → Context → ℕ → State → State → Type 0
IsAnsweredWith event ctx x s s' = replies s'.effects ≡ (
    if event.has_return_address
    then (ctx.connection, network x) ∷ replies s.effects
    else replies s.effects)

module _ {cf : CoreFoundation} (others : Ptr → ℕ) (event : Request) (name : CString) (ctx : Context)
    (s : State) (x : ℕ) where
  answer_shared :
      (a : Context × Result ℕ) (t : State)
      → Served cf others name ctx s a t
      → a.1 ≡ value x
      → Returns (λ ctx' s'. IsAnsweredWith event ctx x s s') (answer event a t)
  unfolding answer
  answer_shared (ctx', r) t h is_x =
      let sent : State = record t {
        effects =
            released (serialization x)
            ∷ reply_log event.has_return_address ctx'.connection (network x) t.effects;
      } in
      rw is_x (
        rw (send_xpc_network_lem ctx' event t x)
          (returns {s = sent} (replied_after event ctx ctx' s t _ h.connection h.kept.replied)))

module _ (cf : CoreFoundation) (others : Ptr → ℕ) (out : Outcomes) (ctx : Context) (event : Request)
    (name : CString) (s : State) where
  pub on_peer_request-shares :
      (p : Ptr) (n : Network) (x : ℕ)
      → IsValid ctx
      → can_add_network_to_peer ctx ≡ true
      → Consistent cf (owners others ctx) s
      → Settled s.heap (owners others ctx)
      → IsAcquire event name
      → IsServable cf out event s
      → s.heap p ≡ some n
      → n.name ≡ some name
      → n.serialization ≡ some x
      → Returns (λ ctx' s'. IsAnsweredWith event ctx x s s') (on_peer_request cf out ctx event s)
  unfolding serve
  on_peer_request-shares p n x v room consistent settled asked can at named serialized =
      let (k, keyed) = can.encodable name asked in
      rw
        (serve_name cf out ctx event s command_acquire asked.0 (bytes_eq_refl command_acquire) name
          asked.1)
        (Returns.bind
          (Returns.both
            (acquire_network-Served cf others out ctx name k s v keyed consistent settled can.fresh
              can.registered)
            (acquire_network-shares cf others out ctx name k p n x s v room keyed consistent settled
              at named serialized))
          λ acquired t (served, shared).
            answer_shared others event name ctx s x acquired t served shared)

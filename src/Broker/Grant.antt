-- ===== src/Broker/Grant.antt =====
-- A request that can be granted is answered with a network.
use vmnet_broker.Base.{ℕ, ◌≡◌, ◌∷◌, true, CString, bytes_eq_refl, if◌then◌else◌}
use vmnet_broker.Machine.{
  replies, Ptr, Context, State, Result, value, err, network, released, serialization,
  CoreFoundation, Outcomes,
}
use vmnet_broker.Machine.Returns
use vmnet_broker.Machine.Returns.{Returns, returns}
use vmnet_broker.Config.Builtin.{IsBuiltin}
use vmnet_broker.Network.{can_add_network_to_peer}
use vmnet_broker.Network.Ownership.{IsValid}
use vmnet_broker.Network.Contract.{owners, Consistent, Settled, Served}
use vmnet_broker.Network.Acquire.{acquire_network-Served}
use vmnet_broker.Network.Grant.{IsAvailable, IsGranted, acquire_network-IsGranted}
use vmnet_broker.Xpc.{Request}
use vmnet_broker.Xpc.Replies.{reply_log, send_xpc_network_lem}
use vmnet_broker.Broker.{on_peer_request, serve, answer, command_acquire}
use vmnet_broker.Broker.Requests.{IsAcquire, IsServable, serve_name, replied_after}

-- The reply to the event is a network.
abbrev pub IsAnsweredWithNetwork : Request → Context → State → State → Type 0
IsAnsweredWithNetwork event ctx s s' =
    (x : ℕ) × (replies s'.effects ≡ (
      if event.has_return_address
      then (ctx.connection, network x) ∷ replies s.effects
      else replies s.effects))

module _ {cf : CoreFoundation} (others : Ptr → ℕ) (event : Request) (name : CString) (ctx : Context)
    (s : State) where
  answer_granted :
      (a : Context × Result ℕ) (t : State)
      → Served cf others name ctx s a t
      → IsGranted a t
      → Returns (λ ctx' s'. IsAnsweredWithNetwork event ctx s s') (answer event a t)
  unfolding answer
  answer_granted (ctx', err e) t h (x, granted) = cc granted
  answer_granted (ctx', value y) t h granted =
      let sent : State = record t {
        effects =
            released (serialization y)
            ∷ reply_log event.has_return_address ctx'.connection (network y) t.effects;
      } in
      rw (send_xpc_network_lem ctx' event t y)
        (returns {s = sent} (y, replied_after event ctx ctx' s t _ h.connection h.kept.replied))

-- A peer with room is answered with a network if it asks for a builtin one and the external calls
-- succeed.
pub on_peer_request-grants :
    (cf : CoreFoundation) (others : Ptr → ℕ) (out : Outcomes) (ctx : Context) (event : Request)
    (name : CString) (s : State)
    → IsValid ctx
    → can_add_network_to_peer ctx ≡ true
    → Consistent cf (owners others ctx) s
    → Settled s.heap (owners others ctx)
    → IsAcquire event name
    → IsBuiltin name
    → IsServable cf out event s
    → IsAvailable out name
    → Returns (λ ctx' s'. IsAnsweredWithNetwork event ctx s s') (on_peer_request cf out ctx event s)
unfolding serve
on_peer_request-grants cf others out ctx event name s v room consistent settled asked b can a =
    let (k, keyed) = can.encodable name asked in
    rw
      (serve_name cf out ctx event s command_acquire asked.0 (bytes_eq_refl command_acquire) name
        asked.1)
      (Returns.bind
        (Returns.both
          (acquire_network-Served cf others out ctx name k s v keyed consistent settled can.fresh
            can.registered)
          (acquire_network-IsGranted cf others out ctx name k s v room b keyed consistent settled
            can.registered a))
        λ acquired t (served, granted).
          answer_granted others event name ctx s acquired t served granted)

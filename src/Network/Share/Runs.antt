-- ===== src/Network/Share/Runs.antt =====
-- share_network on each branch: the state it leaves.
use vmnet_broker.Base.{ℕ, ◌≡◌, true, false, none, some, ◌∷◌, incr, erase, update, arith}
use vmnet_broker.Status.{internal_error}
use vmnet_broker.Machine.{
  Ptr, Network, Context, State, value, err, ok, retained, released, cancelled, source,
  serialization,
}
use vmnet_broker.Network.{
  update_peer_ownership, can_add_network_to_peer, cancel_remove_later, share_network,
}
use vmnet_broker.Network.Ownership.{
  owns, peer_owns_network-found, peer_owns_network-absent, IsValid, with_network,
  add_network_to_peer_lem,
}

pub share_full :
    (ctx : Context) (p : Ptr) (s : State)
    → IsValid ctx
    → owns ctx p ≡ false
    → can_add_network_to_peer ctx ≡ false
    → share_network ctx p s ≡ ok (ctx, err internal_error) s
unfolding share_network update_peer_ownership
share_full ctx p s v free full = ground (arith, peer_owns_network-absent ctx p s v free, full)

module _ (ctx : Context) (p : Ptr) (n : Network) (x : ℕ) (s : State) (at : s.heap p ≡ some n)
    (serialized : n.serialization ≡ some x) where
  pub share_owned :
      owns ctx p ≡ true
      → n.idle_timer ≡ none
      → share_network ctx p s
        ≡ ok (ctx, value x) (record s { effects = retained (serialization x) ∷ s.effects })
  unfolding share_network update_peer_ownership cancel_remove_later
  share_owned mine quiet =
      ground (arith, peer_owns_network-found ctx p s mine, at, quiet, serialized)

  abbrev pub counted : State
  counted = record s { heap = update s.heap p (some (record n { peers = incr n.peers })) }

  module _ (v : IsValid ctx) (free : owns ctx p ≡ false)
      (room : can_add_network_to_peer ctx ≡ true) where
    pub share_new :
        n.idle_timer ≡ none
        → share_network ctx p s
          ≡ ok
              (with_network ctx p, value x)
              (record counted { effects = retained (serialization x) ∷ s.effects })
    unfolding share_network update_peer_ownership cancel_remove_later
    share_new quiet = ground (
      arith,
      peer_owns_network-absent ctx p s v free,
      room,
      quiet,
      serialized,
      add_network_to_peer_lem ctx p v room n s at,
    )

    pub share_idle :
        (t : ℕ)
        → n.idle_timer ≡ some t
        → share_network ctx p s
          ≡ ok
              (with_network ctx p, value x)
              (record counted {
                heap =
                    update counted.heap p
                      (some (record n { peers = incr n.peers; idle_timer = none }));
                timers = erase t s.timers;
                effects =
                    retained (serialization x) ∷ released (source t) ∷ cancelled t ∷ s.effects;
              })
    unfolding share_network update_peer_ownership cancel_remove_later
    share_idle t set = ground (
      arith,
      peer_owns_network-absent ctx p s v free,
      room,
      set,
      serialized,
      add_network_to_peer_lem ctx p v room n s at,
    )

-- ===== src/Network/Release/Runs.antt =====
-- One round of release_peer_networks: the state it leaves.
use vmnet_broker.Base.{
  ℕ, suc, ◌+◌, ◌*◌, ◌≡◌, Option, none, some, ◌∷◌, pos, insert, update, arith, get_elem?,
}
use vmnet_broker.Machine.{
  Ptr, Network, Context, State, ok, created, source, remove_network, Timer, idle_timeout_sec,
  nsec_per_sec,
}
use vmnet_broker.Network.{release_network, remove_later}

-- A timer that removes the network at `p`, set now.
abbrev pub removal_timer : State → Ptr → Timer
removal_timer s p = record {
  deadline = s.now + idle_timeout_sec * nsec_per_sec;
  leeway = 1 * nsec_per_sec;
  handler = remove_network p;
}

module _ (sources : Ptr → Option ℕ) (ctx : Context) (i : ℕ) (p : Ptr) (n : Network) (s : State)
    (slot : get_elem? ctx.networks i ≡ some p) (at : s.heap p ≡ some n) where
  pub release_busy :
      (j : ℕ)
      → n.peers ≡ pos (suc (suc j))
      → release_network sources ctx i s
        ≡ ok tt (record s { heap = update s.heap p (some (record n { peers = pos (suc j) })) })
  unfolding release_network
  release_busy j peers = ground (arith, slot, at, peers)

  pub release_last :
      (t : ℕ)
      → n.peers ≡ pos 1
      → n.idle_timer ≡ none
      → sources p ≡ some t
      → release_network sources ctx i s
        ≡ ok tt (record s {
          heap =
              update
                (update s.heap p (some (record n { peers = pos 0 })))
                p
                (some (record n { peers = pos 0; idle_timer = some t }));
          timers = insert t (removal_timer s p) s.timers;
          effects = created (source t) ∷ s.effects;
        })
  unfolding release_network remove_later
  release_last t peers quiet given = ground (arith, slot, at, peers, quiet, given)

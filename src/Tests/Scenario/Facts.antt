-- ===== src/Tests/Scenario/Facts.antt =====
-- The states of the scenario.
use vmnet_broker.Base.{
  ◌<◌, ap, ◌∙◌, lookup, arith, ℕ, ◌≡◌, refl, true, List, [], none, some, pos, subst, count, length,
}
use vmnet_broker.Machine.{Ptr, Network, State, Timer, shutdown}
use vmnet_broker.Config.{shared_name}
use vmnet_broker.Network.{can_add_network_to_peer}
use vmnet_broker.Network.Lookup.{IsLive}
use vmnet_broker.Broker.Requests.{IsServable}
use vmnet_broker.Broker.Lifecycle.{Counts}
use vmnet_broker.System.{Peers}
use vmnet_broker.System.Peers.{total}
use vmnet_broker.Network.Ownership.{owned, IsValid}
use vmnet_broker.Network.Contract.{owners, Consistent, Settled}
use vmnet_broker.System.Safety.{Reach-SystemInv}
use vmnet_broker.Tests.Scenario.{
  out_of_order, request, encodable, cf, run, connected, connected-Reach, peer_of, connected-peer,
  acquired, acquired-Reach, acquired-peer, left,
}

-- There is one peer.
abbrev pub nobody : Ptr → ℕ
nobody p = 0

connected-owners : total connected.0 ≡ owners nobody (peer_of connected)
unfolding run total
connected-owners = refl

pub connected-IsValid : IsValid (peer_of connected)
connected-IsValid =
    ((Reach-SystemInv connected-Reach).contexts 5 (peer_of connected) connected-peer).0

pub connected-Consistent : Consistent cf (owners nobody (peer_of connected)) connected.1
connected-Consistent =
    subst (λ own. Consistent cf own connected.1) connected-owners
      (Reach-SystemInv connected-Reach).consistent

pub connected-Settled : Settled connected.1.heap (owners nobody (peer_of connected))
connected-Settled =
    subst (Settled connected.1.heap) connected-owners (Reach-SystemInv connected-Reach).settled

acquired-owners : total acquired.0 ≡ owners nobody (peer_of acquired)
unfolding run total
acquired-owners = refl

pub acquired-IsValid : IsValid (peer_of acquired)
acquired-IsValid = ((Reach-SystemInv acquired-Reach).contexts 5 (peer_of acquired) acquired-peer).0

pub acquired-Consistent : Consistent cf (owners nobody (peer_of acquired)) acquired.1
acquired-Consistent =
    subst (λ own. Consistent cf own acquired.1) acquired-owners
      (Reach-SystemInv acquired-Reach).consistent

pub acquired-Settled : Settled acquired.1.heap (owners nobody (peer_of acquired))
acquired-Settled =
    subst (Settled acquired.1.heap) acquired-owners (Reach-SystemInv acquired-Reach).settled

pub acquired-Counts : Counts 1 acquired.1
unfolding run
acquired-Counts = (Reach-SystemInv acquired-Reach).counts

abbrev no_network : Network
no_network = record {
  name = none;
  peers = pos 0;
  ref = none;
  serialization = none;
  idle_timer = none;
}

abbrev pub network_of : Peers × State → Network
network_of (peers, s) = elim (s.heap 100) [ none ↦ no_network | some n ↦ n ]

pub acquired-network : acquired.1.heap 100 ≡ some (network_of acquired)
unfolding run
acquired-network = refl

pub acquired-name : (network_of acquired).name ≡ some shared_name
unfolding run
acquired-name = refl

pub acquired-owned : count 100 (owned (peer_of acquired)) ≡ 1
unfolding run
acquired-owned = refl

pub left-network : left.1.heap 100 ≡ some (network_of left)
unfolding run
left-network = refl

pub left-name : (network_of left).name ≡ some shared_name
unfolding run
left-name = refl

pub left-unowned : total left.0 100 ≡ 0
unfolding run total
left-unowned = refl

pub left-timer : (network_of left).idle_timer ≡ some 110
unfolding run
left-timer = refl

abbrev pub entries_of : State → List (ℕ × Ptr)
entries_of s = elim s.registry [ none ↦ [] | some m ↦ m ]

pub left-registry : left.1.registry ≡ some (entries_of left.1)
unfolding run
left-registry = refl

pub left-alone : length left.0 ≡ 0
unfolding run
left-alone = refl

pub connected-room : can_add_network_to_peer (peer_of connected) ≡ true
unfolding run
connected-room = refl

-- The peer leaves as soon as it has its network.
pub left-now : left.1.now ≡ acquired.1.now
unfolding run
left-now = refl

abbrev no_timer : Timer
no_timer = record { deadline = 0; leeway = 0; handler = shutdown }

abbrev pub timer_of : Peers × State → Timer
timer_of (peers, s) = elim (lookup 110 s.timers) [ none ↦ no_timer | some d ↦ d ]

pub left-scheduled : lookup 110 left.1.timers ≡ some (timer_of left)
unfolding run lookup
left-scheduled = refl

pub left-serialization : (network_of left).serialization ≡ some 70
unfolding run
left-serialization = refl

pub left-IsLive : IsLive left.1 (entries_of left.1)
unfolding run lookup
left-IsLive j q e =
    let same : q ≡ 100 = ground (arith, e) in (network_of left, ap left.1.heap same ∙ left-network)

pub acquired-many : 0 < length acquired.0
unfolding run
acquired-many = omega arith

pub acquired-serialization : (network_of acquired).serialization ≡ some 70
unfolding run
acquired-serialization = refl

pub acquired-IsServable : IsServable cf out_of_order request acquired.1
unfolding run
acquired-IsServable = record {
  encodable = λ name asked. encodable name asked.1;
  fresh = λ p e. cc e;
  registered = λ e. cc e;
}

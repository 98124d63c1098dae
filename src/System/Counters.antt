-- ===== src/System/Counters.antt =====
-- The range of the C `int` counters of the broker.
use vmnet_broker.Base.{
  ℕ, zero, suc, ◌^◌, ◌≤◌, ◌<◌, ◌≡◌, [], ◌∷◌, some, ℤ, pos, lookup, Unique, length, count, arith,
}
use vmnet_broker.Machine.{Ptr, Network, Context, State, CoreFoundation}
use vmnet_broker.Network.Invariant.{Healthy-of_Inv}
use vmnet_broker.Network.Ownership.{owned}
use vmnet_broker.Broker.Lifecycle.{open_transactions}
use vmnet_broker.Client.{to_int32}
use vmnet_broker.Client.Outcome.{to_int32_small}
use vmnet_broker.System.{Peers}
use vmnet_broker.System.Peers.{total}
use vmnet_broker.System.Safety.{Reach, Reach-SystemInv}

-- No context holds a network twice.
total-le-length :
    (p : Ptr) (peers : Peers)
    → Unique peers
    → ((c : ℕ) (ctx : Context) → lookup c peers ≡ some ctx → count p (owned ctx) ≤ 1)
    → total peers p ≤ length peers
unfolding total lookup
total-le-length p [] u once = omega arith
total-le-length p ((c, ctx) ∷ peers) u once =
    let others = total-le-length p peers u.1 λ d x found. once d x (ground (arith, found, u.0)) in
    omega (arith, others, once c ctx (ground arith))

open_transactions-le : (n : ℕ) → open_transactions n ≤ 1
open_transactions-le zero = omega arith
open_transactions-le (suc n) = omega arith

-- A number of at most `bound`, which a C `int` holds as it is.
abbrev pub IsCount : ℕ → ℤ → Type 0
IsCount bound z = (k : ℕ) × (z ≡ pos k) × (k ≤ bound) × (to_int32 z ≡ z)

IsCount-of_le : (bound k : ℕ) (z : ℤ) → bound < 2 ^ 31 → z ≡ pos k → k ≤ bound → IsCount bound z
IsCount-of_le bound k z small e le = (k, e, le, rw e (to_int32_small k (omega arith)))

-- In every state that the broker comes to with fewer than 2^31 open connections,
-- connected_peers and the peers of each network that is alive are between 0 and the number of
-- the open connections, and 0 or 1 transactions are open, so that an int32_t holds each of
-- these counts as it is.
pub counters_fit :
    {cf : CoreFoundation} {peers : Peers} {s : State}
    → Reach cf peers s
    → length peers < 2 ^ 31
    → IsCount (length peers) s.connected_peers
      × ((p : Ptr) (n : Network) → s.heap p ≡ some n → IsCount (length peers) n.peers)
      × IsCount 1 s.transactions
counters_fit {peers = peers} {s = s} reach few =
    let inv = Reach-SystemInv reach in
    (
      IsCount-of_le (length peers) (length peers) s.connected_peers few inv.counts.connected
          (omega arith),
      λ p n at.
          IsCount-of_le (length peers) (total peers p) n.peers few
            (Healthy-of_Inv p n inv.consistent at).counted
            (total-le-length p peers inv.unique λ c ctx found. (inv.contexts c ctx found).0.once p),
      IsCount-of_le 1 (open_transactions (length peers)) s.transactions (omega arith)
          inv.counts.transaction (open_transactions-le (length peers)),
    )

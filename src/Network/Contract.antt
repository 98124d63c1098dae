-- ===== src/Network/Contract.antt =====
-- What the operations of broker/network.c promise to their callers: which networks are alive, who
-- owns them, which of them wait for their removal, and what the request's outcome says.
use vmnet_broker.Config.Builtin.{IsBuiltin}
use vmnet_broker.Network.{can_add_network_to_peer}
use vmnet_broker.Base.{
  ◌∷◌, ◌++◌, false, ℕ, ◌+◌, ◌<◌, ◌≡◌, ◌⊎◌, refl, ◌∙◌, Option, none, some, List, [], CString, count,
}
use vmnet_broker.Status.{Status, not_found, create_failure, internal_error}
use vmnet_broker.Machine.{
  replies, Ptr, Network, Context, State, Effect, CoreFoundation, Result, value, err, released,
  serialization,
}
use vmnet_broker.Network.Invariant.{Heap, Entries, Timers, Inv}
use vmnet_broker.Network.Steady.{Steady}
use vmnet_broker.Network.Ownership.{owned, IsValid}
pub use vmnet_broker.Machine.Ledger.{entries}

-- How many contexts own a network: those of the other peers, and the one at hand.
abbrev pub owners : (Ptr → ℕ) → Context → Ptr → ℕ
owners others ctx p = others p + count p (owned ctx)

-- The invariant of a state.
abbrev pub Consistent : CoreFoundation → (Ptr → ℕ) → State → Type 0
Consistent cf own s = Inv cf s.heap (entries s.registry) s.timers s.idle_timer own

-- A network has a timer exactly if no peer owns it.
abbrev pub IsSettled : ℕ → Network → Type 0
IsSettled k n = ((k ≡ 0) × (t : ℕ) × (n.idle_timer ≡ some t)) ⊎ ((0 < k) × (n.idle_timer ≡ none))

abbrev pub Settled : Heap → (Ptr → ℕ) → Type 0
Settled heap own = (p : Ptr) (n : Network) → heap p ≡ some n → IsSettled (own p) n

-- What the operations of network.c leave to broker.c.
pub record Kept (s s' : State) : Type 0 where
  pub connected_peers : s'.connected_peers ≡ s.connected_peers
  pub idle_timer : s'.idle_timer ≡ s.idle_timer
  pub transactions : s'.transactions ≡ s.transactions
  pub now : s'.now ≡ s.now
  pub replied : replies s'.effects ≡ replies s.effects

-- The operations of network.c write these fields alone.
pub Kept-frame :
    (s : State) (heap : Heap) (registry : Option Entries) (timers : Timers) (log : List Effect)
    → replies log ≡ replies s.effects
    → Kept s (record s { heap = heap; registry = registry; timers = timers; effects = log })
Kept-frame s heap registry timers log same = record {
  connected_peers = refl;
  idle_timer = refl;
  transactions = refl;
  now = refl;
  replied = same;
}

pub Kept-trans : {s t u : State} → Kept s t → Kept t u → Kept s u
Kept-trans k l = record {
  connected_peers = l.connected_peers ∙ k.connected_peers;
  idle_timer = l.idle_timer ∙ k.idle_timer;
  transactions = l.transactions ∙ k.transactions;
  now = l.now ∙ k.now;
  replied = l.replied ∙ k.replied;
}

-- Why there is no network to share: a builtin one cannot be created, or the name is not builtin.
abbrev pub IsRefusal : CString → Status → Type 0
IsRefusal name e = (e ≡ create_failure) × IsBuiltin name ⊎ (e ≡ not_found) × ¬ IsBuiltin name

-- Why a request fails: there is no network to share, or the peer has no room for it.
abbrev pub IsFailure : CString → Context → Status → Type 0
IsFailure name ctx e =
    IsRefusal name e ⊎ (e ≡ internal_error) × (can_add_network_to_peer ctx ≡ false)

-- A granted request hands out the serialization of a live network of that name, which the peer owns
-- from then on, and which is added to its networks if it did not own it. A refused one leaves the peer's context as it was.
abbrev pub Outcome : CString → Context → Context → Heap → Result ℕ → Type 0
Outcome name ctx ctx' heap (value x) =
    (p : Ptr) × (n : Network) × (heap p ≡ some n)
    × (n.name ≡ some name)
    × (n.serialization ≡ some x)
    × (0 < count p (owned ctx'))
    × ((ctx' ≡ ctx) ⊎ (owned ctx' ≡ owned ctx ++ p ∷ []))
Outcome name ctx ctx' heap (err e) = (ctx' ≡ ctx) × IsFailure name ctx e

-- The request's own reference to a serialization is released when the reply is sent.
abbrev pub settle : Result ℕ → State → State
settle (value x) s = record s { effects = released (serialization x) ∷ s.effects }
settle (err e) s = s

pub record Served (cf : CoreFoundation) (others : Ptr → ℕ) (name : CString) (ctx : Context)
    (s : State) (a : Context × Result ℕ) (s' : State) : Type 0 where
  pub consistent : Consistent cf (owners others a.0) s'
  pub settled : Settled s'.heap (owners others a.0)
  pub valid : IsValid a.0
  pub connection : a.0.connection ≡ ctx.connection
  pub kept : Kept s s'
  pub steady : Steady s (settle a.1 s')
  pub outcome : Outcome name ctx a.0 s'.heap a.1

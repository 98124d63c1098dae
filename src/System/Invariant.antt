-- ===== src/System/Invariant.antt =====
-- What holds of the broker between two events, and what the environment promises of an event.
pub mod Held
pub mod Rules
pub mod Steps
pub mod Moves
pub mod Events
use vmnet_broker.Base.{ℕ, ◌≤◌, ◌≡◌, ◌⊎◌, [], none, some, ℤ, lookup, Unique, length}
use vmnet_broker.Machine.{Ptr, Network, Context, State, Run, ok, exited, CoreFoundation, Timer}
use vmnet_broker.Machine.Ledger.{Ledger, stock, IsPaid}
use vmnet_broker.Network.Steady.{Survives, Timely}
use vmnet_broker.Network.Ownership.{IsValid}
use vmnet_broker.Network.Contract.{Consistent, Settled}
use vmnet_broker.Xpc.{
  Request, connection_invalid, other_error, other_object, dictionary, listener_error,
  other_listener_event, new_connection,
}
use vmnet_broker.Broker.{Env}
use vmnet_broker.Broker.Requests.{IsServable}
use vmnet_broker.Broker.Lifecycle.{Counts, HasTimers}
use vmnet_broker.System.{Event, listener, peer, timer, signal, elapse, Peers}
use vmnet_broker.System.Peers.{total}
use vmnet_broker.System.Spec.{Rule}
use vmnet_broker.System.View.{view}

pub record SystemInv (cf : CoreFoundation) (peers : Peers) (s : State) : Type 0 where
  pub unique : Unique peers
  pub contexts :
      (c : ℕ) (ctx : Context) → lookup c peers ≡ some ctx → IsValid ctx × (ctx.connection ≡ c)
  pub consistent : Consistent cf (total peers) s
  pub settled : Settled s.heap (total peers)
  pub counts : Counts (length peers) s

-- An event that may come: from an open connection or a new one, of a timer that is due; with what
-- the allocator and the frameworks promise of the calls that its handler makes.
pub data Allowed (cf : CoreFoundation) (env : Env) (peers : Peers) (s : State)
    : Event → Type 0 where
  connects :
      {c : ℕ} {pid : ℤ}
      → lookup c peers ≡ none
      → Allowed cf env peers s (listener (new_connection c pid))
  ignores : Allowed cf env peers s (listener other_listener_event)
  fails : Allowed cf env peers s (listener listener_error)
  requests :
      {c : ℕ} {event : Request} (ctx : Context)
      → lookup c peers ≡ some ctx
      → IsServable cf env.outcomes event s
      → Allowed cf env peers s (peer c (dictionary event))
  disconnects :
      {c : ℕ} (ctx : Context)
      → lookup c peers ≡ some ctx
      → HasTimers env s ctx
      → Allowed cf env peers s (peer c connection_invalid)
  errs :
      {c : ℕ} (ctx : Context)
      → lookup c peers ≡ some ctx
      → Allowed cf env peers s (peer c other_error)
  passes :
      {c : ℕ} (ctx : Context)
      → lookup c peers ≡ some ctx
      → Allowed cf env peers s (peer c other_object)
  fires :
      {t : ℕ} (d : Timer)
      → lookup t s.timers ≡ some d
      → d.deadline ≤ s.now
      → Allowed cf env peers s (timer t)
  signals : Allowed cf env peers s signal
  elapses : {d : ℕ} → Allowed cf env peers s (elapse d)

-- A network ends by its own timer, when it is due.
abbrev pub Expires : State → Event → Network → Type 0
Expires s e n =
    (t : ℕ) × (d : Timer) × (e ≡ timer t)
    × (n.idle_timer ≡ some t)
    × (lookup t s.timers ≡ some d)
    × (d.deadline ≤ s.now)

-- Why the process ends with success: a signal, or the broker's own timer, when it is due.
abbrev pub IsEnd : State → Event → Type 0
IsEnd s e =
    (e ≡ signal)
    ⊎ (t : ℕ) × (d : Timer) × (e ≡ timer t)
      × (s.idle_timer ≡ some t)
      × (lookup t s.timers ≡ some d)
      × (d.deadline ≤ s.now)

-- What a step does, seen from outside: networks live on or expire, timers are set for the idle
-- timeout alone, what is created is released or in use, time passes, and the clients see what the specification allows.
pub record Moved (peers : Peers) (s : State) (e : Event) (peers' : Peers) (s' : State)
    : Type 0 where
  pub frame : (p : Ptr) (n : Network) → s.heap p ≡ some n → Survives n s'.heap p ⊎ Expires s e n
  pub timely : Timely s.now s.timers s'.timers
  pub ledger : Ledger s.effects (stock s) s'.effects (stock s')
  pub clock : s.now ≤ s'.now
  pub rule : Rule (view peers s) e (view peers' s')

-- A step goes on in order, or ends the process: with success only if no peer is connected, and then
-- no network is left; with failure only if the listener fails.
pub data Progress (cf : CoreFoundation) (peers : Peers) (s : State) (e : Event)
    : Run Peers → Type 0 where
  continues :
      {peers' : Peers} {s' : State}
      → SystemInv cf peers' s'
      → Moved peers s e peers' s'
      → Progress cf peers s e (ok peers' s')
  ends :
      {s' : State}
      → peers ≡ []
      → IsEnd s e
      → ((p : Ptr) → s'.heap p ≡ none)
      → IsPaid s s'
      → Progress cf peers s e (exited 0 s')
  breaks : {s' : State} → e ≡ listener listener_error → Progress cf peers s e (exited 1 s')

-- ===== src/System/Safety.antt =====
-- The runs of the broker from its start: every event that may come is handled in order.
use vmnet_broker.Base.{
  ℕ, ◌<◌, ◌≤◌, ◌≡◌, ◌≢◌, refl, subst, inl, inr, [], none, some, pos, lookup, count,
}
use vmnet_broker.Machine.{
  Ptr, Network, Context, State, Run, ok, crashed, exited, Fault, CoreFoundation,
}
use vmnet_broker.Network.Invariant.{vacant}
use vmnet_broker.Network.Ownership.{owned}
use vmnet_broker.Broker.{Env}
use vmnet_broker.System.{Event, Peers, initial, step}
use vmnet_broker.System.Peers.{total}
use vmnet_broker.System.Invariant.{
  SystemInv, Moved, Allowed, connects, ignores, fails, requests, disconnects, errs, passes, fires,
  signals, elapses, Progress, continues, ends, breaks,
}
use vmnet_broker.System.Spec.{noise, object}
use vmnet_broker.System.Invariant.Held.{held_live, network_count-le}
use vmnet_broker.System.Invariant.Steps.{Progress-request, Progress-disconnect, Progress-noise}
use vmnet_broker.System.Invariant.Events.{
  Progress-connect, Progress-timer, Progress-signal, Progress-ignored, Progress-failed,
  Progress-elapsed, Progress-at,
}

module _ (cf : CoreFoundation) (env : Env) (peers : Peers) (s : State) where
  -- In a state that satisfies the broker's invariant, an event that may come never crashes the
  -- broker. It leads to a state that satisfies the invariant, in which each network that was
  -- alive lives on unless its own timer was due, no timer is new but for the idle timeout from
  -- now, what is created is released or in use, time has not gone back, and the clients see
  -- what the specification allows; or it ends the process with success, by a signal or by its
  -- idle timer when that is due, and then no peer is connected, every network is freed and its
  -- objects are released; or the listener failed, and the process ends with failure. `Allowed`
  -- says what may come: requests whose name makes a CFString and memory and timer sources that
  -- are not in use.
  pub step-Progress :
      (e : Event)
      → SystemInv cf peers s
      → Allowed cf env peers s e
      → Progress cf peers s e (step cf env e peers s)
  step-Progress e inv (connects {c} {pid} absent) = Progress-connect cf env peers s inv c pid absent
  step-Progress e inv ignores = Progress-ignored cf env peers s inv
  step-Progress e inv fails = Progress-failed cf env peers s
  step-Progress e inv (requests {c} {event} ctx found can) =
      Progress-at cf env peers s c _ (Progress-request cf env peers s inv c ctx found event can)
  step-Progress e inv (disconnects {c} ctx found has) =
      Progress-at cf env peers s c _ (Progress-disconnect cf env peers s inv c ctx found has)
  step-Progress e inv (errs {c} ctx found) =
      Progress-at cf env peers s c _
        (Progress-noise cf env peers s inv c ctx found _ (inl refl) noise)
  step-Progress e inv (passes {c} ctx found) =
      Progress-at cf env peers s c _
        (Progress-noise cf env peers s inv c ctx found _ (inr refl) object)
  step-Progress e inv (fires {t} d found due) =
      Progress-timer cf env peers s inv t d d.handler found refl due
  step-Progress e inv signals = Progress-signal cf env peers s inv peers refl
  step-Progress e inv (elapses {d}) = Progress-elapsed cf env peers s inv d

-- The states that the broker comes to.
pub data Reach (cf : CoreFoundation) : Peers → State → Type 0 where
  start : Reach cf [] initial
  next :
      {peers peers' : Peers} {s s' : State} (env : Env) (e : Event)
      → Reach cf peers s
      → Allowed cf env peers s e
      → step cf env e peers s ≡ ok peers' s'
      → Reach cf peers' s'

initial-SystemInv : (cf : CoreFoundation) → SystemInv cf [] initial
unfolding initial total lookup
initial-SystemInv cf = record {
  unique = tt;
  contexts = λ c ctx e. cc e;
  consistent = record {
    unique = tt;
    site = λ p.
        vacant refl
          (record { unfiled = λ k e. cc e; unowned = refl; unclocked = λ t r. cc (r.scheduled) });
    idle_set = λ t e. cc e;
    idle_only = λ t r. cc (r.scheduled);
  };
  settled = λ p n e. cc e;
  counts = record { connected = refl; transaction = refl; awake = λ h. refl };
}

-- A step that went on.
abbrev IsResumed : CoreFoundation → Peers → State → Event → Run Peers → Type 0
IsResumed cf peers s e (ok peers' s') = SystemInv cf peers' s' × Moved peers s e peers' s'
IsResumed cf peers s e (crashed f) = Unit
IsResumed cf peers s e (exited n s') = Unit

IsResumed-of_Progress :
    {cf : CoreFoundation} {peers : Peers} {s : State} {e : Event} (r : Run Peers)
    → Progress cf peers s e r
    → IsResumed cf peers s e r
IsResumed-of_Progress r (continues inv moved) = (inv, moved)
IsResumed-of_Progress r (ends alone end gone paid) = tt
IsResumed-of_Progress r (breaks failed) = tt

module _ {cf : CoreFoundation} (env : Env) {peers peers' : Peers} {s s' : State} (e : Event) where
  pub step-Moved :
      SystemInv cf peers s
      → Allowed cf env peers s e
      → step cf env e peers s ≡ ok peers' s'
      → SystemInv cf peers' s' × Moved peers s e peers' s'
  step-Moved inv can run =
      subst (IsResumed cf peers s e) run
        (IsResumed-of_Progress _ (step-Progress cf env peers s e inv can))

-- Every state that the broker comes to from its start, by events that may come, satisfies the
-- invariant of the whole broker: the registry, the networks, the timers, the peers' contexts
-- and the counters agree.
pub Reach-SystemInv :
    {cf : CoreFoundation} {peers : Peers} {s : State} → Reach cf peers s → SystemInv cf peers s
Reach-SystemInv {cf} start = initial-SystemInv cf
Reach-SystemInv {cf} (next env e before can run) =
    (step-Moved env e (Reach-SystemInv before) can run).0

module _ {cf : CoreFoundation} {peers : Peers} {s : State} (reach : Reach cf peers s) where
  -- In every state that the broker comes to, a network that an open connection's context holds
  -- is alive, counts exactly the contexts that hold it, and waits for no removal.
  pub held_is_live :
      (c : ℕ) (ctx : Context) (p : Ptr)
      → lookup c peers ≡ some ctx
      → 0 < count p (owned ctx)
      → (n : Network) × (s.heap p ≡ some n)
        × (n.peers ≡ pos (total peers p))
        × (n.idle_timer ≡ none)
  held_is_live = held_live (Reach-SystemInv reach)

  -- In every state that the broker comes to, an open connection holds two networks at most, so
  -- MAX_PEER_NETWORKS is never reached.
  pub network_count-bound :
      (c : ℕ) (ctx : Context) → lookup c peers ≡ some ctx → ctx.network_count ≤ 2
  network_count-bound = network_count-le (Reach-SystemInv reach)

  -- In every state that the broker comes to, an event that may come does not crash the broker:
  -- no NULL argument, no dangling pointer, no failed assertion, no slot out of bounds.
  pub never_crashes :
      (env : Env) (e : Event) (f : Fault)
      → Allowed cf env peers s e
      → step cf env e peers s ≢ crashed f
  never_crashes env e f can crash =
      sound (step cf env e peers s) crash
        (step-Progress cf env peers s e (Reach-SystemInv reach) can)
    where
      sound : (r : Run Peers) → r ≡ crashed f → ¬ Progress cf peers s e r
      sound r same (continues inv moved) = cc same
      sound r same (ends alone end gone paid) = cc same
      sound r same (breaks failed) = cc same

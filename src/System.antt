-- ===== src/System.antt =====
-- The whole broker as its main queue runs it: one event at a time, in any order that XPC, dispatch
-- and the clock allow. The contexts of the open connections are those that the event handlers of
-- broker/xpc.c capture.
pub mod Peers
pub mod Spec
pub mod View
pub mod Invariant
pub mod Safety
pub mod Refinement
pub mod Answers
pub mod Later
pub mod Grace
pub mod Uptime
pub mod Balance
pub mod Idle
pub mod Grant
pub mod Sharing
pub mod Together
pub mod Drain
pub mod Counters
pub mod Holding
pub mod Startup
pub mod Order
use vmnet_broker.Base.{ℕ, ◌+◌, Option, none, some, List, [], pos, lookup, erase, insert}
use vmnet_broker.Machine.{Context, State, ok, Cmd, pure, ◌>>=◌, ◌>>◌, CoreFoundation}
use vmnet_broker.Xpc.{PeerEvent, connection_invalid, ListenerEvent, handle_event, handle_listener}
use vmnet_broker.Broker.{Env, broker_ops, on_timer, on_signal}

pub data Event : Type 0 where
  listener : ListenerEvent → Event
  peer : (connection : ℕ) → PeerEvent → Event
  timer : (source : ℕ) → Event
  signal : Event
  elapse : (nanoseconds : ℕ) → Event

abbrev pub Peers : Type 0
Peers = List (ℕ × Context)

-- The broker when `main` has started the listener.
unfoldable pub initial : State
initial = record {
  heap = λ p. none;
  registry = none;
  connected_peers = pos 0;
  idle_timer = none;
  timers = [];
  transactions = pos 0;
  now = 0;
  effects = [];
}

-- A connection that is gone takes its context along.
abbrev pub keep : PeerEvent → ℕ → Context → Peers → Peers
keep connection_invalid c ctx peers = erase c peers
keep _ c ctx peers = insert c ctx peers

abbrev pub accept : Option Context → Peers → Peers
accept none peers = peers
accept (some ctx) peers = insert ctx.connection ctx peers

module _ (cf : CoreFoundation) (env : Env) where
  unfoldable pub on_peer : ℕ → PeerEvent → Peers → Cmd Peers
  on_peer c e peers = elim (lookup c peers) [
    | none ↦ pure peers
    | some ctx ↦ do ctx' ← handle_event (broker_ops cf env) e ctx; pure (keep e c ctx' peers)
  ]

  unfoldable pub on_source : ℕ → Peers → Cmd Peers
  on_source t peers s = elim (lookup t s.timers) [
    | none ↦ ok peers s
    | some fired ↦ (do on_timer cf fired.handler; pure peers) s
  ]

  unfoldable pub step : Event → Peers → Cmd Peers
  step (listener e) peers = do
    accepted ← handle_listener (broker_ops cf env) e
    pure (accept accepted peers)
  step (peer c e) peers = on_peer c e peers
  step (timer t) peers = on_source t peers
  step signal peers = do on_signal; pure peers
  step (elapse d) peers = λ s. ok peers (record s { now = s.now + d })

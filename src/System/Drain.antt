-- ===== src/System/Drain.antt =====
-- The end of the broker: from every state the clients can leave, and then the idle timer ends the
-- process.
use vmnet_broker.Base.{
  ℕ, zero, suc, ◌+◌, ◌≤◌, ◌<◌, ◌≡◌, ◌≢◌, refl, ap, ◌∙◌, inl, inr, none, some, [], ◌∷◌, lookup,
  erase, length, arith, Option-cases,
}
use vmnet_broker.Machine.{Ptr, Context, State, Run, ok, exited, and_then, CoreFoundation, Outcomes}
use vmnet_broker.Machine.Returns
use vmnet_broker.Machine.Returns.{Returns, returns}
use vmnet_broker.Network.Invariant.{Timers}
use vmnet_broker.Network.Shutdown.{shutdown_networks_lem}
use vmnet_broker.Network.Registry.{shutdown_networks}
use vmnet_broker.Xpc.{connection_invalid}
use vmnet_broker.Broker.{Env}
use vmnet_broker.Broker.Lifecycle.{HasTimers}
use vmnet_broker.System.{Peers, step, peer, timer, elapse}
use vmnet_broker.System.Peers.{length-erase}
use vmnet_broker.System.Invariant.{SystemInv, Allowed, disconnects, fires, elapses}
use vmnet_broker.System.Invariant.Steps.{Departed, disconnect-Departed}
use vmnet_broker.System.Invariant.Events.{on_shutdown}
use vmnet_broker.System.Safety.{Reach, Reach-SystemInv, step-Moved}

-- A run in which the clients leave, time passes, and a timer ends the process with success, and no
-- network is left.
pub data Drains (cf : CoreFoundation) : Peers → State → Type 0 where
  hangs_up :
      {peers peers' : Peers} {s s' : State} (env : Env) (c : ℕ)
      → Allowed cf env peers s (peer c connection_invalid)
      → step cf env (peer c connection_invalid) peers s ≡ ok peers' s'
      → Drains cf peers' s'
      → Drains cf peers s
  waits :
      {peers peers' : Peers} {s s' : State} (env : Env) (d : ℕ)
      → step cf env (elapse d) peers s ≡ ok peers' s'
      → Drains cf peers' s'
      → Drains cf peers s
  stops :
      {peers : Peers} {s s' : State} (env : Env) (t : ℕ)
      → Allowed cf env peers s (timer t)
      → step cf env (timer t) peers s ≡ exited 0 s'
      → ((p : Ptr) → s'.heap p ≡ none)
      → Drains cf peers s

-- A source that no timer has, and all above it.
abbrev fresh : Timers → ℕ
fresh [] = 0
fresh ((t, d) ∷ timers) = t + 1 + fresh timers

lookup-fresh : (t : ℕ) (timers : Timers) → fresh timers ≤ t → lookup t timers ≡ none
unfolding lookup
lookup-fresh t [] h = refl
lookup-fresh t ((u, d) ∷ timers) h = ground (arith, lookup-fresh t timers)

abbrev fresh_env : Outcomes → Timers → Env
fresh_env out timers = record {
  outcomes = out;
  sources = λ q. some (fresh timers + 1 + q);
  source = some (fresh timers);
}

fresh_env-HasTimers :
    (out : Outcomes) (s : State) (ctx : Context) → HasTimers (fresh_env out s.timers) s ctx
fresh_env-HasTimers out s ctx = record {
  networks = record {
    given = λ q mine. (
      fresh s.timers + 1 + q,
      refl,
      lookup-fresh (fresh s.timers + 1 + q) s.timers (omega arith),
    );
    distinct = λ q r t e f. ground (arith, e, f);
  };
  broker = (
    fresh s.timers,
    refl,
    lookup-fresh (fresh s.timers) s.timers (omega arith),
    λ q e. ground (arith, e),
  );
}

module _ (cf : CoreFoundation) (out : Outcomes) where
  stop-Drains :
      (env : Env) (t : ℕ) (peers : Peers) (s : State)
      → Allowed cf env peers s (timer t)
      → (r : Run (Unit {0})) → step cf env (timer t) peers s ≡ and_then r (λ _ s'. exited 0 s')
      → Returns (λ _ s'. (p : Ptr) → s'.heap p ≡ none) r
      → Drains cf peers s
  stop-Drains env t peers s can r run (returns gone) = stops env t can run gone

  -- Nobody is connected, and the idle timer is set.
  idle-Drains :
      (peers : Peers) (s : State) (t : ℕ)
      → SystemInv cf peers s
      → s.idle_timer ≡ some t
      → Drains cf peers s
  unfolding step
  idle-Drains peers s t inv set =
      let run = inv.consistent.idle_set t set in
      let d = run.entry in
      let env = fresh_env out s.timers in
      let s' : State = record s { now = s.now + d.deadline } in
      let (inv', _) = step-Moved env {s' = s'} (elapse d.deadline) inv elapses refl in
      waits env d.deadline refl (
        stop-Drains env t peers s' (fires d run.scheduled (omega arith)) (shutdown_networks s')
          (on_shutdown cf env peers s' t d run.scheduled run.handled)
          (Returns.weaken (shutdown_networks_lem s' inv'.consistent)
            λ _ _ (_, _, gone, _, _). gone))

  hang_up-Drains :
      (env : Env) (c : ℕ) (peers : Peers) (s : State)
      → Allowed cf env peers s (peer c connection_invalid)
      → (r : Run Peers) → step cf env (peer c connection_invalid) peers s ≡ r
      → Returns (Departed cf peers s c) r
      → ((peers' : Peers) (s' : State) → Departed cf peers s c peers' s' → Drains cf peers' s')
      → Drains cf peers s
  hang_up-Drains env c peers s can r run (returns d) rest = hangs_up env c can run (rest _ _ d)

  -- With `n` peers.
  drain :
      (n : ℕ) (peers : Peers) (s : State)
      → length peers ≡ n
      → SystemInv cf peers s
      → (n ≡ 0 → s.idle_timer ≢ none)
      → Drains cf peers s
  unfolding step lookup
  drain zero peers s many inv idle = elim (Option-cases s.idle_timer) [
    | inl quiet ↦ absurd (idle refl quiet)
    | inr (t, set) ↦ idle-Drains peers s t inv set
  ]
  drain (suc n) [] s many inv idle = absurd (omega (arith, many))
  drain (suc n) ((c, ctx) ∷ rest) s many inv idle =
      let peers : Peers = (c, ctx) ∷ rest in
      let env = fresh_env out s.timers in
      let found : lookup c peers ≡ some ctx = ground arith in
      let has = fresh_env-HasTimers out s ctx in
      let fewer = length-erase c ctx peers inv.unique found in
      let left : length (erase c peers) ≡ n = omega (arith, many, fewer) in
      hang_up-Drains env c peers s (disconnects ctx found has) _ refl
        (disconnect-Departed cf env peers s inv c ctx found has)
        λ peers' s' d.
          drain n peers' s' (ap length d.gone ∙ left) d.inv (λ none_left. d.idle (left ∙ none_left))

-- From every state that the broker comes to with at least one open connection, there is a run
-- that ends the process with success and leaves no network: the connections are closed, time
-- passes, and the idle timer fires. Each step of it is an event that may come.
pub Reach-Drains :
    {cf : CoreFoundation} {peers : Peers} {s : State} (out : Outcomes)
    → Reach cf peers s
    → 0 < length peers
    → Drains cf peers s
Reach-Drains {cf} {peers} {s} out reach many =
    drain cf out (length peers) peers s refl (Reach-SystemInv reach)
      (λ e. absurd (omega (arith, many, e)))

-- ===== src/System/Invariant/Events/Runs.antt =====
-- One step of the broker by its parts: which handler runs, and what is left of the connections.
use vmnet_broker.Base.{
  ℕ, suc, ◌≡◌, refl, List, [], Option, none, some, ℤ, pos, lookup, insert, arith,
}
use vmnet_broker.Machine.{
  Ptr, Network, Context, State, Run, ok, crashed, exited, and_then, CoreFoundation, Timer,
  remove_network, shutdown,
}
use vmnet_broker.Network.Ownership.{IsValid, owned}
use vmnet_broker.Network.Contract.{entries}
use vmnet_broker.Network.Registry.{shutdown_networks, registry_remove}
use vmnet_broker.Xpc.{init_context, new_connection, handle_listener, handle_connection}
use vmnet_broker.Broker.{Env, on_timer, on_signal, on_peer_connect}
use vmnet_broker.System.{listener, accept, timer, signal, Peers, step, on_source}

pub init_context-IsValid : (c : ℕ) (pid : ℤ) → IsValid (init_context c pid)
unfolding init_context
init_context-IsValid c pid = record { slots = refl; within = omega arith; once = λ p. omega arith }

pub init_context-owned : (c : ℕ) (pid : ℤ) → owned (init_context c pid) ≡ []
unfolding init_context
init_context-owned c pid = refl

pub init_context-connection : (c : ℕ) (pid : ℤ) → (init_context c pid).connection ≡ c
unfolding init_context
init_context-connection c pid = refl

pub entries-some :
    (r : Option (List (ℕ × Ptr))) (k : ℕ) (p : Ptr)
    → lookup k (entries r) ≡ some p
    → (m : List (ℕ × Ptr)) × (r ≡ some m)
unfolding lookup
entries-some none k p e = cc
entries-some (some m) k p e = (m, refl)

connect_through :
    (r : Run (Unit {0})) (ctx : Context) (peers : Peers)
    → and_then
        (and_then (and_then r (λ _ s. ok ctx s)) (λ x s. ok (some x) s))
        (λ accepted s. ok (accept accepted peers) s)
      ≡ and_then r (λ _ s. ok (insert ctx.connection ctx peers) s)
connect_through (ok a s) ctx peers = refl
connect_through (crashed e) ctx peers = refl
connect_through (exited n s) ctx peers = refl

abbrev quit : State → Run (Unit {0})
quit s = exited 0 s

exit_through :
    (r : Run (Unit {0})) (peers : Peers)
    → and_then (and_then r (λ _. quit)) (λ _ s. ok peers s) ≡ and_then r (λ _ s. exited 0 s)
exit_through (ok a s) peers = refl
exit_through (crashed e) peers = refl
exit_through (exited n s) peers = refl

module _ (cf : CoreFoundation) (env : Env) (peers : Peers) (s : State) where
  pub on_connect :
      (c : ℕ) (pid : ℤ)
      → step cf env (listener (new_connection c pid)) peers s
        ≡ and_then
            (on_peer_connect s)
            (λ _ s'. ok (insert (init_context c pid).connection (init_context c pid) peers) s')
  unfolding step handle_listener handle_connection
  on_connect c pid = connect_through (on_peer_connect s) (init_context c pid) peers

  pub on_removal :
      (t : ℕ) (d : Timer) (p : Ptr) (n : Network) (name : _)
      → lookup t s.timers ≡ some d
      → d.handler ≡ remove_network p
      → s.heap p ≡ some n
      → n.name ≡ some name
      → step cf env (timer t) peers s ≡ and_then (registry_remove cf name s) (λ _ s'. ok peers s')
  unfolding step on_source on_timer
  on_removal t d p n name found what at named = ground (arith, found, what, at, named)

  pub on_shutdown :
      (t : ℕ) (d : Timer)
      → lookup t s.timers ≡ some d
      → d.handler ≡ shutdown
      → step cf env (timer t) peers s ≡ and_then (shutdown_networks s) (λ _ s'. exited 0 s')
  unfolding step on_source on_timer
  on_shutdown t d found what = ground (arith, found, what, exit_through (shutdown_networks s) peers)

  pub on_signal_busy :
      (k : ℕ) → s.connected_peers ≡ pos (suc k) → step cf env signal peers s ≡ ok peers s
  unfolding step on_signal
  on_signal_busy k e = ground (arith, e)

  pub on_signal_idle :
      s.connected_peers ≡ pos 0
      → step cf env signal peers s ≡ and_then (shutdown_networks s) (λ _ s'. exited 0 s')
  unfolding step on_signal
  on_signal_idle e = ground (arith, e, exit_through (shutdown_networks s) peers)

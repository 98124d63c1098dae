-- ===== src/System/Order.antt =====
-- The steps and the runs of the broker from states that differ in the order of the dictionary.
use vmnet_broker.Base.{
  subst, List, [], ◌∷◌, ℕ, ◌+◌, ◌∙◌, ◌≡◌, refl, sym, ap, fun_ext, inl, inr, none, some,
  Option-cases, Bool-cases, true, false, lookup, is_positive, arith,
}
use vmnet_broker.Machine.{
  Cmd, Run, pure, ◌>>=◌, Ptr, State, ok, and_then, exit, CoreFoundation, Timer, Handler,
  remove_network, shutdown,
}
use vmnet_broker.Machine.Returns
use vmnet_broker.Machine.Returns.{Returns, returns}
use vmnet_broker.Machine.Alike.{
  Alike, Alike-change, RunAlike, ends, quits, bind, option-Alike, heap-Alike, timers-Alike,
  connected_peers-Alike,
}
use vmnet_broker.Network.Contract.{Consistent}
use vmnet_broker.Network.Invariant.Alike.{Consistent-Alike}
use vmnet_broker.Network.Registry.{shutdown_networks}
use vmnet_broker.Network.Shutdown.{shutdown_networks_lem}
use vmnet_broker.Xpc.{
  PeerEvent, connection_invalid, other_error, other_object, dictionary, listener_error,
  other_listener_event, new_connection, handle_event, handle_listener,
}
use vmnet_broker.Broker.{Env, on_timer, on_signal}
use vmnet_broker.Broker.Alike.{
  on_peer_request-Alike, on_peer_connect-Alike, on_peer_disconnect-Alike, on_removal-Alike,
}
use vmnet_broker.System.{
  Event, listener, peer, timer, signal, elapse, Peers, step, on_peer, on_source,
}
use vmnet_broker.System.Invariant.Events.Runs.{on_connect}
use vmnet_broker.System.Safety.{Reach, Reach-SystemInv}
use vmnet_broker.System.Later.{Later, now, later, Reach-Later}

module _ {cf : CoreFoundation} {own : Ptr → ℕ} {s s' : State} (a : Alike s s')
    (consistent : Consistent cf own s) where
  -- Both states lose all networks.
  shutdown-Alike {ℓ} :
      {B : Type ℓ}
      → RunAlike {A = B}
          (and_then (shutdown_networks s) (λ _. exit 0))
          (and_then (shutdown_networks s') (λ _. exit 0))
  shutdown-Alike =
      let (_, t, e, (_, _, gone, _, _)) = Returns.result (shutdown_networks_lem s consistent) in
      let (_, t', e', (_, _, gone', _, _)) =
        Returns.result (shutdown_networks_lem s' (Consistent-Alike a consistent)) in
      rw (e, e') (quits (fun_ext λ p. gone' p ∙ sym (gone p)))

module _ (cf : CoreFoundation) (env : Env) (peers : Peers) (s : State) where
  unknown : (t : ℕ) → lookup t s.timers ≡ none → step cf env (timer t) peers s ≡ ok peers s
  unfolding step on_source
  unknown t e = ground (arith, e)

  fires :
      (t : ℕ) (d : Timer)
      → lookup t s.timers ≡ some d
      → step cf env (timer t) peers s ≡ and_then (on_timer cf d.handler s) (λ _ t. ok peers t)
  unfolding step on_source
  fires t d e = ground (arith, e)

  stays : is_positive s.connected_peers ≡ true → step cf env signal peers s ≡ ok peers s
  unfolding step on_signal
  stays e = ground (arith, e)

  stops :
      is_positive s.connected_peers ≡ false
      → step cf env signal peers s
        ≡ and_then (and_then (shutdown_networks s) (λ _. exit {A = Unit {0}} 0)) (λ _ t. ok peers t)
  unfolding step on_signal
  stops e = ground (arith, e)

module _ {cf : CoreFoundation} (env : Env) {peers : Peers} {s s' : State} (reach : Reach cf peers s)
    (a : Alike s s') where
  stop :
      RunAlike
        (and_then (shutdown_networks s) (λ _. exit {A = Unit {0}} 0))
        (and_then (shutdown_networks s') (λ _. exit {A = Unit {0}} 0))
  stop = shutdown-Alike a (Reach-SystemInv reach).consistent

  signal-Alike : RunAlike (step cf env signal peers s) (step cf env signal peers s')
  signal-Alike =
      let same : is_positive s'.connected_peers ≡ is_positive s.connected_peers =
        ap is_positive (connected_peers-Alike a) in
      elim (Bool-cases (is_positive s.connected_peers)) [
        | inl e ↦ rw (stays cf env peers s e, stays cf env peers s' (same ∙ e)) (ends a)
        | inr e ↦
            rw (stops cf env peers s e, stops cf env peers s' (same ∙ e))
              (bind stop λ _ t t' b. ends b)
      ]

  fired-Alike :
      (h : Handler)
      → RunAlike
          (and_then (on_timer cf h s) (λ _ t. ok peers t))
          (and_then (on_timer cf h s') (λ _ t. ok peers t))
  unfolding on_timer
  fired-Alike (remove_network p) = bind (on_removal-Alike cf p s s' a) λ _ t t' b. ends b
  fired-Alike shutdown = bind stop λ _ t t' b. ends b

  timer-Alike : (t : ℕ) → RunAlike (step cf env (timer t) peers s) (step cf env (timer t) peers s')
  timer-Alike t =
      let same : lookup t s'.timers ≡ lookup t s.timers = ap (lookup t) (timers-Alike a) in
      elim (Option-cases (lookup t s.timers)) [
        | inl e ↦ rw (unknown cf env peers s t e, unknown cf env peers s' t (same ∙ e)) (ends a)
        | inr (d, e) ↦
            rw (fires cf env peers s t d e, fires cf env peers s' t d (same ∙ e))
              (fired-Alike d.handler)
      ]

  peer-Alike :
      (c : ℕ) (e : PeerEvent)
      → RunAlike (step cf env (peer c e) peers s) (step cf env (peer c e) peers s')
  unfolding step on_peer handle_event
  peer-Alike c connection_invalid =
      option-Alike (lookup c peers) _ _ _ _ (ends a)
        λ ctx. bind (on_peer_disconnect-Alike env ctx s s' a) λ ctx' t t' b. ends b
  peer-Alike c other_error = option-Alike (lookup c peers) _ _ _ _ (ends a) λ ctx. ends a
  peer-Alike c other_object = option-Alike (lookup c peers) _ _ _ _ (ends a) λ ctx. ends a
  peer-Alike c (dictionary event) =
      option-Alike (lookup c peers) _ _ _ _ (ends a)
        λ ctx. bind (on_peer_request-Alike cf env.outcomes ctx event s s' a) λ ctx' t t' b. ends b

  -- One event ends in the same way from both states.
  step-Alike : (e : Event) → RunAlike (step cf env e peers s) (step cf env e peers s')
  unfolding step handle_listener
  step-Alike (listener listener_error) = quits (heap-Alike a)
  step-Alike (listener other_listener_event) = ends a
  step-Alike (listener (new_connection c pid)) =
      rw (on_connect cf env peers s c pid, on_connect cf env peers s' c pid)
        (bind (on_peer_connect-Alike s s' a) λ _ t t' b. ends b)
  step-Alike (peer c e) = peer-Alike c e
  step-Alike (timer t) = timer-Alike t
  step-Alike signal = signal-Alike
  step-Alike (elapse d) = ends (Alike-change (λ s. record s { now = s.now + d }) (λ r. refl) refl a)

-- The events of a run, the last one first, with what the external calls returned at each.
abbrev pub events_of :
    {cf : CoreFoundation} {peers : Peers} {s : State} {peers' : Peers} {s' : State}
    → Later cf peers s peers' s'
    → List (Env × Event)
events_of now = []
events_of (later env e l can run) = (env, e) ∷ events_of l

abbrev pub replay : CoreFoundation → List (Env × Event) → Peers → Cmd Peers
replay cf [] peers = pure peers
replay cf ((env, e) ∷ es) peers = replay cf es peers >>= step cf env e

RunAlike-of_ok :
    {A : Type 0} {a : A} {s : State} {r : Run A}
    → RunAlike (ok a s) r
    → (s' : State) × (r ≡ ok a s') × Alike s s'
RunAlike-of_ok (ends h) = (_, refl, h)

module _ {cf : CoreFoundation} where
  replay-Alike :
      {peers : Peers} {s : State} {peers' : Peers} {s' : State} (t : State)
      (reach : Reach cf peers s)
      → Alike s t
      → (l : Later cf peers s peers' s')
      → (t' : State) × (replay cf (events_of l) peers t ≡ ok peers' t') × Alike s' t'
  replay-Alike t reach a now = (t, refl, a)
  replay-Alike t reach a (later {peers' = mid} env e l can run) =
      let (u', ran, b) = replay-Alike t reach a l in
      let stepped = step-Alike env (Reach-Later reach l) b e in
      let (t', ran', c) =
        RunAlike-of_ok (subst (λ r. RunAlike r (step cf env e mid u')) run stepped) in
      (t', rw ran ran', c)

  -- The order in which CFDictionary keeps the registry's entries makes no difference: of two
  -- states that differ in that order alone, one of which the broker comes to, a run from it is
  -- a run from the other with the same events and the same connections, to states that differ
  -- in that order alone; and any further event ends in the same way from both, or exits and
  -- leaves the same networks.
  pub runs-Alike :
      {peers : Peers} {s : State} {peers' : Peers} {s' : State} (t : State)
      (reach : Reach cf peers s)
      → Alike s t
      → (l : Later cf peers s peers' s') (env : Env) (e : Event)
      → Returns
          (λ peers'' t'.
            (peers'' ≡ peers')
            × Alike s' t'
            × RunAlike (step cf env e peers' s') (step cf env e peers' t'))
          (replay cf (events_of l) peers t)
  runs-Alike t reach a l env e =
      let (t', ran, b) = replay-Alike t reach a l in
      rw ran (returns (refl, b, step-Alike env (Reach-Later reach l) b e))

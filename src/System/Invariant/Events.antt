-- ===== src/System/Invariant/Events.antt =====
-- The events of the listener, the timers, the signals and the clock keep the invariant.
pub mod Runs
use vmnet_broker.Base.{
  ◌≤◌, inl, inr, ℕ, suc, ◌+◌, ◌<◌, ◌≡◌, refl, sym, ap, subst, ◌∙◌, [], ◌∷◌, none, some, ℤ, pos,
  lookup, insert, fun_ext, insert-Unique, length, arith, count,
}
use vmnet_broker.Machine.{
  Ptr, Context, State, exited, and_then, CoreFoundation, Timer, Handler, remove_network, shutdown,
}
use vmnet_broker.Network.Invariant.{Inv, Site, vacant, taken}
use vmnet_broker.Network.Contract.{Consistent, IsSettled, entries}
use vmnet_broker.Network.Remove.{registry_remove-Gone}
use vmnet_broker.Network.Shutdown.{shutdown_networks_lem, IsPaid-of_IsReleased}
use vmnet_broker.Network.Registry.{shutdown_networks}
use vmnet_broker.Xpc.{
  PeerEvent, other_listener_event, init_context, listener_error, new_connection, handle_listener,
}
use vmnet_broker.Broker.{Env}
use vmnet_broker.Broker.Lifecycle.{Counts, Connected, on_peer_connect-Connected}
use vmnet_broker.System.{Event, listener, peer, on_peer, timer, signal, elapse, Peers, step}
use vmnet_broker.System.Peers.{
  total, length-insert, total-insert, total-erase_absent, length-erase_absent,
}
use vmnet_broker.System.Invariant.{SystemInv, IsEnd, Progress, continues, ends, breaks}
use vmnet_broker.System.Spec.{other_message, ignored_signal, time}
use vmnet_broker.System.Invariant.Moves.{Moved-still, Moved-connect, Moved-removal}
use vmnet_broker.System.Invariant.Steps.{contexts-insert, Progress-bind}
pub use vmnet_broker.System.Invariant.Events.Runs.{entries-some, on_removal, on_shutdown}
use vmnet_broker.System.Invariant.Events.Runs.{
  init_context-IsValid, init_context-owned, init_context-connection, on_connect, on_shutdown,
  on_signal_busy, on_signal_idle,
}

module _ (cf : CoreFoundation) (env : Env) (peers : Peers) (s : State) where
  module _ (inv : SystemInv cf peers s) where
    SystemInv-connect :
        (c : ℕ) (pid : ℤ) (s' : State)
        → lookup c peers ≡ none
        → Connected cf (total peers) (length peers) s s'
        → SystemInv cf (insert c (init_context c pid) peers) s'
    SystemInv-connect c pid s' absent h =
        let ctx : Context = init_context c pid in
        let same : total (insert c ctx peers) ≡ total peers =
          total-insert c ctx peers
          ∙ fun_ext (λ p. omega (
            arith,
            ap (count p) (init_context-owned c pid),
            ap (λ f. f p) (total-erase_absent c peers absent),
          )) in
        record {
          unique = insert-Unique c ctx peers inv.unique;
          contexts =
              contexts-insert peers c ctx inv.contexts (init_context-IsValid c pid)
                (init_context-connection c pid);
          consistent = subst (λ own. Consistent cf own s') (sym same) h.consistent;
          settled = λ p n at.
              subst (λ k. IsSettled k n) (sym (ap (λ f. f p) same))
                (inv.settled p n (sym (ap (λ f. f p) h.same_heap) ∙ at));
          counts =
              subst (λ k. Counts k s')
                (ap suc (sym (length-erase_absent c peers absent))
                  ∙ sym (length-insert c ctx peers))
                h.counts;
        }

    pub Progress-connect :
        (c : ℕ) (pid : ℤ)
        → lookup c peers ≡ none
        → Progress cf peers s
            (listener (new_connection c pid))
            (step cf env (listener (new_connection c pid)) peers s)
    unfolding init_context
    Progress-connect c pid absent = rw (on_connect cf env peers s c pid) (
        Progress-bind
          (on_peer_connect-Connected cf (total peers) (length peers) s inv.consistent inv.counts)
          λ _ s' h.
            continues (SystemInv-connect c pid s' absent h) (Moved-connect inv c pid s' absent h))

    -- A timer of a network fires.
    Progress-removal :
        (t : ℕ) (d : Timer) (p : Ptr)
        → lookup t s.timers ≡ some d
        → d.handler ≡ remove_network p
        → d.deadline ≤ s.now
        → Site cf s.heap (entries s.registry) s.timers (total peers) p
        → Progress cf peers s (timer t) (step cf env (timer t) peers s)
    Progress-removal t d p found what due (vacant _ v) =
        absurd (v.unclocked t (record { entry = d; scheduled = found; handled = what }))
    Progress-removal t d p found what due (taken n at h) =
        let (m, ready) = entries-some s.registry h.key p h.filed in
        let set = h.clocked_only t (record { entry = d; scheduled = found; handled = what }) in
        rw (on_removal cf env peers s t d p n h.name found what at h.named) (
          Progress-bind
            (registry_remove-Gone p n m s ready at
              (subst (λ l. Inv cf s.heap l s.timers s.idle_timer (total peers)) (ap entries ready)
                inv.consistent)
              inv.settled t h.name set h.named)
            λ _ s' g.
              continues
                (record {
                  unique = inv.unique;
                  contexts = inv.contexts;
                  consistent = g.consistent;
                  settled = g.settled;
                  counts = record {
                    connected = g.kept.connected_peers ∙ inv.counts.connected;
                    transaction = g.kept.transactions ∙ inv.counts.transaction;
                    awake = λ k. g.kept.idle_timer ∙ inv.counts.awake k;
                  };
                })
                (Moved-removal inv t d p n s' found due at set g))

    none_connected : (t : ℕ) → s.idle_timer ≡ some t → (l : Peers) → l ≡ peers → peers ≡ []
    none_connected t set [] e = sym e
    none_connected t set (x ∷ l) e =
        cc (set, inv.counts.awake (subst (λ k. 0 < length k) e (omega arith)))

    Progress-shutdown :
        (e : Event)
        → peers ≡ []
        → IsEnd s e
        → step cf env e peers s ≡ and_then (shutdown_networks s) (λ _ s'. exited 0 s')
        → Progress cf peers s e (step cf env e peers s)
    Progress-shutdown e alone end run = rw run (
        Progress-bind (shutdown_networks_lem s inv.consistent) λ _ s' (_, _, gone, _, released).
          ends alone end gone (IsPaid-of_IsReleased s s' released))

    pub Progress-timer :
        (t : ℕ) (d : Timer) (h : Handler)
        → lookup t s.timers ≡ some d
        → d.handler ≡ h
        → d.deadline ≤ s.now
        → Progress cf peers s (timer t) (step cf env (timer t) peers s)
    Progress-timer t d (remove_network p) found what due =
        Progress-removal t d p found what due (inv.consistent.site p)
    Progress-timer t d shutdown found what due =
        let set =
          inv.consistent.idle_only t (record { entry = d; scheduled = found; handled = what }) in
        Progress-shutdown (timer t) (none_connected t set peers refl)
          (inr (t, d, refl, set, found, due)) (on_shutdown cf env peers s t d found what)

    pub Progress-signal :
        (l : Peers) → l ≡ peers → Progress cf peers s signal (step cf env signal peers s)
    Progress-signal [] e =
        Progress-shutdown signal (sym e) (inl refl)
          (on_signal_idle cf env peers s (inv.counts.connected ∙ ap (λ k. pos (length k)) (sym e)))
    Progress-signal (x ∷ l) e =
        rw
          (on_signal_busy cf env peers s (length l)
            (inv.counts.connected ∙ ap (λ k. pos (length k)) (sym e)))
          (continues inv
            (Moved-still inv signal s ignored_signal refl refl refl refl (omega arith)))

    pub Progress-ignored :
        Progress cf peers s
          (listener other_listener_event)
          (step cf env (listener other_listener_event) peers s)
    unfolding step handle_listener
    Progress-ignored =
        continues inv (Moved-still inv _ s other_message refl refl refl refl (omega arith))

    pub Progress-elapsed : (d : ℕ) → Progress cf peers s (elapse d) (step cf env (elapse d) peers s)
    unfolding step
    Progress-elapsed d =
        continues {s' = record s { now = s.now + d }}
          (record {
            unique = inv.unique;
            contexts = inv.contexts;
            consistent = inv.consistent;
            settled = inv.settled;
            counts = record {
              connected = inv.counts.connected;
              transaction = inv.counts.transaction;
              awake = inv.counts.awake;
            };
          })
          (Moved-still inv (elapse d) _ time refl refl refl refl (omega arith))

  pub Progress-failed :
      Progress cf peers s (listener listener_error) (step cf env (listener listener_error) peers s)
  unfolding step handle_listener
  Progress-failed = breaks refl

  pub Progress-at :
      (c : ℕ) (e : PeerEvent)
      → Progress cf peers s (peer c e) (on_peer cf env c e peers s)
      → Progress cf peers s (peer c e) (step cf env (peer c e) peers s)
  unfolding step
  Progress-at c e h = h

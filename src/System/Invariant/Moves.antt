-- ===== src/System/Invariant/Moves.antt =====
-- What each kind of event moves.
use vmnet_broker.Base.{
  ◌≤◌, ◌≢◌, inl, inr, Bool-cases, ◌==◌, update, ℕ, ◌≡◌, refl, sym, ap, ◌∙◌, none, some, ℤ, lookup,
  insert, length, arith,
}
use vmnet_broker.Machine.{replies, Ptr, Network, Context, State, CoreFoundation, Timer}
use vmnet_broker.Network.Ownership.{owned}
use vmnet_broker.Network.Remove.{Gone}
use vmnet_broker.Xpc.{init_context, new_connection}
use vmnet_broker.Broker.Lifecycle.{Connected}
use vmnet_broker.System.{Event, listener, timer, Peers}
use vmnet_broker.System.Peers.{total, total-positive}
use vmnet_broker.System.Invariant.{SystemInv, Moved}
use vmnet_broker.System.Invariant.Held.{held_live}
use vmnet_broker.System.Invariant.Rules.{held-Carried}
use vmnet_broker.System.Spec.{IsInternal, connect, stay, fired}
use vmnet_broker.System.View.{holds, holdings, Carried, holdings-same, holdings-insert}
use vmnet_broker.Machine.Ledger.{Even, obtained, given_back, entries}
use vmnet_broker.Network.Steady.{Steady-same}
use vmnet_broker.System.Invariant.Events.Runs.{init_context-owned}

module _ {cf : CoreFoundation} {peers : Peers} {s : State} (inv : SystemInv cf peers s) where
  -- Nothing moves but the clock.
  pub Moved-still :
      (e : Event) (s' : State)
      → IsInternal e
      → s'.heap ≡ s.heap
      → s'.timers ≡ s.timers
      → entries s'.registry ≡ entries s.registry
      → s'.effects ≡ s.effects
      → s.now ≤ s'.now
      → Moved peers s e peers s'
  Moved-still e s' internal heap timers filed effects clock =
      let steady = Steady-same s s' heap timers filed (even effects) in
      record {
        frame = λ p n at. inl (steady.stable p n at);
        timely = steady.timely;
        ledger = steady.ledger;
        clock = clock;
        rule = stay internal (ap (λ h. holdings h peers) heap) (ap replies effects);
      }
    where
      even : s'.effects ≡ s.effects → Even s'.effects s.effects
      even same o = omega (arith, ap (obtained o) same, ap (given_back o) same)

  pub Moved-connect :
      (c : ℕ) (pid : ℤ) (s' : State)
      → lookup c peers ≡ none
      → Connected cf (total peers) (length peers) s s'
      → Moved peers s (listener (new_connection c pid)) (insert c (init_context c pid) peers) s'
  Moved-connect c pid s' absent h = record {
    frame = λ p n at. inl (h.steady.stable p n at);
    timely = h.steady.timely;
    ledger = h.steady.ledger;
    clock = ground (arith, h.silent.now);
    rule =
        connect (ground (arith, absent))
          (holdings-insert s.heap s'.heap peers c
              (λ d x far e. held-Carried inv s'.heap d x h.steady.stable e) (init_context c pid)
            ∙ ap (λ ps. update (holdings s.heap peers) c (some (holds s'.heap ps)))
                (init_context-owned c pid))
          h.silent.replied;
  }

  -- The network of a timer ends, and nobody holds it.
  pub Moved-removal :
      (t : ℕ) (d : Timer) (p : Ptr) (n : Network) (s' : State)
      → lookup t s.timers ≡ some d
      → d.deadline ≤ s.now
      → s.heap p ≡ some n
      → n.idle_timer ≡ some t
      → Gone cf (total peers) p s s'
      → Moved peers s (timer t) peers s'
  Moved-removal t d p n s' found due at set g = record {
    frame = λ q m here. elim (Bool-cases (q == p)) [
      | inl same ↦
          let e : q ≡ p = ground arith in
          let e' : n ≡ m = ground (arith, at, here, e) in
          inr (t, d, refl, ap (λ x. x.idle_timer) (sym e') ∙ set, found, due)
      | inr far ↦ inl (m, g.others q (ground arith) ∙ here, refl, refl, refl)
    ];
    timely = g.timely;
    ledger = g.ledger;
    clock = ground (arith, g.kept.now);
    rule = stay fired (holdings-same s.heap s'.heap peers unaffected) g.kept.replied;
  }
    where
      unaffected :
          (c : ℕ) (x : Context) → lookup c peers ≡ some x → Carried s.heap s'.heap (owned x)
      unaffected c x e q mine =
          let (m, here, _, _) = held_live inv c x q e mine in
          let far : q ≢ p =
            λ same. ground (arith, total-positive c x peers q inv.unique e mine, g.unowned, same) in
          (m, here, (m, g.others q far ∙ here, refl, refl, refl))

-- ===== src/System/Grace.antt =====
-- How long networks live: at least the idle timeout after they were held, and no timer waits longer.
use vmnet_broker.Base.{
  ℕ, ◌+◌, ◌<◌, ◌≤◌, ◌≡◌, ◌⊎◌, refl, sym, ap, ◌∙◌, inl, inr, none, some, lookup, arith, count,
}
use vmnet_broker.Machine.{Ptr, Network, Context, State, CoreFoundation, Timer}
use vmnet_broker.Network.Invariant.{Healthy-of_Inv}
use vmnet_broker.Network.Ownership.{owned}
use vmnet_broker.Network.Steady.{Survives}
use vmnet_broker.System.{Event, Peers, initial}
use vmnet_broker.System.Invariant.{SystemInv, Moved}
use vmnet_broker.System.Later.{idle_timeout, Later, now, later, Later-SystemInv, Later-clock}
use vmnet_broker.System.Safety.{Reach, start, next, Reach-SystemInv, step-Moved, held_is_live}

-- In every state that the broker comes to, no timer that is set waits longer than the idle
-- timeout.
pub deadline-le :
    {cf : CoreFoundation} {peers : Peers} {s : State} (t : ℕ) (d : Timer)
    → Reach cf peers s
    → lookup t s.timers ≡ some d
    → d.deadline ≤ s.now + idle_timeout
unfolding initial lookup
deadline-le t d start e = cc e
deadline-le t d (next {s = s} {s' = s'} env e before can run) set =
    let (_, m) = step-Moved env e (Reach-SystemInv before) can run in
    elim (m.timely t d set) [
      | inl old ↦ omega (arith, m.clock, deadline-le t d before old)
      | inr new ↦ omega (arith, m.clock, new)
    ]

-- The network that was `n` is alive, and is not removed before a time.
abbrev Guarded : ℕ → Network → Ptr → State → Type 0
Guarded until n p s =
    (m : Network) × (s.heap p ≡ some m)
    × (m.name ≡ n.name)
    × (m.ref ≡ n.ref)
    × (m.serialization ≡ n.serialization)
    × ((t : ℕ) (d : Timer)
        → m.idle_timer ≡ some t
        → lookup t s.timers ≡ some d
        → until ≤ d.deadline)

module _ {cf : CoreFoundation} {peers peers' : Peers} {s s' : State} (e : Event) (until : ℕ)
    (n : Network) (p : Ptr) where
  Guarded-Moved :
      SystemInv cf peers s
      → SystemInv cf peers' s'
      → Moved peers s e peers' s'
      → until ≤ s.now + idle_timeout
      → Guarded until n p s
      → Guarded until n p s' ⊎ (until ≤ s'.now)
  Guarded-Moved inv inv' moved soon (m, at, name, ref, x, kept) = elim (moved.frame p m at) [
    | inr (t, d, _, set, scheduled, due) ↦
        inr (omega (arith, kept t d set scheduled, due, moved.clock))
    | inl (m', at', name', ref', x') ↦ inl (
      m',
      at',
      name' ∙ name,
      ref' ∙ ref,
      x' ∙ x,
      λ t d set scheduled. elim (moved.timely t d scheduled) [
        | inr new ↦ omega (arith, new, soon)
        | inl old ↦
            let run = (Healthy-of_Inv p m' inv'.consistent at').clocked t set in
            let same : run.entry ≡ d = ground (arith, run.scheduled, scheduled) in
            kept t d
              ((Healthy-of_Inv p m inv.consistent at).clocked_only t (record {
                entry = d;
                scheduled = old;
                handled = ap (λ y. y.handler) (sym same) ∙ run.handled;
              }))
              old
      ],
    )
  ]

module _ {cf : CoreFoundation} {peers : Peers} {s : State} (reach : Reach cf peers s) where
  -- A network without a timer is guarded for the idle timeout.
  Guarded-Later :
      {peers' : Peers} {s' : State} (n : Network) (p : Ptr)
      → s.heap p ≡ some n
      → n.idle_timer ≡ none
      → Later cf peers s peers' s'
      → Guarded (s.now + idle_timeout) n p s' ⊎ (s.now + idle_timeout ≤ s'.now)
  Guarded-Later n p at quiet now = inl (n, at, refl, refl, refl, λ t d set _. cc (quiet, set))
  Guarded-Later n p at quiet (later {s' = s'} env e l can run) =
      let inv = Reach-SystemInv reach in
      let inv' = Later-SystemInv inv l in
      let (inv'', moved) = step-Moved env e inv' can run in
      elim (Guarded-Later n p at quiet l) [
        | inl guarded ↦
            Guarded-Moved e (s.now + idle_timeout) n p inv' inv'' moved
              (omega (arith, Later-clock inv l)) guarded
        | inr late ↦ inr (omega (arith, late, moved.clock))
      ]

  -- A network that an open connection holds in a state that the broker comes to is alive in
  -- every later state in which less than the idle timeout has passed, with its name, its vmnet
  -- reference and its serialization, whatever the clients do in between.
  pub held-Survives :
      {peers' : Peers} {s' : State} (c : ℕ) (ctx : Context) (p : Ptr)
      → lookup c peers ≡ some ctx
      → 0 < count p (owned ctx)
      → Later cf peers s peers' s'
      → s'.now < s.now + idle_timeout
      → (n : Network) × (s.heap p ≡ some n) × Survives n s'.heap p
  held-Survives c ctx p found mine l soon =
      let (n, at, _, quiet) = held_is_live reach c ctx p found mine in
      elim (Guarded-Later n p at quiet l) [
        | inl (m, there, name, ref, x, _) ↦ (n, at, (m, there, name, ref, x))
        | inr late ↦ absurd (omega (arith, late, soon))
      ]

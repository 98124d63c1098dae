-- ===== src/Network/Invariant/Changes/Clock.antt =====
-- The timers that are set, after one is set or cancelled.
use vmnet_broker.Base.{
  ℕ, ◌≡◌, ◌≢◌, refl, ◌↔◌, inl, inr, none, lookup, insert, erase, lookup-insert, lookup-erase, arith,
  ◌==◌, ==_iff, Bool-cases,
}
use vmnet_broker.Machine.{Handler, Timer}
use vmnet_broker.Network.Invariant.{Timers, Running}

module _ (t₀ : ℕ) (d : Timer) (timers : Timers) where
  pub Running-insert :
      lookup t₀ timers ≡ none
      → (t : ℕ) (h : Handler) → h ≢ d.handler
      → Running timers t h ↔ Running (insert t₀ d timers) t h
  Running-insert fresh t h other = (
    λ r. record {
      entry = r.entry;
      scheduled = ground (arith, lookup-insert t₀ t d timers, r.scheduled);
      handled = r.handled;
    },
    λ r. record {
      entry = r.entry;
      scheduled = ground (arith, lookup-insert t₀ t d timers, r.scheduled, r.handled);
      handled = r.handled;
    },
  )

  pub Running-insert_self : Running (insert t₀ d timers) t₀ d.handler
  Running-insert_self = record {
    entry = d;
    scheduled = ground (arith, lookup-insert t₀ t₀ d timers);
    handled = refl;
  }

  pub Running-insert_only :
      (t : ℕ)
      → ((u : ℕ) → ¬ Running timers u d.handler)
      → Running (insert t₀ d timers) t d.handler
      → t₀ ≡ t
  Running-insert_only t idle r = elim (Bool-cases (t₀ == t)) [
    | inl here ↦ (==_iff t₀ t).0 here
    | inr there ↦ absurd (
        idle t (record {
          entry = r.entry;
          scheduled = ground (arith, lookup-insert t₀ t d timers, r.scheduled);
          handled = r.handled;
        }))
  ]

module _ (t₀ : ℕ) (timers : Timers) where
  pub Running-erase :
      (h₀ : Handler)
      → Running timers t₀ h₀
      → (t : ℕ) (h : Handler) → h ≢ h₀
      → Running timers t h ↔ Running (erase t₀ timers) t h
  Running-erase h₀ r₀ t h other = (
    λ r. record {
      entry = r.entry;
      scheduled =
          ground
            (arith, lookup-erase t₀ t timers, r.scheduled, r.handled, r₀.scheduled, r₀.handled);
      handled = r.handled;
    },
    λ r. record {
      entry = r.entry;
      scheduled = ground (arith, lookup-erase t₀ t timers, r.scheduled);
      handled = r.handled;
    },
  )

  pub Running-of_erase :
      (t : ℕ) (h : Handler) → Running (erase t₀ timers) t h → (t₀ ≢ t) × Running timers t h
  Running-of_erase t h r = (
    ground (arith, lookup-erase t₀ t timers, r.scheduled),
    record {
      entry = r.entry;
      scheduled = ground (arith, lookup-erase t₀ t timers, r.scheduled);
      handled = r.handled;
    },
  )

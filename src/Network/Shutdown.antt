-- ===== src/Network/Shutdown.antt =====
-- shutdown_networks: every network is freed once, and its timer with it.
pub mod Living
pub mod Values
use vmnet_broker.Base.{
  ◌+◌, ℕ, ◌≡◌, ◌⊎◌, refl, sym, subst, ap, Option, Option-cases, ◌∙◌, inl, inr, none, some, [],
  lookup, arith,
}
use vmnet_broker.Machine.{
  Ptr, Network, State, ok, and_then, CoreFoundation, Timer, Handler, remove_network, shutdown,
}
use vmnet_broker.Machine.Returns
use vmnet_broker.Machine.Returns.{Returns, returns}
use vmnet_broker.Network.Registry.{release_values, shutdown_networks}
use vmnet_broker.Network.Invariant.{Entries, Site, Running, vacant, taken}
use vmnet_broker.Network.Contract.{entries, Consistent, Kept, Kept-frame, Kept-trans}
use vmnet_broker.Network.Shutdown.Living.{IsFiled, Alive, Alive-of_Unique}
use vmnet_broker.Network.Shutdown.Values.{IsTimer, Emptied, Emptied-nil, release_values-Emptied}
use vmnet_broker.Machine.Ledger.{
  Tracked, obtained, given_back, in_use, in_use-of_network, held, IsPaid,
}

-- A timer that is set, unless it is set for the removal of a network.
abbrev pub unless_removal : Handler → Option Timer → Option Timer
unless_removal (remove_network p) d = none
unless_removal shutdown d = d

abbrev pub without_removal : Option Timer → Option Timer
without_removal none = none
without_removal (some d) = unless_removal d.handler (some d)

-- The timers of networks have stopped, and every other timer is set as it was.
abbrev pub IsStopped : State → State → Type 0
IsStopped s s' = (t : ℕ) → lookup t s'.timers ≡ without_removal (lookup t s.timers)

-- Nothing is created or retained, and of each object as much is released as the networks and
-- the timers that stopped had of it.
abbrev pub IsReleased : State → State → Type 0
IsReleased s s' =
    (o : Tracked)
    → (obtained o s'.effects ≡ obtained o s.effects)
      × (given_back o s'.effects + in_use s'.timers o
          ≡ given_back o s.effects + in_use s.timers o + held s.heap (entries s.registry) o)

-- The references and the serializations are those of the networks.
pub IsPaid-of_IsReleased : (s s' : State) → IsReleased s s' → IsPaid s s'
IsPaid-of_IsReleased s s' released o h =
    let (same, back) = released o in
    (same, omega (arith, back, in_use-of_network s.timers o h, in_use-of_network s'.timers o h))

shutdown_none : (s : State) → s.registry ≡ none → shutdown_networks s ≡ ok tt s
unfolding shutdown_networks
shutdown_none s e = ground (arith, e)

shutdown_some :
    (s : State) (m : Entries)
    → s.registry ≡ some m
    → shutdown_networks s
      ≡ and_then (release_values m s) (λ _ s'. ok tt (record s' { registry = none }))
unfolding shutdown_networks
shutdown_some s m e = ground (arith, e)

module _ {cf : CoreFoundation} {own : Ptr → ℕ} (s : State) (consistent : Consistent cf own s) where
  live_of_filed :
      (k : ℕ) (p : Ptr)
      → lookup k (entries s.registry) ≡ some p
      → Site cf s.heap (entries s.registry) s.timers own p
      → (n : Network) × (s.heap p ≡ some n)
        × ((t : ℕ) → n.idle_timer ≡ some t → Running s.timers t (remove_network p))
  live_of_filed k p e (vacant _ v) = absurd (v.unfiled k e)
  live_of_filed k p e (taken n at h) = (n, at, h.clocked)

  key_of_filed :
      (j k : ℕ) (p : Ptr)
      → lookup j (entries s.registry) ≡ some p
      → lookup k (entries s.registry) ≡ some p
      → Site cf s.heap (entries s.registry) s.timers own p
      → j ≡ k
  key_of_filed j k p e f (vacant _ v) = absurd (v.unfiled k f)
  key_of_filed j k p e f (taken n at h) = h.filed_once j e ∙ sym (h.filed_once k f)

  entries-Alive : Alive s.heap s.timers (entries s.registry)
  entries-Alive =
      Alive-of_Unique s.heap s.timers _ consistent.unique
        (λ k p f. live_of_filed k p f (consistent.site p))
        (λ j k p f g. key_of_filed j k p f g (consistent.site p))

  not_filed-eq-none :
      (p : Ptr)
      → ¬ IsFiled p (entries s.registry)
      → Site cf s.heap (entries s.registry) s.timers own p
      → s.heap p ≡ none
  not_filed-eq-none p out (vacant gone v) = gone
  not_filed-eq-none p out (taken n at h) = absurd (out (h.key, h.filed))

  all_gone :
      (p : Ptr) (s' : State)
      → (s'.heap p ≡ none) ⊎ ((s'.heap p ≡ s.heap p) × ¬ IsFiled p (entries s.registry))
      → s'.heap p ≡ none
  all_gone p s' (inl gone) = gone
  all_gone p s' (inr (kept, out)) = kept ∙ not_filed-eq-none p out (consistent.site p)

  -- A timer that is set for a removal is that of a network.
  timer_of_removal :
      (t : ℕ) (p : Ptr)
      → Running s.timers t (remove_network p)
      → Site cf s.heap (entries s.registry) s.timers own p
      → IsTimer s.heap (entries s.registry) t
  timer_of_removal t p r (vacant _ v) = absurd (v.unclocked t r)
  timer_of_removal t p r (taken n at h) = record {
    place = p;
    filed = (h.key, h.filed);
    network = n;
    live = at;
    set = h.clocked_only t r;
  }

  removal_of_timer :
      (t : ℕ) (r : IsTimer s.heap (entries s.registry) t)
      → Site cf s.heap (entries s.registry) s.timers own r.place
      → without_removal (lookup t s.timers) ≡ none
  removal_of_timer t r (vacant gone v) = absurd (v.unfiled r.filed.0 r.filed.1)
  removal_of_timer t r (taken n at h) =
      let same : n.idle_timer ≡ r.network.idle_timer = ground (arith, at, r.live) in
      let run = h.clocked t (same ∙ r.set) in
      ap without_removal run.scheduled ∙ ap (λ h. unless_removal h (some run.entry)) run.handled

  others_left :
      (t : ℕ)
      → ¬ IsTimer s.heap (entries s.registry) t
      → (d : Option Timer) → lookup t s.timers ≡ d
      → without_removal d ≡ d
  others_left t out none found = refl
  others_left t out (some d) found = by_handler d.handler refl
    where
      by_handler : (h : Handler) → d.handler ≡ h → unless_removal d.handler (some d) ≡ some d
      by_handler (remove_network p) what =
          let r : Running s.timers t (remove_network p) = record {
            entry = d;
            scheduled = found;
            handled = what;
          } in
          absurd (out (timer_of_removal t p r (consistent.site p)))
      by_handler shutdown what = ap (λ h. unless_removal h (some d)) what

  timer_after :
      (t : ℕ) (s' : State)
      → ((lookup t s'.timers ≡ none) × IsTimer s.heap (entries s.registry) t)
        ⊎ ((lookup t s'.timers ≡ lookup t s.timers) × ¬ IsTimer s.heap (entries s.registry) t)
      → lookup t s'.timers ≡ without_removal (lookup t s.timers)
  timer_after t s' (inl (gone, r)) = gone ∙ sym (removal_of_timer t r (consistent.site r.place))
  timer_after t s' (inr (same, out)) = same ∙ sym (others_left t out (lookup t s.timers) refl)

  IsOver : State → Type 0
  IsOver s' =
      Kept s s'
      × (s'.registry ≡ none)
      × ((p : Ptr) → s'.heap p ≡ none)
      × IsStopped s s'
      × IsReleased s s'

  Emptied-IsOver :
      (s' : State) → Emptied (entries s.registry) s s' → IsOver (record s' { registry = none })
  unfolding IsOver
  Emptied-IsOver s' emptied = (
    Kept-trans emptied.kept (Kept-frame s' _ _ _ _ refl),
    refl,
    (λ p. all_gone p s' (emptied.emptied p)),
    (λ t. timer_after t s' (emptied.stopped t)),
    emptied.paid,
  )

  same_state : s.registry ≡ none → record s { registry = none } ≡ s
  same_state e = λ i. record s { registry = sym e i }

  -- In a consistent state, the shutdown ends normally, frees every network and leaves no
  -- registry. It stops the timers of the networks and leaves every other timer as it was, the
  -- broker's own included. The number of peers, the idle timer, the transactions, the clock and
  -- the replies stay as they were. It creates and retains nothing, and of each object it
  -- releases as much as the networks and the timers that stopped had of it.
  pub shutdown_networks_lem :
      Returns
        (λ _ s'.
          Kept s s'
          × (s'.registry ≡ none)
          × ((p : Ptr) → s'.heap p ≡ none)
          × IsStopped s s'
          × IsReleased s s')
        (shutdown_networks s)
  unfolding IsOver
  shutdown_networks_lem = elim (Option-cases s.registry) [
    | inl e ↦ rw (shutdown_none s e) (
        returns (
          subst IsOver (same_state e)
            (Emptied-IsOver s (subst (λ m. Emptied m s s) (sym (ap entries e)) (Emptied-nil s)))))
    | inr (m, e) ↦
        let same : entries s.registry ≡ m = ap entries e in
        rw (shutdown_some s m e) (
          Returns.bind
            (release_values-Emptied m s (subst (Alive s.heap s.timers) same entries-Alive))
            λ _ s' emptied.
              returns (Emptied-IsOver s' (subst (λ m. Emptied m s s') (sym same) emptied)))
  ]

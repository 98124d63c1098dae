-- ===== src/Network/Shutdown/Values.antt =====
-- release_values: the networks of the registry's entries are freed, each with its timer.
use vmnet_broker.Base.{
  false, ◌+◌, ℕ, ◌≡◌, ◌⊎◌, refl, ap, Option, ◌∙◌, inl, inr, none, some, [], ◌∷◌, lookup,
  lookup-erase, update, arith, Bool-cases, ◌==◌, List,
}
use vmnet_broker.Machine.{Ptr, Network, State, Effect, remove_network}
use vmnet_broker.Machine.Returns
use vmnet_broker.Machine.Returns.{Returns, returns}
use vmnet_broker.Network.Registry.{release_values}
use vmnet_broker.Network.Invariant.{Heap, Entries, Timers, Running}
use vmnet_broker.Network.Contract.{Kept, Kept-frame, Kept-trans}
use vmnet_broker.Network.Remove.{
  free_network_lem, replies-log, obtained-log, given_back-log, given_back-no_timer, log_timer,
  log_serialization, log_ref, without_timer,
}
use vmnet_broker.Machine.Ledger.{Tracked, obtained, given_back, in_use, in_use-erase, held, uses}
use vmnet_broker.Machine.Ledger.Stock.{held-off}
use vmnet_broker.Network.Shutdown.Living.{IsFiled, IsFiled-cons, Alive, Alive-freed, Alive-Unique}

-- The timer `t` is one of the networks of the entries.
pub record IsTimer (heap : Heap) (m : Entries) (t : ℕ) : Type 0 where
  pub place : Ptr
  pub filed : IsFiled place m
  pub network : Network
  pub live : heap place ≡ some network
  pub set : network.idle_timer ≡ some t

-- The networks of the entries are gone with their timers, no other network or timer is touched,
-- and what is released is what they had.
pub record Emptied (m : Entries) (s s' : State) : Type 0 where
  pub kept : Kept s s'
  pub emptied : (q : Ptr) → (s'.heap q ≡ none) ⊎ ((s'.heap q ≡ s.heap q) × ¬ IsFiled q m)
  pub stopped :
      (t : ℕ)
      → ((lookup t s'.timers ≡ none) × IsTimer s.heap m t)
        ⊎ ((lookup t s'.timers ≡ lookup t s.timers) × ¬ IsTimer s.heap m t)
  pub paid :
      (o : Tracked)
      → (obtained o s'.effects ≡ obtained o s.effects)
        × (given_back o s'.effects + in_use s'.timers o
            ≡ given_back o s.effects + in_use s.timers o + held s.heap m o)

pub Emptied-nil : (s : State) → Emptied [] s s
unfolding lookup
Emptied-nil s = record {
  kept = Kept-frame s s.heap s.registry s.timers s.effects refl;
  emptied = λ q. inr (refl, λ f. cc f.1);
  stopped = λ t. inr (refl, λ r. cc r.filed.1);
  paid = λ o. (refl, omega arith);
}

Emptied_cons :
    (k p q : ℕ) (m : Entries) (s s' : State)
    → lookup k m ≡ none
    → (s'.heap q ≡ none) ⊎ ((s'.heap q ≡ update s.heap p none q) × ¬ IsFiled q m)
    → (s'.heap q ≡ none) ⊎ ((s'.heap q ≡ s.heap q) × ¬ IsFiled q ((k, p) ∷ m))
unfolding lookup
Emptied_cons k p q m s s' absent (inl gone) = inl gone
Emptied_cons k p q m s s' absent (inr (same, out)) = elim (Bool-cases (p == q)) [
  | inl here ↦ inl (ground (arith, same))
  | inr far ↦ inr (ground (arith, same), λ (j, e). out (j, ground (arith, e)))
]

module _ (k p : ℕ) (n : Network) (m : Entries) (heap : Heap) (at : heap p ≡ some n)
    (absent : lookup k m ≡ none) (apart : ¬ IsFiled p m) where
  -- A timer of the entries behind the first.
  IsTimer-later : (t : ℕ) → IsTimer (update heap p none) m t → IsTimer heap ((k, p) ∷ m) t
  IsTimer-later t r =
      let far : (p == r.place) ≡ false = elim (Bool-cases (p == r.place)) [
        | inl here ↦ absurd (apart (r.filed.0, ground (arith, here, r.filed.1)))
        | inr far ↦ far
      ] in
      record {
        place = r.place;
        filed = IsFiled-cons k p r.place m absent r.filed;
        network = r.network;
        live = ground (arith, far, r.live);
        set = r.set;
      }

  -- A timer of the entries is that of the first or of one behind it.
  IsTimer-cases :
      (t : ℕ)
      → IsTimer heap ((k, p) ∷ m) t
      → (n.idle_timer ≡ some t) ⊎ IsTimer (update heap p none) m t
  unfolding lookup
  IsTimer-cases t r = elim (Bool-cases (p == r.place)) [
    | inl here ↦
        let e : p ≡ r.place = ground arith in
        let same : n ≡ r.network = ground (arith, ap heap e, at, r.live) in
        inl (ap (λ n. n.idle_timer) same ∙ r.set)
    | inr far ↦ inr (record {
      place = r.place;
      filed = (r.filed.0, ground (arith, far, r.filed.1));
      network = r.network;
      live = ground (arith, far, r.live);
      set = r.set;
    })
  ]

  Stopped_cons :
      (t : ℕ) (i : Option ℕ) (timers timers' : Timers)
      → n.idle_timer ≡ i
      → ((lookup t timers' ≡ none) × IsTimer (update heap p none) m t)
        ⊎ ((lookup t timers' ≡ lookup t (without_timer i timers))
            × ¬ IsTimer (update heap p none) m t)
      → ((lookup t timers' ≡ none) × IsTimer heap ((k, p) ∷ m) t)
        ⊎ ((lookup t timers' ≡ lookup t timers) × ¬ IsTimer heap ((k, p) ∷ m) t)
  unfolding lookup
  Stopped_cons t i timers timers' e (inl (gone, r)) = inl (gone, IsTimer-later t r)
  Stopped_cons t none timers timers' e (inr (same, out)) =
      inr (same, λ r. elim (IsTimer-cases t r) [ inl set ↦ cc (set, e) | inr later ↦ out later ])
  Stopped_cons t (some u) timers timers' e (inr (same, out)) = elim (Bool-cases (u == t)) [
    | inl here ↦ inl (
      ground (arith, same, here, lookup-erase u t timers),
      record {
        place = p;
        filed = (k, ground arith);
        network = n;
        live = at;
        set = ground (arith, e, here);
      },
    )
    | inr far ↦ inr (
      ground (arith, same, far, lookup-erase u t timers),
      λ r. elim (IsTimer-cases t r) [
        | inl set ↦ ground (arith, far, set, e)
        | inr later ↦ out later
      ],
    )
  ]

-- What is released with a network is what it had: its objects, and the source of its timer.
given_back-freed :
    (i : Option ℕ) (p : Ptr) (n : Network) (timers : Timers) (log : List Effect) (o : Tracked)
    → ((u : ℕ) → i ≡ some u → Running timers u (remove_network p))
    → given_back o (log_timer i (log_serialization n.serialization (log_ref n.ref log)))
        + in_use (without_timer i timers) o
      ≡ given_back o log + in_use timers o + uses (some n) o
given_back-freed none p n timers log o clocked = omega (arith, given_back-no_timer n log o)
given_back-freed (some u) p n timers log o clocked =
    let r = clocked u refl in
    ground (arith, given_back-log u n log o, in_use-erase u r.entry timers o r.scheduled)

pub release_values-Emptied :
    (m : Entries) (s : State)
    → Alive s.heap s.timers m
    → Returns (λ _. Emptied m s) (release_values m s)
unfolding release_values lookup
release_values-Emptied [] s a = returns (Emptied-nil s)
release_values-Emptied ((k, p) ∷ m) s (n, at, absent, apart, clocked, rest) =
    rw (free_network_lem p n s at) (
      Returns.weaken
        (release_values-Emptied m _
          (Alive-freed s.heap s.timers m p n.idle_timer rest apart clocked))
        λ _ s' e. record {
          kept =
              Kept-trans (Kept-frame s _ _ _ _ (replies-log n.idle_timer n.serialization n.ref _))
                e.kept;
          emptied = λ q. Emptied_cons k p q m s s' absent (e.emptied q);
          stopped = λ t.
              Stopped_cons k p n m s.heap at absent apart t n.idle_timer s.timers s'.timers refl
                (e.stopped t);
          paid = λ o.
              let (same, back) = e.paid o in
              let off =
                held-off o s.heap (update s.heap p none) p m (λ q far. ground arith)
                  (Alive-Unique s.heap s.timers m rest) (λ j f. apart (j, f)) in
              (
                same ∙ obtained-log n.idle_timer n.serialization n.ref s.effects o,
                omega (
                  arith,
                  back,
                  off,
                  given_back-freed n.idle_timer p n s.timers s.effects o clocked,
                  ap (λ x. uses x o) at,
                ),
              );
        })

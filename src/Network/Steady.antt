-- ===== src/Network/Steady.antt =====
-- What the operations on the networks leave alone: the networks that are alive, the deadlines of the
-- timers that are set, and the balance of what is created and released.
use vmnet_broker.Base.{
  ℕ, ◌+◌, ◌*◌, ◌≡◌, ◌≢◌, ◌⊎◌, refl, ap, ◌∙◌, inl, inr, none, some, lookup, erase, insert,
  lookup-erase, lookup-insert, arith, Bool-cases, ◌==◌,
}
use vmnet_broker.Machine.{Ptr, Network, State, Timer, idle_timeout_sec, nsec_per_sec}
use vmnet_broker.Machine.Ledger.{Ledger, Even, in_use, held, stock, entries}
use vmnet_broker.Network.Invariant.{Heap, Timers}

-- A network lives on, with its name and its objects.
abbrev pub Survives : Network → Heap → Ptr → Type 0
Survives n heap p =
    (n' : Network) × (heap p ≡ some n')
    × (n'.name ≡ n.name)
    × (n'.ref ≡ n.ref)
    × (n'.serialization ≡ n.serialization)

abbrev pub Stable : Heap → Heap → Type 0
Stable heap heap' = (p : Ptr) (n : Network) → heap p ≡ some n → Survives n heap' p

-- A timer that is set was set before, or is set now for the idle timeout.
abbrev pub Timely : ℕ → Timers → Timers → Type 0
Timely now timers timers' =
    (t : ℕ) (d : Timer)
    → lookup t timers' ≡ some d
    → (lookup t timers ≡ some d) ⊎ (d.deadline ≡ now + idle_timeout_sec * nsec_per_sec)

pub record Steady (s s' : State) : Type 0 where
  pub stable : Stable s.heap s'.heap
  pub timely : Timely s.now s.timers s'.timers
  pub ledger : Ledger s.effects (stock s) s'.effects (stock s')

pub Stable-refl : (heap : Heap) → Stable heap heap
Stable-refl heap p n at = (n, at, refl, refl, refl)

-- One network changes, but for its name and its objects.
pub Stable-at :
    (heap heap' : Heap) (p : Ptr) (n n' : Network)
    → heap p ≡ some n
    → heap' p ≡ some n'
    → n'.name ≡ n.name
    → n'.ref ≡ n.ref
    → n'.serialization ≡ n.serialization
    → ((q : Ptr) → q ≢ p → heap' q ≡ heap q)
    → Stable heap heap'
Stable-at heap heap' p n n' at there name ref x off q m here = elim (Bool-cases (q == p)) [
  | inl same ↦
      let e : q ≡ p = ground arith in
      let e' : m ≡ n = ground (arith, at, here) in
      (n', ground (arith, there), ground (arith, e'), ground (arith, e'), ground (arith, e'))
  | inr far ↦ (m, off q (ground arith) ∙ here, refl, refl, refl)
]

-- A network appears at an address that was free.
pub Stable-new :
    (heap heap' : Heap) (p : Ptr)
    → heap p ≡ none
    → ((q : Ptr) → q ≢ p → heap' q ≡ heap q)
    → Stable heap heap'
Stable-new heap heap' p free off q m here =
    let far : q ≢ p = λ e. ground (arith, e, free, here) in (m, off q far ∙ here, refl, refl, refl)

pub Stable-trans : {h h' h'' : Heap} → Stable h h' → Stable h' h'' → Stable h h''
Stable-trans a b p n at =
    let (n', at', name, ref, x) = a p n at in
    let (n'', at'', name', ref', x') = b p n' at' in (n'', at'', name' ∙ name, ref' ∙ ref, x' ∙ x)

pub Timely-refl : (now : ℕ) (timers : Timers) → Timely now timers timers
Timely-refl now timers t d e = inl e

pub Timely-erase : (now u : ℕ) (timers : Timers) → Timely now timers (erase u timers)
Timely-erase now u timers t d e = inl (ground (arith, lookup-erase u t timers, e))

pub Timely-insert :
    (now u : ℕ) (new : Timer) (timers : Timers)
    → new.deadline ≡ now + idle_timeout_sec * nsec_per_sec
    → Timely now timers (insert u new timers)
Timely-insert now u new timers fresh t d e = elim (Bool-cases (u == t)) [
  | inl here ↦
      let e' : new ≡ d = ground (arith, e, lookup-insert u t new timers) in
      inr (ground (arith, e', fresh))
  | inr there ↦ inl (ground (arith, e, lookup-insert u t new timers))
]

pub Steady-same :
    (s s' : State)
    → s'.heap ≡ s.heap
    → s'.timers ≡ s.timers
    → entries s'.registry ≡ entries s.registry
    → Even s'.effects s.effects
    → Steady s s'
Steady-same s s' heap timers filed even = record {
  stable = λ p n at. (n, ground (arith, heap, at), refl, refl, refl);
  timely = λ t d e. inl (ground (arith, timers, e));
  ledger = λ o.
      let e = ap (λ h. held h (entries s'.registry) o) heap ∙ ap (λ m. held s.heap m o) filed in
      omega (arith, even o, ap (λ ts. in_use ts o) timers, e);
}

pub Steady-trans : {s t u : State} → t.now ≡ s.now → Steady s t → Steady t u → Steady s u
Steady-trans {s} {t} {u} same a b = record {
  stable = Stable-trans a.stable b.stable;
  timely = λ r d e. elim (b.timely r d e) [
    | inl before ↦ a.timely r d before
    | inr fresh ↦ inr (ground (arith, same, fresh))
  ];
  ledger = λ o. omega (arith, a.ledger o, b.ledger o);
}

-- ===== src/Machine/Alike.antt =====
-- States that differ at most in the order in which the dictionary keeps its entries. CoreFoundation
-- promises no order; `State` has one. What a command does to two such states is alike.
use vmnet_broker.Base.{
  ℕ, ◌+◌, ◌*◌, ◌≡◌, ◌⊎◌, refl, sym, ap, subst, ◌∙◌, inl, inr, Bool, true, false, Option, none, some,
  List, ◌∷◌, lookup, update, insert, erase, Unique, Option-cases, if◌then◌else◌,
}
use vmnet_broker.Status.{Status}
use vmnet_broker.Machine.{
  Result, value, err, Ptr, Network, Handler, Effect, idle_timeout_sec, nsec_per_sec, source,
  created, released, cancelled, State, Fault, Run, ok, crashed, exited, Cmd, and_then, emit, load,
  store, non_null, start_timer, cancel_timer,
}

abbrev pub Entries : Type 0
Entries = List (ℕ × Ptr)

-- No dictionary, or two that have the same values.
abbrev pub SameDictionary : Option Entries → Option Entries → Type 0
SameDictionary r r' =
    ((r ≡ none) × (r' ≡ none))
    ⊎ (m : Entries) × (m' : Entries) × (r ≡ some m)
      × (r' ≡ some m')
      × Unique m'
      × ((k : ℕ) → lookup k m' ≡ lookup k m)

pub record Alike (s s' : State) : Type 0 where
  pub registry : Option Entries
  pub same : SameDictionary s.registry registry
  pub rest : s' ≡ record s { registry = registry }

-- Two runs that end in the same way. A process that exits leaves the same networks.
pub data RunAlike {ℓ} {A : Type ℓ} : Run A → Run A → Type ℓ where
  ends : {a : A} {s s' : State} → Alike s s' → RunAlike (ok a s) (ok a s')
  faults : {f : Fault} → RunAlike (crashed f) (crashed f)
  quits : {n : ℕ} {s s' : State} → s'.heap ≡ s.heap → RunAlike (exited n s) (exited n s')

-- The command does the same to states that are alike.
abbrev pub Respects {ℓ} : {A : Type ℓ} → Cmd A → Type ℓ
Respects m = (s s' : State) → Alike s s' → RunAlike (m s) (m s')

pub bind {ℓ κ} :
    {A : Type ℓ} {B : Type κ} {r r' : Run A} {f g : A → Cmd B}
    → RunAlike r r'
    → ((a : A) (s s' : State) → Alike s s' → RunAlike (f a s) (g a s'))
    → RunAlike (and_then r f) (and_then r' g)
bind (ends a) next = next _ _ _ a
bind faults next = faults
bind (quits e) next = quits e

-- Branches.
pub option-Alike {ℓ κ} :
    {A : Type ℓ} {B : Type κ} {s s' : State} (o : Option A) (m n : Cmd B) (f g : A → Cmd B)
    → RunAlike (m s) (n s')
    → ((x : A) → RunAlike (f x s) (g x s'))
    → RunAlike
        ((elim o as (λ _. Cmd B) [ none ↦ m | some x ↦ f x ]) s)
        ((elim o as (λ _. Cmd B) [ none ↦ n | some x ↦ g x ]) s')
option-Alike none m n f g missing given = missing
option-Alike (some x) m n f g missing given = given x

pub result-Alike {ℓ κ} :
    {A : Type ℓ} {B : Type κ} {s s' : State} (r : Result A) (h i : Status → Cmd B) (f g : A → Cmd B)
    → ((e : Status) → RunAlike (h e s) (i e s'))
    → ((x : A) → RunAlike (f x s) (g x s'))
    → RunAlike
        ((elim r as (λ _. Cmd B) [ err e ↦ h e | value x ↦ f x ]) s)
        ((elim r as (λ _. Cmd B) [ err e ↦ i e | value x ↦ g x ]) s')
result-Alike (err e) h i f g bad good = bad e
result-Alike (value x) h i f g bad good = good x

pub if-Alike {ℓ} :
    {A : Type ℓ} {s s' : State} (b : Bool) (m n : Cmd A)
    → RunAlike (m s) (m s')
    → RunAlike (n s) (n s')
    → RunAlike ((if b then m else n) s) ((if b then m else n) s')
if-Alike true m n left right = left
if-Alike false m n left right = right

pub ends_equal {ℓ} :
    {A : Type ℓ} {a a' : A} {s s' : State} → a ≡ a' → Alike s s' → RunAlike (ok a s) (ok a' s')
ends_equal {s = s} {s'} e h = rw⁻¹ e (ends h)

pub Alike-change :
    (f : State → State) {s s' : State}
    → ((registry : Option Entries)
        → f (record s { registry = registry }) ≡ record (f s) { registry = registry })
    → (f s).registry ≡ s.registry
    → Alike s s'
    → Alike (f s) (f s')
Alike-change f {s} {s'} moves keeps a = record {
  registry = a.registry;
  same = subst (λ r. SameDictionary r a.registry) (sym keeps) a.same;
  rest = ap f a.rest ∙ moves a.registry;
}

module _ {s s' : State} (a : Alike s s') where
  pub emit-Alike : (e : Effect) → RunAlike (emit e s) (emit e s')
  emit-Alike e = ends (Alike-change (λ s. record s { effects = e ∷ s.effects }) (λ r. refl) refl a)

  pub heap-Alike : s'.heap ≡ s.heap
  heap-Alike = ap (λ t. t.heap) a.rest

  pub idle_timer-Alike : s'.idle_timer ≡ s.idle_timer
  idle_timer-Alike = ap (λ t. t.idle_timer) a.rest

  pub connected_peers-Alike : s'.connected_peers ≡ s.connected_peers
  connected_peers-Alike = ap (λ t. t.connected_peers) a.rest

  pub timers-Alike : s'.timers ≡ s.timers
  timers-Alike = ap (λ t. t.timers) a.rest

  pub load-Alike : (p : Ptr) → RunAlike (load p s) (load p s')
  load-Alike p = elim (Option-cases (s.heap p)) [
    | inl e ↦ rw (load, e, ap (λ h. h p) heap-Alike ∙ e) faults
    | inr (n, e) ↦ rw (load, e, ap (λ h. h p) heap-Alike ∙ e) (ends a)
  ]

  pub store-Alike : (p : Ptr) (n : Option Network) → RunAlike (store p n s) (store p n s')
  store-Alike p n =
      ends (Alike-change (λ s. record s { heap = update s.heap p n }) (λ r. refl) refl a)

  pub start_timer-Alike : (t : ℕ) (h : Handler) → RunAlike (start_timer t h s) (start_timer t h s')
  start_timer-Alike t h = ends (
      Alike-change
        (λ s. record s {
          timers =
              insert t
                (record {
                  deadline = s.now + idle_timeout_sec * nsec_per_sec;
                  leeway = 1 * nsec_per_sec;
                  handler = h;
                })
                s.timers;
          effects = created (source t) ∷ s.effects;
        })
        (λ r. refl) refl a)

  pub cancel_timer-Alike : (t : ℕ) → RunAlike (cancel_timer t s) (cancel_timer t s')
  cancel_timer-Alike t = ends (
      Alike-change
        (λ s. record s {
          timers = erase t s.timers;
          effects = released (source t) ∷ cancelled t ∷ s.effects;
        })
        (λ r. refl) refl a)

  pub non_null-Alike {ℓ} : {A : Type ℓ} (o : Option A) → RunAlike (non_null o s) (non_null o s')
  non_null-Alike none = faults
  non_null-Alike (some x) = ends a

pub ruleset alike_rules = (
  bind, ends, faults, emit-Alike, load-Alike, store-Alike, start_timer-Alike, cancel_timer-Alike,
  non_null-Alike, option-Alike, if-Alike,
)

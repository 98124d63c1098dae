-- ===== src/Machine/Ledger.antt =====
-- What was created and what was released, object by object, and what is in use: the sources of the
-- timers that are set, and the references and serializations of the networks.
pub mod Stock
use vmnet_broker.Base.{
  ℕ, ◌+◌, ◌≡◌, ◌==◌, Bool, true, refl, false, Option, none, some, List, [], ◌∷◌, lookup, erase,
  insert, lookup-erase, lookup-insert, if◌then◌else◌, arith,
}
use vmnet_broker.Machine.{
  Effect, created, retained, released, cancelled, replies, Object, cf_string, configuration,
  network_ref, serialization, source, reply, Timer, Ptr, Network, State,
}

pub data Tracked : Type 0 where
  key config answer source_of ref_of handle_of : ℕ → Tracked

abbrev pub is_of : Object → Tracked → Bool
is_of (cf_string k) (key j) = k == j
is_of (configuration c) (config d) = c == d
is_of (reply c) (answer d) = c == d
is_of (source t) (source_of u) = t == u
is_of (network_ref r) (ref_of q) = r == q
is_of (serialization x) (handle_of y) = x == y
is_of x o = false

-- How often an object was created or retained, and how often it was released.
abbrev pub obtained : Tracked → List Effect → ℕ
obtained o [] = 0
obtained o (created x ∷ log) = if is_of x o then obtained o log + 1 else obtained o log
obtained o (retained x ∷ log) = if is_of x o then obtained o log + 1 else obtained o log
obtained o (e ∷ log) = obtained o log

abbrev pub given_back : Tracked → List Effect → ℕ
given_back o [] = 0
given_back o (released x ∷ log) = if is_of x o then given_back o log + 1 else given_back o log
given_back o (e ∷ log) = given_back o log

abbrev pub Timers : Type 0
Timers = List (ℕ × Timer)

-- The sources of timers that are set are in use.
abbrev pub in_use : Timers → Tracked → ℕ
in_use timers (source_of t) = elim (lookup t timers) [ none ↦ 0 | some d ↦ 1 ]
in_use timers o = 0

abbrev one_of : (ℕ → Object) → Option ℕ → Tracked → ℕ
one_of object none o = 0
one_of object (some x) o = if is_of (object x) o then 1 else 0

-- The objects of a network.
abbrev pub uses : Option Network → Tracked → ℕ
uses none o = 0
uses (some n) o = one_of network_ref n.ref o + one_of serialization n.serialization o

-- The objects of the networks of the registry.
abbrev pub held : (Ptr → Option Network) → List (ℕ × Ptr) → Tracked → ℕ
held heap [] o = 0
held heap ((k, p) ∷ m) o = held heap m o + uses (heap p) o

abbrev pub entries : Option (List (ℕ × Ptr)) → List (ℕ × Ptr)
entries none = []
entries (some m) = m

-- The objects that networks have.
abbrev pub of_network : Tracked → Bool
of_network (ref_of r) = true
of_network (handle_of x) = true
of_network o = false

-- What a state has in use.
abbrev pub stock : State → Tracked → ℕ
stock s o = in_use s.timers o + held s.heap (entries s.registry) o

-- Between two logs, as much was released as was obtained, but for what came into use.
abbrev pub Ledger : List Effect → (Tracked → ℕ) → List Effect → (Tracked → ℕ) → Type 0
Ledger log used log' used' =
    (o : Tracked)
    → obtained o log' + given_back o log + used o ≡ obtained o log + given_back o log' + used' o

-- The later log comes first.
abbrev pub Even : List Effect → List Effect → Type 0
Even log' log =
    (o : Tracked) → obtained o log' + given_back o log ≡ obtained o log + given_back o log'

-- No reply, and nothing left to release.
abbrev pub Quiet : List Effect → List Effect → Type 0
Quiet log' log = (replies log' ≡ replies log) × Even log' log

pub in_use-insert :
    (u : ℕ) (d : Timer) (timers : Timers) (o : Tracked)
    → lookup u timers ≡ none
    → in_use (insert u d timers) o
      ≡ (if is_of (source u) o then in_use timers o + 1 else in_use timers o)
in_use-insert u d timers (source_of t) free = ground (arith, lookup-insert u t d timers, free)
in_use-insert u d timers (key k) free = ground arith
in_use-insert u d timers (config k) free = ground arith
in_use-insert u d timers (answer k) free = ground arith
in_use-insert u d timers (ref_of k) free = ground arith
in_use-insert u d timers (handle_of k) free = ground arith

pub in_use-erase :
    (u : ℕ) (d : Timer) (timers : Timers) (o : Tracked)
    → lookup u timers ≡ some d
    → in_use timers o
      ≡ (if is_of (source u) o then in_use (erase u timers) o + 1 else in_use (erase u timers) o)
in_use-erase u d timers (source_of t) set = ground (arith, lookup-erase u t timers, set)
in_use-erase u d timers (key k) set = ground arith
in_use-erase u d timers (config k) set = ground arith
in_use-erase u d timers (answer k) set = ground arith
in_use-erase u d timers (ref_of k) set = ground arith
in_use-erase u d timers (handle_of k) set = ground arith

-- A timer is set on a new source.
pub Ledger-insert :
    (u : ℕ) (d : Timer) (timers : Timers) (log log' : List Effect)
    → lookup u timers ≡ none
    → Even log' log
    → Ledger log (in_use timers) (created (source u) ∷ log') (in_use (insert u d timers))
Ledger-insert u d timers log log' free even o =
    ground (arith, even o, in_use-insert u d timers o free)

-- A timer that is set is cancelled.
pub Ledger-erase :
    (u : ℕ) (d : Timer) (timers : Timers) (log log' : List Effect)
    → lookup u timers ≡ some d
    → Even log' log
    → Ledger log
        (in_use timers)
        (released (source u) ∷ cancelled u ∷ log')
        (in_use (erase u timers))
Ledger-erase u d timers log log' set even o = ground (arith, even o, in_use-erase u d timers o set)

-- The networks' objects besides the timers.
pub Ledger-held :
    (log log' : List Effect) (timers timers' : Timers) (more more' : Tracked → ℕ)
    → Ledger log (in_use timers) log' (in_use timers')
    → ((o : Tracked) → more' o ≡ more o)
    → Ledger log (λ o. in_use timers o + more o) log' (λ o. in_use timers' o + more' o)
Ledger-held log log' timers timers' more more' a same o = omega (arith, a o, same o)

pub source-of_network : (t : ℕ) (o : Tracked) → of_network o ≡ true → is_of (source t) o ≡ false
source-of_network t (ref_of r) h = refl
source-of_network t (handle_of x) h = refl
source-of_network t (source_of u) h = cc
source-of_network t (key k) h = cc
source-of_network t (config c) h = cc
source-of_network t (answer c) h = cc

pub in_use-of_network : (timers : Timers) (o : Tracked) → of_network o ≡ true → in_use timers o ≡ 0
in_use-of_network timers (ref_of r) h = refl
in_use-of_network timers (handle_of x) h = refl
in_use-of_network timers (source_of u) h = cc
in_use-of_network timers (key k) h = cc
in_use-of_network timers (config c) h = cc
in_use-of_network timers (answer c) h = cc

-- The objects of all networks are released.
abbrev pub IsPaid : State → State → Type 0
IsPaid s s' =
    (o : Tracked)
    → of_network o ≡ true
    → (obtained o s'.effects ≡ obtained o s.effects)
      × (given_back o s'.effects ≡ given_back o s.effects + held s.heap (entries s.registry) o)

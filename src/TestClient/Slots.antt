-- ===== src/TestClient/Slots.antt =====
-- The array of the interfaces in test/test.c, and the session between the turns of main's loop.
use vmnet_broker.Base.{
  ℕ, zero, suc, ◌≤◌, ◌<◌, ◌≡◌, refl, ◌∙◌, true, some, List, [], ◌∷◌, length, set, get_elem?, arith,
}
use vmnet_broker.TestClient.{max_interfaces, Interface, Session, Calls}
use vmnet_broker.TestClient.Trace.{Started, AllCame, serializations, starts, prepared}

abbrev pub slot : Started → Interface
slot v = record { network_name = some v.name; iface = v.iface }

-- Each turn's interface stands in the slot of its index.
abbrev pub Slots : List Started → List Interface → Type 0
Slots [] interfaces = Unit
Slots (v ∷ vs) interfaces = (get_elem? interfaces (length vs) ≡ some (slot v)) × Slots vs interfaces

pub get_elem?-set :
    (xs : List Interface) (n : ℕ) (x : Interface)
    → n < length xs
    → get_elem? (set xs n x) n ≡ some x
get_elem?-set [] n x h = elim h [ ]
get_elem?-set (y ∷ xs) zero x h = refl
get_elem?-set (y ∷ xs) (suc n) x h = get_elem?-set xs n x (omega arith)

get_elem?-set_of_lt :
    (xs : List Interface) (i n : ℕ) (x : Interface)
    → i < n
    → get_elem? (set xs n x) i ≡ get_elem? xs i
get_elem?-set_of_lt [] i n x h = refl
get_elem?-set_of_lt (y ∷ xs) i zero x h = elim h [ ]
get_elem?-set_of_lt (y ∷ xs) zero (suc n) x h = refl
get_elem?-set_of_lt (y ∷ xs) (suc i) (suc n) x h = get_elem?-set_of_lt xs i n x (omega arith)

pub Slots-set :
    (vs : List Started) (interfaces : List Interface) (n : ℕ) (x : Interface)
    → length vs ≤ n
    → Slots vs interfaces
    → Slots vs (set interfaces n x)
Slots-set [] interfaces n x h at = tt
Slots-set (v ∷ vs) interfaces n x h (here, at) = (
  get_elem?-set_of_lt interfaces (length vs) n x (omega arith) ∙ here,
  Slots-set vs interfaces n x (omega arith) at,
)

-- The session after these turns.
pub record Standing (calls : Calls) (vs : List Started) (s : Session) : Type 0 where
  pub came : AllCame calls.start vs
  pub count : s.interface_count ≡ length vs
  pub size : length s.interfaces ≡ max_interfaces
  pub slots : Slots vs s.interfaces
  pub retained : s.client.retained ≡ serializations vs
  pub queue : s.vmnet_queue ≡ true
  pub log : s.log ≡ starts vs (prepared calls)

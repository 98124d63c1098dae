-- ===== src/Tests/Scenario/Two.antt =====
-- Two peers, each with a network of its own: the dictionary has two entries.
use vmnet_broker.Base.{◌∙◌, ℕ, ◌≡◌, refl, ap, sym, inr, List, [], ◌∷◌, some, CString, lookup, arith}
use vmnet_broker.Machine.{State, ok}
use vmnet_broker.Machine.Alike.{Alike}
use vmnet_broker.Config.{host_name}
use vmnet_broker.Broker.{Env}
use vmnet_broker.Broker.Requests.{IsServable}
use vmnet_broker.Client.{message, deliver}
use vmnet_broker.Clients.{asks, call}
use vmnet_broker.System.{Peers, step}
use vmnet_broker.System.Invariant.{requests}
use vmnet_broker.System.Safety.{Reach, next}
use vmnet_broker.System.Later.{Later, now, later}
use vmnet_broker.Tests.Scenario.{cf, env, out, create_string, run, result}
use vmnet_broker.Tests.Scenario.Pair.{context_of, env_out_of_order, served, served-Reach}

abbrev env_two : Env
env_two = record env { outcomes = record out { calloc = some 200; copy_serialization = some 71 } }

host_encodable :
    (name : CString) → some host_name ≡ some name → (k : ℕ) × (create_string name ≡ some k)
host_encodable name e =
    let same : name ≡ host_name = ground (arith, e) in (1, ap create_string same)

host-IsServable : IsServable cf env_two.outcomes (deliver (message host_name)) served.1
unfolding run call
host-IsServable = record {
  encodable = λ name asked. host_encodable name asked.1;
  fresh = λ p e. let here : 200 ≡ p = ground (arith, e) in ap served.1.heap (sym here);
  registered = λ e. refl;
}

abbrev pub two : Peers × State
two = result (step cf env_two (asks 6 host_name) served.0 served.1)

two_run : step cf env_two (asks 6 host_name) served.0 served.1 ≡ ok two.0 two.1
unfolding run call
two_run = refl

served-second : lookup 6 served.0 ≡ some (context_of 6 served)
unfolding run call
served-second = refl

pub two-Reach : Reach cf two.0 two.1
two-Reach =
    next env_two (asks 6 host_name) served-Reach
      (requests (context_of 6 served) served-second host-IsServable) two_run

-- The dictionary as it is, and the other way round.
abbrev in_order : List (ℕ × ℕ)
in_order = (1, 200) ∷ (0, 100) ∷ []

abbrev swapped : List (ℕ × ℕ)
swapped = (0, 100) ∷ (1, 200) ∷ []

two-registry : two.1.registry ≡ some in_order
unfolding run call
two-registry = refl

abbrev pub two_swapped : State
two_swapped = record (two.1) { registry = some swapped }

pub two-Alike : Alike two.1 two_swapped
unfolding lookup
two-Alike = record {
  registry = some swapped;
  same = inr (in_order, swapped, two-registry, refl, (refl, (refl, tt)), λ k. ground arith);
  rest = refl;
}

-- Then the first peer asks for the second's network, and gets it.
abbrev pub shared : Peers × State
shared = result (step cf env_out_of_order (asks 5 host_name) two.0 two.1)

shared_run : step cf env_out_of_order (asks 5 host_name) two.0 two.1 ≡ ok shared.0 shared.1
unfolding run call
shared_run = refl

two-first : lookup 5 two.0 ≡ some (context_of 5 two)
unfolding run call
two-first = refl

shared-IsServable : IsServable cf env_out_of_order.outcomes (deliver (message host_name)) two.1
shared-IsServable = record {
  encodable = λ name asked. host_encodable name asked.1;
  fresh = λ p e. cc e;
  registered = λ e. cc (sym two-registry ∙ e);
}

pub shared-Later : Later cf two.0 two.1 shared.0 shared.1
shared-Later =
    later env_out_of_order (asks 5 host_name) now
      (requests (context_of 5 two) two-first shared-IsServable) shared_run

-- ===== src/Network/Faults.antt =====
-- A name that makes no CFString.
use vmnet_broker.Base.{◌≡◌, arith, Option-cases, inl, inr, none, CString}
use vmnet_broker.Machine.{Context, State, crashed, null_argument, CoreFoundation, Outcomes}
use vmnet_broker.Network.{acquire_network}
use vmnet_broker.Network.Registry.{init_registry, registry_get}

pub acquire_network-crash :
    (cf : CoreFoundation) (out : Outcomes) (ctx : Context) (name : CString) (s : State)
    → cf.create_string name ≡ none
    → acquire_network cf out ctx name s ≡ crashed null_argument
unfolding acquire_network init_registry registry_get
acquire_network-crash cf out ctx name s missing = elim (Option-cases s.registry) [
  | inl e ↦ ground (arith, missing, e)
  | inr (m, e) ↦ ground (arith, missing, e)
]

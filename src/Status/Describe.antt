-- ===== src/Status/Describe.antt =====
-- What the descriptions of a status tell apart.
use Prim.Native.String.{String}
use text.Mathlib.Text.{◌==◌ as str_eq}
use vmnet_broker.Base.{
  ◌≡◌, ◌≢◌, ◌↔◌, refl, ap, sym, ◌∙◌, pos, arith, List, ◌∷◌, [], Option, some, none, if◌then◌else◌,
}
use vmnet_broker.Status.{
  Status, code, success, xpc_failure, invalid_reply, not_allowed, invalid_request, not_found,
  create_failure, internal_error, unknown_status, vmnet_broker_strerror,
}

abbrev statuses : List Status
statuses =
    success ∷ xpc_failure ∷ invalid_reply ∷ not_allowed ∷ invalid_request ∷ not_found
    ∷ create_failure ∷ internal_error ∷ []

abbrev find_described : String → List Status → Option Status
find_described text [] = none
find_described text (e ∷ es) =
    if str_eq text (vmnet_broker_strerror (pos (code e))) then some e else find_described text es

found : (a : Status) → find_described (vmnet_broker_strerror (pos (code a))) statuses ≡ some a
unfolding vmnet_broker_strerror
found success = refl
found xpc_failure = refl
found invalid_reply = refl
found not_allowed = refl
found invalid_request = refl
found not_found = refl
found create_failure = refl
found internal_error = refl

unknown_not_found : find_described unknown_status statuses ≡ none
unfolding vmnet_broker_strerror
unknown_not_found = refl

-- Two statuses of the library never have the same description, and none has that of an unknown
-- one.
pub vmnet_broker_strerror-injective :
    (a b : Status)
    → (vmnet_broker_strerror (pos (code a)) ≢ unknown_status)
      × ((vmnet_broker_strerror (pos (code a)) ≡ vmnet_broker_strerror (pos (code b))) ↔ (a ≡ b))
vmnet_broker_strerror-injective a b = (
  λ e. cc (sym (found a) ∙ ap (λ t. find_described t statuses) e ∙ unknown_not_found),
  (
    λ e. ground (arith, sym (found a) ∙ ap (λ t. find_described t statuses) e ∙ found b),
    λ e. ap (λ x. vmnet_broker_strerror (pos (code x))) e,
  ),
)

-- ===== src/Broker/Faults.antt =====
-- The request that ends the broker.
use vmnet_broker.Base.{◌≡◌, ◌∙◌, ap, CString, none, bytes_eq_refl}
use vmnet_broker.Machine.{
  Context, State, crashed, null_argument, and_then, CoreFoundation, Outcomes,
}
use vmnet_broker.Network.Faults.{acquire_network-crash}
use vmnet_broker.Xpc.{Request}
use vmnet_broker.Broker.{on_peer_request, serve, answer, command_acquire}
use vmnet_broker.Broker.Requests.{IsAcquire, serve_name}

-- In any state, a request to acquire a network whose name makes no CFString crashes the broker:
-- the name is used as a key before it is looked for in the configuration.
pub on_peer_request-crash :
    (cf : CoreFoundation) (out : Outcomes) (ctx : Context) (event : Request) (name : CString)
    (s : State)
    → IsAcquire event name
    → cf.create_string name ≡ none
    → on_peer_request cf out ctx event s ≡ crashed null_argument
unfolding serve
on_peer_request-crash cf out ctx event name s (command, given) missing =
    serve_name cf out ctx event s command_acquire command (bytes_eq_refl command_acquire) name given
    ∙ ap (λ r. and_then r (answer event)) (acquire_network-crash cf out ctx name s missing)

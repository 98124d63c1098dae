-- ===== src/Broker/Requests/Runs.antt =====
-- The ways through on_peer_request.
use vmnet_broker.Base.{
  ◌≡◌, ◌≢◌, sym, ap, ◌∙◌, true, false, none, some, CString, arith, bytes_eq, bytes_eq_refl,
}
use vmnet_broker.Machine.{Context, State, CoreFoundation, Outcomes}
use vmnet_broker.Xpc.{Request}
use vmnet_broker.Broker.{command_acquire, serve, on_peer_request, reject}

pub other_command :
    (command : CString) → bytes_eq command command_acquire ≡ false → command ≢ command_acquire
other_command command other e =
    cc (sym other ∙ ap (λ c. bytes_eq c command_acquire) e ∙ bytes_eq_refl command_acquire)

-- The four ways through on_peer_request.
module _ (cf : CoreFoundation) (out : Outcomes) (ctx : Context) (event : Request) (s : State) where
  pub reject_command :
      event.command ≡ none → on_peer_request cf out ctx event s ≡ reject ctx event s
  unfolding on_peer_request
  reject_command e = ground (arith, e)

  module _ (command : CString) (has : event.command ≡ some command) where
    pub reject_other :
        bytes_eq command command_acquire ≡ false
        → on_peer_request cf out ctx event s ≡ reject ctx event s
    unfolding on_peer_request
    reject_other e = ground (arith, has, e)

    pub reject_name :
        event.network_name ≡ none → on_peer_request cf out ctx event s ≡ reject ctx event s
    unfolding on_peer_request
    reject_name e = ground (arith, has, e)

    pub serve_name :
        bytes_eq command command_acquire ≡ true
        → (name : CString) → event.network_name ≡ some name
        → on_peer_request cf out ctx event s ≡ serve cf out ctx event name s
    unfolding on_peer_request
    serve_name same name e = ground (arith, has, e, same)

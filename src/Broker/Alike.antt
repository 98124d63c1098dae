-- ===== src/Broker/Alike.antt =====
-- broker/broker.c's handlers of the peers on states that differ in the order of the dictionary.
use vmnet_broker.Base.{
  ℕ, ◌∙◌, inl, inr, Option-cases, arith, ◌≡◌, refl, ap, Bool, true, false, Option, none, some, ℤ,
  CString, is, incr, decr, bytes_eq,
}
use vmnet_broker.Machine.{
  ◌>>◌, ok, crashed, failed_assertion, start_timer, cancel_timer, Ptr, Context, State, Cmd, Reply,
  Result, value, err, CoreFoundation, Outcomes, shutdown, remove_network,
}
use vmnet_broker.Machine.Alike.{
  Alike, Alike-change, Respects, RunAlike, ends, faults, bind, option-Alike, if-Alike, alike_rules,
  idle_timer-Alike, connected_peers-Alike,
}
use vmnet_broker.Network.Registry.Alike.{registry_remove-Alike}
use vmnet_broker.Network.Alike.{acquire_network-Alike, release_peer_networks-Alike}
use vmnet_broker.Xpc.{Request, send, send_xpc_error, send_xpc_network}
use vmnet_broker.Broker.{
  Env, reject, answer, serve, on_peer_request, command_acquire, set_idle_timer, shutdown_later,
  count_peers, count_transactions, cancel_shutdown, when, on_peer_connect, end_if_last,
  on_peer_disconnect, on_timer,
}

send-Alike : (ctx : Context) (event : Request) (r : Reply) → Respects (send ctx event r)
unfolding send
send-Alike ctx event r s s' a = search alike_rules depth 12

send_xpc_error-Alike :
    (ctx : Context) (event : Request) (e : ℕ) → Respects (send_xpc_error ctx event e)
unfolding send_xpc_error
send_xpc_error-Alike ctx event e = send-Alike ctx event _

send_xpc_network-Alike :
    (ctx : Context) (event : Request) (x : ℕ) → Respects (send_xpc_network ctx event x)
unfolding send_xpc_network
send_xpc_network-Alike ctx event x = send-Alike ctx event _

ruleset reply_rules = (alike_rules, send_xpc_error-Alike, send_xpc_network-Alike)

reject-Alike : (ctx : Context) (event : Request) → Respects (reject ctx event)
unfolding reject
reject-Alike ctx event s s' a = search reply_rules depth 9

answer-Alike : (event : Request) (r : Context × Result ℕ) → Respects (answer event r)
unfolding answer
answer-Alike event (ctx, err e) s s' a = search reply_rules depth 9
answer-Alike event (ctx, value x) s s' a = search reply_rules depth 9

serve-Alike :
    (cf : CoreFoundation) (out : Outcomes) (ctx : Context) (event : Request) (name : CString)
    → Respects (serve cf out ctx event name)
unfolding serve
serve-Alike cf out ctx event name s s' a =
    search (bind, acquire_network-Alike, answer-Alike) depth 9

pub on_peer_request-Alike :
    (cf : CoreFoundation) (out : Outcomes) (ctx : Context) (event : Request)
    → Respects (on_peer_request cf out ctx event)
unfolding on_peer_request
on_peer_request-Alike cf out ctx event s s' a =
    option-Alike event.command _ _ _ _ (reject-Alike ctx event s s' a) λ command.
      if-Alike (bytes_eq command command_acquire) _ _
        (option-Alike event.network_name _ _ _ _ (reject-Alike ctx event s s' a)
          λ name. serve-Alike cf out ctx event name s s' a)
        (reject-Alike ctx event s s' a)

set_idle_timer-Alike : (t : Option ℕ) → Respects (set_idle_timer t)
set_idle_timer-Alike t s s' a =
    ends (Alike-change (λ s. record s { idle_timer = t }) (λ r. refl) refl a)

count_peers-Alike : (f : ℤ → ℤ) → Respects (count_peers f)
count_peers-Alike f s s' a =
    ends (Alike-change (λ s. record s { connected_peers = f s.connected_peers }) (λ r. refl) refl a)

count_transactions-Alike : (f : ℤ → ℤ) → Respects (count_transactions f)
count_transactions-Alike f s s' a =
    ends (Alike-change (λ s. record s { transactions = f s.transactions }) (λ r. refl) refl a)

ruleset life_rules =
    (alike_rules, set_idle_timer-Alike, count_peers-Alike, count_transactions-Alike)

when-Alike :
    {s s' : State} (b b' : Bool) (m : Cmd (Unit {0}))
    → b' ≡ b
    → RunAlike (m s) (m s')
    → Alike s s'
    → RunAlike (when b m s) (when b' m s')
when-Alike true true m e r a = r
when-Alike false false m e r a = ends a
when-Alike true false m e r a = cc e
when-Alike false true m e r a = cc e

module _ (s : State) where
  cancel_none : s.idle_timer ≡ none → cancel_shutdown s ≡ ok tt s
  unfolding cancel_shutdown
  cancel_none e = ground (arith, e)

  cancel_some :
      (t : ℕ)
      → s.idle_timer ≡ some t
      → cancel_shutdown s ≡ (do cancel_timer t; set_idle_timer none) s
  unfolding cancel_shutdown
  cancel_some t e = ground (arith, e)

  later_some :
      (source : Option ℕ) (t : ℕ)
      → s.idle_timer ≡ some t
      → shutdown_later source s ≡ crashed failed_assertion
  unfolding shutdown_later
  later_some source t e = ground (arith, e)

  later_none : s.idle_timer ≡ none → shutdown_later none s ≡ crashed failed_assertion
  unfolding shutdown_later
  later_none e = ground (arith, e)

  later_set :
      (t : ℕ)
      → s.idle_timer ≡ none
      → shutdown_later (some t) s ≡ (do set_idle_timer (some t); start_timer t shutdown) s
  unfolding shutdown_later
  later_set t e = ground (arith, e)

cancel_shutdown-Alike : Respects cancel_shutdown
cancel_shutdown-Alike s s' a = elim (Option-cases s.idle_timer) [
  | inl e ↦ rw (cancel_none s e, cancel_none s' (idle_timer-Alike a ∙ e)) (ends a)
  | inr (t, e) ↦
      rw (cancel_some s t e, cancel_some s' t (idle_timer-Alike a ∙ e)) (search life_rules depth 9)
]

shutdown_later-Alike : (source : Option ℕ) → Respects (shutdown_later source)
shutdown_later-Alike source s s' a = elim (Option-cases s.idle_timer) [
  | inr (t, e) ↦
      rw (later_some s source t e, later_some s' source t (idle_timer-Alike a ∙ e)) faults
  | inl e ↦ fresh source e
]
  where
    fresh :
        (source : Option ℕ)
        → s.idle_timer ≡ none
        → RunAlike (shutdown_later source s) (shutdown_later source s')
    fresh none e = rw (later_none s e, later_none s' (idle_timer-Alike a ∙ e)) faults
    fresh (some t) e =
        rw (later_set s t e, later_set s' t (idle_timer-Alike a ∙ e)) (search life_rules depth 9)

pub on_peer_connect-Alike : Respects on_peer_connect
unfolding on_peer_connect
on_peer_connect-Alike s s' a = bind (count_peers-Alike incr s s' a) λ _ t t' b.
    when-Alike (is t.connected_peers 1) (is t'.connected_peers 1)
      (do count_transactions incr; cancel_shutdown) (ap (λ z. is z 1) (connected_peers-Alike b))
      (search (life_rules, cancel_shutdown-Alike) depth 9) b

end_if_last-Alike : (source : Option ℕ) → Respects (end_if_last source)
unfolding end_if_last
end_if_last-Alike source s s' a =
    when-Alike (is s.connected_peers 0) (is s'.connected_peers 0)
      (do count_transactions decr; shutdown_later source)
      (ap (λ z. is z 0) (connected_peers-Alike a))
      (search (life_rules, shutdown_later-Alike) depth 9) a

pub on_peer_disconnect-Alike : (env : Env) (ctx : Context) → Respects (on_peer_disconnect env ctx)
unfolding on_peer_disconnect
on_peer_disconnect-Alike env ctx s s' a =
    search (life_rules, release_peer_networks-Alike, end_if_last-Alike) depth 12

pub on_removal-Alike : (cf : CoreFoundation) (p : Ptr) → Respects (on_timer cf (remove_network p))
unfolding on_timer
on_removal-Alike cf p s s' a = search (alike_rules, registry_remove-Alike) depth 12

-- ===== src/Clients/Calls.antt =====
-- What one call of the library comes to, with the broker in any state that it comes to.
use vmnet_broker.Base.{
  ℕ, ◌≡◌, refl, sym, ap, subst, ◌∙◌, Option, some, List, ◌∷◌, ℤ, CString, lookup, erase, insert,
  arith,
}
use vmnet_broker.Machine.{Reply, replies, Context, State, ok, and_then, CoreFoundation}
use vmnet_broker.Machine.Returns
use vmnet_broker.Machine.Returns.{Returns, returns}
use vmnet_broker.Network.Contract.{Consistent, Settled}
use vmnet_broker.Broker.{Env, on_peer_request}
use vmnet_broker.Broker.Requests.{IsServable}
use vmnet_broker.Client.{
  Client, retain, read_reply, reply_object, message, deliver, vmnet_broker_acquire_network,
}
use vmnet_broker.Client.Outcome.{
  Received, acquire_end_to_end, vmnet_broker_acquire_network-IsResult,
}
use vmnet_broker.System.{Peers, step}
use vmnet_broker.System.Peers.{total, total-owners}
use vmnet_broker.System.Invariant.{requests}
use vmnet_broker.System.Invariant.Steps.{on_request}
use vmnet_broker.System.Safety.{Reach, next, Reach-SystemInv}
use vmnet_broker.Clients.{new_reply, asks, returned, call}

new_reply-sent :
    (c : ℕ) (r : Reply) (before after : List (ℕ × Reply))
    → after ≡ (c, r) ∷ before
    → new_reply c before after ≡ some r
new_reply-sent c r before after e = rw e (ground arith)

-- A call that returns, with what the broker did meanwhile.
pub record Done (cf : CoreFoundation) (env : Env) (c mach_service : ℕ) (name : CString)
    (client : Client) (peers : Peers) (s : State) (ctx : Context) (P : Context → State → Type 0)
    : Type 0 where
  pub reply : Reply
  pub context : Context
  pub state : State
  pub ran : step cf env (asks c name) peers s ≡ ok (insert c context peers) state
  pub replied : replies state.effects ≡ (c, reply) ∷ replies s.effects
  pub came :
      call cf env c mach_service name client peers s
      ≡ ok (returned mach_service name client (some reply), insert c context peers) state
  pub received : Received name ctx context state (read_reply (reply_object reply))
  pub also : P context state

pub acquire-read :
    (mach_service : ℕ) (r : Reply) (name : CString) (client : Client)
    → (vmnet_broker_acquire_network mach_service (λ _ _. reply_object r) name client).0
      ≡ read_reply (reply_object r)
unfolding vmnet_broker_acquire_network
acquire-read mach_service r name client = refl

module _ {cf : CoreFoundation} {peers : Peers} {s : State} (reach : Reach cf peers s) (env : Env)
    (c mach_service : ℕ) (name : CString) (client : Client) (ctx : Context)
    (found : lookup c peers ≡ some ctx)
    (can : IsServable cf env.outcomes (deliver (message name)) s) where
  answered :
      Returns
        (λ ctx' s'.
          (r : Reply) × (replies s'.effects ≡ (c, r) ∷ replies s.effects)
          × Received name ctx ctx' s' (read_reply (reply_object r)))
        (on_peer_request cf env.outcomes ctx (deliver (message name)) s)
  answered =
      let inv = Reach-SystemInv reach in
      let (v, same) = inv.contexts c ctx found in
      let e = total-owners c ctx peers inv.unique found in
      Returns.weaken
        (acquire_end_to_end cf (total (erase c peers)) env.outcomes name ctx s v
          (subst (λ own. Consistent cf own s) e inv.consistent)
          (subst (Settled s.heap) e inv.settled) can)
        λ ctx' s' (r, replied, received).
          (r, replied ∙ ap (λ d. (d, r) ∷ replies s.effects) same, received)

  Done-of_Returns :
      {P : Context → State → Type 0}
      → Returns
          (λ ctx' s'.
            ((r : Reply) × (replies s'.effects ≡ (c, r) ∷ replies s.effects)
              × Received name ctx ctx' s' (read_reply (reply_object r)))
            × P ctx' s')
          (on_peer_request cf env.outcomes ctx (deliver (message name)) s)
      → Done cf env c mach_service name client peers s ctx P
  unfolding call step
  Done-of_Returns r =
      let (ctx', s', ran, ((reply, replied, received), also)) = Returns.result r in
      let stepped : step cf env (asks c name) peers s ≡ ok (insert c ctx' peers) s' =
        on_request cf env peers s c ctx (deliver (message name)) found
        ∙ ap (λ x. and_then x (λ ctx' s'. ok (insert c ctx' peers) s')) ran in
      record {
        reply = reply;
        context = ctx';
        state = s';
        ran = stepped;
        replied = replied;
        came =
            rw stepped
              (rw (new_reply-sent c reply (replies s.effects) (replies s'.effects) replied) refl);
        received = received;
        also = also;
      }

  pub call-Done :
      {P : Context → State → Type 0}
      → Returns P (on_peer_request cf env.outcomes ctx (deliver (message name)) s)
      → Done cf env c mach_service name client peers s ctx P
  call-Done r = Done-of_Returns (Returns.both answered r)

  pub call_done : Done cf env c mach_service name client peers s ctx (λ _ _. Unit)
  call_done = call-Done (Returns.weaken answered λ _ _ _. tt)

  -- A step that the invariant allows.
  pub Done-Reach :
      {P : Context → State → Type 0} (d : Done cf env c mach_service name client peers s ctx P)
      → Reach cf (insert c d.context peers) d.state
  Done-Reach d = next env (asks c name) reach (requests ctx found can) d.ran

  -- The step and the reply of a call are those of its request.
  pub Done-same :
      {P : Context → State → Type 0} {peers₂ : Peers} {s₂ : State} {r : Reply}
      (d : Done cf env c mach_service name client peers s ctx P)
      → step cf env (asks c name) peers s ≡ ok peers₂ s₂
      → new_reply c (replies s.effects) (replies s₂.effects) ≡ some r
      → (insert c d.context peers ≡ peers₂) × (d.state ≡ s₂) × (d.reply ≡ r)
  Done-same {peers₂} {s₂} d ran sent =
      let same = sym d.ran ∙ ran in
      let after : d.state ≡ s₂ = cc same in
      let came =
        new_reply-sent c d.reply (replies s.effects) (replies s₂.effects)
          (ap (λ t. replies t.effects) (sym after) ∙ d.replied) in
      (cc same, after, cc (sym came ∙ sent))

  -- A call of the library over an open connection, with the broker in a state that it comes to,
  -- returns, if its request can be served. It returns success and a live network of that name,
  -- which the connection holds from then on and which the library has retained, or no network
  -- and one of NOT_FOUND, CREATE_FAILURE and INTERNAL_ERROR with its reason, and then the
  -- connection holds what it held. The broker goes on in a state that it comes to.
  pub call-Received :
      Returns
        (λ (got, peers') s'.
          (result : Option ℕ × ℤ) × (client' : Client) × (ctx' : Context) × (got
            ≡ some (result, client'))
          × Received name ctx ctx' s' result
          × (client'.retained ≡ retain result.0 client.retained)
          × (peers' ≡ insert c ctx' peers)
          × Reach cf peers' s')
        (call cf env c mach_service name client peers s)
  call-Received =
      let d = call_done in
      let kept =
        vmnet_broker_acquire_network-IsResult mach_service (λ _ _. reply_object d.reply) name
          client in
      let e = acquire-read mach_service d.reply name client in
      rw d.came (
        returns (
          _,
          _,
          d.context,
          refl,
          subst (Received name ctx d.context d.state) (sym e) d.received,
          kept.1,
          refl,
          Done-Reach d,
        ))

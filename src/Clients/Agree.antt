-- ===== src/Clients/Agree.antt =====
-- The calls of two processes for a network of one name.
use vmnet_broker.Base.{
  ℕ, ◌+◌, ◌<◌, ◌≡◌, refl, sym, ap, subst, ◌∙◌, inl, inr, Option, some, ◌∷◌, ℤ, pos, CString, lookup,
  insert, lookup-insert, count, arith,
}
use vmnet_broker.Status.{code, success}
use vmnet_broker.Machine.{Ptr, Network, Reply, network, Context, State, ok, CoreFoundation}
use vmnet_broker.Machine.Returns.{Returns, returns}
use vmnet_broker.Network.Ownership.{owned}
use vmnet_broker.Broker.{Env, on_peer_request}
use vmnet_broker.Broker.Sharing.{IsAnsweredWith}
use vmnet_broker.Broker.Requests.{IsServable}
use vmnet_broker.Client.{
  Client, retain, vmnet_broker_acquire_network, read_reply, reply_object, message, deliver,
}
use vmnet_broker.Client.Outcome.{Received, read_shared, vmnet_broker_acquire_network-IsResult}
use vmnet_broker.System.{Peers}
use vmnet_broker.System.Safety.{Reach}
use vmnet_broker.System.Later.{idle_timeout, Later, Reach-Later}
use vmnet_broker.System.Holding.{KeepsOpen, held-StillHolds}
use vmnet_broker.System.Together.{latecomer_shares}
use vmnet_broker.Clients.{call, returned}
use vmnet_broker.Clients.Calls.{acquire-read, call_done, call-Done, Done-Reach}

-- A network of that name with that serialization, which the context holds.
abbrev pub Holds : CString → Context → State → ℕ → Type 0
Holds name ctx s x =
    (p : Ptr) × (n : Network) × (s.heap p ≡ some n)
    × (n.name ≡ some name)
    × (n.serialization ≡ some x)
    × (0 < count p (owned ctx))

pub Holds-of_Received :
    (name : CString) (ctx ctx' : Context) (s' : State) (x : ℕ) (z : ℤ) (r : Option ℕ × ℤ)
    → r ≡ (some x, z)
    → Received name ctx ctx' s' r
    → Holds name ctx' s' x
Holds-of_Received name ctx ctx' s' x z r is (inl (y, e, (p, n, at, named, serialized, mine, _))) =
    (p, n, at, named, ground (arith, serialized, e, is), mine)
Holds-of_Received name ctx ctx' s' x z r is (inr (_, _, _, e)) = cc (is, e)

-- The call returned the network, with success, and the library retained it for its caller.
abbrev pub IsGiven : ℕ → Client → Option ((Option ℕ × ℤ) × Client) → Type 0
IsGiven x client got =
    (client' : Client) × (got ≡ some ((some x, pos (code success)), client'))
    × (client'.retained ≡ x ∷ client.retained)

pub IsGiven-returned :
    (mach_service : ℕ) (name : CString) (client : Client) (x : ℕ) (r : Reply)
    → r ≡ network x
    → IsGiven x client (returned mach_service name client (some r))
IsGiven-returned mach_service name client x r is_x =
    let e =
      acquire-read mach_service r name client
      ∙ ap (λ y. read_reply (reply_object y)) is_x
      ∙ read_shared x in
    let kept =
      vmnet_broker_acquire_network-IsResult mach_service (λ _ _. reply_object r) name client in
    (
      (vmnet_broker_acquire_network mach_service (λ _ _. reply_object r) name client).1,
      ap
          (λ y.
            some (
              y,
              (vmnet_broker_acquire_network mach_service (λ _ _. reply_object r) name client).1,
            ))
          e,
      kept.1 ∙ ap (λ y. retain y.0 client.retained) e,
    )

module _ {cf : CoreFoundation} {peers : Peers} {s : State} (reach : Reach cf peers s) (env : Env)
    (c mach_service : ℕ) (name : CString) (client : Client) (ctx : Context)
    (found : lookup c peers ≡ some ctx)
    (can : IsServable cf env.outcomes (deliver (message name)) s) where
  -- The answer is that network.
  given :
      (x : ℕ)
      → Returns
          (λ ctx' s'. IsAnsweredWith (deliver (message name)) ctx x s s')
          (on_peer_request cf env.outcomes ctx (deliver (message name)) s)
      → Returns
          (λ (got, peers') s'. IsGiven x client got)
          (call cf env c mach_service name client peers s)
  given x shares =
      let d = call-Done reach env c mach_service name client ctx found can shares in
      let is_x : d.reply ≡ network x = ground (arith, d.replied, d.also) in
      rw d.came (
        returns {a = (returned mach_service name client (some d.reply), insert c d.context peers)}
          {s = d.state} (IsGiven-returned mach_service name client x d.reply is_x))

  -- A call that returned a network leaves the connection with it.
  got_held :
      (x : ℕ) (z : ℤ) (client' : Client) (peers' : Peers) (s' : State)
      → call cf env c mach_service name client peers s ≡ ok (some ((some x, z), client'), peers') s'
      → Reach cf peers' s' × (ctx' : Context) × (lookup c peers' ≡ some ctx') × Holds name ctx' s' x
  got_held x z client' peers' s' ran =
      let d = call_done reach env c mach_service name client ctx found can in
      let same = sym d.came ∙ ran in
      let left : insert c d.context peers ≡ peers' = cc same in
      let after : d.state ≡ s' = cc same in
      let got : read_reply (reply_object d.reply) ≡ (some x, z) =
        cc (same, acquire-read mach_service d.reply name client) in
      subst
        (λ t.
          Reach cf peers' t
          × (ctx' : Context) × (lookup c peers' ≡ some ctx')
          × Holds name ctx' t x)
        after
        (subst
          (λ l.
            Reach cf l d.state
            × (ctx' : Context) × (lookup c l ≡ some ctx')
            × Holds name ctx' d.state x)
          left
          (
            Done-Reach reach env c mach_service name client ctx found can d,
            d.context,
            ground (arith, lookup-insert c c d.context peers),
            Holds-of_Received name ctx d.context d.state x z _ got d.received,
          ))

-- If a process's call of the library returned a network, with the broker in a state that it
-- comes to, then as long as the connection of the process stays open, and after that while less
-- than the idle timeout has passed, the call of any process for that name returns the same
-- network, with success, and the library retains it, whatever happened in between and whatever
-- the external calls would return. Both calls are made over open connections, and their
-- requests can be served.
pub clients_agree :
    {cf : CoreFoundation} {peers peers₁ peers₂ peers₃ : Peers} {s s₁ s₂ s₃ : State}
    (reach : Reach cf peers s) (env env' : Env) (name : CString) (c mach_service : ℕ)
    (client client₁ : Client) (ctx : Context) (x : ℕ) (z : ℤ)
    → lookup c peers ≡ some ctx
    → IsServable cf env.outcomes (deliver (message name)) s
    → call cf env c mach_service name client peers s ≡ ok (some ((some x, z), client₁), peers₁) s₁
    → (l : Later cf peers₁ s₁ peers₂ s₂) → KeepsOpen c l
    → Later cf peers₂ s₂ peers₃ s₃
    → s₃.now < s₂.now + idle_timeout
    → (d mach_service' : ℕ) (client₂ : Client) (ctx' : Context) → lookup d peers₃ ≡ some ctx'
    → IsServable cf env'.outcomes (deliver (message name)) s₃
    → Returns
        (λ (got, peers₄) s₄. IsGiven x client₂ got)
        (call cf env' d mach_service' name client₂ peers₃ s₃)
clients_agree reach env env' name c mach_service client client₁ ctx x z found can ran l kept l' soon
      d mach_service' client₂ ctx' found' can' =
    let (reach₁, holder, held, (p, n, at, named, serialized, mine)) =
      got_held reach env c mach_service name client ctx found can x z client₁ _ _ ran in
    let reach₂ = Reach-Later reach₁ l in
    let (holder', held', mine', (m, at', name', _, x')) =
      held-StillHolds reach₁ c holder p n held mine at l kept in
    given (Reach-Later reach₂ l') env' d mach_service' name client₂ ctx' found' can' x (
      latecomer_shares reach₂ c holder' p m x name held' mine' at' (name' ∙ named) (x' ∙ serialized)
        l' soon env'.outcomes d ctx' (deliver (message name)) found' (refl, refl) can')

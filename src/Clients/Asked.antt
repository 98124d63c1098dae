-- ===== src/Clients/Asked.antt =====
-- The requests of one process to the broker in turn, among the events of the others.
use vmnet_broker.Base.{
  ℕ, ◌≡◌, ◌≢◌, ◌⊎◌, refl, sym, ap, subst, ◌∙◌, inl, inr, some, bytes_eq, bytes_eq→eq, bytes_eq_refl,
  Bool-cases, none, List, [], ◌∷◌, CString, All, lookup, insert, lookup-insert, arith,
}
use vmnet_broker.Machine.{Reply, network, replies, Context, State, ok, CoreFoundation}
use vmnet_broker.Config.Builtin.{IsBuiltin}
use vmnet_broker.Network.Grant.{IsAvailable}
use vmnet_broker.Broker.{Env}
use vmnet_broker.Broker.Requests.{IsServable}
use vmnet_broker.Client.{Client, message, deliver, read_reply, reply_object}
use vmnet_broker.Client.Outcome.{read_shared}
use vmnet_broker.System.{Peers, step}
use vmnet_broker.System.Invariant.{requests}
use vmnet_broker.System.Safety.{Reach}
use vmnet_broker.System.Sharing.{one_network_of_name}
use vmnet_broker.System.Later.{Later, now, later, Reach-Later}
use vmnet_broker.System.Holding.{KeepsOpen, held-StillHolds}
use vmnet_broker.System.Grant.{connected_peer_is_granted}
use vmnet_broker.Clients.{new_reply, asks}
use vmnet_broker.Clients.Calls.{call-Done, Done-Reach, Done-same}
use vmnet_broker.Clients.Agree.{Holds, Holds-of_Received}

-- The broker came to a state by a run in which the connection asked for these names, each builtin, in
-- turn, and was sent these replies, newest first. Each request could be served, its external calls
-- succeeded, and any other events came between, but no disconnection of the connection.
pub data Asked (cf : CoreFoundation) (c : ℕ) : List (CString × Reply) → Peers → State → Type 0 where
  asked_nothing : {peers : Peers} {s : State} → Reach cf peers s → Asked cf c [] peers s
  asked_next :
      {answers : List (CString × Reply)} {peers peers₁ peers₂ : Peers} {s s₁ s₂ : State}
      → Asked cf c answers peers s
      → (l : Later cf peers s peers₁ s₁) → KeepsOpen c l
      → (env : Env) (name : CString) (ctx : Context) (r : Reply) → lookup c peers₁ ≡ some ctx
      → IsBuiltin name
      → IsServable cf env.outcomes (deliver (message name)) s₁
      → IsAvailable env.outcomes name
      → step cf env (asks c name) peers₁ s₁ ≡ ok peers₂ s₂
      → new_reply c (replies s₁.effects) (replies s₂.effects) ≡ some r
      → Asked cf c ((name, r) ∷ answers) peers₂ s₂

-- The reply is a network of that name that the connection holds.
abbrev pub IsHeld : ℕ → Peers → State → CString × Reply → Type 0
IsHeld c peers s (name, r) =
    (x : ℕ) × (r ≡ network x) × (ctx : Context) × (lookup c peers ≡ some ctx) × Holds name ctx s x

abbrev pub no_client : Client
no_client = record { connection = none; sent = []; retained = [] }

module _ {cf : CoreFoundation} (c : ℕ) where
  -- What the connection holds it goes on holding.
  IsHeld-Later :
      {peers peers' : Peers} {s s' : State} (reach : Reach cf peers s)
      (answers : List (CString × Reply))
      → (l : Later cf peers s peers' s') → KeepsOpen c l
      → All (IsHeld c peers s) answers
      → All (IsHeld c peers' s') answers
  IsHeld-Later reach [] l kept held = tt
  IsHeld-Later reach ((name, r) ∷ answers) l kept
        ((x, is, ctx, found, (p, n, at, named, serialized, mine)), held) =
      let (ctx', found', mine', (m, at', name', _, x')) =
        held-StillHolds reach c ctx p n found mine at l kept in
      (
        (x, is, ctx', found', (p, m, at', name' ∙ named, x' ∙ serialized, mine')),
        IsHeld-Later reach answers l kept held,
      )

  -- One request.
  ask-IsHeld :
      {peers₁ peers₂ : Peers} {s₁ s₂ : State} (reach : Reach cf peers₁ s₁) (env : Env)
      (name : CString) (ctx : Context) (r : Reply)
      → lookup c peers₁ ≡ some ctx
      → IsBuiltin name
      → IsServable cf env.outcomes (deliver (message name)) s₁
      → IsAvailable env.outcomes name
      → step cf env (asks c name) peers₁ s₁ ≡ ok peers₂ s₂
      → new_reply c (replies s₁.effects) (replies s₂.effects) ≡ some r
      → Reach cf peers₂ s₂ × IsHeld c peers₂ s₂ (name, r)
  ask-IsHeld {peers₁} {peers₂} {s₁} {s₂} reach env name ctx r found builtin can available ran sent =
      let grants =
        connected_peer_is_granted env.outcomes c ctx (deliver (message name)) name reach found
          (refl, refl) builtin can available in
      let d = call-Done reach env c 0 name no_client ctx found can grants in
      let (x, answered) = d.also in
      let (left, after, is_r) = Done-same reach env c 0 name no_client ctx found can d ran sent in
      let is_x : d.reply ≡ network x = ground (arith, d.replied, answered) in
      subst (λ l. Reach cf l s₂ × IsHeld c l s₂ (name, r)) left
        (subst
          (λ t.
            Reach cf (insert c d.context peers₁) t
            × IsHeld c (insert c d.context peers₁) t (name, r))
          after
          (
            Done-Reach reach env c 0 name no_client ctx found can d,
            (
              x,
              sym is_r ∙ is_x,
              d.context,
              ground (arith, lookup-insert c c d.context peers₁),
              Holds-of_Received name ctx d.context d.state x _ _
                  (ap (λ y. read_reply (reply_object y)) is_x ∙ read_shared x) d.received,
            ),
          ))

  -- In every
  pub asked-IsHeld :
      {answers : List (CString × Reply)} {peers : Peers} {s : State}
      → Asked cf c answers peers s
      → Reach cf peers s × All (IsHeld c peers s) answers
  asked-IsHeld (asked_nothing reach) = (reach, tt)
  asked-IsHeld
        (asked_next {answers} before l kept env name ctx r found builtin can available ran sent) =
      let (reach, held) = asked-IsHeld before in
      let reach₁ = Reach-Later reach l in
      let (reach₂, new) = ask-IsHeld reach₁ env name ctx r found builtin can available ran sent in
      (
        reach₂,
        (
          new,
          IsHeld-Later reach₁ answers (later env (asks c name) now (requests ctx found can) ran)
              (λ e. cc e, tt) (IsHeld-Later reach answers l kept held),
        ),
      )

-- Requests of one name are answered with one network.
abbrev pub OnePerName : List (CString × Reply) → Type 0
OnePerName [] = Unit
OnePerName ((name, r) ∷ answers) =
    All (λ (name', r'). (name ≢ name') ⊎ (r ≡ r')) answers × OnePerName answers

module _ {cf : CoreFoundation} (c : ℕ) {peers : Peers} {s : State} (reach : Reach cf peers s) where
  held-same :
      (name : CString) (r r' : Reply)
      → IsHeld c peers s (name, r)
      → IsHeld c peers s (name, r')
      → r ≡ r'
  held-same name r r' (x, is, _, _, (p, n, at, named, serialized, _))
        (x', is', _, _, (p', n', at', named', serialized', _)) =
      let one = one_network_of_name reach p p' n n' name at at' named named' in
      ground (arith, one, at, at', serialized, serialized', is, is')

  held-OnePerName_one :
      (name : CString) (r : Reply) (answers : List (CString × Reply))
      → IsHeld c peers s (name, r)
      → All (IsHeld c peers s) answers
      → All (λ (name', r'). (name ≢ name') ⊎ (r ≡ r')) answers
  held-OnePerName_one name r [] held rest = tt
  held-OnePerName_one name r ((name', r') ∷ answers) held (held', rest) = (
    elim (Bool-cases (bytes_eq name name')) [
      | inl e ↦
          let same = bytes_eq→eq name name' e in
          inr (held-same name r r' held (subst (λ n. IsHeld c peers s (n, r')) (sym same) held'))
      | inr e ↦ inl λ same. ground (arith, e, same, bytes_eq_refl name)
    ],
    held-OnePerName_one name r answers held rest,
  )

  pub held-OnePerName :
      (answers : List (CString × Reply)) → All (IsHeld c peers s) answers → OnePerName answers
  held-OnePerName [] held = tt
  held-OnePerName ((name, r) ∷ answers) (held, rest) =
      (held-OnePerName_one name r answers held rest, held-OnePerName answers rest)

-- ===== src/Client/Outcome.antt =====
-- What a client gets: a network and success, or no network and the reason.
use vmnet_broker.Base.{
  ℕ, ◌^◌, ◌<◌, ◌≡◌, ◌≢◌, ◌⊎◌, refl, subst, sym, ap, ◌∙◌, inl, inr, true, false, Option, none, some,
  ◌∷◌, ℤ, pos, CString, is, arith, Option-cases, Bool-cases,
}
use vmnet_broker.Status.{invalid_reply, Status, code, success}
use vmnet_broker.Machine.{
  replies, Context, State, CoreFoundation, Outcomes, Ptr, Reply, error, network, value,
}
use vmnet_broker.Machine.Returns
use vmnet_broker.Machine.Returns.{Returns}
use vmnet_broker.Network.Ownership.{IsValid}
use vmnet_broker.Network.Contract.{owners, Consistent, Settled, IsFailure, Outcome}
use vmnet_broker.Broker.{on_peer_request}
use vmnet_broker.Broker.Requests.{IsServable, Answer, on_peer_request-Answered}
use vmnet_broker.Client.{
  Message, ReplyObject, xpc_error, other_type, dictionary, Client, to_int32, read_reply,
  connect_to_broker, message, retain, vmnet_broker_acquire_network, deliver, reply_object,
}

module _ (e : ℤ) (n : Option ℕ) where
  read_error : is (to_int32 e) 0 ≡ false → read_reply (dictionary e n) ≡ (none, to_int32 e)
  unfolding read_reply
  read_error bad = ground (arith, bad)

  read_missing :
      is (to_int32 e) 0 ≡ true
      → n ≡ none
      → read_reply (dictionary e n) ≡ (none, pos (code invalid_reply))
  unfolding read_reply
  read_missing good missing = ground (arith, good, missing)

  read_network :
      is (to_int32 e) 0 ≡ true
      → (x : ℕ) → n ≡ some x
      → read_reply (dictionary e n) ≡ (some x, pos (code success))
  unfolding read_reply
  read_network good x given = ground (arith, good, given)

pub read_shared : (x : ℕ) → read_reply (reply_object (network x)) ≡ (some x, pos (code success))
unfolding read_reply to_int32
read_shared x = refl

is_zero : (z : ℤ) → is z 0 ≡ false → z ≢ pos 0
is_zero z bad e = ground (arith, bad, e)

-- What a client gets: a network and success, or no network and another status.
abbrev pub IsResult : Option ℕ × ℤ → Type 0
IsResult r =
    ((x : ℕ) × (r ≡ (some x, pos (code success)))) ⊎ (r.0 ≡ none) × (r.1 ≢ pos (code success))

read_reply-IsResult : (r : ReplyObject) → IsResult (read_reply r)
unfolding read_reply
read_reply-IsResult xpc_error = inr (refl, λ e. cc e)
read_reply-IsResult other_type = inr (refl, λ e. cc e)
read_reply-IsResult (dictionary e n) = elim (Bool-cases (is (to_int32 e) 0)) [
  | inr bad ↦ subst IsResult (sym (read_error e n bad)) (inr (refl, is_zero (to_int32 e) bad))
  | inl good ↦ elim (Option-cases n) [
    | inl missing ↦ subst IsResult (sym (read_missing e n good missing)) (inr (refl, λ e. cc e))
    | inr (x, given) ↦ subst IsResult (sym (read_network e n good x given)) (inl (x, refl))
  ]
]

module _ (mach_service : ℕ) (c : Client) where
  connect-connection :
      (connect_to_broker mach_service c).1.connection ≡ some (connect_to_broker mach_service c).0
  unfolding connect_to_broker
  connect-connection = elim (Option-cases c.connection) [
    | inl e ↦ ground (arith, e)
    | inr (k, e) ↦ ground (arith, e)
  ]

  connect-sent : (connect_to_broker mach_service c).1.sent ≡ c.sent
  unfolding connect_to_broker
  connect-sent = elim (Option-cases c.connection) [
    | inl e ↦ ground (arith, e)
    | inr (k, e) ↦ ground (arith, e)
  ]

  connect-retained : (connect_to_broker mach_service c).1.retained ≡ c.retained
  unfolding connect_to_broker
  connect-retained = elim (Option-cases c.connection) [
    | inl e ↦ ground (arith, e)
    | inr (k, e) ↦ ground (arith, e)
  ]

-- Whatever the reply is, the client's function sends one message, on its one connection, and
-- returns a network that it has retained, with success, or no network, with another status.
pub vmnet_broker_acquire_network-IsResult :
    (mach_service : ℕ) (answer : ℕ → Message → ReplyObject) (name : CString) (c : Client)
    → let (result, c') = vmnet_broker_acquire_network mach_service answer name c in
      IsResult result
      × (c'.retained ≡ retain result.0 c.retained)
      × ((connection : ℕ) × (c'.connection ≡ some connection)
          × (c'.sent ≡ (connection, message name) ∷ c.sent))
unfolding vmnet_broker_acquire_network
vmnet_broker_acquire_network-IsResult mach_service answer name c = (
  read_reply-IsResult (answer (connect_to_broker mach_service c).0 (message name)),
  ap (retain _) (connect-retained mach_service c),
  (
    (connect_to_broker mach_service c).0,
    connect-connection mach_service c,
    ap (λ l. ((connect_to_broker mach_service c).0, message name) ∷ l)
        (connect-sent mach_service c),
  ),
)

pub to_int32_small : (n : ℕ) → n < 2 ^ 31 → to_int32 (pos n) ≡ pos n
unfolding to_int32
to_int32_small n h = ground arith

read_code : (n : ℕ) → n < 2 ^ 31 → 0 < n → read_reply (dictionary (pos n) none) ≡ (none, pos n)
read_code n small positive =
    read_error (pos n) none (ground (arith, to_int32_small n small))
    ∙ ap (λ z. (none, z)) (to_int32_small n small)

-- What the client's request comes to: success and a live network of that name that the peer owns, or
-- one of the three failures, which leaves the peer's context as it was.
abbrev pub Received : CString → Context → Context → State → Option ℕ × ℤ → Type 0
Received name ctx ctx' s' r =
    ((x : ℕ) × (r ≡ (some x, pos (code success))) × Outcome name ctx ctx' s'.heap (value x))
    ⊎ (ctx' ≡ ctx) × (e : Status) × IsFailure name ctx e × (r ≡ (none, pos (code e)))

code_small :
    (name : CString) (ctx : Context) (e : Status)
    → IsFailure name ctx e
    → (code e < 2 ^ 31) × (0 < code e)
code_small name ctx e (inl (inl (h, _))) = ground (arith, h)
code_small name ctx e (inl (inr (h, _))) = ground (arith, h)
code_small name ctx e (inr (h, _)) = ground (arith, h)

module _ (name : CString) (ctx ctx' : Context) (s' : State) where
  Received-of_Answer :
      (r : Reply)
      → Answer (deliver (message name)) ctx ctx' s' r
      → Received name ctx ctx' s' (read_reply (reply_object r))
  Received-of_Answer (network x) (asked, (_, same), granted) = inl (
    x,
    read_network (pos 0) (some x) (ground (arith, to_int32_small 0 (omega arith))) x refl,
    subst (λ l. Outcome l ctx ctx' s'.heap (value x)) (ground (arith, same)) granted,
  )
  Received-of_Answer (error c) (kept, inl (_, malformed)) = absurd (malformed name (refl, refl))
  Received-of_Answer (error c) (kept, inr (_, (_, same), e, failure, is_code)) =
      let failed : IsFailure name ctx e =
        subst (λ l. IsFailure l ctx e) (ground (arith, same)) failure in
      let (small, positive) = code_small name ctx e failed in
      inr (
        kept,
        e,
        failed,
        subst (λ k. read_reply (dictionary (pos k) none) ≡ (none, pos (code e))) (sym is_code)
            (read_code (code e) small positive),
      )

-- A client's message, delivered to a broker in order that can serve it, is answered by one
-- reply, and what the client reads of that reply is success and a live network of that name
-- that the peer owns, or no network and one of NOT_FOUND, CREATE_FAILURE and INTERNAL_ERROR
-- with its reason, and the peer's context as it was.
pub acquire_end_to_end :
    (cf : CoreFoundation) (others : Ptr → ℕ) (out : Outcomes) (name : CString) (ctx : Context)
    (s : State)
    → IsValid ctx
    → Consistent cf (owners others ctx) s
    → Settled s.heap (owners others ctx)
    → IsServable cf out (deliver (message name)) s
    → Returns
        (λ ctx' s'.
          (r : Reply) × (replies s'.effects ≡ (ctx.connection, r) ∷ replies s.effects)
          × Received name ctx ctx' s' (read_reply (reply_object r)))
        (on_peer_request cf out ctx (deliver (message name)) s)
acquire_end_to_end cf others out name ctx s v consistent settled can =
    Returns.weaken
      (on_peer_request-Answered cf others out ctx (deliver (message name)) s v consistent settled
        can)
      λ ctx' s' a. (a.reply, a.replied, Received-of_Answer name ctx ctx' s' a.reply a.meant)

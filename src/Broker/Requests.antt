-- ===== src/Broker/Requests.antt =====
-- on_peer_request: each request is answered once, and the networks stay consistent.
pub mod Runs
use vmnet_broker.Base.{
  true, ℕ, ◌≡◌, ◌⊎◌, refl, ap, ◌∙◌, inl, inr, none, some, List, ◌∷◌, CString, arith, Option-cases,
  Bool-cases, bytes_eq, bytes_eq→eq, if◌then◌else◌,
}
use vmnet_broker.Status.{Status, code, invalid_request}
use vmnet_broker.Machine.{
  replies, Ptr, Context, State, Result, value, err, released, Reply, error, network, serialization,
  CoreFoundation, Effect, Outcomes,
}
use vmnet_broker.Machine.Returns
use vmnet_broker.Machine.Returns.{Returns, returns}
use vmnet_broker.Network.Ownership.{IsValid}
use vmnet_broker.Network.Steady.{Steady, Steady-same}
use vmnet_broker.Network.Contract.{owners, Consistent, Settled, Kept, IsFailure, Outcome, Served}
use vmnet_broker.Network.Acquire.{acquire_network-Served}
use vmnet_broker.Xpc.{Request}
use vmnet_broker.Xpc.Replies.{
  reply_log, send_xpc_error_lem, send_xpc_network_lem, replies-reply_log, reply_log-Even,
}
use vmnet_broker.Broker.{command_acquire, answer, serve, on_peer_request, reject}
pub use vmnet_broker.Broker.Requests.Runs.{serve_name}
use vmnet_broker.Broker.Requests.Runs.{other_command, reject_command, reject_other, reject_name}

-- The globals of broker.c, which requests leave alone.
pub record Globals (s s' : State) : Type 0 where
  pub connected_peers : s'.connected_peers ≡ s.connected_peers
  pub idle_timer : s'.idle_timer ≡ s.idle_timer
  pub transactions : s'.transactions ≡ s.transactions
  pub now : s'.now ≡ s.now

Globals-of_Kept :
    {s t : State} (log : List Effect) → Kept s t → Globals s (record t { effects = log })
Globals-of_Kept log k = record {
  connected_peers = k.connected_peers;
  idle_timer = k.idle_timer;
  transactions = k.transactions;
  now = k.now;
}

-- A request to acquire the network of that name.
abbrev pub IsAcquire : Request → CString → Type 0
IsAcquire event name = (event.command ≡ some command_acquire) × (event.network_name ≡ some name)

-- What a reply tells: a network that the peer owns now, or an error that left the peer's context as
-- it was: INVALID_REQUEST exactly if the request is none to acquire a network.
abbrev pub Answer : Request → Context → Context → State → Reply → Type 0
Answer event ctx ctx' s' (network x) =
    (name : CString) × IsAcquire event name × Outcome name ctx ctx' s'.heap (value x)
Answer event ctx ctx' s' (error c) =
    (ctx' ≡ ctx)
    × ((c ≡ code invalid_request) × ((name : CString) → ¬ IsAcquire event name)
        ⊎ (name : CString) × IsAcquire event name
          × (e : Status) × IsFailure name ctx e
          × (c ≡ code e))

pub record Answered (cf : CoreFoundation) (others : Ptr → ℕ) (event : Request) (ctx : Context)
    (s : State) (ctx' : Context) (s' : State) : Type 0 where
  pub consistent : Consistent cf (owners others ctx') s'
  pub settled : Settled s'.heap (owners others ctx')
  pub valid : IsValid ctx'
  pub connection : ctx'.connection ≡ ctx.connection
  pub globals : Globals s s'
  pub steady : Steady s s'
  pub reply : Reply
  pub replied : replies s'.effects ≡ (
      if event.has_return_address
      then (ctx.connection, reply) ∷ replies s.effects
      else replies s.effects)
  pub meant : Answer event ctx ctx' s' reply

pub replied_after :
    (event : Request) (ctx ctx' : Context) (s t : State) (r : Reply)
    → ctx'.connection ≡ ctx.connection
    → replies t.effects ≡ replies s.effects
    → replies (reply_log event.has_return_address ctx'.connection r t.effects) ≡ (
        if event.has_return_address
        then (ctx.connection, r) ∷ replies s.effects
        else replies s.effects)
replied_after event ctx ctx' s t r same quiet =
    ground (arith, replies-reply_log event.has_return_address ctx'.connection r t.effects)

module _ {cf : CoreFoundation} (others : Ptr → ℕ) (event : Request) (ctx : Context)
    (s : State) where
  Answered-rejected :
      IsValid ctx
      → Consistent cf (owners others ctx) s
      → Settled s.heap (owners others ctx)
      → ((name : CString) → ¬ IsAcquire event name)
      → Returns (Answered cf others event ctx s) (reject ctx event s)
  unfolding reject
  Answered-rejected v consistent settled malformed =
      rw (send_xpc_error_lem ctx event s (code invalid_request)) (
        returns (record {
          consistent = consistent;
          settled = settled;
          valid = v;
          connection = refl;
          globals = record {
            connected_peers = refl;
            idle_timer = refl;
            transactions = refl;
            now = refl;
          };
          steady =
              Steady-same s _ refl refl refl
                (reply_log-Even event.has_return_address ctx.connection _ s.effects);
          reply = error (code invalid_request);
          replied = replies-reply_log event.has_return_address ctx.connection _ s.effects;
          meant = (refl, inl (refl, malformed));
        }))

  module _ (name : CString) (asked : IsAcquire event name) where
    Answered-Served :
        (a : Context × Result ℕ) (t : State)
        → Served cf others name ctx s a t
        → Returns (Answered cf others event ctx s) (answer event a t)
    unfolding answer
    Answered-Served (ctx', err e) t h = rw (send_xpc_error_lem ctx' event t (code e)) (
        returns (record {
          consistent = h.consistent;
          settled = h.settled;
          valid = h.valid;
          connection = h.connection;
          globals = Globals-of_Kept _ h.kept;
          steady = record {
            stable = h.steady.stable;
            timely = h.steady.timely;
            ledger = λ o. ground (
              arith,
              h.steady.ledger o,
              reply_log-Even event.has_return_address ctx'.connection (error (code e)) t.effects o,
            );
          };
          reply = error (code e);
          replied = replied_after event ctx ctx' s t _ h.connection h.kept.replied;
          meant = (h.outcome.0, inr (name, asked, e, h.outcome.1, refl));
        }))
    Answered-Served (ctx', value x) t h =
        let sent : State = record t {
          effects =
              released (serialization x)
              ∷ reply_log event.has_return_address ctx'.connection (network x) t.effects;
        } in
        rw (send_xpc_network_lem ctx' event t x) (
          returns {s = sent} (record {
            consistent = h.consistent;
            settled = h.settled;
            valid = h.valid;
            connection = h.connection;
            globals = Globals-of_Kept _ h.kept;
            steady = record {
              stable = h.steady.stable;
              timely = h.steady.timely;
              ledger = λ o. ground (
                arith,
                h.steady.ledger o,
                reply_log-Even event.has_return_address ctx'.connection (network x) t.effects o,
              );
            };
            reply = network x;
            replied = replied_after event ctx ctx' s t _ h.connection h.kept.replied;
            meant = (name, asked, h.outcome);
          }))

-- What XPC and the allocator promise of a request: the name makes a CFString, `calloc` returns memory
-- that is not in use, and the registry's dictionary is made, if it is not there.
pub record IsServable (cf : CoreFoundation) (out : Outcomes) (event : Request) (s : State)
    : Type 0 where
  pub encodable :
      (name : CString) → IsAcquire event name → (k : ℕ) × (cf.create_string name ≡ some k)
  pub fresh : (p : Ptr) → out.calloc ≡ some p → s.heap p ≡ none
  pub registered : s.registry ≡ none → out.dictionary_create ≡ true

module _ (cf : CoreFoundation) (others : Ptr → ℕ) (out : Outcomes) (ctx : Context) (event : Request)
    (s : State) (v : IsValid ctx) (consistent : Consistent cf (owners others ctx) s)
    (settled : Settled s.heap (owners others ctx)) where
  serve-Answered :
      (name : CString)
      → IsAcquire event name
      → IsServable cf out event s
      → Returns (Answered cf others event ctx s) (serve cf out ctx event name s)
  unfolding serve
  serve-Answered name asked can =
      let (k, keyed) = can.encodable name asked in
      Returns.bind
        (acquire_network-Served cf others out ctx name k s v keyed consistent settled can.fresh
          can.registered)
        (Answered-Served others event ctx s name asked)

  -- A request ends normally and keeps the networks consistent. It is answered exactly once, if
  -- it has a return address: with a live network of the name asked for, which the peer owns
  -- from then on, or with an error, and then the peer's context is as it was. The error is
  -- INVALID_REQUEST exactly if the request is none to acquire a network by name. Any other
  -- error has its reason: the name is not builtin (NOT_FOUND), a builtin network could not be
  -- created (CREATE_FAILURE), or the peer has no room (INTERNAL_ERROR). The context is valid,
  -- the state consistent and settled, and the request can be served.
  pub on_peer_request-Answered :
      IsServable cf out event s
      → Returns (Answered cf others event ctx s) (on_peer_request cf out ctx event s)
  on_peer_request-Answered can = elim (Option-cases event.command) [
    | inl missing ↦ rw (reject_command cf out ctx event s missing) (rejected (λ name (c, _). cc))
    | inr (command, has) ↦ elim (Bool-cases (bytes_eq command command_acquire)) [
      | inr other ↦
          rw (reject_other cf out ctx event s command has other)
            (rejected (λ name (c, _). other_command command other (ground (arith, has, c))))
      | inl same ↦ elim (Option-cases event.network_name) [
        | inl missing ↦
            rw (reject_name cf out ctx event s command has missing) (rejected (λ name (_, c). cc))
        | inr (name, given) ↦
            rw (serve_name cf out ctx event s command has same name given)
              (serve-Answered name (has ∙ ap some (bytes_eq→eq _ _ same), given) can)
      ]
    ]
  ]
    where
      rejected :
          ((name : CString) → ¬ IsAcquire event name)
          → Returns (Answered cf others event ctx s) (reject ctx event s)
      rejected = Answered-rejected others event ctx s v consistent settled

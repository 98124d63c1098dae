-- ===== src/System/Invariant/Steps.antt =====
-- Every event that may come keeps the invariant.
use vmnet_broker.Base.{
  ◌≢◌, none, ℕ, ◌≡◌, ◌⊎◌, refl, sym, subst, ◌∙◌, inl, inr, some, lookup, erase, insert,
  lookup-erase, lookup-insert, erase-Unique, insert-Unique, length, arith, ◌==◌, Bool-cases,
}
use vmnet_broker.Machine.{replies, Ptr, Context, State, Run, ok, and_then, CoreFoundation}
use vmnet_broker.Machine.Returns
use vmnet_broker.Machine.Returns.{Returns, returns}
use vmnet_broker.Network.Ownership.{IsValid}
use vmnet_broker.Network.Contract.{Consistent, Settled, owners}
use vmnet_broker.Xpc.{
  handle_event, Request, PeerEvent, connection_invalid, other_error, other_object, dictionary,
}
use vmnet_broker.Broker.{Env, on_peer_request, on_peer_disconnect}
use vmnet_broker.Broker.Requests.{IsServable, Answered, on_peer_request-Answered}
use vmnet_broker.Network.Steady.{Timely-refl, Stable-refl}
use vmnet_broker.System.Spec.{IsInternal, leave, post, stay}
use vmnet_broker.System.Invariant.Rules.{Rule-Answer, holdings-left, holdings-refused}
use vmnet_broker.Broker.Lifecycle.{Counts, HasTimers, on_peer_disconnect-Disconnected}
use vmnet_broker.System.{Event, peer, Peers, on_peer}
use vmnet_broker.System.Peers.{total, length-erase, length-insert, total-owners, total-insert}
use vmnet_broker.System.Invariant.{SystemInv, Moved, Progress, continues}

-- A context that takes the place of one, or is new.
pub contexts-insert :
    (peers : Peers) (c : ℕ) (ctx : Context)
    → ((d : ℕ) (x : Context) → lookup d peers ≡ some x → IsValid x × (x.connection ≡ d))
    → IsValid ctx
    → ctx.connection ≡ c
    → (d : ℕ) (x : Context) → lookup d (insert c ctx peers) ≡ some x
    → IsValid x × (x.connection ≡ d)
contexts-insert peers c ctx old v same d x e = elim (Bool-cases (c == d)) [
  | inl here ↦
      let e' : ctx ≡ x = ground (arith, e, lookup-insert c d ctx peers) in
      subst (λ y. IsValid y × (y.connection ≡ d)) e' (v, ground (arith, same))
  | inr there ↦ old d x (ground (arith, e, lookup-insert c d ctx peers))
]

contexts-erase :
    (peers : Peers) (c : ℕ)
    → ((d : ℕ) (x : Context) → lookup d peers ≡ some x → IsValid x × (x.connection ≡ d))
    → (d : ℕ) (x : Context) → lookup d (erase c peers) ≡ some x
    → IsValid x × (x.connection ≡ d)
contexts-erase peers c old d x e = old d x (ground (arith, e, lookup-erase c d peers))

pub Progress-bind {ℓ} :
    {cf : CoreFoundation} {peers : Peers} {s : State} {e : Event} {A : Type ℓ}
    {P : A → State → Type 0} {r : Run A} {f : A → State → Run Peers}
    → Returns P r
    → ((a : A) (t : State) → P a t → Progress cf peers s e (f a t))
    → Progress cf peers s e (and_then r f)
Progress-bind (returns p) next = next _ _ p

-- What a disconnection leaves: the other peers, and if there are none, the idle timer is set.
pub record Departed (cf : CoreFoundation) (peers : Peers) (s : State) (c : ℕ) (peers' : Peers)
    (s' : State) : Type 0 where
  pub inv : SystemInv cf peers' s'
  pub moved : Moved peers s (peer c connection_invalid) peers' s'
  pub gone : peers' ≡ erase c peers
  pub idle : length (erase c peers) ≡ 0 → s'.idle_timer ≢ none

Progress-of_Departed :
    {cf : CoreFoundation} {peers : Peers} {s : State} {c : ℕ} {r : Run Peers}
    → Returns (Departed cf peers s c) r
    → Progress cf peers s (peer c connection_invalid) r
Progress-of_Departed (returns d) = continues d.inv d.moved

module _ (cf : CoreFoundation) (env : Env) (peers : Peers) (s : State) where
  pub on_request :
      (c : ℕ) (ctx : Context) (event : Request)
      → lookup c peers ≡ some ctx
      → on_peer cf env c (dictionary event) peers s
        ≡ and_then
            (on_peer_request cf env.outcomes ctx event s)
            (λ ctx' s'. ok (insert c ctx' peers) s')
  unfolding on_peer handle_event
  on_request c ctx event found = ground (arith, found)

  on_disconnect :
      (c : ℕ) (ctx : Context)
      → lookup c peers ≡ some ctx
      → on_peer cf env c connection_invalid peers s
        ≡ and_then (on_peer_disconnect env ctx s) (λ ctx' s'. ok (erase c peers) s')
  unfolding on_peer handle_event
  on_disconnect c ctx found = ground (arith, found)

  on_noise :
      (c : ℕ) (ctx : Context) (e : PeerEvent)
      → (e ≡ other_error) ⊎ (e ≡ other_object)
      → lookup c peers ≡ some ctx
      → on_peer cf env c e peers s ≡ ok (insert c ctx peers) s
  unfolding on_peer handle_event
  on_noise c ctx e (inl h) found = ground (arith, found, h)
  on_noise c ctx e (inr h) found = ground (arith, found, h)

  module _ (inv : SystemInv cf peers s) where
    module _ (c : ℕ) (ctx : Context) (found : lookup c peers ≡ some ctx) where
      abbrev others : Ptr → ℕ
      others = total (erase c peers)

      split : Consistent cf (owners others ctx) s × Settled s.heap (owners others ctx)
      split =
          subst (λ own. Consistent cf own s × Settled s.heap own)
            (total-owners c ctx peers inv.unique found) (inv.consistent, inv.settled)

      -- The peer's context changes, and the counts do not.
      SystemInv-insert :
          (ctx' : Context) (s' : State)
          → Consistent cf (owners others ctx') s'
          → Settled s'.heap (owners others ctx')
          → IsValid ctx'
          → ctx'.connection ≡ ctx.connection
          → Counts (length peers) s'
          → SystemInv cf (insert c ctx' peers) s'
      SystemInv-insert ctx' s' consistent settled v same counts = record {
        unique = insert-Unique c ctx' peers inv.unique;
        contexts =
            contexts-insert peers c ctx' inv.contexts v (same ∙ (inv.contexts c ctx found).1);
        consistent =
            subst (λ own. Consistent cf own s') (sym (total-insert c ctx' peers)) consistent;
        settled = subst (Settled s'.heap) (sym (total-insert c ctx' peers)) settled;
        counts =
            subst (λ n. Counts n s')
              (length-erase c ctx peers inv.unique found ∙ sym (length-insert c ctx' peers)) counts;
      }

      SystemInv-Answered :
          (ctx' : Context) (s' : State) (event : Request)
          → Answered cf others event ctx s ctx' s'
          → SystemInv cf (insert c ctx' peers) s'
      SystemInv-Answered ctx' s' event a =
          SystemInv-insert ctx' s' a.consistent a.settled a.valid a.connection (record {
            connected = a.globals.connected_peers ∙ inv.counts.connected;
            transaction = a.globals.transactions ∙ inv.counts.transaction;
            awake = λ h. a.globals.idle_timer ∙ inv.counts.awake h;
          })

      pub Progress-request :
          (event : Request)
          → IsServable cf env.outcomes event s
          → Progress cf peers s
              (peer c (dictionary event))
              (on_peer cf env c (dictionary event) peers s)
      Progress-request event can =
          let (consistent, settled) = split in
          rw (on_request c ctx event found) (
            Progress-bind
              (on_peer_request-Answered cf others env.outcomes ctx event s
                (inv.contexts c ctx found).0 consistent settled can)
              λ ctx' s' a.
                let inv' = SystemInv-Answered ctx' s' event a in
                continues inv' (record {
                  frame = λ p n at. inl (a.steady.stable p n at);
                  timely = a.steady.timely;
                  ledger = a.steady.ledger;
                  clock = ground (arith, a.globals.now);
                  rule =
                      Rule-Answer inv c ctx found ctx' s' event a.reply a.steady.stable inv'
                        (subst (λ d. replies s'.effects ≡ post event d a.reply (replies s.effects))
                          (inv.contexts c ctx found).1 a.replied)
                        a.meant;
                }))

      pub disconnect-Departed :
          HasTimers env s ctx
          → Returns (Departed cf peers s c) (on_peer cf env c connection_invalid peers s)
      disconnect-Departed has =
          let (consistent, settled) = split in
          let fewer = length-erase c ctx peers inv.unique found in
          rw (on_disconnect c ctx found) (
            Returns.bind
              (on_peer_disconnect-Disconnected cf others env (length (erase c peers)) ctx s
                (inv.contexts c ctx found).0 consistent settled
                (subst (λ n. Counts n s) fewer inv.counts) has)
              λ ctx' s' d. returns (record {
                inv = record {
                  unique = erase-Unique c peers inv.unique;
                  contexts = contexts-erase peers c inv.contexts;
                  consistent = d.consistent;
                  settled = d.settled;
                  counts = d.counts;
                };
                moved = record {
                  frame = λ p n at. inl (d.steady.stable p n at);
                  timely = d.steady.timely;
                  ledger = d.steady.ledger;
                  clock = ground (arith, d.silent.now);
                  rule =
                      leave (holdings-left inv c ctx found ctx s' d.steady.stable) d.silent.replied;
                };
                gone = refl;
                idle = d.idle;
              }))

      pub Progress-disconnect :
          HasTimers env s ctx
          → Progress cf peers s
              (peer c connection_invalid)
              (on_peer cf env c connection_invalid peers s)
      Progress-disconnect has = Progress-of_Departed (disconnect-Departed has)

      pub Progress-noise :
          (e : PeerEvent)
          → (e ≡ other_error) ⊎ (e ≡ other_object)
          → IsInternal (peer c e)
          → Progress cf peers s (peer c e) (on_peer cf env c e peers s)
      Progress-noise e h internal =
          let (consistent, settled) = split in
          rw (on_noise c ctx e h found) (
            continues
              (SystemInv-insert ctx s consistent settled (inv.contexts c ctx found).0 refl
                inv.counts)
              (record {
                frame = λ p n at. inl (n, at, refl, refl, refl);
                timely = Timely-refl s.now s.timers;
                ledger = λ o. refl;
                clock = omega arith;
                rule =
                    stay internal (holdings-refused inv c ctx found ctx s (Stable-refl s.heap) refl)
                      refl;
              }))

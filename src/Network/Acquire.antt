-- ===== src/Network/Acquire.antt =====
-- acquire_network: every outcome leaves the networks consistent and settled.
pub mod Register
use vmnet_broker.Base.{
  ℕ, ◌≡◌, refl, sym, ap, ◌∙◌, inl, inr, true, none, some, ◌∷◌, CString, lookup, insert, update,
  arith, Option-cases, Bool-cases,
}
use vmnet_broker.Status.{Status, internal_error}
use vmnet_broker.Machine.{
  Ptr, Context, State, Result, value, err, created, released, CoreFoundation, Outcomes, cf_string,
}
use vmnet_broker.Machine.Returns
use vmnet_broker.Machine.Returns.{Returns, returns}
use vmnet_broker.Network.{
  acquire_found, share_created, create_and_register, acquire_network, can_add_network_to_peer,
  share_network,
}
use vmnet_broker.Network.Create.{built}
use vmnet_broker.Network.Invariant.{Entries, Inv, Vacant-of_Inv, Site, vacant, taken}
use vmnet_broker.Network.Invariant.Changes.{Inv-new}
use vmnet_broker.Network.Ownership.{IsValid}
use vmnet_broker.Machine.Ledger.{held}
use vmnet_broker.Machine.Ledger.Stock.{held-new}
use vmnet_broker.Network.Steady.{Steady, Steady-same, Steady-trans, Stable-new, Timely-refl}
use vmnet_broker.Network.Contract.{
  entries, owners, Consistent, Settled, Kept, Kept-frame, Kept-trans, IsFailure, Served,
}
use vmnet_broker.Network.Share.{share_network-Served}
pub use vmnet_broker.Network.Acquire.Register.{
  init_registry_lem, made_of_filed, registry_get_lem, registry_set_lem,
}
use vmnet_broker.Network.Acquire.Register.{
  Registered, create_and_register-Registered, create_and_register_full,
}

module _ {cf : CoreFoundation} (others : Ptr → ℕ) (name : CString) (ctx : Context) where
  Served-from :
      (s t : State)
      → Kept s t
      → Steady s t
      → (a : Context × Result ℕ) (s' : State) → Served cf others name ctx t a s'
      → Served cf others name ctx s a s'
  Served-from s t kept steady a s' h = record {
    consistent = h.consistent;
    settled = h.settled;
    valid = h.valid;
    connection = h.connection;
    kept = Kept-trans kept h.kept;
    steady = Steady-trans kept.now steady h.steady;
    outcome = h.outcome;
  }

  Served-refused :
      (e : Status) (s s' : State)
      → IsFailure name ctx e
      → IsValid ctx
      → Consistent cf (owners others ctx) s'
      → Settled s'.heap (owners others ctx)
      → Kept s s'
      → Steady s s'
      → Served cf others name ctx s (ctx, err e) s'
  Served-refused e s s' failure v consistent settled kept steady = record {
    consistent = consistent;
    settled = settled;
    valid = v;
    connection = refl;
    kept = kept;
    steady = steady;
    outcome = (refl, failure);
  }

module _ (cf : CoreFoundation) (others : Ptr → ℕ) (out : Outcomes) (ctx : Context) (name : CString)
    (k : ℕ) (m : Entries) (s : State) (v : IsValid ctx) (keyed : cf.create_string name ≡ some k)
    (ready : s.registry ≡ some m) (inv : Inv cf s.heap m s.timers s.idle_timer (owners others ctx))
    (settled : Settled s.heap (owners others ctx)) where
  Consistent-here : Consistent cf (owners others ctx) s
  Consistent-here = rw ready inv

  -- The registry's network of that name.
  found-Served :
      (p : Ptr)
      → lookup k m ≡ some p
      → Site cf s.heap m s.timers (owners others ctx) p
      → Returns (Served cf others name ctx s) (share_network ctx p s)
  found-Served p filed (vacant _ u) = absurd (u.unfiled k filed)
  found-Served p filed (taken n at h) =
      let same_key = h.filed_once k filed in
      let same_name =
        cf.create_string_injective h.name name k (h.keyed ∙ ap some (sym same_key)) keyed in
      share_network-Served others name ctx p n s v at (h.named ∙ ap some same_name) Consistent-here
        (λ q r _ e. settled q r e) (inl (settled p n at))

  -- A network that create_and_register has made.
  created-Served :
      can_add_network_to_peer ctx ≡ true
      → lookup k m ≡ none
      → (made : Result Ptr) (s' : State) → Registered cf name k m s made s'
      → Returns (Served cf others name ctx s) (share_created ctx made s')
  unfolding share_created
  created-Served room missing (err e) s' (failure, log, quiet, same) = rw same (
      returns (
        Served-refused others name ctx e s _ (inl failure) v Consistent-here settled
          (Kept-frame s s.heap s.registry s.timers log quiet.0)
          (Steady-same s (record s { effects = log }) refl refl refl quiet.1)))
  created-Served room missing (value p) s' (r, x, log, unseen, even, free, b, same) =
      let u = Vacant-of_Inv p inv free in
      let t : State = record s {
        heap = update s.heap p (some (built name r x));
        registry = some (insert k p m);
        effects = log;
      } in
      rw same (
        Returns.weaken
          (share_network-Served others name ctx p (built name r x) t v (ground arith) refl
            (Inv-new inv p (built name r x) name k x free refl keyed b refl refl refl missing)
            (λ q n far e. settled q n (ground (arith, e))) (inr (ground (arith, u.unowned), room)))
          (Served-from others name ctx s t (Kept-frame s _ _ _ _ unseen) (record {
            stable = Stable-new s.heap t.heap p free (λ q far. ground arith);
            timely = Timely-refl s.now s.timers;
            ledger = λ o.
                let filed = held-new o s.heap k p m inv.unique (built name r x) missing u.unfiled in
                ground (arith, even o, filed, ap (λ e. held s.heap (entries e) o) ready);
          })))

  acquire_found-Served :
      ((p : Ptr) → out.calloc ≡ some p → s.heap p ≡ none)
      → Returns (Served cf others name ctx s) (acquire_found cf out ctx name (lookup k m) s)
  unfolding acquire_found
  acquire_found-Served fresh = elim (Option-cases (lookup k m)) [
    | inr (p, filed) ↦ rw filed (found-Served p filed (inv.site p))
    | inl missing ↦ rw missing (elim (Bool-cases (can_add_network_to_peer ctx)) [
      | inl room ↦
          Returns.bind
            (create_and_register-Registered cf out ctx name k m s keyed ready missing fresh room)
            (created-Served room missing)
      | inr full ↦ rw (create_and_register_full cf out ctx name s full) (
          returns (
            Served-refused others name ctx internal_error s s (inr (refl, full)) v Consistent-here
              settled (Kept-frame s s.heap s.registry s.timers s.effects refl)
              (Steady-same s s refl refl refl (λ o. refl))))
    ])
  ]

-- A request for a name that makes a CFString ends normally, whatever the external calls return,
-- if memory from calloc is not in use, the registry is there or its dictionary can be made, and
-- the context and the state are in order. The state stays in order, and the networks that were
-- alive live on. A network that is handed out is alive, has that name and is owned by the peer;
-- a failure leaves the peer's context as it was and has a reason: NOT_FOUND for a name that is
-- not builtin, CREATE_FAILURE for a builtin one, or INTERNAL_ERROR if the peer has no room.
pub acquire_network-Served :
    (cf : CoreFoundation) (others : Ptr → ℕ) (out : Outcomes) (ctx : Context) (name : CString)
    (k : ℕ) (s : State)
    → IsValid ctx
    → cf.create_string name ≡ some k
    → Consistent cf (owners others ctx) s
    → Settled s.heap (owners others ctx)
    → ((p : Ptr) → out.calloc ≡ some p → s.heap p ≡ none)
    → (s.registry ≡ none → out.dictionary_create ≡ true)
    → Returns (Served cf others name ctx s) (acquire_network cf out ctx name s)
unfolding acquire_network
acquire_network-Served cf others out ctx name k s v keyed consistent settled fresh made =
    let m = entries s.registry in
    let s₁ : State = record s { registry = some m } in
    let s₂ : State = record s₁ {
      effects = released (cf_string k) ∷ created (cf_string k) ∷ s.effects;
    } in
    rw (init_registry_lem out.dictionary_create s made) (
      rw (registry_get_lem cf name k m s₁ keyed refl) (
        Returns.weaken
          (acquire_found-Served cf others out ctx name k m s₂ v keyed refl consistent settled fresh)
          (Served-from others name ctx s s₂ (Kept-frame s _ _ _ _ refl)
            (Steady-same s s₂ refl refl refl (λ o. ground arith)))))

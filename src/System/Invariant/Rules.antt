-- ===== src/System/Invariant/Rules.antt =====
-- What the clients see of the events of the connections.
use vmnet_broker.Base.{
  ℕ, ◌<◌, ◌≡◌, ◌⊎◌, refl, sym, ap, subst, ◌∙◌, fun_ext, inl, inr, true, List, [], ◌∷◌, ◌++◌, none,
  some, lookup, insert, erase, update, arith, CString, count, bytes_eq, Bool-cases, ◌==◌,
}
use vmnet_broker.Status.{Status, code}
use vmnet_broker.Machine.{
  Ptr, Network, Context, State, CoreFoundation, Reply, error, network, replies,
}
use vmnet_broker.Network.Invariant.{Heap}
use vmnet_broker.Network.Steady.{Stable}
use vmnet_broker.Network.Ownership.{owned}
use vmnet_broker.Network.Contract.{IsFailure}
use vmnet_broker.Xpc.{Request, dictionary}
use vmnet_broker.Broker.Requests.{Answer, IsAcquire}
use vmnet_broker.System.{peer, Peers}
use vmnet_broker.System.Spec.{Rule, grant, refuse, IsReason, with_name, post}
use vmnet_broker.System.View.{
  view, holds, holdings, Carried, OthersCarried, holds-Carried, holds-append, holdings-insert,
  holdings-erase, holdings-insert_same,
}
use vmnet_broker.System.Invariant.{SystemInv}
use vmnet_broker.System.Invariant.Held.{held_live, name-IsBuiltin, has_room}

-- A name that a network of the list has.
holds-mine :
    (heap : Heap) (ps : List Ptr) (p : Ptr) (n : Network) (name x : CString)
    → 0 < count p ps
    → heap p ≡ some n
    → n.name ≡ some name
    → bytes_eq name x ≡ true
    → holds heap ps x ≡ true
holds-mine heap [] p n name x mine at named same = absurd (omega arith)
holds-mine heap (q ∷ ps) p n name x mine at named same = elim (Bool-cases (q == p)) [
  | inl here ↦
      let e : q ≡ p = ground arith in
      let e' : heap q ≡ some n = ap heap e ∙ at in ground (arith, e', named, same)
  | inr far ↦ ground (arith, holds-mine heap ps p n name x (ground (arith, far)) at named same)
]

module _ {cf : CoreFoundation} {peers : Peers} {s : State} (inv : SystemInv cf peers s) where
  -- Networks that are held live on where networks live on.
  pub held-Carried :
      (heap' : Heap) (d : ℕ) (x : Context)
      → Stable s.heap heap'
      → lookup d peers ≡ some x
      → Carried s.heap heap' (owned x)
  held-Carried heap' d x stable found p mine =
      let (n, at, _, _) = held_live inv d x p found mine in (n, at, stable p n at)

  module _ (c : ℕ) (ctx : Context) (found : lookup c peers ≡ some ctx) where
    view-found : (view peers s).holdings c ≡ some (holds s.heap (owned ctx))
    view-found = ground (arith, found)

    module _ (ctx' : Context) (s' : State) (stable : Stable s.heap s'.heap) where
      mine : Carried s.heap s'.heap (owned ctx)
      mine = held-Carried s'.heap c ctx stable found

      others : OthersCarried s.heap s'.heap c peers
      others d x far e = held-Carried s'.heap d x stable e

      -- The names that the connection holds, with the one that is granted.
      holds-granted :
          (name : CString) (p : Ptr) (n : Network)
          → s'.heap p ≡ some n
          → n.name ≡ some name
          → 0 < count p (owned ctx')
          → (ctx' ≡ ctx) ⊎ (owned ctx' ≡ owned ctx ++ p ∷ [])
          → (x : CString)
          → holds s'.heap (owned ctx') x ≡ with_name (holds s.heap (owned ctx)) name x
      holds-granted name p n at named held (inl same) x =
          let e = ap (λ f. f x) (holds-Carried s.heap s'.heap (owned ctx) mine) in
          elim (Bool-cases (bytes_eq name x)) [
            | inl here ↦
                ground (arith, here, holds-mine s'.heap (owned ctx') p n name x held at named here)
            | inr far ↦ ground (arith, far, e, ap (λ r. holds s'.heap (owned r) x) same)
          ]
      holds-granted name p n at named held (inr more) x =
          let e = ap (λ f. f x) (holds-Carried s.heap s'.heap (owned ctx) mine) in
          ground (
            arith,
            e,
            ap (λ ps. holds s'.heap ps x) more,
            holds-append s'.heap (owned ctx) p x,
            at,
            named,
          )

      holdings-granted :
          (name : CString) (p : Ptr) (n : Network)
          → s'.heap p ≡ some n
          → n.name ≡ some name
          → 0 < count p (owned ctx')
          → (ctx' ≡ ctx) ⊎ (owned ctx' ≡ owned ctx ++ p ∷ [])
          → holdings s'.heap (insert c ctx' peers)
            ≡ update (holdings s.heap peers) c (some (with_name (holds s.heap (owned ctx)) name))
      holdings-granted name p n at named held gained =
          holdings-insert s.heap s'.heap peers c others ctx'
          ∙ ap (λ f. update (holdings s.heap peers) c (some f))
              (fun_ext (holds-granted name p n at named held gained))

      pub holdings-refused :
          ctx' ≡ ctx → holdings s'.heap (insert c ctx' peers) ≡ holdings s.heap peers
      holdings-refused same =
          subst (λ r. holdings s'.heap (insert c r peers) ≡ holdings s.heap peers) (sym same)
            (holdings-insert_same s.heap s'.heap peers c others ctx found mine)

      pub holdings-left : holdings s'.heap (erase c peers) ≡ update (holdings s.heap peers) c none
      holdings-left = holdings-erase s.heap s'.heap peers c others

    IsReason-of_failure :
        (event : Request) (name : CString) (e : Status)
        → IsAcquire event name
        → IsFailure name ctx e
        → IsReason event (code e)
    IsReason-of_failure event name e asked (inl refusal) = inr (name, asked, e, refusal, refl)
    IsReason-of_failure event name e asked (inr (_, full)) = cc (full, has_room inv c ctx found)

    -- A request, by its reply.
    pub Rule-Answer :
        (ctx' : Context) (s' : State) (event : Request) (r : Reply)
        → Stable s.heap s'.heap
        → SystemInv cf (insert c ctx' peers) s'
        → replies s'.effects ≡ post event c r (replies s.effects)
        → Answer event ctx ctx' s' r
        → Rule (view peers s) (peer c (dictionary event)) (view (insert c ctx' peers) s')
    Rule-Answer ctx' s' event (network x) stable inv' sent
          (name, asked, (p, n, at, named, _, held, gained)) =
        grant (holds s.heap (owned ctx)) name x view-found asked
          (name-IsBuiltin inv' p n name at named)
          (holdings-granted ctx' s' stable name p n at named held gained) sent
    Rule-Answer ctx' s' event (error e) stable inv' sent (same, inl malformed) =
        refuse e (inl malformed) (holdings-refused ctx' s' stable same) sent
    Rule-Answer ctx' s' event (error e) stable inv' sent
          (same, inr (name, asked, why, failed, is_code)) =
        refuse e
          (subst (IsReason event) (sym is_code) (IsReason-of_failure event name why asked failed))
          (holdings-refused ctx' s' stable same) sent

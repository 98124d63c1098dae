-- ===== src/Network/Reacquire.antt =====
-- A peer that acquires a network twice.
use vmnet_broker.Base.{
  ℕ, ◌<◌, ◌∷◌, ◌≡◌, refl, inl, inr, true, Option, some, none, lookup, arith, CString, count,
}
use vmnet_broker.Machine.{
  Ptr, Network, Context, State, value, created, retained, released, cf_string, serialization,
  CoreFoundation, Outcomes,
}
use vmnet_broker.Machine.Returns.{Returns, returns}
use vmnet_broker.Network.{acquire_network, acquire_found, share_network}
use vmnet_broker.Network.Invariant.{Healthy-of_Inv}
use vmnet_broker.Network.Ownership.{owned, owns}
use vmnet_broker.Network.Contract.{entries, owners, Consistent, IsSettled, Settled}
use vmnet_broker.Network.Share.{share_owned}
use vmnet_broker.Network.Acquire.{init_registry_lem, made_of_filed, registry_get_lem}

pub quiet_of_owned : (k : ℕ) (n : Network) → IsSettled k n → 0 < k → n.idle_timer ≡ none
quiet_of_owned k n (inl (unowned, _, _)) many = absurd (omega (arith, unowned))
quiet_of_owned k n (inr (_, quiet)) many = quiet

pub acquire_found-some :
    (cf : CoreFoundation) (out : Outcomes) (ctx : Context) (name : CString) (o : Option Ptr)
    (p : Ptr) (s : State)
    → o ≡ some p
    → acquire_found cf out ctx name o s ≡ share_network ctx p s
unfolding acquire_found
acquire_found-some cf out ctx name o p s e = ground (arith, e)

-- A peer that owns a network of that name gets it again, as often as it asks: the context, the
-- networks, the registry and the timers stay as they are. The state is in order.
pub acquire_network_again :
    (cf : CoreFoundation) (others : Ptr → ℕ) (out : Outcomes) (ctx : Context) (name : CString)
    (p : Ptr) (n : Network) (s : State)
    → Consistent cf (owners others ctx) s
    → Settled s.heap (owners others ctx)
    → 0 < count p (owned ctx)
    → s.heap p ≡ some n
    → n.name ≡ some name
    → Returns
        (λ (ctx', r) s'.
          (ctx' ≡ ctx)
          × ((x : ℕ) × (n.serialization ≡ some x) × (r ≡ value x))
          × (s'.heap ≡ s.heap)
          × (entries s'.registry ≡ entries s.registry)
          × (s'.timers ≡ s.timers))
        (acquire_network cf out ctx name s)
unfolding acquire_network
acquire_network_again cf others out ctx name p n s consistent settled mine at named =
    let h = Healthy-of_Inv p n consistent at in
    let keyed : cf.create_string name ≡ some h.key = ground (arith, h.keyed, h.named, named) in
    let is_owned : owns ctx p ≡ true = ground arith in
    let quiet = quiet_of_owned (owners others ctx p) n (settled p n at) (omega arith) in
    let m = entries s.registry in
    let s₁ : State = record s { registry = some m } in
    let s₂ : State = record s₁ {
      effects = released (cf_string h.key) ∷ created (cf_string h.key) ∷ s.effects;
    } in
    rw
      (init_registry_lem out.dictionary_create s
        (made_of_filed out.dictionary_create s h.key p h.filed))
      (rw (registry_get_lem cf name h.key m s₁ keyed refl) (
        rw (acquire_found-some cf out ctx name (lookup h.key m) p s₂ h.filed) (
          rw (share_owned ctx p n h.handle s₂ at h.serialized is_owned quiet) (
            returns {a = (ctx, value h.handle)}
              {s = record s₂ { effects = retained (serialization h.handle) ∷ s₂.effects }}
              (refl, (h.handle, h.serialized, refl), refl, refl, refl)))))

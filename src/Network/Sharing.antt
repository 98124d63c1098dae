-- ===== src/Network/Sharing.antt =====
-- acquire_network of a network that exists shares it.
use vmnet_broker.Base.{ℕ, ◌≡◌, refl, true, some, lookup, ◌∷◌, CString, arith}
use vmnet_broker.Machine.{
  Ptr, Network, Context, State, value, created, released, cf_string, CoreFoundation, Outcomes,
}
use vmnet_broker.Machine.Returns.{Returns}
use vmnet_broker.Network.{acquire_network, can_add_network_to_peer}
use vmnet_broker.Network.Invariant.{Healthy-of_Inv}
use vmnet_broker.Network.Ownership.{IsValid}
use vmnet_broker.Network.Contract.{entries, owners, Consistent, Settled}
use vmnet_broker.Network.Acquire.{init_registry_lem, made_of_filed, registry_get_lem}
use vmnet_broker.Network.Reacquire.{acquire_found-some, quiet_of_owned}
use vmnet_broker.Network.Grant.{share-value}

-- If there is a network of that name, a peer that has room is handed the serialization of that
-- network, whatever the external calls would return: no network is made. The context and the
-- state are in order, and the name makes a CFString.
pub acquire_network-shares :
    (cf : CoreFoundation) (others : Ptr → ℕ) (out : Outcomes) (ctx : Context) (name : CString)
    (k : ℕ) (p : Ptr) (n : Network) (x : ℕ) (s : State)
    → IsValid ctx
    → can_add_network_to_peer ctx ≡ true
    → cf.create_string name ≡ some k
    → Consistent cf (owners others ctx) s
    → Settled s.heap (owners others ctx)
    → s.heap p ≡ some n
    → n.name ≡ some name
    → n.serialization ≡ some x
    → Returns (λ a s'. a.1 ≡ value x) (acquire_network cf out ctx name s)
unfolding acquire_network
acquire_network-shares cf others out ctx name k p n x s v room keyed consistent settled at named
      serialized =
    let m = entries s.registry in
    let s₁ : State = record s { registry = some m } in
    let s₂ : State = record s₁ {
      effects = released (cf_string k) ∷ created (cf_string k) ∷ s.effects;
    } in
    let h = Healthy-of_Inv p n consistent at in
    let same : h.key ≡ k = ground (arith, h.keyed, h.named, named, keyed) in
    let filed : lookup k m ≡ some p = ground (arith, h.filed, same) in
    rw (init_registry_lem out.dictionary_create s (made_of_filed out.dictionary_create s k p filed))
      (rw (registry_get_lem cf name k m s₁ keyed refl) (
        rw (acquire_found-some cf out ctx name (lookup k m) p s₂ filed) (
          share-value ctx p n x s₂ at serialized v room λ mine.
            quiet_of_owned (owners others ctx p) n (settled p n at) (ground (arith, mine)))))

-- ===== src/System/Invariant/Held.antt =====
-- What the connections hold, in a state that satisfies the invariant.
use vmnet_broker.Base.{
  ℕ, ◌<◌, ◌≤◌, ◌≡◌, ◌⊎◌, sym, subst, ◌∙◌, inl, inr, List, [], ◌∷◌, none, some, pos, lookup, true,
  All, length-le-count, length-take_of_le, arith, CString, count,
}
use vmnet_broker.Machine.{Ptr, Network, Context, State, CoreFoundation}
use vmnet_broker.Config.{shared_name, host_name}
use vmnet_broker.Config.Builtin.{IsBuiltin}
use vmnet_broker.Network.{can_add_network_to_peer}
use vmnet_broker.Network.Invariant.{Site, Healthy-of_Inv, vacant, taken}
use vmnet_broker.Network.Ownership.{owned}
use vmnet_broker.Network.Contract.{entries, IsSettled}
use vmnet_broker.System.{Peers}
use vmnet_broker.System.Peers.{total, total-positive}
use vmnet_broker.System.Invariant.{SystemInv}

All-of_count : {P : ℕ → Type 0} (xs : List ℕ) → ((p : ℕ) → 0 < count p xs → P p) → All P xs
All-of_count [] h = tt
All-of_count (x ∷ xs) h = (h x (ground arith), All-of_count xs (λ p k. h p (ground (arith, k))))

-- The address that a name is filed under.
abbrev address : CoreFoundation → State → CString → Ptr
address cf s name = elim (cf.create_string name) [
  | none ↦ 0
  | some k ↦ elim (lookup k (entries s.registry)) [ none ↦ 0 | some p ↦ p ]
]

address_lem :
    (cf : CoreFoundation) (s : State) (name : CString) (k : ℕ) (p : Ptr)
    → cf.create_string name ≡ some k
    → lookup k (entries s.registry) ≡ some p
    → p ≡ address cf s name
address_lem cf s name k p keyed filed = ground (arith, keyed, filed)

module _ {cf : CoreFoundation} {peers : Peers} {s : State} (inv : SystemInv cf peers s) where
  pub held_live :
      (c : ℕ) (ctx : Context) (p : Ptr)
      → lookup c peers ≡ some ctx
      → 0 < count p (owned ctx)
      → (n : Network) × (s.heap p ≡ some n)
        × (n.peers ≡ pos (total peers p))
        × (n.idle_timer ≡ none)
  held_live c ctx p found has =
      live (inv.consistent.site p) (total-positive c ctx peers p inv.unique found has)
    where
      quiet : (n : Network) → 0 < total peers p → IsSettled (total peers p) n → n.idle_timer ≡ none
      quiet n many (inl (unowned, _, _)) = absurd (omega (arith, unowned))
      quiet n many (inr (_, e)) = e

      live :
          Site cf s.heap (entries s.registry) s.timers (total peers) p
          → 0 < total peers p
          → (n : Network) × (s.heap p ≡ some n)
            × (n.peers ≡ pos (total peers p))
            × (n.idle_timer ≡ none)
      live (vacant _ v) many = absurd (omega (arith, v.unowned))
      live (taken n at h) many = (n, at, h.counted, quiet n many (inv.settled p n at))

  at_address :
      (p : Ptr) (n : Network) (name : CString)
      → s.heap p ≡ some n
      → n.name ≡ some name
      → p ≡ address cf s name
  at_address p n name at named =
      let h = Healthy-of_Inv p n inv.consistent at in
      address_lem cf s name h.key p (ground (arith, h.keyed, h.named, named)) h.filed

  -- There is one network of a name at most.
  pub same_network :
      (p q : Ptr) (n m : Network) (name : CString)
      → s.heap p ≡ some n
      → s.heap q ≡ some m
      → n.name ≡ some name
      → m.name ≡ some name
      → p ≡ q
  same_network p q n m name at there named named' =
      at_address p n name at named ∙ sym (at_address q m name there named')

  pub name-IsBuiltin :
      (p : Ptr) (n : Network) (name : CString)
      → s.heap p ≡ some n
      → n.name ≡ some name
      → IsBuiltin name
  name-IsBuiltin p n name at named =
      let h = Healthy-of_Inv p n inv.consistent at in
      let same : h.name ≡ name = ground (arith, h.named, named) in subst IsBuiltin same h.builtin

  filed_address :
      (p : Ptr) (n : Network)
      → s.heap p ≡ some n
      → (p ≡ address cf s shared_name) ⊎ (p ≡ address cf s host_name)
  filed_address p n at =
      let h = Healthy-of_Inv p n inv.consistent at in
      let e = at_address p n h.name at h.named in
      elim h.builtin [
        | inl shared ↦ inl (subst (λ l. p ≡ address cf s l) shared e)
        | inr host ↦ inr (subst (λ l. p ≡ address cf s l) host e)
      ]

  pub network_count-le : (c : ℕ) (ctx : Context) → lookup c peers ≡ some ctx → ctx.network_count ≤ 2
  network_count-le c ctx found =
      let (v, _) = inv.contexts c ctx found in
      let a = address cf s shared_name in
      let b = address cf s host_name in
      omega (
        arith,
        length-le-count a b (owned ctx) (
            All-of_count (owned ctx)
              λ p has. let (n, at, _, _) = held_live c ctx p found has in filed_address p n at),
        length-take_of_le ctx.network_count ctx.networks (ground (arith, v.slots, v.within)),
        v.once a,
        v.once b,
      )

  pub has_room :
      (c : ℕ) (ctx : Context) → lookup c peers ≡ some ctx → can_add_network_to_peer ctx ≡ true
  has_room c ctx found = ground (arith, network_count-le c ctx found)

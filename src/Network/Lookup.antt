-- ===== src/Network/Lookup.antt =====
-- The registry's functions as a map from names: what registry_get finds after registry_set and
-- registry_remove.
use vmnet_broker.Base.{
  ℕ, ◌≡◌, refl, ap, sym, ◌∙◌, Option, none, some, inl, inr, CString, bytes_eq, bytes_eq→eq,
  bytes_eq_refl, lookup, insert, erase, lookup-insert, lookup-erase, arith, if◌then◌else◌,
  Bool-cases, ◌==◌, ◌∷◌,
}
use vmnet_broker.Machine.{Ptr, Network, State, ◌>>◌, CoreFoundation, created, cf_string}
use vmnet_broker.Machine.Returns
use vmnet_broker.Machine.Returns.{Returns, returns}
use vmnet_broker.Network.Registry.{free_network, registry_get, registry_set, registry_remove}
use vmnet_broker.Network.Invariant.{Entries}
use vmnet_broker.Network.Acquire.{registry_get_lem}
use vmnet_broker.Network.Remove.{free_network_lem}

-- A value of the dictionary that may be released.
abbrev IsFreeable : State → Option Ptr → Type 0
IsFreeable s found = (q : Ptr) → found ≡ some q → (n : Network) × (s.heap q ≡ some n)

free_network-registry :
    (found : Option Ptr) (s : State)
    → IsFreeable s found
    → Returns (λ _ t. t.registry ≡ s.registry) (free_network found s)
unfolding free_network
free_network-registry none s alive = returns refl
free_network-registry (some p) s alive =
    let (n, at) = alive p refl in rw (free_network_lem p n s at) (returns refl)

module _ (cf : CoreFoundation) (name : CString) (k : ℕ) (keyed : cf.create_string name ≡ some k)
    (m : Entries) (s : State) (ready : s.registry ≡ some m) where
  registry_set-Returns :
      (p : Ptr)
      → IsFreeable s (lookup k m)
      → Returns (λ _ t. t.registry ≡ some (insert k p m)) (registry_set cf name p s)
  unfolding registry_set
  registry_set-Returns p alive = rw keyed (
      rw ready (
        Returns.bind
          (free_network-registry (lookup k m)
            (record s {
              registry = some (insert k p m);
              effects = created (cf_string k) ∷ s.effects;
            })
            alive)
          λ _ t same. returns same))

  registry_remove-Returns :
      IsFreeable s (lookup k m)
      → Returns (λ _ t. t.registry ≡ some (erase k m)) (registry_remove cf name s)
  unfolding registry_remove
  registry_remove-Returns alive = rw keyed (
      rw ready (
        Returns.bind
          (free_network-registry (lookup k m)
            (record s { registry = some (erase k m); effects = created (cf_string k) ∷ s.effects })
            alive)
          λ _ t same. returns same))

  registry_get-Returns : Returns (λ found _. found ≡ lookup k m) (registry_get cf name s)
  registry_get-Returns = rw (registry_get_lem cf name k m s keyed ready) (returns refl)

-- Names make the same key exactly if they are equal.
same_key :
    (cf : CoreFoundation) (name x : CString) (k j : ℕ)
    → cf.create_string name ≡ some k
    → cf.create_string x ≡ some j
    → (k == j) ≡ bytes_eq name x
same_key cf name x k j keyed keyed' = elim (Bool-cases (bytes_eq name x)) [
  | inl same ↦
      let e : some k ≡ some j =
        sym keyed ∙ ap cf.create_string (bytes_eq→eq name x same) ∙ keyed' in
      ground (arith, same, e)
  | inr other ↦ elim (Bool-cases (k == j)) [
    | inl equal ↦
        let e : k ≡ j = ground arith in
        let e' : name ≡ x = cf.create_string_injective name x j (keyed ∙ ap some e) keyed' in
        cc (ap (bytes_eq name) (sym e'), bytes_eq_refl name)
    | inr far ↦ ground (arith, other, far)
  ]
]

-- Every entry of the registry is a network that is alive.
abbrev pub IsLive : State → Entries → Type 0
IsLive s m = (j : ℕ) (q : Ptr) → lookup j m ≡ some q → (n : Network) × (s.heap q ≡ some n)

module _ (cf : CoreFoundation) (name x : CString) (k j : ℕ) (m : Entries) (s : State)
    (keyed : cf.create_string name ≡ some k) (keyed' : cf.create_string x ≡ some j)
    (ready : s.registry ≡ some m) (live : IsLive s m) where
  -- After registry_set of a name, registry_get of that name finds the network that was set, and
  -- of any other name what it found before. The names make CFStrings, and the registry holds
  -- networks that are alive.
  registry_get-set :
      (p : Ptr)
      → Returns
          (λ before _.
            Returns
              (λ after _. after ≡ (if bytes_eq name x then some p else before))
              ((registry_set cf name p >> registry_get cf x) s))
          (registry_get cf x s)
  registry_get-set p = Returns.weaken (registry_get-Returns cf x j keyed' m s ready) λ before _ old.
      Returns.bind (registry_set-Returns cf name k keyed m s ready p (live k)) λ _ t filed.
        Returns.weaken (registry_get-Returns cf x j keyed' (insert k p m) t filed) λ after _ new.
          ground (arith, old, new, lookup-insert k j p m, same_key cf name x k j keyed keyed')

  -- After registry_remove of a name, registry_get of that name finds nothing, and of any other
  -- name what it found before. The names make CFStrings, and the registry holds networks that
  -- are alive.
  registry_get-remove :
      Returns
        (λ before _.
          Returns
            (λ after _. after ≡ (if bytes_eq name x then none else before))
            ((registry_remove cf name >> registry_get cf x) s))
        (registry_get cf x s)
  registry_get-remove =
      Returns.weaken (registry_get-Returns cf x j keyed' m s ready) λ before _ old.
        Returns.bind (registry_remove-Returns cf name k keyed m s ready (live k)) λ _ t filed.
          Returns.weaken (registry_get-Returns cf x j keyed' (erase k m) t filed) λ after _ new.
            ground (arith, old, new, lookup-erase k j m, same_key cf name x k j keyed keyed')

  -- After registry_set of a name, registry_get of that name finds the network that was set, and
  -- after registry_remove it finds nothing; of any other name it finds what it found before.
  -- The names make CFStrings, and the registry holds networks that are alive.
  pub registry_get_after :
      (p : Ptr)
      → Returns
          (λ before _.
            Returns
              (λ after _. after ≡ (if bytes_eq name x then some p else before))
              ((registry_set cf name p >> registry_get cf x) s)
            × Returns
                (λ after _. after ≡ (if bytes_eq name x then none else before))
                ((registry_remove cf name >> registry_get cf x) s))
          (registry_get cf x s)
  registry_get_after p =
      Returns.weaken (Returns.both (registry_get-set p) registry_get-remove) λ before _ h. h

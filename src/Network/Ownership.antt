-- ===== src/Network/Ownership.antt =====
-- `networks` and `network_count` of a context: the array and the counter stand for a list without
-- repetitions.
use vmnet_broker.Base.{
  Bool-cases, Bool, false, sym, ◌<◌, ◌⊎◌, ℕ, zero, suc, ◌+◌, ◌≤◌, ◌≡◌, refl, subst, ap, ◌∙◌, true,
  some, List, [], ◌∷◌, ◌++◌, incr, length, get_elem?, drop, drop_of_none, drop_of_some,
  Option-cases, inl, inr, set, take, count, length-set, take-set, count-append, update, arith, ltb,
  ◌==◌, if◌then◌else◌,
}
use vmnet_broker.Machine.{Ptr, Network, Context, max_peer_networks, State, ok}
use vmnet_broker.Network.{
  owns_from, peer_owns_network, can_add_network_to_peer, add_network_to_peer,
}

-- The slots in use.
abbrev pub owned : Context → List Ptr
owned ctx = take ctx.network_count ctx.networks

pub record IsValid (ctx : Context) : Type 0 where
  pub slots : length ctx.networks ≡ max_peer_networks
  pub within : ctx.network_count ≤ max_peer_networks
  pub once : (p : Ptr) → count p (owned ctx) ≤ 1

-- One of the slots in use holds the network.
abbrev pub owns : Context → Ptr → Bool
owns ctx p = ltb 0 (count p (owned ctx))

module _ (ctx : Context) (p : Ptr) (s : State) where
  -- The loop stays within the array, or ends before it leaves it.
  owns_from_lem :
      (rounds i : ℕ)
      → (rounds ≤ length (drop i ctx.networks)) ⊎ (0 < count p (take rounds (drop i ctx.networks)))
      → owns_from rounds i ctx p s ≡ ok (ltb 0 (count p (take rounds (drop i ctx.networks)))) s
  unfolding owns_from
  owns_from_lem zero i h = refl
  owns_from_lem (suc rounds) i h = elim (Option-cases (get_elem? ctx.networks i)) [
    | inl e ↦
        let gone = drop_of_none i ctx.networks e in
        elim h [
          | inl within ↦ absurd (ground (arith, within, ap length gone))
          | inr found ↦ absurd (ground (arith, found, gone))
        ]
    | inr (q, e) ↦
        let next = drop_of_some i ctx.networks q e in
        elim (Bool-cases (q == p)) [
          | inl here ↦ ground (arith, e, next, here)
          | inr far ↦
              let more : (rounds ≤ length (drop (suc i) ctx.networks))
                  ⊎ (0 < count p (take rounds (drop (suc i) ctx.networks))) =
                elim h [
                  | inl within ↦ inl (ground (arith, within, ap length next))
                  | inr found ↦ inr (ground (arith, found, next, far))
                ] in
              let e' : i + 1 ≡ suc i = omega arith in
              let ih =
                subst
                  (λ k.
                    owns_from rounds k ctx p s
                    ≡ ok (ltb 0 (count p (take rounds (drop (suc i) ctx.networks)))) s)
                  (sym e') (owns_from_lem rounds (suc i) more) in
              ground (arith, e, next, far, ih)
        ]
  ]

  -- A network that is owned is found, and in a valid context one that is not is not.
  pub peer_owns_network-found : owns ctx p ≡ true → peer_owns_network ctx p s ≡ ok true s
  unfolding peer_owns_network
  peer_owns_network-found mine =
      owns_from_lem ctx.network_count 0 (inr (ground (arith, mine))) ∙ ap (λ b. ok b s) mine

  pub peer_owns_network-absent :
      IsValid ctx → owns ctx p ≡ false → peer_owns_network ctx p s ≡ ok false s
  unfolding peer_owns_network
  peer_owns_network-absent v none_of =
      owns_from_lem ctx.network_count 0 (inl (omega (arith, v.slots, v.within)))
      ∙ ap (λ b. ok b s) none_of

-- The context with one more slot in use.
abbrev pub with_network : Context → Ptr → Context
with_network ctx p = record ctx {
  networks = set ctx.networks ctx.network_count p;
  network_count = ctx.network_count + 1;
}

module _ (ctx : Context) (p : Ptr) (v : IsValid ctx)
    (room : can_add_network_to_peer ctx ≡ true) where
  pub owned-with_network : owned (with_network ctx p) ≡ owned ctx ++ p ∷ []
  owned-with_network =
      let e : ctx.network_count + 1 ≡ suc ctx.network_count = omega arith in
      rw e (take-set ctx.network_count ctx.networks p (ground (arith, v.slots)))

  pub count-with_network :
      (q : Ptr)
      → count q (owned (with_network ctx p)) ≡ count q (owned ctx) + (if p == q then 1 else 0)
  count-with_network q =
      omega (arith, ap (count q) owned-with_network, count-append q (owned ctx) (p ∷ []))

  pub with_network-IsValid : count p (owned ctx) ≡ 0 → IsValid (with_network ctx p)
  with_network-IsValid absent = record {
    slots = length-set ctx.networks ctx.network_count p ∙ v.slots;
    within = ground arith;
    once = λ q. ground (arith, count-with_network q, v.once q);
  }

  pub add_network_to_peer_lem :
      (n : Network) (s : State)
      → s.heap p ≡ some n
      → add_network_to_peer ctx p s
        ≡ ok
            (with_network ctx p)
            (record s { heap = update s.heap p (some (record n { peers = incr n.peers })) })
  unfolding add_network_to_peer
  add_network_to_peer_lem n s at =
      let bound : ltb ctx.network_count (length ctx.networks) ≡ true = ground (arith, v.slots) in
      ground (arith, bound, at)

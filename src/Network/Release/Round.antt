-- ===== src/Network/Release/Round.antt =====
-- One round of release_peer_networks, which takes the last slot: the network has one peer less, and
-- waits for its removal if that was the last one.
use vmnet_broker.Base.{
  ℕ, zero, suc, ◌+◌, ◌<◌, ◌≡◌, ◌≢◌, refl, sym, ap, subst, ◌∙◌, inl, inr, Option, none, some, [],
  ◌∷◌, pos, lookup, lookup-insert, update, arith, Bool-cases, ◌==◌, count, count-append, take-suc,
  get_elem?,
}
use vmnet_broker.Machine.{Ptr, Network, Context, State, CoreFoundation}
use vmnet_broker.Machine.Returns.{Returns, returns}
use vmnet_broker.Network.{release_network}
use vmnet_broker.Network.Invariant.{Timers, Healthy, Site, vacant, taken}
use vmnet_broker.Network.Invariant.Changes.{Inv-peers, Inv-arm}
use vmnet_broker.Network.Ownership.{owned, IsValid}
use vmnet_broker.Machine.Ledger.{Ledger-insert}
use vmnet_broker.Machine.Ledger.Stock.{held-at}
use vmnet_broker.Network.Steady.{Steady, Stable-at, Timely-refl, Timely-insert}
use vmnet_broker.Network.Contract.{
  entries, owners, Consistent, IsSettled, Settled, Kept, Kept-frame,
}
use vmnet_broker.Network.Release.Runs.{removal_timer, release_busy, release_last}

-- dispatch gives each network that the peer owns a source of its own, which is new.
pub record HasSources (sources : Ptr → Option ℕ) (timers : Timers) (ctx : Context) : Type 0 where
  pub given :
      (q : Ptr)
      → 0 < count q (owned ctx)
      → (t : ℕ) × (sources q ≡ some t) × (lookup t timers ≡ none)
  pub distinct : (q r : Ptr) (t : ℕ) → sources q ≡ some t → sources r ≡ some t → q ≡ r

-- What the loop leaves: the networks counted by `own`, and no timer but those of the sources.
pub record Released (cf : CoreFoundation) (own : Ptr → ℕ) (sources : Ptr → Option ℕ) (s s' : State)
    : Type 0 where
  pub consistent : Consistent cf own s'
  pub settled : Settled s'.heap own
  pub kept : Kept s s'
  pub steady : Steady s s'
  pub timers :
      (t : ℕ)
      → lookup t s.timers ≡ none
      → ((q : Ptr) → sources q ≢ some t)
      → lookup t s'.timers ≡ none

-- The context with `k` slots in use.
abbrev pub with_count : Context → ℕ → Context
with_count ctx k = record ctx { network_count = k }

-- One round, which takes the last slot.
module _ (others : Ptr → ℕ) (ctx : Context) (k : ℕ) (p : Ptr)
    (slot : get_elem? ctx.networks k ≡ some p) where
  count-with_count :
      (q : Ptr)
      → count q (owned (with_count ctx (suc k)))
        ≡ count q (owned (with_count ctx k)) + count q (p ∷ [])
  count-with_count q =
      ap (count q) (take-suc k ctx.networks p slot)
      ∙ count-append q (owned (with_count ctx k)) (p ∷ [])

  own_here : owners others (with_count ctx (suc k)) p ≡ suc (owners others (with_count ctx k) p)
  own_here = ground (arith, count-with_count p)

  own_off :
      (q : Ptr)
      → q ≢ p
      → owners others (with_count ctx k) q ≡ owners others (with_count ctx (suc k)) q
  own_off q far = ground (arith, count-with_count q)

  pub with_count-IsValid : IsValid (with_count ctx (suc k)) → IsValid (with_count ctx k)
  with_count-IsValid v = record {
    slots = v.slots;
    within = omega (arith, v.within);
    once = λ q. omega (arith, v.once q, count-with_count q);
  }

  module _ {cf : CoreFoundation} (sources : Ptr → Option ℕ) (s : State)
      (v : IsValid (with_count ctx (suc k)))
      (consistent : Consistent cf (owners others (with_count ctx (suc k))) s)
      (settled : Settled s.heap (owners others (with_count ctx (suc k))))
      (given : HasSources sources s.timers (with_count ctx (suc k))) where
    abbrev Round : Unit {0} → State → Type 0
    Round _ s' =
        Released cf (owners others (with_count ctx k)) sources s s'
        × HasSources sources s'.timers (with_count ctx k)

    Settled-round :
        (n' : Network) (heap : Ptr → Option Network)
        → IsSettled (owners others (with_count ctx k) p) n'
        → heap p ≡ some n'
        → ((q : Ptr) → q ≢ p → heap q ≡ s.heap q)
        → Settled heap (owners others (with_count ctx k))
    Settled-round n' heap here there off q m e = elim (Bool-cases (q == p)) [
      | inl same ↦
          let e' : q ≡ p = ground arith in
          let e'' : n' ≡ m = ground (arith, there, e, e') in
          subst (λ r. IsSettled (owners others (with_count ctx k) r) m) (sym e')
            (subst (IsSettled (owners others (with_count ctx k) p)) e'' here)
      | inr other ↦
          subst (λ j. IsSettled j m) (sym (own_off q (ground arith)))
            (settled q m (sym (off q (ground arith)) ∙ e))
    ]

    module _ (n : Network) (at : s.heap p ≡ some n)
        (h : Healthy cf (entries s.registry) s.timers (owners others (with_count ctx (suc k))) p n)
        (quiet : n.idle_timer ≡ none) where
      Round-busy :
          (j : ℕ)
          → owners others (with_count ctx k) p ≡ suc j
          → Returns Round (release_network sources ctx k s)
      Round-busy j own =
          rw
            (release_busy sources ctx k p n s slot at j
              (h.counted ∙ ap pos (own_here ∙ ap suc own)))
            (returns (
              record {
                consistent =
                    Inv-peers consistent p n at (owners others (with_count ctx k)) (pos (suc j))
                      own_off (ap pos (sym own));
                settled =
                    Settled-round (record n { peers = pos (suc j) }) _
                      (inr (omega (arith, own), quiet)) (ground arith) (ground arith);
                kept = Kept-frame s _ _ _ _ refl;
                steady = record {
                  stable =
                      Stable-at s.heap _ p n (record n { peers = pos (suc j) }) at (ground arith)
                        refl refl refl (λ q far. ground arith);
                  timely = Timely-refl s.now s.timers;
                  ledger = λ o. ground (
                    arith,
                    held-at o s.heap (update s.heap p (some (record n { peers = pos (suc j) })))
                        (entries s.registry) p n (record n { peers = pos (suc j) }) at
                        (ground arith) refl refl (λ q far. ground arith),
                  );
                };
                timers = λ t absent other. absent;
              },
              record {
                given = λ q mine. given.given q (omega (arith, count-with_count q));
                distinct = given.distinct;
              },
            ))

      Round-last :
          (t : ℕ)
          → owners others (with_count ctx k) p ≡ 0
          → sources p ≡ some t
          → lookup t s.timers ≡ none
          → Returns Round (release_network sources ctx k s)
      Round-last t own has absent =
          let mid : Network = record n { peers = pos 0 } in
          let gone : count p (owned (with_count ctx k)) ≡ 0 = omega (arith, own) in
          rw
            (release_last sources ctx k p n s slot at t (h.counted ∙ ap pos (own_here ∙ ap suc own))
              quiet has)
            (returns (
              record {
                consistent =
                    Inv-arm
                      (Inv-peers consistent p n at (owners others (with_count ctx k)) (pos 0)
                        own_off (ap pos (sym own)))
                      p mid (ground arith) t (removal_timer s p) quiet absent refl;
                settled =
                    Settled-round (record mid { idle_timer = some t }) _ (inl (own, t, refl))
                      (ground arith) (ground arith);
                kept = Kept-frame s _ _ _ _ refl;
                steady = record {
                  stable =
                      Stable-at s.heap _ p n (record mid { idle_timer = some t }) at (ground arith)
                        refl refl refl (λ q far. ground arith);
                  timely = Timely-insert s.now t (removal_timer s p) s.timers refl;
                  ledger = λ o. ground (
                    arith,
                    Ledger-insert t (removal_timer s p) s.timers s.effects s.effects absent
                        (λ x. refl) o,
                    held-at o s.heap
                        (update (update s.heap p (some mid)) p
                          (some (record n { peers = pos 0; idle_timer = some t })))
                        (entries s.registry) p n (record mid { idle_timer = some t }) at
                        (ground arith) refl refl (λ q far. ground arith),
                  );
                };
                timers = λ u free other.
                    ground (arith, lookup-insert t u (removal_timer s p) s.timers, other p);
              },
              record {
                given = λ q mine.
                    let (u, has', free) = given.given q (omega (arith, count-with_count q)) in
                    let apart : t ≢ u = λ e.
                      let same = given.distinct p q t has (has' ∙ ap some (sym e)) in
                      omega (arith, ap (λ r. count r (owned (with_count ctx k))) same) in
                    (u, has', ground (arith, lookup-insert t u (removal_timer s p) s.timers));
                distinct = given.distinct;
              },
            ))

      Round-at : Returns Round (release_network sources ctx k s)
      Round-at = go _ refl
        where
          go :
              (own : ℕ)
              → owners others (with_count ctx k) p ≡ own
              → Returns Round (release_network sources ctx k s)
          go zero own =
              let (t, has, absent) = given.given p (ground (arith, count-with_count p)) in
              Round-last t own has absent
          go (suc j) own = Round-busy j own

    quiet_of_held :
        (n : Network) → IsSettled (owners others (with_count ctx (suc k)) p) n → n.idle_timer ≡ none
    quiet_of_held n (inl (unowned, _, _)) = absurd (omega (arith, own_here))
    quiet_of_held n (inr (_, quiet)) = quiet

    pub release_network-Round :
        Site cf s.heap (entries s.registry) s.timers (owners others (with_count ctx (suc k))) p
        → Returns Round (release_network sources ctx k s)
    release_network-Round (vacant _ u) = absurd (omega (arith, u.unowned, own_here))
    release_network-Round (taken n at h) = Round-at n at h (quiet_of_held n (settled p n at))

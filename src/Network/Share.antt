-- ===== src/Network/Share.antt =====
-- share_network: the part of acquire_network that finds the network in the registry.
pub mod Runs
use vmnet_broker.Base.{
  ℕ, suc, ◌<◌, ◌≡◌, ◌≢◌, refl, sym, ap, subst, ◌∙◌, ◌⊎◌, inl, inr, true, false, none, some, List,
  ◌∷◌, incr, incr-pos, CString, count, update, arith, Option-cases, Bool-cases, ◌==◌,
}
use vmnet_broker.Status.{internal_error}
use vmnet_broker.Machine.{
  replies, Ptr, Network, Context, State, value, err, released, cancelled, serialization,
  CoreFoundation, Effect,
}
use vmnet_broker.Machine.Returns.{Returns, returns}
use vmnet_broker.Network.{can_add_network_to_peer, share_network}
use vmnet_broker.Network.Invariant.{Healthy-of_Inv, Inv, Heap}
use vmnet_broker.Network.Invariant.Changes.{Inv-peers, Inv-disarm}
use vmnet_broker.Network.Ownership.{
  owned, owned-with_network, owns, IsValid, with_network, count-with_network, with_network-IsValid,
}
use vmnet_broker.Machine.Ledger.{Even, Ledger, Ledger-erase, Ledger-held, in_use, held}
use vmnet_broker.Machine.Ledger.Stock.{held-at}
use vmnet_broker.Network.Steady.{Timely, Timely-refl, Timely-erase, Stable-at, Steady-same}
use vmnet_broker.Network.Contract.{
  owners, Consistent, IsSettled, Settled, Kept, Kept-frame, entries, Served,
}
pub use vmnet_broker.Network.Share.Runs.{share_owned, share_new, share_idle}
use vmnet_broker.Network.Share.Runs.{share_full, counted}

module _ {cf : CoreFoundation} (others : Ptr → ℕ) (name : CString) (ctx : Context) (p : Ptr)
    (n : Network) (s : State) (v : IsValid ctx) (at : s.heap p ≡ some n)
    (named : n.name ≡ some name) (consistent : Consistent cf (owners others ctx) s)
    (settled_off : (q : Ptr) (m : Network)
      → q ≢ p
      → s.heap q ≡ some m
      → IsSettled (owners others ctx q) m) where
  Settled-here : IsSettled (owners others ctx p) n → Settled s.heap (owners others ctx)
  Settled-here here q m e = elim (Bool-cases (q == p)) [
    | inl same ↦
        let e' : q ≡ p = ground arith in
        let e'' : n ≡ m = ground (arith, at, e, e') in
        subst (λ r. IsSettled (owners others ctx r) m) (sym e')
          (subst (IsSettled (owners others ctx p)) e'' here)
    | inr other ↦ settled_off q m (ground arith) e
  ]

  Served-owned :
      (x : ℕ) (e : List Effect)
      → replies e ≡ replies s.effects
      → Even (released (serialization x) ∷ e) s.effects
      → 0 < count p (owned ctx)
      → n.serialization ≡ some x
      → IsSettled (owners others ctx p) n
      → Served cf others name ctx s (ctx, value x) (record s { effects = e })
  Served-owned x e unseen even mine serialized here = record {
    consistent = consistent;
    settled = Settled-here here;
    valid = v;
    connection = refl;
    kept = Kept-frame s s.heap s.registry s.timers e unseen;
    steady =
        Steady-same s (record s { effects = released (serialization x) ∷ e }) refl refl refl even;
    outcome = (p, n, at, named, serialized, mine, inl refl);
  }

  Served-full :
      can_add_network_to_peer ctx ≡ false
      → IsSettled (owners others ctx p) n
      → Served cf others name ctx s (ctx, err internal_error) s
  Served-full full here = record {
    consistent = consistent;
    settled = Settled-here here;
    valid = v;
    connection = refl;
    kept = Kept-frame s s.heap s.registry s.timers s.effects refl;
    steady = Steady-same s s refl refl refl (λ o. refl);
    outcome = (refl, inr (refl, full));
  }

  module _ (absent : count p (owned ctx) ≡ 0) (room : can_add_network_to_peer ctx ≡ true) where
    own_after : Ptr → ℕ
    own_after = owners others (with_network ctx p)

    own_here : own_after p ≡ suc (owners others ctx p)
    unfolding own_after
    own_here = ground (arith, count-with_network ctx p v room p)

    own_off : (q : Ptr) → q ≢ p → own_after q ≡ owners others ctx q
    unfolding own_after
    own_off q far = ground (arith, count-with_network ctx p v room q)

    consistent_counted :
        Inv cf
          (update s.heap p (some (record n { peers = incr n.peers })))
          (entries s.registry)
          s.timers
          s.idle_timer
          own_after
    consistent_counted =
        let h = Healthy-of_Inv p n consistent at in
        Inv-peers consistent p n at own_after (incr n.peers) own_off
          (ground (arith, h.counted, incr-pos (owners others ctx p), own_here))

    Settled-new :
        (n' : Network) (heap : Heap)
        → n'.idle_timer ≡ none
        → heap p ≡ some n'
        → ((q : Ptr) → q ≢ p → heap q ≡ s.heap q)
        → Settled heap own_after
    Settled-new n' heap quiet there off q m e = elim (Bool-cases (q == p)) [
      | inl same ↦
          let e' : q ≡ p = ground arith in
          let e'' : n' ≡ m = ground (arith, there, e, e') in
          inr (ground (arith, own_here, ap own_after e'), ap (λ r. r.idle_timer) (sym e'') ∙ quiet)
      | inr other ↦
          subst (λ k. IsSettled k m) (sym (own_off q (ground arith)))
            (settled_off q m (ground arith) (sym (off q (ground arith)) ∙ e))
    ]

    Served-new :
        (x : ℕ) (n' : Network) (s' : State)
        → n.serialization ≡ some x
        → n'.name ≡ n.name
        → n'.ref ≡ n.ref
        → n'.serialization ≡ n.serialization
        → n'.idle_timer ≡ none
        → s'.heap p ≡ some n'
        → ((q : Ptr) → q ≢ p → s'.heap q ≡ s.heap q)
        → Kept s s'
        → Timely s.now s.timers s'.timers
        → Ledger s.effects
            (in_use s.timers)
            (released (serialization x) ∷ s'.effects)
            (in_use s'.timers)
        → entries s'.registry ≡ entries s.registry
        → Consistent cf own_after s'
        → Served cf others name ctx s (with_network ctx p, value x) s'
    unfolding own_after
    Served-new x n' s' serialized same_name same_ref same_x quiet there off kept timely ledger filed
          after =
        record {
          consistent = after;
          settled = Settled-new n' s'.heap quiet there off;
          valid = with_network-IsValid ctx p v room absent;
          connection = refl;
          kept = kept;
          steady = record {
            stable = Stable-at s.heap s'.heap p n n' at there same_name same_ref same_x off;
            timely = timely;
            ledger =
                Ledger-held s.effects (released (serialization x) ∷ s'.effects) s.timers s'.timers
                  (held s.heap (entries s.registry)) (held s'.heap (entries s'.registry)) ledger
                  (λ o.
                    ap (λ m. held s'.heap m o) filed
                    ∙ held-at o s.heap s'.heap (entries s.registry) p n n' at there same_ref same_x
                        off);
          };
          outcome = (
            p,
            n',
            there,
            same_name ∙ named,
            same_x ∙ serialized,
            ground (arith, count-with_network ctx p v room p),
            inr (owned-with_network ctx p v room),
          );
        }

    -- A peer that does not own the network yet, and has room: the network is counted and its timer
    -- cancelled.
    share_room : owns ctx p ≡ false → Returns (Served cf others name ctx s) (share_network ctx p s)
    unfolding own_after
    share_room free =
        let h = Healthy-of_Inv p n consistent at in
        elim (Option-cases n.idle_timer) [
          | inl quiet ↦ rw (share_new ctx p n h.handle s at h.serialized v free room quiet) (
              returns (
                Served-new h.handle (record n { peers = incr n.peers }) _ h.serialized refl refl
                  refl quiet (ground arith) (ground arith) (Kept-frame s _ _ _ _ refl)
                  (Timely-refl s.now s.timers) (λ o. ground arith) refl consistent_counted))
          | inr (t, set) ↦ rw (share_idle ctx p n h.handle s at h.serialized v free room t set) (
              returns (
                Served-new h.handle (record n { peers = incr n.peers; idle_timer = none }) _
                  h.serialized refl refl refl refl (ground arith) (ground arith)
                  (Kept-frame s _ _ _ _ refl) (Timely-erase s.now t s.timers)
                  (let run = h.clocked t set in
                    λ o. ground (
                      arith,
                      Ledger-erase t run.entry s.timers s.effects s.effects run.scheduled
                          (λ x. refl) o,
                    ))
                  refl
                  (Inv-disarm consistent_counted p (record n { peers = incr n.peers })
                    (ground arith) t set)))
        ]

  Settled_of_owned :
      0 < count p (owned ctx)
      → IsSettled (owners others ctx p) n
        ⊎ ((count p (owned ctx) ≡ 0) × (can_add_network_to_peer ctx ≡ true))
      → IsSettled (owners others ctx p) n
  Settled_of_owned mine (inl here) = here
  Settled_of_owned mine (inr (absent, room)) = absurd (omega arith)

  Settled_of_full :
      can_add_network_to_peer ctx ≡ false
      → IsSettled (owners others ctx p) n
        ⊎ ((count p (owned ctx) ≡ 0) × (can_add_network_to_peer ctx ≡ true))
      → IsSettled (owners others ctx p) n
  Settled_of_full full (inl here) = here
  Settled_of_full full (inr (absent, room)) = absurd (ground (arith, full, room))

  quiet_of_owned : 0 < count p (owned ctx) → IsSettled (owners others ctx p) n → n.idle_timer ≡ none
  quiet_of_owned mine (inl (unowned, _, _)) = absurd (omega arith)
  quiet_of_owned mine (inr (_, quiet)) = quiet

  -- The network is settled, or it is new: then the peer has room for it.
  pub share_network-Served :
      IsSettled (owners others ctx p) n
        ⊎ ((count p (owned ctx) ≡ 0) × (can_add_network_to_peer ctx ≡ true))
      → Returns (Served cf others name ctx s) (share_network ctx p s)
  share_network-Served here = elim (Bool-cases (owns ctx p)) [
    | inl is_owned ↦
        let h = Healthy-of_Inv p n consistent at in
        let mine : 0 < count p (owned ctx) = ground (arith, is_owned) in
        let set = Settled_of_owned mine here in
        rw (share_owned ctx p n h.handle s at h.serialized is_owned (quiet_of_owned mine set))
          (returns (Served-owned h.handle _ refl (λ o. ground arith) mine h.serialized set))
    | inr free ↦
        let absent : count p (owned ctx) ≡ 0 = ground (arith, free) in
        elim (Bool-cases (can_add_network_to_peer ctx)) [
          | inl room ↦ share_room absent room free
          | inr full ↦
              rw (share_full ctx p s v free full)
                (returns (Served-full full (Settled_of_full full here)))
        ]
  ]

-- ===== src/Network/Invariant/Changes.antt =====
-- The elementary changes of broker/network.c keep the invariant: count the peers of a network, set
-- and cancel its timer, add a network to the registry, and free one.
pub mod Clock
use vmnet_broker.Base.{
  ℕ, ◌≡◌, ◌≢◌, refl, sym, ap, ◌∙◌, ◌↔◌, inl, inr, Option, none, some, ℤ, pos, CString, lookup,
  insert, erase, lookup-insert, lookup-erase, erase-Unique, insert-Unique, update, arith, ◌==◌,
  ==_iff, subst, Bool-cases,
}
use vmnet_broker.Machine.{Ptr, Network, Handler, remove_network, shutdown, Timer, CoreFoundation}
use vmnet_broker.Config.Builtin.{IsBuiltin}
use vmnet_broker.Network.Invariant.{
  Heap, Entries, Timers, Running, Site, vacant, taken, Inv, Frame, Inv-local, Healthy-of_Inv,
  Vacant-of_Inv, Healthy-change,
}
use vmnet_broker.Network.Invariant.Changes.Clock.{
  Running-insert, Running-insert_self, Running-insert_only, Running-erase, Running-of_erase,
}

module _ {cf : CoreFoundation} {heap : Heap} {entries : Entries} {timers : Timers} {idle : Option ℕ}
    {own : Ptr → ℕ} (inv : Inv cf heap entries timers idle own) where
  module _ (p : Ptr) (n : Network) (at : heap p ≡ some n) where
    -- `net->peers` with the owners that it counts
    pub Inv-peers :
        (own' : Ptr → ℕ) (peers : ℤ)
        → ((q : Ptr) → q ≢ p → own' q ≡ own q)
        → peers ≡ pos (own' p)
        → Inv cf (update heap p (some (record n { peers = peers }))) entries timers idle own'
    Inv-peers own' peers off counted =
        let h = Healthy-of_Inv p n inv at in
        let f : Frame p heap (update heap p (some (record n { peers = peers }))) entries entries
            timers timers own own' =
          record {
            heap_off = λ q far. ground arith;
            own_off = off;
            entries_off = λ k q far. ((λ e. e), (λ e. e));
            timers_off = λ t h' other. ((λ r. r), (λ r. r));
          } in
        Inv-local f inv inv.unique (
          taken (record n { peers = peers }) (ground arith)
            (Healthy-change h refl refl counted (h.clocked) (h.clocked_only)))

    -- remove_later
    pub Inv-arm :
        (t : ℕ) (d : Timer)
        → n.idle_timer ≡ none
        → lookup t timers ≡ none
        → d.handler ≡ remove_network p
        → Inv cf
            (update heap p (some (record n { idle_timer = some t })))
            entries
            (insert t d timers)
            idle
            own
    Inv-arm t d quiet fresh handled =
        let h = Healthy-of_Inv p n inv at in
        let f : Frame p heap (update heap p (some (record n { idle_timer = some t }))) entries
            entries timers (insert t d timers) own own =
          record {
            heap_off = λ q far. ground arith;
            own_off = λ q far. refl;
            entries_off = λ k q far. ((λ e. e), (λ e. e));
            timers_off = λ u h' other. Running-insert t d timers fresh u h' (rw handled other);
          } in
        Inv-local f inv inv.unique (
          taken (record n { idle_timer = some t }) (ground arith)
            (Healthy-change h refl refl h.counted
              (λ u e.
                let same : t ≡ u = ground (arith, e) in
                subst (λ v. Running (insert t d timers) v (remove_network p)) same
                  (subst (Running (insert t d timers) t) handled (Running-insert_self t d timers)))
              (λ u r. ap some (
                Running-insert_only t d timers u
                  (λ v rest. let e = h.clocked_only v (subst (Running timers v) handled rest) in cc)
                  (subst (Running (insert t d timers) u) (sym handled) r)))))

    -- cancel_remove_later
    pub Inv-disarm :
        (t : ℕ)
        → n.idle_timer ≡ some t
        → Inv cf
            (update heap p (some (record n { idle_timer = none })))
            entries
            (erase t timers)
            idle
            own
    Inv-disarm t set =
        let h = Healthy-of_Inv p n inv at in
        let f : Frame p heap (update heap p (some (record n { idle_timer = none }))) entries entries
            timers (erase t timers) own own =
          record {
            heap_off = λ q far. ground arith;
            own_off = λ q far. refl;
            entries_off = λ k q far. ((λ e. e), (λ e. e));
            timers_off = Running-erase t timers (remove_network p) (h.clocked t set);
          } in
        Inv-local f inv inv.unique (
          taken (record n { idle_timer = none }) (ground arith)
            (Healthy-change h refl refl h.counted (λ u e. cc)
              (λ u r.
                let (ne, old) = Running-of_erase t timers u (remove_network p) r in
                absurd (ground (arith, h.clocked_only u old)))))

    -- registry_remove, of a network that no peer owns and whose timer is set
    pub Inv-free :
        (t k : ℕ)
        → n.idle_timer ≡ some t
        → lookup k entries ≡ some p
        → own p ≡ 0
        → Inv cf (update heap p none) (erase k entries) (erase t timers) idle own
    Inv-free t k set filed unowned =
        let h = Healthy-of_Inv p n inv at in
        let f : Frame p heap (update heap p none) entries (erase k entries) timers (erase t timers)
            own own =
          record {
            heap_off = λ q far. ground arith;
            own_off = λ q far. refl;
            entries_off = λ j q far. (
              (λ e. ground (arith, lookup-erase k j entries)),
              (λ e. ground (arith, lookup-erase k j entries)),
            );
            timers_off = Running-erase t timers (remove_network p) (h.clocked t set);
          } in
        Inv-local f inv (erase-Unique k entries inv.unique) (
          vacant (ground arith) (record {
            unfiled = λ j e.
                ground (arith, lookup-erase k j entries, h.filed_once j, h.filed_once k filed);
            unowned = unowned;
            unclocked = λ u r.
                let (ne, old) = Running-of_erase t timers u (remove_network p) r in
                ground (arith, h.clocked_only u old);
          }))

  -- registry_set, for a name that is not in the registry and a network that is new
  pub Inv-new :
      (p : Ptr) (n : Network) (name : CString) (k x : ℕ)
      → heap p ≡ none
      → n.name ≡ some name
      → cf.create_string name ≡ some k
      → IsBuiltin name
      → n.serialization ≡ some x
      → n.peers ≡ pos 0
      → n.idle_timer ≡ none
      → lookup k entries ≡ none
      → Inv cf (update heap p (some n)) (insert k p entries) timers idle own
  Inv-new p n name k x free named keyed builtin serialized peers quiet missing =
      let v = Vacant-of_Inv p inv free in
      let f : Frame p heap (update heap p (some n)) entries (insert k p entries) timers timers own
          own =
        record {
          heap_off = λ q far. ground arith;
          own_off = λ q far. refl;
          entries_off = λ j q far. (
            (λ e. ground (arith, lookup-insert k j p entries)),
            (λ e. ground (arith, lookup-insert k j p entries)),
          );
          timers_off = λ t h' other. ((λ r. r), (λ r. r));
        } in
      Inv-local f inv (insert-Unique k p entries inv.unique) (
        taken n (ground arith) (record {
          name = name;
          key = k;
          handle = x;
          named = named;
          keyed = keyed;
          builtin = builtin;
          serialized = serialized;
          filed = ground (arith, lookup-insert k k p entries);
          filed_once = λ j e. ground (arith, lookup-insert k j p entries, v.unfiled j);
          counted = ground (arith, v.unowned);
          clocked = λ t e. cc;
          clocked_only = λ t r. absurd (v.unclocked t r);
        }))

-- shutdown_later and its cancellation change the broker's timer alone.
module _ {cf : CoreFoundation} {heap : Heap} {entries : Entries} {timers : Timers} {idle : Option ℕ}
    {own : Ptr → ℕ} (inv : Inv cf heap entries timers idle own) where
  Site-timers :
      (timers' : Timers)
      → ((t : ℕ) (p : Ptr)
          → Running timers t (remove_network p) ↔ Running timers' t (remove_network p))
      → (p : Ptr) → Site cf heap entries timers own p
      → Site cf heap entries timers' own p
  Site-timers timers' same p (vacant gone v) = vacant gone (record {
    unfiled = v.unfiled;
    unowned = v.unowned;
    unclocked = λ t r. v.unclocked t ((same t p).1 r);
  })
  Site-timers timers' same p (taken n at h) = taken n at (
      Healthy-change h refl refl h.counted (λ t e. (same t p).0 (h.clocked t e))
        (λ t r. h.clocked_only t ((same t p).1 r)))

  pub Inv-idle :
      (t : ℕ) (d : Timer)
      → idle ≡ none
      → lookup t timers ≡ none
      → d.handler ≡ shutdown
      → Inv cf heap entries (insert t d timers) (some t) own
  Inv-idle t d quiet fresh handled = record {
    unique = inv.unique;
    site = λ p.
        Site-timers (insert t d timers)
          (λ u q. Running-insert t d timers fresh u (remove_network q) (λ c. cc (c ∙ handled))) p
          (inv.site p);
    idle_set = λ u e.
        let same : t ≡ u = ground (arith, e) in
        subst (λ v. Running (insert t d timers) v shutdown) same
          (subst (Running (insert t d timers) t) handled (Running-insert_self t d timers));
    idle_only = λ u r. ap some (
        Running-insert_only t d timers u
          (λ v rest. let e = inv.idle_only v (subst (Running timers v) handled rest) in cc)
          (subst (Running (insert t d timers) u) (sym handled) r));
  }

  pub Inv-awake : (t : ℕ) → idle ≡ some t → Inv cf heap entries (erase t timers) none own
  Inv-awake t set = record {
    unique = inv.unique;
    site = λ p.
        Site-timers (erase t timers)
          (λ u q.
            Running-erase t timers shutdown (inv.idle_set t set) u (remove_network q) (λ c. cc c))
          p (inv.site p);
    idle_set = λ u e. cc;
    idle_only = λ u r.
        let (ne, old) = Running-of_erase t timers u shutdown r in
        absurd (ground (arith, inv.idle_only u old));
  }

-- ===== src/Network/Remove.antt =====
-- free_network, and the two ways in which networks end: the idle timer of one, and the shutdown.
use vmnet_broker.Base.{
  ℕ, ◌+◌, if◌then◌else◌, ◌≡◌, ◌≢◌, sym, ap, subst, inl, inr, Option, none, some, List, ◌∷◌, erase,
  lookup, update, arith, CString,
}
use vmnet_broker.Machine.{
  replies, Ptr, Network, State, ok, created, released, cancelled, cf_string, source, network_ref,
  serialization, remove_network, CoreFoundation, Effect,
}
use vmnet_broker.Machine.Returns.{Returns, returns}
use vmnet_broker.Network.Registry.{free_network, registry_remove}
use vmnet_broker.Network.Invariant.{Running, Inv, Entries, Timers, Healthy-of_Inv}
use vmnet_broker.Network.Invariant.Changes.{Inv-free}
use vmnet_broker.Machine.Ledger.{
  Ledger, Tracked, is_of, obtained, given_back, in_use, in_use-erase, held, uses, stock, entries,
}
use vmnet_broker.Machine.Ledger.Stock.{held-gone}
use vmnet_broker.Network.Steady.{Timely, Timely-erase}
use vmnet_broker.Network.Contract.{Consistent, IsSettled, Settled, Kept, Kept-frame}

-- The timers that are left.
abbrev pub without_timer : Option ℕ → Timers → Timers
without_timer none timers = timers
without_timer (some t) timers = erase t timers

-- What free_network logs: no reply.
abbrev pub log_ref : Option ℕ → List Effect → List Effect
log_ref none log = log
log_ref (some r) log = released (network_ref r) ∷ log

abbrev pub log_serialization : Option ℕ → List Effect → List Effect
log_serialization none log = log
log_serialization (some x) log = released (serialization x) ∷ log

abbrev pub log_timer : Option ℕ → List Effect → List Effect
log_timer none log = log
log_timer (some t) log = released (source t) ∷ cancelled t ∷ log

pub replies-log :
    (t x r : Option ℕ) (log : List Effect)
    → replies (log_timer t (log_serialization x (log_ref r log))) ≡ replies log
replies-log t x r log = ground arith

-- What it acquires and gives back of the objects that are tracked: the source of the timer.
pub obtained-log :
    (t x r : Option ℕ) (log : List Effect) (o : Tracked)
    → obtained o (log_timer t (log_serialization x (log_ref r log))) ≡ obtained o log
obtained-log t x r log o = ground arith

pub given_back-log :
    (t : ℕ) (n : Network) (log : List Effect) (o : Tracked)
    → given_back o (log_timer (some t) (log_serialization n.serialization (log_ref n.ref log)))
      ≡ given_back o log + uses (some n) o + (if is_of (source t) o then 1 else 0)
given_back-log t n log o = ground arith

pub given_back-no_timer :
    (n : Network) (log : List Effect) (o : Tracked)
    → given_back o (log_serialization n.serialization (log_ref n.ref log))
      ≡ given_back o log + uses (some n) o
given_back-no_timer n log o = ground arith

pub free_network_lem :
    (p : Ptr) (n : Network) (s : State)
    → s.heap p ≡ some n
    → free_network (some p) s
      ≡ ok tt (record s {
        heap = update s.heap p none;
        timers = without_timer n.idle_timer s.timers;
        effects =
            log_timer n.idle_timer (log_serialization n.serialization (log_ref n.ref s.effects));
      })
unfolding free_network
free_network_lem p n s at = ground (arith, at)

module _ (cf : CoreFoundation) (name : CString) (k : ℕ) (p : Ptr) (n : Network) (m : Entries)
    (s : State) (keyed : cf.create_string name ≡ some k) (ready : s.registry ≡ some m)
    (filed : lookup k m ≡ some p) (at : s.heap p ≡ some n) where
  abbrev unfiled : State
  unfiled = record s { registry = some (erase k m); effects = created (cf_string k) ∷ s.effects }

  registry_remove_lem :
      registry_remove cf name s
      ≡ ok tt (record s {
        heap = update s.heap p none;
        registry = some (erase k m);
        timers = without_timer n.idle_timer s.timers;
        effects =
            released (cf_string k)
            ∷ log_timer n.idle_timer
                (log_serialization n.serialization (log_ref n.ref unfiled.effects));
      })
  unfolding registry_remove
  registry_remove_lem = ground (arith, keyed, ready, filed, free_network_lem p n unfiled at)

-- The network at `p` is gone, and nothing refers to it.
pub record Gone (cf : CoreFoundation) (own : Ptr → ℕ) (p : Ptr) (s s' : State) : Type 0 where
  pub consistent : Consistent cf own s'
  pub settled : Settled s'.heap own
  pub kept : Kept s s'
  pub freed : s'.heap p ≡ none
  pub others : (q : Ptr) → q ≢ p → s'.heap q ≡ s.heap q
  pub timely : Timely s.now s.timers s'.timers
  pub ledger : Ledger s.effects (stock s) s'.effects (stock s')
  pub unowned : own p ≡ 0

module _ {cf : CoreFoundation} {own : Ptr → ℕ} (p : Ptr) (n : Network) (m : Entries) (s : State)
    (ready : s.registry ≡ some m) (at : s.heap p ≡ some n)
    (consistent : Inv cf s.heap m s.timers s.idle_timer own) (settled : Settled s.heap own) where
  unowned_of_timer : (t : ℕ) → n.idle_timer ≡ some t → IsSettled (own p) n → own p ≡ 0
  unowned_of_timer t set (inl (unowned, _, _)) = unowned
  unowned_of_timer t set (inr (_, quiet)) = cc

  Ledger-freed :
      (t k : ℕ)
      → Running s.timers t (remove_network p)
      → lookup k m ≡ some p
      → ((j : ℕ) → lookup j m ≡ some p → j ≡ k)
      → Ledger s.effects
          (stock s)
          (released (cf_string k)
            ∷ log_timer (some t) (
                log_serialization n.serialization
                  (log_ref n.ref (created (cf_string k) ∷ s.effects))))
          (λ o. in_use (erase t s.timers) o + held (update s.heap p none) (erase k m) o)
  Ledger-freed t k run filed once o = ground (
    arith,
    obtained-log (some t) n.serialization n.ref (created (cf_string k) ∷ s.effects) o,
    given_back-log t n (created (cf_string k) ∷ s.effects) o,
    in_use-erase t run.entry s.timers o run.scheduled,
    held-gone o s.heap k p m consistent.unique filed once,
    ap (λ e. held s.heap (entries e) o) ready,
    ap (λ x. uses x o) at,
  )

  -- In a state in order, a network whose timer is set is removed by its name: it is freed,
  -- every other network stays as it is, and the state stays in order.
  pub registry_remove-Gone :
      (t : ℕ) (name : CString)
      → n.idle_timer ≡ some t
      → n.name ≡ some name
      → Returns (λ _. Gone cf own p s) (registry_remove cf name s)
  registry_remove-Gone t name set named =
      let h = Healthy-of_Inv p n consistent at in
      let keyed : cf.create_string name ≡ some h.key = ground (arith, h.keyed, h.named, named) in
      rw (registry_remove_lem cf name h.key p n m s keyed ready h.filed at) (
        returns (record {
          consistent =
              subst (λ ts. Inv cf (update s.heap p none) (erase h.key m) ts s.idle_timer own)
                (sym (ap (λ o. without_timer o s.timers) set))
                (Inv-free consistent p n at t h.key set h.filed
                  (unowned_of_timer t set (settled p n at)));
          settled = λ q r e. settled q r (ground (arith, e));
          kept = Kept-frame s _ _ _ _ (replies-log n.idle_timer n.serialization n.ref _);
          freed = ground arith;
          others = λ q far. ground arith;
          timely =
              subst (λ o. Timely s.now s.timers (without_timer o s.timers)) (sym set)
                (Timely-erase s.now t s.timers);
          ledger =
              subst
                (λ i.
                  Ledger s.effects (stock s)
                    (released (cf_string h.key)
                      ∷ log_timer i (
                          log_serialization n.serialization
                            (log_ref n.ref (created (cf_string h.key) ∷ s.effects))))
                    (λ o.
                      in_use (without_timer i s.timers) o
                      + held (update s.heap p none) (erase h.key m) o))
                (sym set) (Ledger-freed t h.key (h.clocked t set) h.filed h.filed_once);
          unowned = unowned_of_timer t set (settled p n at);
        }))

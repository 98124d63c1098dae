-- ===== src/Network/Invariant/Alike.antt =====
-- The invariant of states that differ in the order of the dictionary.
use vmnet_broker.Base.{ℕ, ◌≡◌, ◌∙◌, sym, subst, Option, inl, inr, lookup, Unique}
use vmnet_broker.Machine.{Ptr, Network, State, CoreFoundation}
use vmnet_broker.Machine.Alike.{Alike, SameDictionary}
use vmnet_broker.Network.Invariant.{Heap, Entries, Timers, Healthy, Site, vacant, taken, Inv}
use vmnet_broker.Network.Contract.{entries, Consistent}

module _ {cf : CoreFoundation} {m m' : Entries} {timers : Timers} {own : Ptr → ℕ}
    (same : (k : ℕ) → lookup k m' ≡ lookup k m) where
  Healthy-same :
      {p : Ptr} {n : Network} → Healthy cf m timers own p n → Healthy cf m' timers own p n
  Healthy-same h = record {
    name = h.name;
    key = h.key;
    handle = h.handle;
    named = h.named;
    keyed = h.keyed;
    builtin = h.builtin;
    serialized = h.serialized;
    filed = same h.key ∙ h.filed;
    filed_once = λ k e. h.filed_once k (sym (same k) ∙ e);
    counted = h.counted;
    clocked = h.clocked;
    clocked_only = h.clocked_only;
  }

  Site-same : {heap : Heap} {p : Ptr} → Site cf heap m timers own p → Site cf heap m' timers own p
  Site-same (vacant gone v) = vacant gone (record {
    unfiled = λ k e. v.unfiled k (sym (same k) ∙ e);
    unowned = v.unowned;
    unclocked = v.unclocked;
  })
  Site-same (taken n at h) = taken n at (Healthy-same h)

  Inv-same :
      {heap : Heap} {idle : Option ℕ}
      → Unique m'
      → Inv cf heap m timers idle own
      → Inv cf heap m' timers idle own
  Inv-same unique inv = record {
    unique = unique;
    site = λ p. Site-same (inv.site p);
    idle_set = inv.idle_set;
    idle_only = inv.idle_only;
  }

Inv-SameDictionary :
    {cf : CoreFoundation} {heap : Heap} {timers : Timers} {idle : Option ℕ} {own : Ptr → ℕ}
    (r r' : Option Entries)
    → SameDictionary r r'
    → Inv cf heap (entries r) timers idle own
    → Inv cf heap (entries r') timers idle own
Inv-SameDictionary {cf} {heap} {timers} {idle} {own} r r' (inl (e, e')) inv =
    subst (λ x. Inv cf heap (entries x) timers idle own) (e ∙ sym e') inv
Inv-SameDictionary {cf} {heap} {timers} {idle} {own} r r' (inr (m, m', e, e', unique, same)) inv =
    subst (λ x. Inv cf heap (entries x) timers idle own) (sym e')
      (Inv-same same unique (subst (λ x. Inv cf heap (entries x) timers idle own) e inv))

pub Consistent-Alike :
    {cf : CoreFoundation} {own : Ptr → ℕ} {s s' : State}
    → Alike s s'
    → Consistent cf own s
    → Consistent cf own s'
Consistent-Alike {cf} {own} {s} {s'} a consistent =
    subst (Consistent cf own) (sym a.rest)
      (Inv-SameDictionary s.registry a.registry a.same consistent)

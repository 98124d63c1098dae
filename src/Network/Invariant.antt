-- ===== src/Network/Invariant.antt =====
-- What ties the networks on the heap, the registry and the timers of broker/network.c together.
pub mod Changes
pub mod Alike
use vmnet_broker.Base.{
  ℕ, ◌≡◌, ◌≢◌, ◌↔◌, inl, inr, Option, none, some, List, pos, CString, lookup, Unique, arith, ◌∙◌,
  subst, Bool-cases, ◌==◌, ==_iff,
}
use vmnet_broker.Machine.{Ptr, Network, Handler, remove_network, shutdown, Timer, CoreFoundation}
use vmnet_broker.Config.Builtin.{IsBuiltin}

abbrev pub Heap : Type 0
Heap = Ptr → Option Network

abbrev pub Entries : Type 0
Entries = List (ℕ × Ptr)

abbrev pub Timers : Type 0
Timers = List (ℕ × Timer)

-- The timer `t` is set for the handler `h`.
pub record Running (timers : Timers) (t : ℕ) (h : Handler) : Type 0 where
  pub entry : Timer
  pub scheduled : lookup t timers ≡ some entry
  pub handled : entry.handler ≡ h

-- A live network: named, filed in the registry under its name alone, serialized, its peers counted
-- by `own`, and its timer set exactly if it has one.
pub record Healthy (cf : CoreFoundation) (entries : Entries) (timers : Timers) (own : Ptr → ℕ)
    (p : Ptr) (n : Network) : Type 0 where
  pub name : CString
  pub key : ℕ
  pub handle : ℕ
  pub named : n.name ≡ some name
  pub keyed : cf.create_string name ≡ some key
  pub builtin : IsBuiltin name
  pub serialized : n.serialization ≡ some handle
  pub filed : lookup key entries ≡ some p
  pub filed_once : (k : ℕ) → lookup k entries ≡ some p → k ≡ key
  pub counted : n.peers ≡ pos (own p)
  pub clocked : (t : ℕ) → n.idle_timer ≡ some t → Running timers t (remove_network p)
  pub clocked_only : (t : ℕ) → Running timers t (remove_network p) → n.idle_timer ≡ some t

-- An address with no network, which nothing refers to.
pub record Vacant (entries : Entries) (timers : Timers) (own : Ptr → ℕ) (p : Ptr) : Type 0 where
  pub unfiled : (k : ℕ) → lookup k entries ≢ some p
  pub unowned : own p ≡ 0
  pub unclocked : (t : ℕ) → ¬ Running timers t (remove_network p)

pub data Site (cf : CoreFoundation) (heap : Heap) (entries : Entries) (timers : Timers)
    (own : Ptr → ℕ) (p : Ptr) : Type 0 where
  vacant : heap p ≡ none → Vacant entries timers own p → Site cf heap entries timers own p
  taken :
      (n : Network)
      → heap p ≡ some n
      → Healthy cf entries timers own p n
      → Site cf heap entries timers own p

-- `own p` is how many contexts own the network at `p`; `idle` is the broker's timer.
pub record Inv (cf : CoreFoundation) (heap : Heap) (entries : Entries) (timers : Timers)
    (idle : Option ℕ) (own : Ptr → ℕ) : Type 0 where
  pub unique : Unique entries
  pub site : (p : Ptr) → Site cf heap entries timers own p
  pub idle_set : (t : ℕ) → idle ≡ some t → Running timers t shutdown
  pub idle_only : (t : ℕ) → Running timers t shutdown → idle ≡ some t

-- What a change at the address `p` leaves alone.
pub record Frame (p : Ptr) (heap heap' : Heap) (entries entries' : Entries)
    (timers timers' : Timers) (own own' : Ptr → ℕ) : Type 0 where
  pub heap_off : (q : Ptr) → q ≢ p → heap' q ≡ heap q
  pub own_off : (q : Ptr) → q ≢ p → own' q ≡ own q
  pub entries_off :
      (k : ℕ) (q : Ptr) → q ≢ p → (lookup k entries ≡ some q) ↔ (lookup k entries' ≡ some q)
  pub timers_off :
      (t : ℕ) (h : Handler) → h ≢ remove_network p → Running timers t h ↔ Running timers' t h

module _ {cf : CoreFoundation} {heap : Heap} {entries : Entries} {timers : Timers}
    {own : Ptr → ℕ} where
  Healthy-at :
      {p : Ptr} (n : Network)
      → Site cf heap entries timers own p
      → heap p ≡ some n
      → Healthy cf entries timers own p n
  Healthy-at n (vacant gone v) at = cc
  Healthy-at {p} n (taken m found h) at =
      let e : m ≡ n = ground (arith, found, at) in subst (Healthy cf entries timers own p) e h

  Vacant-at :
      {p : Ptr} → Site cf heap entries timers own p → heap p ≡ none → Vacant entries timers own p
  Vacant-at (vacant gone v) free = v
  Vacant-at (taken n found h) free = cc

  module _ {heap' : Heap} {entries' : Entries} {timers' : Timers} {own' : Ptr → ℕ} {p : Ptr}
      (f : Frame p heap heap' entries entries' timers timers' own own') where
    Site-off :
        (q : Ptr)
        → q ≢ p
        → Site cf heap entries timers own q
        → Site cf heap' entries' timers' own' q
    Site-off q far (vacant gone v) = vacant (f.heap_off q far ∙ gone) (record {
      unfiled = λ k e. v.unfiled k ((f.entries_off k q far).1 e);
      unowned = f.own_off q far ∙ v.unowned;
      unclocked = λ t r. v.unclocked t ((f.timers_off t (remove_network q) λ c. far (cc c)).1 r);
    })
    Site-off q far (taken n found h) = taken n (f.heap_off q far ∙ found) (record {
      name = h.name;
      key = h.key;
      handle = h.handle;
      named = h.named;
      keyed = h.keyed;
      builtin = h.builtin;
      serialized = h.serialized;
      filed = (f.entries_off h.key q far).0 h.filed;
      filed_once = λ k e. h.filed_once k ((f.entries_off k q far).1 e);
      counted = ground (arith, h.counted, f.own_off q far);
      clocked = λ t e. (f.timers_off t (remove_network q) (λ c. far (cc c))).0 (h.clocked t e);
      clocked_only =
          λ t r. h.clocked_only t ((f.timers_off t (remove_network q) (λ c. far (cc c))).1 r);
    })

    -- A change at `p` keeps the invariant if it leaves `p` in order.
    pub Inv-local :
        {idle : Option ℕ}
        → Inv cf heap entries timers idle own
        → Unique entries'
        → Site cf heap' entries' timers' own' p
        → Inv cf heap' entries' timers' idle own'
    Inv-local inv u s = record {
      unique = u;
      site = λ q. elim (Bool-cases (q == p)) [
        | inl here ↦ rw ((==_iff q p).0 here) s
        | inr there ↦ Site-off q (ground arith) (inv.site q)
      ];
      idle_set = λ t e. (f.timers_off t shutdown (λ c. cc)).0 (inv.idle_set t e);
      idle_only = λ t r. inv.idle_only t ((f.timers_off t shutdown (λ c. cc)).1 r);
    }

pub Healthy-of_Inv :
    {cf : CoreFoundation} {heap : Heap} {entries : Entries} {timers : Timers} {idle : Option ℕ}
    {own : Ptr → ℕ} (p : Ptr) (n : Network)
    → Inv cf heap entries timers idle own
    → heap p ≡ some n
    → Healthy cf entries timers own p n
Healthy-of_Inv p n inv at = Healthy-at n (inv.site p) at

pub Vacant-of_Inv :
    {cf : CoreFoundation} {heap : Heap} {entries : Entries} {timers : Timers} {idle : Option ℕ}
    {own : Ptr → ℕ} (p : Ptr)
    → Inv cf heap entries timers idle own
    → heap p ≡ none
    → Vacant entries timers own p
Vacant-of_Inv p inv free = Vacant-at (inv.site p) free

-- A network whose name, serialization and place in the registry are as before.
pub Healthy-change :
    {cf : CoreFoundation} {entries : Entries} {timers timers' : Timers} {own own' : Ptr → ℕ}
    {p : Ptr} {n n' : Network}
    → Healthy cf entries timers own p n
    → n'.name ≡ n.name
    → n'.serialization ≡ n.serialization
    → n'.peers ≡ pos (own' p)
    → ((t : ℕ) → n'.idle_timer ≡ some t → Running timers' t (remove_network p))
    → ((t : ℕ) → Running timers' t (remove_network p) → n'.idle_timer ≡ some t)
    → Healthy cf entries timers' own' p n'
Healthy-change h name serialization counted clocked clocked_only = record {
  name = h.name;
  key = h.key;
  handle = h.handle;
  named = name ∙ h.named;
  keyed = h.keyed;
  builtin = h.builtin;
  serialized = serialization ∙ h.serialized;
  filed = h.filed;
  filed_once = h.filed_once;
  counted = counted;
  clocked = clocked;
  clocked_only = clocked_only;
}

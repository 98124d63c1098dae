-- ===== src/Network/Shutdown/Living.antt =====
-- The registry's entries at a shutdown: each has a live network of its own.
use vmnet_broker.Base.{
  ℕ, ◌≡◌, ◌≢◌, refl, ap, Option, inl, inr, none, some, [], ◌∷◌, lookup, lookup-erase, update, arith,
  Bool-cases, ◌==◌, Unique,
}
use vmnet_broker.Machine.{Ptr, Network, remove_network}
use vmnet_broker.Network.Invariant.{Heap, Entries, Timers, Running}
use vmnet_broker.Network.Remove.{without_timer}

abbrev pub IsFiled : Ptr → Entries → Type 0
IsFiled p m = (k : ℕ) × (lookup k m ≡ some p)

-- Each entry has a live network of its own, whose timer is set for its removal.
abbrev pub Alive : Heap → Timers → Entries → Type 0
Alive heap timers [] = Unit
Alive heap timers ((k, p) ∷ m) =
    (n : Network) × (heap p ≡ some n)
    × (lookup k m ≡ none)
    × (¬ IsFiled p m)
    × ((t : ℕ) → n.idle_timer ≡ some t → Running timers t (remove_network p))
    × Alive heap timers m

pub IsFiled-cons :
    (k p q : ℕ) (m : Entries) → lookup k m ≡ none → IsFiled q m → IsFiled q ((k, p) ∷ m)
unfolding lookup
IsFiled-cons k p q m absent (j, e) = (j, ground (arith, absent, e))

-- The timer of another network is still set.
Running-left :
    (i : Option ℕ) (timers : Timers) (p q t : ℕ)
    → ((u : ℕ) → i ≡ some u → Running timers u (remove_network p))
    → p ≢ q
    → Running timers t (remove_network q)
    → Running (without_timer i timers) t (remove_network q)
Running-left none timers p q t clocked far r = r
Running-left (some u) timers p q t clocked far r =
    let r' = clocked u refl in
    record {
      entry = r.entry;
      scheduled = elim (Bool-cases (u == t)) [
        | inl here ↦
            let e : u ≡ t = ground arith in
            let d : r'.entry ≡ r.entry =
              ground (arith, r'.scheduled, ap (λ x. lookup x timers) e, r.scheduled) in
            absurd (far (cc (d, r'.handled, r.handled)))
        | inr off ↦ ground (arith, lookup-erase u t timers, off, r.scheduled)
      ];
      handled = r.handled;
    }

pub Alive-freed :
    (heap : Heap) (timers : Timers) (m : Entries) (p : Ptr) (i : Option ℕ)
    → Alive heap timers m
    → ¬ IsFiled p m
    → ((u : ℕ) → i ≡ some u → Running timers u (remove_network p))
    → Alive (update heap p none) (without_timer i timers) m
unfolding lookup
Alive-freed heap timers [] p i a out mine = tt
Alive-freed heap timers ((k, q) ∷ m) p i (n, at, absent, apart, clocked, rest) out mine =
    let far : p ≢ q = λ e. out (k, ground (arith, e)) in
    (
      n,
      ground (arith, at, far),
      absent,
      apart,
      (λ t set. Running-left i timers p q t mine far (clocked t set)),
      Alive-freed heap timers m p i rest (λ f. out (IsFiled-cons k q p m absent f)) mine,
    )

pub Alive-Unique : (heap : Heap) (timers : Timers) (m : Entries) → Alive heap timers m → Unique m
Alive-Unique heap timers [] a = tt
Alive-Unique heap timers ((k, p) ∷ m) (n, at, absent, apart, clocked, rest) =
    (absent, Alive-Unique heap timers m rest)

IsFiled-later :
    (k p : ℕ) (m : Entries)
    → lookup k m ≡ none
    → (j q : ℕ) → lookup j m ≡ some q
    → lookup j ((k, p) ∷ m) ≡ some q
unfolding lookup
IsFiled-later k p m absent j q e = ground (arith, absent, e)

pub Alive-of_Unique :
    (heap : Heap) (timers : Timers) (m : Entries)
    → Unique m
    → ((k : ℕ) (p : Ptr)
        → lookup k m ≡ some p
        → (n : Network) × (heap p ≡ some n)
          × ((t : ℕ) → n.idle_timer ≡ some t → Running timers t (remove_network p)))
    → ((j k : ℕ) (p : Ptr) → lookup j m ≡ some p → lookup k m ≡ some p → j ≡ k)
    → Alive heap timers m
unfolding lookup
Alive-of_Unique heap timers [] u live once = tt
Alive-of_Unique heap timers ((k, p) ∷ m) (absent, u) live once =
    let deeper = IsFiled-later k p m absent in
    let (n, at, clocked) = live k p (ground arith) in
    (
      n,
      at,
      absent,
      (λ (j, e). ground (arith, e, absent, once j k p (deeper j p e) (ground arith))),
      clocked,
      Alive-of_Unique heap timers m u (λ j q e. live j q (deeper j q e))
          (λ i j q e f. once i j q (deeper i q e) (deeper j q f)),
    )

-- ===== src/System/Balance.antt =====
-- What the broker creates, it releases.
use vmnet_broker.Base.{◌+◌, ◌≡◌, refl, subst, true, none, [], lookup, arith}
use vmnet_broker.Machine.{Ptr, State, Run, exited, CoreFoundation}
use vmnet_broker.Broker.{Env}
use vmnet_broker.Machine.Ledger.{
  Tracked, key, config, answer, source_of, ref_of, handle_of, obtained, given_back, in_use, stock,
  of_network, in_use-of_network,
}
use vmnet_broker.System.{Event, Peers, initial, step}
use vmnet_broker.System.Invariant.{Allowed, Progress, continues, ends, breaks}
use vmnet_broker.System.Safety.{Reach, start, next, Reach-SystemInv, step-Moved, step-Progress}

initial_in_use : (o : Tracked) → in_use [] o ≡ 0
unfolding lookup
initial_in_use (source_of t) = refl
initial_in_use (key k) = refl
initial_in_use (config c) = refl
initial_in_use (answer c) = refl
initial_in_use (ref_of r) = refl
initial_in_use (handle_of x) = refl

-- In every state that the broker comes to, each CFString key, each vmnet configuration and each
-- reply was released exactly as often as it was created; each timer's source as often as it was
-- created, less once if the timer is set; each vmnet reference and each serialization as often
-- as it was created or retained, less once for each network of the registry that has it: none
-- leaks, and none is released twice.
pub obtained-given_back :
    {cf : CoreFoundation} {peers : Peers} {s : State} (o : Tracked)
    → Reach cf peers s
    → obtained o s.effects ≡ given_back o s.effects + stock s o
unfolding initial
obtained-given_back o start = omega (arith, initial_in_use o)
obtained-given_back o (next env e before can run) = omega (
  arith,
  obtained-given_back o before,
  (step-Moved env e (Reach-SystemInv before) can run).1.ledger o,
)

-- When the process ends with success, by an event that may come in a state that the broker
-- comes to, each vmnet reference and each serialization was released exactly as often as it was
-- created or retained, and no network is left.
pub exit-released :
    {cf : CoreFoundation} {peers : Peers} {s s' : State} (env : Env) (e : Event) (o : Tracked)
    → Reach cf peers s
    → Allowed cf env peers s e
    → step cf env e peers s ≡ exited 0 s'
    → of_network o ≡ true
    → (obtained o s'.effects ≡ given_back o s'.effects) × ((p : Ptr) → s'.heap p ≡ none)
exit-released {cf} {peers} {s} {s'} env e o reach can run h =
    settled (step cf env e peers s) run (step-Progress cf env peers s e (Reach-SystemInv reach) can)
  where
    settled :
        (r : Run Peers)
        → r ≡ exited 0 s'
        → Progress cf peers s e r
        → (obtained o s'.effects ≡ given_back o s'.effects) × ((p : Ptr) → s'.heap p ≡ none)
    settled r same (continues inv moved) = cc same
    settled r same (ends {s' = t} alone end gone paid) =
        let same_state : t ≡ s' = ground (arith, same) in
        let (kept, back) = paid o h in
        let even : obtained o t.effects ≡ given_back o t.effects =
          omega (arith, kept, back, obtained-given_back o reach, in_use-of_network s.timers o h) in
        subst (λ u. (obtained o u.effects ≡ given_back o u.effects) × ((p : Ptr) → u.heap p ≡ none))
          same_state (even, gone)
    settled r same (breaks failed) = cc same

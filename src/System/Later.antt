-- ===== src/System/Later.antt =====
-- The runs of the broker from a state that it has come to.
use vmnet_broker.Base.{ℕ, ◌*◌, ◌≤◌, ◌≡◌, arith}
use vmnet_broker.Machine.{State, ok, CoreFoundation, idle_timeout_sec, nsec_per_sec}
use vmnet_broker.Broker.{Env}
use vmnet_broker.System.{Event, Peers, step}
use vmnet_broker.System.Invariant.{SystemInv, Allowed}
use vmnet_broker.System.Safety.{Reach, next, step-Moved}

-- In nanoseconds.
abbrev pub idle_timeout : ℕ
idle_timeout = idle_timeout_sec * nsec_per_sec

-- The states that the broker comes to from a given one.
pub data Later (cf : CoreFoundation) (peers : Peers) (s : State) : Peers → State → Type 0 where
  now : Later cf peers s peers s
  later :
      {peers' peers'' : Peers} {s' s'' : State} (env : Env) (e : Event)
      → Later cf peers s peers' s'
      → Allowed cf env peers' s' e
      → step cf env e peers' s' ≡ ok peers'' s''
      → Later cf peers s peers'' s''

module _ {cf : CoreFoundation} {peers : Peers} {s : State} (inv : SystemInv cf peers s) where
  pub Later-SystemInv :
      {peers' : Peers} {s' : State} → Later cf peers s peers' s' → SystemInv cf peers' s'
  Later-SystemInv now = inv
  Later-SystemInv (later env e l can run) = (step-Moved env e (Later-SystemInv l) can run).0

  pub Later-clock : {peers' : Peers} {s' : State} → Later cf peers s peers' s' → s.now ≤ s'.now
  Later-clock now = omega arith
  Later-clock (later env e l can run) =
      omega (arith, Later-clock l, (step-Moved env e (Later-SystemInv l) can run).1.clock)

module _ {cf : CoreFoundation} {peers : Peers} {s : State} (reach : Reach cf peers s) where
  pub Reach-Later : {peers' : Peers} {s' : State} → Later cf peers s peers' s' → Reach cf peers' s'
  Reach-Later now = reach
  Reach-Later (later env e l can run) = next env e (Reach-Later l) can run

-- ===== src/System/Uptime.antt =====
-- How long the broker lives: at least the idle timeout after a peer was connected.
use vmnet_broker.Base.{
  ℕ, ◌+◌, ◌<◌, ◌≤◌, ◌≡◌, ◌≢◌, sym, ap, ◌∙◌, inl, inr, some, lookup, arith, length,
}
use vmnet_broker.Machine.{State, Run, exited, CoreFoundation, Timer}
use vmnet_broker.Broker.{Env}
use vmnet_broker.System.{Event, Peers, step, signal}
use vmnet_broker.System.Invariant.{
  SystemInv, Moved, Allowed, IsEnd, Progress, continues, ends, breaks,
}
use vmnet_broker.System.Safety.{Reach, Reach-SystemInv, step-Moved, step-Progress}
use vmnet_broker.System.Later.{idle_timeout, Later, now, later, Later-SystemInv, Later-clock}

-- The broker's own timer, if it is set, is not due before a time.
abbrev IsAwake : ℕ → State → Type 0
IsAwake until s =
    (t : ℕ) (d : Timer) → s.idle_timer ≡ some t → lookup t s.timers ≡ some d → until ≤ d.deadline

module _ {cf : CoreFoundation} {peers peers' : Peers} {s s' : State} (e : Event) (until : ℕ) where
  Moved-IsAwake :
      SystemInv cf peers s
      → SystemInv cf peers' s'
      → Moved peers s e peers' s'
      → until ≤ s.now + idle_timeout
      → IsAwake until s
      → IsAwake until s'
  Moved-IsAwake inv inv' moved soon awake t d set scheduled = elim (moved.timely t d scheduled) [
    | inr new ↦ omega (arith, new, soon)
    | inl old ↦
        let run = inv'.consistent.idle_set t set in
        let same : run.entry ≡ d = ground (arith, run.scheduled, scheduled) in
        awake t d
          (inv.consistent.idle_only t (record {
            entry = d;
            scheduled = old;
            handled = ap (λ y. y.handler) (sym same) ∙ run.handled;
          }))
          old
  ]

module _ {cf : CoreFoundation} {peers : Peers} {s : State} (reach : Reach cf peers s)
    (many : 0 < length peers) where
  Later-IsAwake :
      {peers' : Peers} {s' : State} → Later cf peers s peers' s' → IsAwake (s.now + idle_timeout) s'
  Later-IsAwake now = λ t d set scheduled. cc (set, (Reach-SystemInv reach).counts.awake many)
  Later-IsAwake (later env e l can run) =
      let inv = Reach-SystemInv reach in
      let inv' = Later-SystemInv inv l in
      let (inv'', moved) = step-Moved env e inv' can run in
      Moved-IsAwake e (s.now + idle_timeout) inv' inv'' moved (omega (arith, Later-clock inv l))
        (Later-IsAwake l)

  not_due :
      (e : Event) (t : State)
      → e ≢ signal
      → t.now < s.now + idle_timeout
      → IsAwake (s.now + idle_timeout) t
      → ¬ IsEnd t e
  not_due e t quiet soon awake (inl is_signal) = quiet is_signal
  not_due e t quiet soon awake (inr (u, d, _, set, scheduled, due)) =
      absurd (omega (arith, awake u d set scheduled, due, soon))

  -- If a connection is open in a state that the broker comes to, no event but a signal ends the
  -- process with success before the idle timeout has passed, whatever the clients do in
  -- between.
  pub stays_up :
      {peers' : Peers} {s' s'' : State} (env : Env) (e : Event)
      → Later cf peers s peers' s'
      → s'.now < s.now + idle_timeout
      → Allowed cf env peers' s' e
      → e ≢ signal
      → step cf env e peers' s' ≢ exited 0 s''
  stays_up {peers'} {s'} {s''} env e l soon can quiet exit =
      sound (step cf env e peers' s') exit
        (step-Progress cf env peers' s' e (Later-SystemInv (Reach-SystemInv reach) l) can)
    where
      sound : (r : Run Peers) → r ≡ exited 0 s'' → ¬ Progress cf peers' s' e r
      sound r same (continues inv moved) = cc same
      sound r same (ends alone end gone paid) = not_due e s' quiet soon (Later-IsAwake l) end
      sound r same (breaks failed) = cc same

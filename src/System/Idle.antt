-- ===== src/System/Idle.antt =====
-- An unowned network waits for its timer, and goes with it.
use vmnet_broker.Base.{
  ℕ, ◌+◌, ◌≤◌, ◌≡◌, refl, ap, subst, inl, inr, some, none, lookup, arith, fun_ext, update, ◌==◌,
  Bool-cases,
}
use vmnet_broker.Machine.{Ptr, Network, State, CoreFoundation, Timer}
use vmnet_broker.Machine.Returns
use vmnet_broker.Machine.Returns.{Returns, returns}
use vmnet_broker.Network.Invariant.{Healthy-of_Inv, Inv}
use vmnet_broker.Network.Contract.{entries, IsSettled}
use vmnet_broker.Network.Remove.{registry_remove-Gone}
use vmnet_broker.Broker.{Env}
use vmnet_broker.System.{Peers, timer, step}
use vmnet_broker.System.Peers.{total}
use vmnet_broker.System.Invariant.Events.{entries-some, on_removal}
use vmnet_broker.System.Safety.{Reach, Reach-SystemInv}
use vmnet_broker.System.Later.{idle_timeout}
use vmnet_broker.System.Grace.{deadline-le}

timer_of_unowned : (k : ℕ) (n : Network) → IsSettled k n → k ≡ 0 → (t : ℕ) × (n.idle_timer ≡ some t)
timer_of_unowned k n (inl (_, t, set)) unowned = (t, set)
timer_of_unowned k n (inr (owned, quiet)) unowned = absurd (omega (arith, unowned))

-- In every state that the broker comes to, a network that no open connection holds has a timer
-- that is set and due within the idle timeout; the event of that timer frees the network, and
-- no other, and leaves the connections as they are.
pub unowned_is_removed :
    {cf : CoreFoundation} {peers : Peers} {s : State} (env : Env) (p : Ptr) (n : Network)
    → Reach cf peers s
    → s.heap p ≡ some n
    → total peers p ≡ 0
    → (t : ℕ) × (d : Timer) × (n.idle_timer ≡ some t)
      × (lookup t s.timers ≡ some d)
      × (d.deadline ≤ s.now + idle_timeout)
      × Returns
          (λ peers' s'. (peers' ≡ peers) × (s'.heap ≡ update s.heap p none))
          (step cf env (timer t) peers s)
unowned_is_removed {cf} {peers} {s} env p n reach at unowned =
    let inv = Reach-SystemInv reach in
    let h = Healthy-of_Inv p n inv.consistent at in
    let (t, set) = timer_of_unowned (total peers p) n (inv.settled p n at) unowned in
    let run = h.clocked t set in
    let (m, ready) = entries-some s.registry h.key p h.filed in
    (
      t,
      run.entry,
      set,
      run.scheduled,
      deadline-le t run.entry reach run.scheduled,
      rw (on_removal cf env peers s t run.entry p n h.name run.scheduled run.handled at h.named) (
          Returns.bind
            (registry_remove-Gone p n m s ready at
              (subst (λ l. Inv cf s.heap l s.timers s.idle_timer (total peers)) (ap entries ready)
                inv.consistent)
              inv.settled t h.name set h.named)
            λ _ s' g. returns (
              refl,
              fun_ext λ q. elim (Bool-cases (p == q)) [
                | inl here ↦ ground (arith, g.freed)
                | inr far ↦ ground (arith, g.others q (ground arith))
              ],
            )),
    )

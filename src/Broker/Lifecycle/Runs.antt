-- ===== src/Broker/Lifecycle/Runs.antt =====
-- on_peer_connect, and on_peer_disconnect after the release of the networks, on each branch: the
-- state that it leaves.
use vmnet_broker.Base.{
  ℕ, suc, ◌+◌, ◌*◌, ◌≡◌, Option, none, some, ◌∷◌, pos, incr, decr, arith, insert, erase,
}
use vmnet_broker.Machine.{
  State, ok, released, cancelled, created, source, shutdown, Timer, idle_timeout_sec, nsec_per_sec,
}
use vmnet_broker.Broker.{on_peer_connect, end_if_last, shutdown_later}

-- A timer that ends the broker, set now.
abbrev pub shutdown_timer : State → Timer
shutdown_timer s = record {
  deadline = s.now + idle_timeout_sec * nsec_per_sec;
  leeway = 1 * nsec_per_sec;
  handler = shutdown;
}

module _ (s : State) where
  -- The first peer starts the transaction and cancels the idle timer.
  pub connect_first_quiet :
      s.connected_peers ≡ pos 0
      → s.idle_timer ≡ none
      → on_peer_connect s
        ≡ ok tt (record s { connected_peers = pos 1; transactions = incr s.transactions })
  unfolding on_peer_connect
  connect_first_quiet first quiet = ground (arith, first, quiet)

  pub connect_first :
      (t : ℕ)
      → s.connected_peers ≡ pos 0
      → s.idle_timer ≡ some t
      → on_peer_connect s
        ≡ ok tt (record s {
          connected_peers = pos 1;
          idle_timer = none;
          timers = erase t s.timers;
          transactions = incr s.transactions;
          effects = released (source t) ∷ cancelled t ∷ s.effects;
        })
  unfolding on_peer_connect
  connect_first t first set = ground (arith, first, set)

  pub connect_next :
      (k : ℕ)
      → s.connected_peers ≡ pos (suc k)
      → on_peer_connect s ≡ ok tt (record s { connected_peers = pos (suc (suc k)) })
  unfolding on_peer_connect
  connect_next k more = ground (arith, more)

  pub end_not_last :
      (u : Option ℕ) (k : ℕ) → s.connected_peers ≡ pos (suc k) → end_if_last u s ≡ ok tt s
  unfolding end_if_last
  end_not_last u k more = ground (arith, more)

  pub end_last :
      (u : Option ℕ) (t : ℕ)
      → s.connected_peers ≡ pos 0
      → s.idle_timer ≡ none
      → u ≡ some t
      → end_if_last u s
        ≡ ok tt (record s {
          idle_timer = some t;
          timers = insert t (shutdown_timer s) s.timers;
          transactions = decr s.transactions;
          effects = created (source t) ∷ s.effects;
        })
  unfolding end_if_last shutdown_later
  end_last u t last quiet given = ground (arith, last, quiet, given)

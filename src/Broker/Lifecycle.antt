-- ===== src/Broker/Lifecycle.antt =====
-- on_peer_connect and on_peer_disconnect: the count of the peers, launchd's transaction, and the
-- timer that ends an idle broker.
pub mod Runs
use vmnet_broker.Base.{
  ℕ, zero, suc, ◌+◌, ◌<◌, ◌≡◌, ◌≢◌, refl, ap, ◌∙◌, inl, inr, Option, none, some, pos, incr, decr,
  arith, Option-cases, lookup,
}
use vmnet_broker.Machine.{replies, Ptr, Context, State, source, CoreFoundation}
use vmnet_broker.Machine.Returns
use vmnet_broker.Machine.Returns.{Returns, returns}
use vmnet_broker.Network.Invariant.Changes.{Inv-idle, Inv-awake}
use vmnet_broker.Network.Ownership.{IsValid}
use vmnet_broker.Machine.Ledger.{Ledger-insert, Ledger-erase}
use vmnet_broker.Network.Steady.{
  Steady, Steady-same, Steady-trans, Stable-refl, Timely-erase, Timely-insert,
}
use vmnet_broker.Network.Contract.{owners, Consistent, Settled}
use vmnet_broker.Network.Release.{HasSources, Released, release_peer_networks-Released}
use vmnet_broker.Broker.{Env, on_peer_connect, on_peer_disconnect, end_if_last}
use vmnet_broker.Broker.Lifecycle.Runs.{
  shutdown_timer, connect_first_quiet, connect_first, connect_next, end_not_last, end_last,
}

-- One transaction while peers are connected.
abbrev pub open_transactions : ℕ → ℕ
open_transactions zero = 0
open_transactions (suc n) = 1

-- The broker's timer, launchd's transaction and the count say that there are `n` peers.
pub record Counts (n : ℕ) (s : State) : Type 0 where
  pub connected : s.connected_peers ≡ pos n
  pub transaction : s.transactions ≡ pos (open_transactions n)
  pub awake : 0 < n → s.idle_timer ≡ none

-- A handler that neither replies nor takes time.
pub record Silent (s s' : State) : Type 0 where
  pub now : s'.now ≡ s.now
  pub replied : replies s'.effects ≡ replies s.effects

pub record Connected (cf : CoreFoundation) (own : Ptr → ℕ) (n : ℕ) (s s' : State) : Type 0 where
  pub consistent : Consistent cf own s'
  pub counts : Counts (suc n) s'
  pub same_heap : s'.heap ≡ s.heap
  pub steady : Steady s s'
  pub silent : Silent s s'

-- The connection of a peer to a broker with n peers, whose state is in order, leaves n + 1: the
-- count and launchd's transaction agree, the idle timer is off, and no network changes.
pub on_peer_connect-Connected :
    (cf : CoreFoundation) (own : Ptr → ℕ) (n : ℕ) (s : State)
    → Consistent cf own s
    → Counts n s
    → Returns (λ _. Connected cf own n s) (on_peer_connect s)
on_peer_connect-Connected cf own (suc k) s consistent c = rw (connect_next s k c.connected) (
    returns (record {
      consistent = consistent;
      counts = record {
        connected = refl;
        transaction = c.transaction;
        awake = λ _. c.awake (omega arith);
      };
      same_heap = refl;
      steady = Steady-same s _ refl refl refl (λ o. refl);
      silent = record { now = refl; replied = refl };
    }))
on_peer_connect-Connected cf own zero s consistent c = elim (Option-cases s.idle_timer) [
  | inl quiet ↦ rw (connect_first_quiet s c.connected quiet) (
      returns (record {
        consistent = consistent;
        counts = record {
          connected = refl;
          transaction = ap incr c.transaction;
          awake = λ _. quiet;
        };
        same_heap = refl;
        steady = Steady-same s _ refl refl refl (λ o. refl);
        silent = record { now = refl; replied = refl };
      }))
  | inr (t, set) ↦ rw (connect_first s t c.connected set) (
      returns (record {
        consistent = Inv-awake consistent t set;
        counts = record {
          connected = refl;
          transaction = ap incr c.transaction;
          awake = λ _. refl;
        };
        same_heap = refl;
        steady = record {
          stable = Stable-refl s.heap;
          timely = Timely-erase s.now t s.timers;
          ledger = λ o.
              let run = consistent.idle_set t set in
              ground (
                arith,
                Ledger-erase t run.entry s.timers s.effects s.effects run.scheduled (λ x. refl) o,
              );
        };
        silent = record { now = refl; replied = refl };
      }))
]

-- What dispatch promises of a disconnection: a new source for each timer that is set.
pub record HasTimers (env : Env) (s : State) (ctx : Context) : Type 0 where
  pub networks : HasSources env.sources s.timers ctx
  pub broker :
      (t : ℕ) × (env.source ≡ some t)
      × (lookup t s.timers ≡ none)
      × ((q : Ptr) → env.sources q ≢ some t)

pub record Disconnected (cf : CoreFoundation) (others : Ptr → ℕ) (n : ℕ) (s s' : State)
    : Type 0 where
  pub consistent : Consistent cf others s'
  pub settled : Settled s'.heap others
  pub counts : Counts n s'
  pub idle : n ≡ 0 → s'.idle_timer ≢ none
  pub steady : Steady s s'
  pub silent : Silent s s'

module _ (cf : CoreFoundation) (others : Ptr → ℕ) (env : Env) where
  Disconnected-end :
      (n : ℕ) (s t : State)
      → Counts (suc n) s
      → Released cf others env.sources (record s { connected_peers = pos n }) t
      → (u : ℕ) → env.source ≡ some u
      → lookup u t.timers ≡ none
      → Returns (λ _. Disconnected cf others n s) (end_if_last env.source t)
  Disconnected-end (suc k) s t c r u given free =
      rw (end_not_last t env.source k r.kept.connected_peers) (
        returns (record {
          consistent = r.consistent;
          settled = r.settled;
          counts = record {
            connected = r.kept.connected_peers;
            transaction = r.kept.transactions ∙ c.transaction;
            awake = λ _. r.kept.idle_timer ∙ c.awake (omega arith);
          };
          idle = λ e. absurd (omega arith);
          steady = record {
            stable = r.steady.stable;
            timely = r.steady.timely;
            ledger = r.steady.ledger;
          };
          silent = record { now = r.kept.now; replied = r.kept.replied };
        }))
  Disconnected-end zero s t c r u given free =
      let quiet = r.kept.idle_timer ∙ c.awake (omega arith) in
      rw (end_last t env.source u r.kept.connected_peers quiet given) (
        returns (record {
          consistent = Inv-idle r.consistent u (shutdown_timer t) quiet free refl;
          settled = r.settled;
          counts = record {
            connected = r.kept.connected_peers;
            transaction = ap decr (r.kept.transactions ∙ c.transaction);
            awake = λ h. absurd (omega arith);
          };
          idle = λ _ e. cc;
          steady =
              Steady-trans {s = s} {t = t} r.kept.now
                (record {
                  stable = r.steady.stable;
                  timely = r.steady.timely;
                  ledger = r.steady.ledger;
                })
                (record {
                  stable = Stable-refl t.heap;
                  timely = Timely-insert t.now u (shutdown_timer t) t.timers refl;
                  ledger = λ o. ground (
                    arith,
                    Ledger-insert u (shutdown_timer t) t.timers t.effects t.effects free (λ x. refl)
                        o,
                  );
                });
          silent = record { now = r.kept.now; replied = r.kept.replied };
        }))

  -- The disconnection of one of n + 1 peers leaves n: the count, launchd's transaction and the
  -- networks agree, and after the last one the idle timer is set. The context and the state are
  -- in order, and dispatch has new sources for the timers.
  pub on_peer_disconnect-Disconnected :
      (n : ℕ) (ctx : Context) (s : State)
      → IsValid ctx
      → Consistent cf (owners others ctx) s
      → Settled s.heap (owners others ctx)
      → Counts (suc n) s
      → HasTimers env s ctx
      → Returns (λ _. Disconnected cf others n s) (on_peer_disconnect env ctx s)
  unfolding on_peer_disconnect
  on_peer_disconnect-Disconnected n ctx s v consistent settled c has =
      let (u, given, free, apart) = has.broker in
      let s₁ : State = record s { connected_peers = pos n } in
      let e : record s { connected_peers = decr s.connected_peers } ≡ s₁ =
        ap (λ z. record s { connected_peers = z }) (ap decr c.connected) in
      rw e (
        Returns.bind
          (release_peer_networks-Released cf others env.sources ctx s₁ v consistent settled
            has.networks)
          λ ctx' t (r, same).
            Returns.bind (Disconnected-end n s t c r u given (r.timers u free apart))
              λ _ s' d. returns d)

-- ===== src/System/Startup.antt =====
-- What main of broker/broker.c sets up, and the handlers that the steps of the broker run.
use vmnet_broker.Base.{
  ℕ, ◌<◌, ap, sym, ◌∙◌, ◌∷◌, [], lookup-insert, if◌then◌else◌, count, ◌≡◌, ◌≢◌, ◌↔◌, ◌⊎◌, refl, inl,
  inr, true, false, some, none, Option, lookup, insert, arith, ◌==◌, Bool-cases,
}
use vmnet_broker.Machine.{State, ok, exited, Cmd, pure, ◌>>◌, CoreFoundation}
use vmnet_broker.Machine.Returns.{Returns, returns}
use vmnet_broker.Xpc.{start_xpc_listener}
use vmnet_broker.Broker.{Env, broker_ops, on_signal}
use vmnet_broker.Broker.Startup.{sigint, sigterm, Process, Signals, setup_signal_handlers, main}
use vmnet_broker.System.{signal, Peers, step}

abbrev pub IsTermination : ℕ → Type 0
IsTermination sig = (sig ≡ sigint) ⊎ (sig ≡ sigterm)

-- A source of the signal is watched, with its block.
abbrev pub IsWatched : Signals → ℕ → Cmd (Unit {0}) → Type 0
IsWatched signals sig block = (t : ℕ) × (lookup t signals.sources ≡ some (sig, block))

-- The handlers of XPC's events use the broker's operations; just SIGINT and SIGTERM are ignored and
-- watched, and the block of each does what `step` says of a signal.
pub record Prepared (cf : CoreFoundation) (env : Env) (process : Process) : Type 0 where
  pub operations : process.operations ≡ broker_ops cf env
  pub ignored : (sig : ℕ) → (0 < count sig process.signals.ignored) ↔ IsTermination sig
  pub watched :
      (sig : ℕ) → IsTermination sig → (block : Cmd (Unit {0})) × IsWatched process.signals sig block
  pub watched_only :
      (sig : ℕ) (block : Cmd (Unit {0})) → IsWatched process.signals sig block → IsTermination sig
  pub handled :
      (sig : ℕ) (block : Cmd (Unit {0})) (peers : Peers) (s : State)
      → IsWatched process.signals sig block
      → (do block; pure peers) s ≡ step cf env signal peers s

abbrev entry : ℕ → ℕ × Cmd (Unit {0})
entry sig = (sig, on_signal)

handled_signal :
    (cf : CoreFoundation) (env : Env) (block : Cmd (Unit {0})) (peers : Peers) (s : State)
    → block ≡ on_signal
    → (do block; pure peers) s ≡ step cf env signal peers s
unfolding step
handled_signal cf env block peers s e = ap (λ m. (do m; pure peers) s) e

module _ (a b : ℕ) where
  abbrev started_signals : Signals
  started_signals = record {
    ignored = sigterm ∷ sigint ∷ [];
    sources = insert b (entry sigterm) (insert a (entry sigint) []);
  }

  sources_at :
      (t : ℕ)
      → lookup t started_signals.sources
        ≡ (if b == t then some (entry sigterm) else if a == t then some (entry sigint) else none)
  unfolding lookup
  sources_at t = ground (
    arith,
    lookup-insert b t (entry sigterm) (insert a (entry sigint) []),
    lookup-insert a t (entry sigint) [],
  )

  watched_cases :
      (t sig : ℕ) (block : Cmd (Unit {0}))
      → lookup t started_signals.sources ≡ some (sig, block)
      → IsTermination sig × (block ≡ on_signal)
  watched_cases t sig block e = elim (Bool-cases (b == t)) [
    | inl here ↦ let f = sym (first here) ∙ e in (inr (cc f), cc f)
    | inr far ↦ elim (Bool-cases (a == t)) [
      | inl here ↦ let f = sym (second far here) ∙ e in (inl (cc f), cc f)
      | inr off ↦ ground (arith, e, far, off, sources_at t)
    ]
  ]
    where
      first : (b == t) ≡ true → lookup t started_signals.sources ≡ some (entry sigterm)
      first here = ground (arith, here, sources_at t)

      second :
          (b == t) ≡ false
          → (a == t) ≡ true
          → lookup t started_signals.sources ≡ some (entry sigint)
      second far here = ground (arith, far, here, sources_at t)

  signals-IsWatched :
      (sig : ℕ) → a ≢ b → IsTermination sig → IsWatched started_signals sig on_signal
  signals-IsWatched sig apart (inl e) = (a, ground (arith, apart, e, sources_at a))
  signals-IsWatched sig apart (inr e) = (b, ground (arith, e, sources_at b))

  module _ (cf : CoreFoundation) (env : Env) where
    started-Prepared :
        a ≢ b
        → Prepared cf env (record { operations = broker_ops cf env; signals = started_signals })
    started-Prepared apart = record {
      operations = refl;
      ignored = λ sig. ground arith;
      watched = λ sig h. (on_signal, signals-IsWatched sig apart h);
      watched_only = λ sig block (t, e). (watched_cases t sig block e).0;
      handled = λ sig block peers s (t, e).
          handled_signal cf env block peers s (watched_cases t sig block e).1;
    }

    started-run :
        (create : ℕ → Option ℕ) (s : State)
        → create sigint ≡ some a
        → create sigterm ≡ some b
        → (main cf env create true s
            ≡ ok (record { operations = broker_ops cf env; signals = started_signals }) s)
          × (main cf env create false s ≡ exited 1 s)
    unfolding main setup_signal_handlers start_xpc_listener
    started-run create s has_a has_b = rw has_a (rw has_b (refl, refl))

-- If dispatch has sources of their own for SIGINT and SIGTERM, main leaves the broker's state
-- as it was, and ends with failure if there is no listener. Otherwise XPC's handlers use the
-- broker's operations, just SIGINT and SIGTERM are ignored, each has a source that is watched,
-- no other signal has one, and the block of each source does what a step of the broker does at
-- a signal.
pub main-Prepared :
    (cf : CoreFoundation) (env : Env) (create : ℕ → Option ℕ) (a b : ℕ) (s : State)
    → create sigint ≡ some a
    → create sigterm ≡ some b
    → a ≢ b
    → Returns (λ process s'. Prepared cf env process × (s' ≡ s)) (main cf env create true s)
      × (main cf env create false s ≡ exited 1 s)
main-Prepared cf env create a b s has_a has_b apart =
    let (up, down) = started-run a b cf env create s has_a has_b in
    (rw up (returns (started-Prepared a b cf env apart, refl)), down)

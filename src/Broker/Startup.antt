-- ===== src/Broker/Startup.antt =====
-- setup_signal_handlers and main of broker/broker.c: what the process sets up before dispatch_main
-- runs the handlers.
use vmnet_broker.Base.{ℕ, Bool, Option, none, some, List, [], ◌∷◌, insert}
use vmnet_broker.Machine.{Cmd, pure, ◌>>=◌, exit, non_null, CoreFoundation}
use vmnet_broker.Xpc.{BrokerOps, start_xpc_listener}
use vmnet_broker.Broker.{Env, broker_ops, on_signal}

abbrev pub sigint : ℕ
sigint = 2

abbrev pub sigterm : ℕ
sigterm = 15

-- The signals that `signal` is told to ignore, so that their default action does not end the process,
-- and by handle the sources that dispatch watches, each with its signal and its block.
pub record Signals : Type 0 where
  pub ignored : List ℕ
  pub sources : List (ℕ × (ℕ × Cmd (Unit {0})))

abbrev pub no_signals : Signals
no_signals = record { ignored = []; sources = [] }

-- The loop of setup_signal_handlers. `create` is what dispatch_source_create returns for a signal;
-- its result is not tested, and a source that is NULL crashes dispatch_source_set_event_handler.
-- The sources are kept as long as the process lives, and the log of effects is without them.
watch : (create : ℕ → Option ℕ) → (signals : List ℕ) → Signals → Cmd Signals
watch create [] done = pure done
watch create (sig ∷ signals) done = do
  source ← non_null (create sig)
  watch create signals (record {
    ignored = sig ∷ done.ignored;
    sources = insert source (sig, on_signal) done.sources;
  })

unfoldable pub setup_signal_handlers : (create : ℕ → Option ℕ) → Cmd Signals
unfolding watch
setup_signal_handlers create = watch create (sigint ∷ sigterm ∷ []) no_signals

-- What dispatch_main runs: the operations that the handlers of XPC's events use, and the signals'
-- sources.
pub record Process : Type 0 where
  pub operations : BrokerOps
  pub signals : Signals

-- main after setup_signal_handlers
serve_events : Option BrokerOps → Signals → Cmd Process
serve_events none signals = exit 1
serve_events (some ops) signals = pure (record { operations = ops; signals = signals })

-- `main` up to dispatch_main. `listener` says whether xpc_connection_create_mach_service returns one.
unfoldable pub main :
    CoreFoundation → Env → (create : ℕ → Option ℕ) → (listener : Bool) → Cmd Process
unfolding serve_events
main cf env create listener = do
  signals ← setup_signal_handlers create
  serve_events (start_xpc_listener (some (broker_ops cf env)) listener) signals

-- ===== src/TestClient/Main.antt =====
-- setup_kq, wait_for_termination and main of test/test.c.
use vmnet_broker.Base.{ℕ, suc, List, [], ◌∷◌, CString, ◌==◌, ◌&&◌, if◌then◌else◌}
use vmnet_broker.TestClient.{
  error_number, errno, Cmd, pure, ◌>>=◌, ◌>>◌, emit, exit, wait, ok, fail, released_network,
  Starting, KernelEvent, kevent_error, signal, other, Calls,
}
use vmnet_broker.TestClient.Options.{parse_options}
use vmnet_broker.TestClient.Interfaces.{
  acquire_network, start_interface, stop_interfaces, setup_vmnet,
}

abbrev pub setup_kq : Calls → Cmd (Unit {0})
setup_kq calls = if calls.kqueue && calls.sigprocmask && calls.kevent_add then pure tt else exit 1

-- 0, or the errno
unfoldable pub wait_for_termination : List KernelEvent → Cmd ℕ
wait_for_termination [] = wait
wait_for_termination (kevent_error err ∷ events) = pure err
wait_for_termination (signal ∷ events) = pure 0
wait_for_termination (other ∷ events) = wait_for_termination events

-- The loop of main over the networks, from the index `i`.
unfoldable pub start_each : (ℕ → Starting) → (i : ℕ) → List CString → Cmd (Unit {0})
start_each start i [] = pure tt
start_each start i (name ∷ names) = do
  network ← acquire_network (start i) name
  start_interface (start i) name
  emit (released_network network)
  start_each start (suc i) names

unfoldable pub main : Calls → Cmd (Unit {0})
main calls = do
  opt ← parse_options calls
  setup_kq calls
  setup_vmnet
  start_each calls.start 0 opt.network_names
  wait_error ← if opt.quick then pure 0 else wait_for_termination calls.kevents
  stop_interfaces calls.stop
  if wait_error == 0 then ok else fail "kevent" (error_number (errno wait_error))

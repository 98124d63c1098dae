-- ===== src/TestClient/Interfaces.antt =====
-- acquire_network, start_interface, stop_interfaces, setup_vmnet of test/test.c.
use vmnet_broker.Base.{
  ℕ, zero, suc, ◌+◌, true, false, Option, none, some, ◌∷◌, ℤ, CString, length, set, get_elem?, ltb,
  leb, if◌then◌else◌,
}
use vmnet_broker.Status.{VmnetReturn, is_success}
use vmnet_broker.Machine.{out_of_bounds}
use vmnet_broker.Client.{vmnet_broker_acquire_network}
use vmnet_broker.TestClient.{
  max_interfaces, Interface, broker_status, vmnet_status, error_number, enomem, Cmd, pure, ◌>>=◌,
  ◌>>◌, emit, wait, crash, fail, created_queue, released_queue, created_network,
  released_serialization, started, stopped, Starting, Completion, never, early, late, Stopping,
}

-- The call of the library, on its state.
abbrev pub call_library : Starting → CString → Cmd (Option ℕ × ℤ)
call_library at name s =
    let (result, client) = vmnet_broker_acquire_network at.mach_service at.answer name s.client in
    pure result (record s { client = client })

unfoldable pub create_with_serialization : Starting → (serialization : ℕ) → Cmd ℕ
create_with_serialization at serialization = elim (at.create serialization) [
  | none ↦ do
    emit (released_serialization serialization)
    fail "create_network" (vmnet_status at.create_status)
  | some network ↦ do
    emit (created_network network)
    emit (released_serialization serialization)
    pure network
]

-- acquire_network after the library's call, with what it returned and stored at `broker_status`
abbrev pub check_acquired : Starting → Option ℕ × ℤ → Cmd ℕ
check_acquired at (none, status) = fail "acquire_network" (broker_status status)
check_acquired at (some serialization, status) = create_with_serialization at serialization

unfoldable pub acquire_network : Starting → CString → Cmd ℕ
acquire_network at name = do found ← call_library at name; check_acquired at found

-- `interfaces[interface_count++]` and the writes of its fields
abbrev pub add_interface : Interface → Cmd (Unit {0})
add_interface interface s =
    if ltb s.interface_count (length s.interfaces)
    then pure tt (record s {
      interfaces = set s.interfaces s.interface_count interface;
      interface_count = s.interface_count + 1;
    })
    else crash out_of_bounds s

unfoldable pub complete_start : Starting → CString → Cmd (Unit {0})
complete_start at name = elim at.completion [
  | none ↦ wait
  | some status ↦
      if is_success status
      then (do
        emit (started at.iface)
        add_interface (record { network_name = some name; iface = at.iface }))
      else fail "start_interface" (vmnet_status status)
]

unfoldable pub start_interface : Starting → CString → Cmd (Unit {0})
start_interface at name s =
    if leb max_interfaces s.interface_count
    then fail "start_interface" (error_number enomem) s
    else complete_start at name s

-- The block of vmnet_stop_interface, which fails or signals the semaphore.
abbrev pub on_stopped : VmnetReturn → Cmd (Unit {0})
on_stopped status =
    if is_success status then pure tt else fail "stop_interface" (vmnet_status status)

-- From vmnet_stop_interface, which returns `stop_status`, to the semaphore.
abbrev pub await_stop : (stop_status : VmnetReturn) → Completion → Cmd (Unit {0})
await_stop stop_status never = do on_stopped stop_status; wait
await_stop stop_status (early status) = do on_stopped status; on_stopped stop_status
await_stop stop_status (late status) = do on_stopped stop_status; on_stopped status

unfoldable pub stop_interface : Stopping → (index : ℕ) → Cmd (Unit {0})
stop_interface at index s = elim (get_elem? s.interfaces index) [
  | none ↦ crash out_of_bounds s
  | some interface ↦
      (do await_stop at.stop_status at.completion; emit (stopped interface.iface))
        (record s { interface_count = index })
]

-- The loop of stop_interfaces, from `interface_count`.
unfoldable pub stop_each : (ℕ → Stopping) → (count : ℕ) → Cmd (Unit {0})
stop_each stop zero = pure tt
stop_each stop (suc index) = do stop_interface (stop index) index; stop_each stop index

unfoldable pub release_queue : Cmd (Unit {0})
release_queue s =
    if s.vmnet_queue
    then pure tt (record s { vmnet_queue = false; log = released_queue ∷ s.log })
    else pure tt s

unfoldable pub stop_interfaces : (ℕ → Stopping) → Cmd (Unit {0})
stop_interfaces stop s = (do stop_each stop s.interface_count; release_queue) s

abbrev pub setup_vmnet : Cmd (Unit {0})
setup_vmnet s = pure tt (record s { vmnet_queue = true; log = created_queue ∷ s.log })

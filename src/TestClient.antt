-- ===== src/TestClient.antt =====
-- test/test.c: the program that tests the client library. It acquires networks from the broker, starts
-- an interface on each, waits for a signal and stops the interfaces. This file has its state, its
-- output and commands over it. A command ends normally, exits the process, waits for good or crashes.
pub mod Options
pub mod Interfaces
pub mod Main
pub mod Trace
pub mod Ending
pub mod Parsed
pub mod Slots
pub mod Acquire
pub mod Turns
pub mod Stops
pub mod Outcome
pub mod Success
pub mod Buffer
use Prim.Native.String.{String}
use vmnet_broker.Base.{ℕ, ◌+◌, Bool, Option, none, some, List, [], ◌∷◌, ℤ, CString, replicate}
use vmnet_broker.Status.{VmnetReturn}
use vmnet_broker.Machine.{Fault}
use vmnet_broker.Client.{Client, Message, ReplyObject}

-- MAX_INTERFACES
abbrev pub max_interfaces : ℕ
max_interfaces = 16

-- struct interface; `none` is NULL.
pub record Interface : Type 0 where
  pub network_name : Option CString
  pub iface : Option ℕ

-- The errno values that the program names, and any other.
pub data Errno : Type 0 where
  e2big enomem : Errno
  errno : ℕ → Errno

-- What `fail` prints as a number.
pub data Code : Type 0 where
  broker_status : ℤ → Code
  vmnet_status : VmnetReturn → Code
  error_number : Errno → Code

-- A line on stdout, of `ok` or of `fail`.
pub data Line : Type 0 where
  passed : Line
  failed : (step : String) → Code → Line

-- `logged` is the line with the networks to test; the other lines on stderr are left out.
pub data Action : Type 0 where
  logged : CString → Action
  printed : Line → Action
  created_queue released_queue : Action
  created_network released_network released_serialization : ℕ → Action
  started stopped : Option ℕ → Action

-- The lines on stdout in a log, newest first.
abbrev pub lines : List Action → List Line
lines [] = []
lines (printed l ∷ log) = l ∷ lines log
lines (a ∷ log) = lines log

-- The globals, the library's state and what was done, newest first.
pub record Session : Type 0 where
  pub client : Client
  pub interfaces : List Interface
  pub interface_count : ℕ
  pub vmnet_queue : Bool
  pub log : List Action

abbrev pub initial_session : Session
initial_session = record {
  client = record { connection = none; sent = []; retained = [] };
  interfaces = replicate max_interfaces (record { network_name = none; iface = none });
  interface_count = 0;
  vmnet_queue = Bool.false;
  log = [];
}

pub data Run (A : Type 0) : Type 0 where
  running : A → Session → Run A
  exited : (status : ℕ) → Session → Run A
  waits : Session → Run A
  crashed : Fault → Run A

abbrev pub Cmd : Type 0 → Type 0
Cmd A = Session → Run A

abbrev pub pure : {A : Type 0} → A → Cmd A
pure a s = running a s

infixl 5 ◌>>=◌ ◌>>◌
abbrev pub and_then : {A B : Type 0} → Run A → (A → Cmd B) → Run B
and_then (running a s) f = f a s
and_then (exited n s) f = exited n s
and_then (waits s) f = waits s
and_then (crashed e) f = crashed e

abbrev pub ◌>>=◌ : {A B : Type 0} → Cmd A → (A → Cmd B) → Cmd B
m >>= f = λ s. and_then (m s) f

abbrev pub ◌>>◌ : {B : Type 0} → Cmd (Unit {0}) → Cmd B → Cmd B
m >> k = m >>= λ _. k

abbrev pub emit : Action → Cmd (Unit {0})
emit a s = running tt (record s { log = a ∷ s.log })

-- `exit`
abbrev pub exit : {A : Type 0} → ℕ → Cmd A
exit n s = exited n s

-- Nothing ends the wait.
abbrev pub wait : {A : Type 0} → Cmd A
wait s = waits s

abbrev pub crash : {A : Type 0} → Fault → Cmd A
crash e s = crashed e

abbrev pub ok : {A : Type 0} → Cmd A
ok = do emit (printed passed); exit 0

abbrev pub fail : {A : Type 0} → String → Code → Cmd A
fail step code = do emit (printed (failed step code)); exit 1

-- What getopt_long returns, before the -1.
pub data Flag : Type 0 where
  help quick_mode missing_argument invalid : Flag

-- What the calls return while the interface of one index is set up. `answer` is the reply that XPC
-- returns to the library's message; vmnet_network_create_with_serialization returns `create` and sets
-- `*status`; `completion` is what the block of vmnet_interface_start_with_network is called with, or
-- none if it is never called.
pub record Starting : Type 0 where
  pub mach_service : ℕ
  pub answer : ℕ → Message → ReplyObject
  pub create : (serialization : ℕ) → Option ℕ
  pub create_status : VmnetReturn
  pub iface : Option ℕ
  pub completion : Option VmnetReturn

-- When the block of vmnet_stop_interface is called: never, before the program looks at what the call
-- returned, or while it waits for the semaphore.
pub data Completion : Type 0 where
  never : Completion
  early late : VmnetReturn → Completion

pub record Stopping : Type 0 where
  pub stop_status : VmnetReturn
  pub completion : Completion

-- What kevent returns: an errno, a signal, or nothing of use.
pub data KernelEvent : Type 0 where
  kevent_error : ℕ → KernelEvent
  signal other : KernelEvent

-- The command line, as getopt_long splits it, and what the calls of the frameworks and of the system
-- return. `kevents` are the results of kevent until it blocks for good.
pub record Calls : Type 0 where
  pub flags : List Flag
  pub arguments : List CString
  pub kqueue : Bool
  pub sigprocmask : Bool
  pub kevent_add : Bool
  pub start : (index : ℕ) → Starting
  pub stop : (index : ℕ) → Stopping
  pub kevents : List KernelEvent

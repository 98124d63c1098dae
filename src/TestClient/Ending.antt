-- ===== src/TestClient/Ending.antt =====
-- How a run of test/test.c ends, and why.
use Prim.Native.String.{String}
use vmnet_broker.Base.{
  ℕ, ◌<◌, ◌≡◌, ◌≢◌, ◌&&◌, Bool, true, false, Option, none, some, List, [], ◌∷◌, ℤ, pos, CString,
  length, ap, get_elem?,
}
use vmnet_broker.Status.{code, success, is_success}
use vmnet_broker.Client.{message, read_reply}
use vmnet_broker.TestClient.{
  max_interfaces, Code, broker_status, vmnet_status, error_number, errno, e2big, passed, failed,
  lines, fail, Session, Run, running, exited, waits, Cmd, and_then, released_queue, printed, Flag,
  help, quick_mode, missing_argument, invalid, never, early, late, KernelEvent, kevent_error,
  signal, other, Calls,
}
use vmnet_broker.TestClient.Options.{or_shared}
use vmnet_broker.TestClient.Trace.{
  AllCame, Started, names_onto, prepared, serializations, starts, stops,
}

abbrev pub is_quick : List Flag → Bool
is_quick [] = false
is_quick (quick_mode ∷ flags) = true
is_quick (_ ∷ flags) = is_quick flags

-- The exit status that usage gives, if an option asks for it.
abbrev pub usage : List Flag → Option ℕ
usage [] = none
usage (help ∷ flags) = some 0
usage (quick_mode ∷ flags) = usage flags
usage (missing_argument ∷ flags) = some 1
usage (invalid ∷ flags) = some 1

-- What ends the wait for a signal, if something does: 0 or an errno.
abbrev pub awaited : List KernelEvent → Option ℕ
awaited [] = none
awaited (kevent_error err ∷ events) = some err
awaited (signal ∷ events) = some 0
awaited (other ∷ events) = awaited events

-- Every network was acquired, and every interface was started and stopped.
pub record Passed (calls : Calls) (s : Session) : Type 0 where
  pub turns : List Started
  pub came : AllCame calls.start turns
  pub all_names : names_onto turns [] ≡ or_shared calls.arguments
  pub retained : s.client.retained ≡ serializations turns
  pub none_left : s.interface_count ≡ 0
  pub log : s.log ≡ printed passed ∷ released_queue ∷ stops turns (starts turns (prepared calls))

-- Why a step fails, with what is printed.
pub data Failure (calls : Calls) : String → Code → Type 0 where
  too_many :
      max_interfaces < length calls.arguments → Failure calls "parse_options" (error_number e2big)
  refused :
      (i connection : ℕ) (name : CString) (status : ℤ)
      → get_elem? (or_shared calls.arguments) i ≡ some name
      → read_reply ((calls.start i).answer connection (message name)) ≡ (none, status)
      → status ≢ pos (code success)
      → Failure calls "acquire_network" (broker_status status)
  not_created :
      (i connection : ℕ) (name : CString) (serialization : ℕ)
      → get_elem? (or_shared calls.arguments) i ≡ some name
      → read_reply ((calls.start i).answer connection (message name))
        ≡ (some serialization, pos (code success))
      → (calls.start i).create serialization ≡ none
      → Failure calls "create_network" (vmnet_status (calls.start i).create_status)
  not_started :
      (i : ℕ) (status : _)
      → i < length (or_shared calls.arguments)
      → (calls.start i).completion ≡ some status
      → is_success status ≡ false
      → Failure calls "start_interface" (vmnet_status status)
  not_stopped :
      (i : ℕ)
      → i < length (or_shared calls.arguments)
      → is_success (calls.stop i).stop_status ≡ false
      → Failure calls "stop_interface" (vmnet_status (calls.stop i).stop_status)
  not_completed_early :
      (i : ℕ) (status : _)
      → i < length (or_shared calls.arguments)
      → (calls.stop i).completion ≡ early status
      → is_success status ≡ false
      → Failure calls "stop_interface" (vmnet_status status)
  not_completed_late :
      (i : ℕ) (status : _)
      → i < length (or_shared calls.arguments)
      → (calls.stop i).completion ≡ late status
      → is_success status ≡ false
      → Failure calls "stop_interface" (vmnet_status status)
  not_awaited :
      (err : ℕ)
      → is_quick calls.flags ≡ false
      → awaited calls.kevents ≡ some err
      → err ≢ 0
      → Failure calls "kevent" (error_number (errno err))

-- Why the program waits for good.
pub data Blocked (calls : Calls) : Type 0 where
  not_called_on_start :
      (i : ℕ)
      → i < length (or_shared calls.arguments)
      → (calls.start i).completion ≡ none
      → Blocked calls
  not_called_on_stop :
      (i : ℕ)
      → i < length (or_shared calls.arguments)
      → (calls.stop i).completion ≡ never
      → Blocked calls
  no_signal : is_quick calls.flags ≡ false → awaited calls.kevents ≡ none → Blocked calls

-- The ways to exit.
pub data Exit (calls : Calls) (s : Session) : ℕ → Type 0 where
  by_usage : {n : ℕ} → usage calls.flags ≡ some n → s.log ≡ [] → Exit calls s n
  not_set_up :
      (calls.kqueue && calls.sigprocmask && calls.kevent_add) ≡ false
      → s.client.sent ≡ []
      → lines s.log ≡ []
      → Exit calls s 1
  passes : Passed calls s → Exit calls s 0
  fails :
      {step : String} {why : Code}
      → Failure calls step why
      → lines s.log ≡ failed step why ∷ []
      → Exit calls s 1

-- A command that does not crash; it returns with a postcondition, exits in one of these ways, or waits
-- for one of these reasons, with nothing printed.
pub data Ends (calls : Calls) {A : Type 0} (P : A → Session → Type 0) : Run A → Type 0 where
  returns : {a : A} {s : Session} → P a s → Ends calls P (running a s)
  exits : {n : ℕ} {s : Session} → Exit calls s n → Ends calls P (exited n s)
  blocks : {s : Session} → Blocked calls → lines s.log ≡ [] → Ends calls P (waits s)

module _ {calls : Calls} {A : Type 0} {P : A → Session → Type 0} where
  pub bind :
      {B : Type 0} {Q : B → Session → Type 0} {r : Run A} {f : A → Cmd B}
      → Ends calls P r
      → ((a : A) (s : Session) → P a s → Ends calls Q (f a s))
      → Ends calls Q (and_then r f)
  bind (returns p) next = next _ _ p
  bind (exits e) next = exits e
  bind (blocks why quiet) next = blocks why quiet

  pub fail-Ends :
      (step : String) (why : Code) (s : Session)
      → Failure calls step why
      → lines s.log ≡ []
      → Ends calls P (fail step why s)
  fail-Ends step why s cause quiet = exits (fails cause (ap (λ l. failed step why ∷ l) quiet))

  pub weaken :
      {Q : A → Session → Type 0} {r : Run A}
      → Ends calls P r
      → ((a : A) (s : Session) → P a s → Q a s)
      → Ends calls Q r
  weaken (returns p) f = returns (f _ _ p)
  weaken (exits e) f = exits e
  weaken (blocks why quiet) f = blocks why quiet

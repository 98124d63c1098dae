-- ===== src/Machine.antt =====
-- The state that the broker's files share, and commands over it: `struct network`, the globals of
-- broker/network.c and broker/broker.c, `struct broker_context` and `struct broker_ops`'s requests
-- of include/broker-xpc.h, and the calls of the C library, CoreFoundation, libdispatch and XPC.
-- A command ends normally, crashes, or exits the process.
pub mod Returns
pub mod Ledger
pub mod Alike
use vmnet_broker.Base.{
  ℕ, ◌+◌, ◌*◌, ◌≡◌, refl, ◌⊎◌, inl, inr, Bool, Option, none, some, List, [], ◌∷◌, ℤ, pos, CString,
  replicate, lookup, erase, insert, update, if◌then◌else◌,
}
use vmnet_broker.Status.{Status, VmnetReturn}

abbrev pub Ptr : Type 0
Ptr = ℕ

-- struct network; `none` is NULL. `ref`, `serialization` and `idle_timer` are handles of objects of
-- the frameworks.
pub record Network : Type 0 where
  pub name : Option CString
  pub peers : ℤ
  pub ref : Option ℕ
  pub serialization : Option ℕ
  pub idle_timer : Option ℕ

abbrev pub max_peer_networks : ℕ
max_peer_networks = 8

-- struct broker_context; `networks` is the array, `network_count` the number of its slots in use.
pub record Context : Type 0 where
  pub connection : ℕ
  pub name : CString
  pub networks : List Ptr
  pub network_count : ℕ

-- The blocks that are set as handlers of timers, with what they capture.
pub data Handler : Type 0 where
  remove_network : Ptr → Handler
  shutdown : Handler

-- A timer that is set and resumed: it fires once, at `deadline` or up to `leeway` later.
pub record Timer : Type 0 where
  pub deadline : ℕ
  pub leeway : ℕ
  pub handler : Handler

pub data Object : Type 0 where
  cf_string configuration network_ref serialization source reply : ℕ → Object

-- What the client reads in a reply dictionary.
pub data Reply : Type 0 where
  error : ℕ → Reply
  network : (serialization : ℕ) → Reply

pub data Effect : Type 0 where
  created retained released : Object → Effect
  cancelled : (source : ℕ) → Effect
  sent : (connection : ℕ) → Reply → Effect

-- The replies in a log, newest first.
abbrev pub replies : List Effect → List (ℕ × Reply)
replies [] = []
replies (sent c r ∷ log) = (c, r) ∷ replies log
replies (e ∷ log) = replies log

-- `registry` is none before `init_registry`; `timers` are the sources that dispatch may fire, by
-- handle; `transactions` counts xpc_transaction_begin less xpc_transaction_end; `now` is in
-- nanoseconds; `effects` has the newest first.
pub record State : Type 0 where
  pub heap : Ptr → Option Network
  pub registry : Option (List (ℕ × Ptr))
  pub connected_peers : ℤ
  pub idle_timer : Option ℕ
  pub timers : List (ℕ × Timer)
  pub transactions : ℤ
  pub now : ℕ
  pub effects : List Effect

pub data Fault : Type 0 where
  null_argument dangling_pointer failed_assertion out_of_bounds : Fault

pub data Run {ℓ} (A : Type ℓ) : Type ℓ where
  ok : A → State → Run A
  crashed : Fault → Run A
  exited : (status : ℕ) → State → Run A

abbrev pub Cmd {ℓ} : Type ℓ → Type ℓ
Cmd A = State → Run A

abbrev pub pure {ℓ} : {A : Type ℓ} → A → Cmd A
pure a s = ok a s

abbrev pub and_then {ℓ κ} : {A : Type ℓ} {B : Type κ} → Run A → (A → Cmd B) → Run B
and_then (ok a s) f = f a s
and_then (crashed e) f = crashed e
and_then (exited n s) f = exited n s

infixl 5 ◌>>=◌ ◌>>◌
abbrev pub ◌>>=◌ {ℓ κ} : {A : Type ℓ} {B : Type κ} → Cmd A → (A → Cmd B) → Cmd B
m >>= f = λ s. and_then (m s) f

abbrev pub ◌>>◌ {κ} : {B : Type κ} → Cmd (Unit {0}) → Cmd B → Cmd B
m >> k = m >>= λ _. k

abbrev pub crash {ℓ} : {A : Type ℓ} → Fault → Cmd A
crash e s = crashed e

abbrev pub exit {ℓ} : {A : Type ℓ} → ℕ → Cmd A
exit n s = exited n s

abbrev pub emit : Effect → Cmd (Unit {0})
emit e s = ok tt (record s { effects = e ∷ s.effects })

-- `*p`
abbrev pub load : Ptr → Cmd Network
load p s = elim (s.heap p) [ none ↦ crashed dangling_pointer | some n ↦ ok n s ]

-- The raw write: `some n` fills the address, `none` gives it back.
abbrev pub store : Ptr → Option Network → Cmd (Unit {0})
store p n s = ok tt (record s { heap = update s.heap p n })

-- A value or the crash of a call that is handed NULL.
abbrev pub non_null {ℓ} : {A : Type ℓ} → Option A → Cmd A
non_null none = crash null_argument
non_null (some a) = pure a

abbrev pub nsec_per_sec : ℕ
nsec_per_sec = 1_000_000_000

abbrev pub idle_timeout_sec : ℕ
idle_timeout_sec = 120

-- dispatch_source_set_timer and dispatch_resume on the source `t`
abbrev pub start_timer : ℕ → Handler → Cmd (Unit {0})
start_timer t h s = ok tt (record s {
  timers =
      insert t
        (record {
          deadline = s.now + idle_timeout_sec * nsec_per_sec;
          leeway = 1 * nsec_per_sec;
          handler = h;
        })
        s.timers;
  effects = created (source t) ∷ s.effects;
})

-- dispatch_source_cancel and dispatch_release. Cancelled on the queue of the handler, the source
-- does not fire any more.
abbrev pub cancel_timer : ℕ → Cmd (Unit {0})
cancel_timer t s = ok tt (record s {
  timers = erase t s.timers;
  effects = released (source t) ∷ cancelled t ∷ s.effects;
})

-- What CFStringCreateWithCString makes of a C string: none (NULL) if it is not UTF-8, or a key. Keys
-- are equal as CFEqual has it, and equal keys come from equal strings.
pub record CoreFoundation : Type 0 where
  pub create_string : CString → Option ℕ
  pub create_string_injective :
      (a b : CString) (k : ℕ) → create_string a ≡ some k → create_string b ≡ some k → a ≡ b

-- vmnet_mode_t, as far as the broker uses it.
pub data Mode : Type 0 where
  shared_mode host_mode : Mode

-- What the external calls of one request return: `none` is NULL (or failure) and a value is a handle
-- that the frameworks, or the allocator, hand out.
pub record Outcomes : Type 0 where
  pub dictionary_create : Bool
  pub configuration_create : Mode → Option ℕ
  pub inet_pton : CString → Option (List ℕ)
  pub set_ipv4_subnet : (configuration : ℕ) (subnet mask : List ℕ) → VmnetReturn
  pub calloc : Option Ptr
  pub strdup : Bool
  pub network_create : Option ℕ
  pub copy_serialization : Option ℕ

-- A function that returns NULL sets `*error`; its caller always passes `error`.
pub data Result {ℓ} (A : Type ℓ) : Type ℓ where
  value : A → Result A
  err : Status → Result A

pub Result-cases {ℓ} :
    {A : Type ℓ} (r : Result A) → ((a : A) × (r ≡ value a)) ⊎ ((e : Status) × (r ≡ err e))
Result-cases (value a) = inl (a, refl)
Result-cases (err e) = inr (e, refl)

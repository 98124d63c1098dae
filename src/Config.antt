-- ===== src/Config.antt =====
-- broker/config.c: the builtin networks and the vmnet configuration of one.
pub mod Builtin
pub mod Alike
use vmnet_broker.Base.{
  Bool, true, false, Option, none, some, List, [], ◌∷◌, CString, bytes, bytes_eq, if◌then◌else◌,
}
use Prim.Native.Nat.{ℕ}
use vmnet_broker.Status.{create_failure, not_found, is_success}
use vmnet_broker.Machine.{
  Mode, shared_mode, host_mode, configuration, created, released, Cmd, pure, ◌>>=◌, ◌>>◌, emit,
  Outcomes, Result, value, err,
}

-- struct network_config; `none` is NULL.
pub record NetworkConfig : Type 0 where
  pub name : CString
  pub mode : Mode
  pub subnet : Option CString
  pub mask : Option CString

abbrev pub shared_name : CString
shared_name = bytes "shared"

abbrev pub host_name : CString
host_name = bytes "host"

abbrev pub builtin_networks : List NetworkConfig
builtin_networks =
    record { name = shared_name; mode = shared_mode; subnet = none; mask = none }
    ∷ record { name = host_name; mode = host_mode; subnet = none; mask = none }
    ∷ []

-- The loop of find_network_config over the table.
pub find_in : List NetworkConfig → CString → Result NetworkConfig
find_in [] name = err not_found
find_in (c ∷ cs) name = if bytes_eq c.name name then value c else find_in cs name

pub find_network_config : CString → Result NetworkConfig
unfolding find_in
find_network_config name = find_in builtin_networks name

-- `goto error`: the configuration is released.
abbrev configuration_error : ℕ → Cmd (Result ℕ)
configuration_error c = do emit (released (configuration c)); pure (err create_failure)

-- The three steps that set the subnet and the mask; false where the code goes to `error`.
pub set_subnet : Outcomes → (configuration : ℕ) → Option CString → Option CString → Bool
set_subnet out c (some subnet) (some mask) = elim (out.inet_pton subnet) [
  | none ↦ false
  | some a ↦ elim (out.inet_pton mask) [
    | none ↦ false
    | some b ↦ is_success (out.set_ipv4_subnet c a b)
  ]
]
set_subnet out c (some subnet) none = true
set_subnet out c none mask = true

pub create_vmnet_configuration : Outcomes → NetworkConfig → Cmd (Result ℕ)
unfolding set_subnet
create_vmnet_configuration out config = elim (out.configuration_create config.mode) [
  | none ↦ pure (err create_failure)
  | some c ↦ do
    emit (created (configuration c))
    if set_subnet out c config.subnet config.mask then pure (value c) else configuration_error c
]

unfoldable pub create_network_configuration : Outcomes → CString → Cmd (Result ℕ)
unfolding create_vmnet_configuration find_network_config
create_network_configuration out name = elim (find_network_config name) [
  | err e ↦ pure (err e)
  | value config ↦ create_vmnet_configuration out config
]

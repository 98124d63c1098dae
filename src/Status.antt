-- ===== src/Status.antt =====
-- The status codes of include/vmnet-broker.h, and the two functions that describe a status:
-- vmnet_broker_strerror of client/client.c and vmnet_strerror of lib/common.c.
pub mod Describe
use Prim.Native.String.{String}
use vmnet_broker.Base.{ℕ, Bool, ◌==◌, ℤ, pos, negsuc, if◌then◌else◌}

-- vmnet_broker_return_t
pub data Status : Type 0 where
  success xpc_failure invalid_reply not_allowed : Status
  invalid_request not_found create_failure internal_error : Status

-- The enumerators' values.
abbrev pub code : Status → ℕ
code success = 0
code xpc_failure = 1
code invalid_reply = 2
code not_allowed = 3
code invalid_request = 4
code not_found = 5
code create_failure = 6
code internal_error = 7

abbrev pub unknown_status : String
unknown_status = "(unknown status)"

-- A C enum holds any int: the `switch` falls to `default` outside the enumerators.
pub vmnet_broker_strerror : ℤ → String
vmnet_broker_strerror (negsuc n) = unknown_status
vmnet_broker_strerror (pos n) =
    if n == code success
    then "Broker session started"
    else if n == code xpc_failure
    then "Failed to send XPC message to broker"
    else if n == code invalid_reply
    then "Broker returned invalid reply"
    else if n == code not_allowed
    then "You are not allowed to create a network"
    else if n == code invalid_request
    then "Invalid broker request"
    else if n == code not_found
    then "Network name not found"
    else if n == code create_failure
    then "Failed to create network"
    else if n == code internal_error
    then "Internal or unknown error"
    else unknown_status

-- vmnet_return_t of the vmnet framework: the values that the program names, and any other.
pub data VmnetReturn : Type 0 where
  vmnet_success vmnet_failure vmnet_mem_failure vmnet_invalid_argument : VmnetReturn
  vmnet_setup_incomplete vmnet_invalid_access vmnet_packet_too_big : VmnetReturn
  vmnet_buffer_exhausted vmnet_too_many_packets : VmnetReturn
  vmnet_other : ℕ → VmnetReturn

pub vmnet_strerror : VmnetReturn → String
vmnet_strerror vmnet_success = "VMNET_SUCCESS"
vmnet_strerror vmnet_failure = "VMNET_FAILURE"
vmnet_strerror vmnet_mem_failure = "VMNET_MEM_FAILURE"
vmnet_strerror vmnet_invalid_argument = "VMNET_INVALID_ARGUMENT"
vmnet_strerror vmnet_setup_incomplete = "VMNET_SETUP_INCOMPLETE"
vmnet_strerror vmnet_invalid_access = "VMNET_INVALID_ACCESS"
vmnet_strerror vmnet_packet_too_big = "VMNET_PACKET_TOO_BIG"
vmnet_strerror vmnet_buffer_exhausted = "VMNET_BUFFER_EXHAUSTED"
vmnet_strerror vmnet_too_many_packets = "VMNET_TOO_MANY_PACKETS"
vmnet_strerror (vmnet_other n) = unknown_status

-- `status == VMNET_SUCCESS`
abbrev pub is_success : VmnetReturn → Bool
is_success vmnet_success = Bool.true
is_success _ = Bool.false

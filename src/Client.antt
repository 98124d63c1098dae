-- ===== src/Client.antt =====
-- client/client.c: the request that the library sends to the broker, and what it makes of the reply.
-- The reply comes from XPC.
pub mod Outcome
pub mod Session
use vmnet_broker.Base.{
  ℕ, ◌+◌, ◌-◌, ◌^◌, ◌%◌, Bool, true, false, Option, none, some, List, [], ◌∷◌, ℤ, pos, negsuc,
  CString, ltb, is, if◌then◌else◌,
}
use vmnet_broker.Status.{code, success, xpc_failure, invalid_reply}
use vmnet_broker.Machine.{Reply, error, network}
use vmnet_broker.Xpc.{Request}
use vmnet_broker.Broker.{command_acquire}

-- The dictionary that a client sends.
pub record Message : Type 0 where
  pub command : CString
  pub network_name : CString

-- The object that xpc_connection_send_message_with_reply_sync returns. Of a dictionary, `error` is
-- what xpc_dictionary_get_int64 reads, 0 if the key is missing, and `network` what
-- xpc_dictionary_get_value reads.
pub data ReplyObject : Type 0 where
  xpc_error other_type : ReplyObject
  dictionary : (error : ℤ) (network : Option ℕ) → ReplyObject

-- The library's global, the requests that it has sent, newest first, and the objects that it retains
-- for its callers.
pub record Client : Type 0 where
  pub connection : Option ℕ
  pub sent : List (ℕ × Message)
  pub retained : List ℕ

-- The conversion of an int64_t to an int32_t.
pub to_int32 : ℤ → ℤ
to_int32 (pos n) =
    let low = n % 2 ^ 32 in if ltb low (2 ^ 31) then pos low else negsuc (2 ^ 32 - 1 - low)
to_int32 (negsuc n) =
    let low = n % 2 ^ 32 in if ltb low (2 ^ 31) then negsuc low else pos (2 ^ 32 - 1 - low)

-- The network and the status that a reply stands for.
unfoldable pub read_reply : ReplyObject → Option ℕ × ℤ
unfolding to_int32
read_reply xpc_error = (none, pos (code xpc_failure))
read_reply other_type = (none, pos (code invalid_reply))
read_reply (dictionary e n) =
    if is (to_int32 e) 0
    then elim n [ none ↦ (none, pos (code invalid_reply)) | some x ↦ (some x, pos (code success)) ]
    else (none, to_int32 e)

-- `mach_service` is what xpc_connection_create_mach_service returns.
unfoldable pub connect_to_broker : (mach_service : ℕ) → Client → ℕ × Client
connect_to_broker mach_service c = elim c.connection [
  | none ↦ (mach_service, record c { connection = some mach_service })
  | some connection ↦ (connection, c)
]

abbrev pub message : CString → Message
message network_name = record { command = command_acquire; network_name = network_name }

abbrev pub retain : Option ℕ → List ℕ → List ℕ
retain none retained = retained
retain (some x) retained = x ∷ retained

-- `answer` is the reply that XPC returns to the message on the connection. The result is the
-- network and what is stored at `status`, unless that is NULL.
unfoldable pub vmnet_broker_acquire_network :
    (mach_service : ℕ) (answer : ℕ → Message → ReplyObject)
    → CString
    → Client
    → (Option ℕ × ℤ) × Client
unfolding connect_to_broker read_reply
vmnet_broker_acquire_network mach_service answer network_name c =
    let (connection, c₁) = connect_to_broker mach_service c in
    let result = read_reply (answer connection (message network_name)) in
    (
      result,
      record c₁ {
        sent = (connection, message network_name) ∷ c₁.sent;
        retained = retain result.0 c₁.retained;
      },
    )

-- The keys of the request and of the reply are the same strings on both sides: what the broker reads
-- of a message with a reply pending, and what the client reads of the broker's dictionary.
abbrev pub deliver : Message → Request
deliver m = record {
  command = some m.command;
  network_name = some m.network_name;
  has_return_address = true;
}

abbrev pub reply_object : Reply → ReplyObject
reply_object (error e) = dictionary (pos e) none
reply_object (network x) = dictionary (pos 0) (some x)

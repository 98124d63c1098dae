-- ===== src/Tests/Clients.antt =====
-- The theorems on the client and on names, each at a concrete input.
use vmnet_broker.Base.{ℕ, ◌≡◌, ◌≢◌, ◌↔◌, arith, [], ◌∷◌, none, some, pos, drop}
use vmnet_broker.Status.{code, success, not_found, unknown_status, vmnet_broker_strerror}
use vmnet_broker.Status.Describe.{vmnet_broker_strerror-injective}
use vmnet_broker.Config.{shared_name}
use vmnet_broker.Xpc.{init_context, peer_name}
use vmnet_broker.Xpc.Names.{parse, init_context-name}
use vmnet_broker.Client.{
  Message, Client, ReplyObject, dictionary, message, retain, vmnet_broker_acquire_network,
}
use vmnet_broker.Client.Outcome.{IsResult, vmnet_broker_acquire_network-IsResult}

-- A library that has no connection yet, and a broker that grants.
abbrev closed : Client
closed = record { connection = none; sent = []; retained = [] }

abbrev answers : ℕ → Message → ReplyObject
answers connection m = dictionary (pos 0) (some 70)

vmnet_broker_acquire_network-IsResult_example :
    let (result, c') = vmnet_broker_acquire_network 9 answers shared_name closed in
    IsResult result
    × (c'.retained ≡ retain result.0 closed.retained)
    × ((connection : ℕ) × (c'.connection ≡ some connection)
        × (c'.sent ≡ (connection, message shared_name) ∷ closed.sent))
vmnet_broker_acquire_network-IsResult_example =
    vmnet_broker_acquire_network-IsResult 9 answers shared_name closed

vmnet_broker_strerror-injective_example :
    (vmnet_broker_strerror (pos (code success)) ≢ unknown_status)
    × ((vmnet_broker_strerror (pos (code success)) ≡ vmnet_broker_strerror (pos (code not_found)))
        ↔ (success ≡ not_found))
vmnet_broker_strerror-injective_example = vmnet_broker_strerror-injective success not_found

init_context-name_example :
    ((init_context 5 (pos 4294967296)).name ≡ peer_name (pos 4294967296))
    × (parse 0 (drop 5 (init_context 5 (pos 4294967296)).name) ≡ 4294967296)
init_context-name_example = init_context-name 5 4294967296 (omega arith)

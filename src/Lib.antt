-- ===== src/Lib.antt =====
-- A model of vmnet-broker's C code: the broker (broker/*.c), its client library (client/client.c) and
-- the program that tests them (test/test.c).
--
-- The broker shares vmnet networks between processes. A peer connects over XPC and asks for a network
-- by name; the first request creates the network, further requests share it, and a network that no
-- peer owns is removed after a time, as is an idle broker. All handlers run on the main queue, one at
-- a time, so that the broker is a sequence of events.
--
-- Files:
--   Base      lists, dictionaries, C strings and the C `int` counters, as integers.
--   Status    include/vmnet-broker.h's status codes; vmnet_broker_strerror of client/client.c and
--             vmnet_strerror of lib/common.c.
--   Machine   the state that the handlers share and the commands over it. `State` has the heap of
--             `struct network`, `registry` of broker/network.c, `connected_peers` and `idle_timer` of
--             broker/broker.c, the timers that dispatch may fire, launchd's transaction, the clock and
--             a log of effects with the replies. A command ends normally, crashes or exits.
--             Ledger counts what the log of effects says of each object.
--             Alike relates states that differ in the order of the dictionary alone; the modules of
--             that name below Config, Network and Broker are about their commands on such states.
--   Config    broker/config.c.
--   Network   broker/network.c; Registry has the registry's functions, and the other modules below it
--             what they keep and promise. acquire_network is `acquire_found` after `registry_get`,
--             `create_and_register` for a name that is missing, and `share_network` for the rest.
--   Xpc       broker/xpc.c and include/broker-xpc.h, whose `struct broker_ops` is `BrokerOps`.
--   Broker    broker/broker.c; Startup has setup_signal_handlers and main.
--   System    the broker as a whole: `step` handles one event of the listener, of a peer, of a timer,
--             a signal, or the passing of time. The contexts that the blocks of broker/xpc.c capture
--             are the list of the open connections. Spec is what the broker promises its clients, in
--             terms of the network names that each connection holds and of the replies alone; View
--             is the broker's state in these terms. The other modules state what holds of its runs.
--   Client    client/client.c.
--   Clients   the client library and the broker together: `call` runs vmnet_broker_acquire_network with
--             its message as an event of the broker, and the broker's reply as the library's answer.
--             Asked is a run of the broker with the requests of one process, Served the test client
--             in such a run, and Unknown the test client with a name that is not builtin.
--   NetworkInfo
--             network_info of lib/common.c and its struct of include/common.h.
--   TestClient
--             test/test.c. Options has parse_options; Interfaces has acquire_network, start_interface
--             and stop_interfaces; Main has the rest. `Session` is its globals with the library's state
--             and a log of what was done, `Calls` the command line and what the calls return. Ending
--             has the ways in which a run ends, and the other modules below it lead to them.
--   Tests     scenarios with one peer and with two, the test client, and the theorems at work on them.
--
-- Parameters: what the frameworks and the C library return is an argument (`Outcomes`, `Env`,
-- `CoreFoundation`, `Calls`). The theorems assume of it that equal CFString keys come from equal
-- names, that calloc returns memory that is not in use, that CFDictionaryCreateMutable returns a
-- dictionary, and that dispatch returns a new source for
-- a timer, and for each signal that main watches. A timer that is cancelled on the main queue does
-- not fire. The order of CFDictionary's entries is not promised; `State` has one, and System/Order
-- is about it.
--
-- Bounds: `decimal` has fuel for 20 digits, more than a 64-bit number has. The loop of
-- release_peer_networks recurs on network_count, the others on the list or the count that they walk;
-- the results of getopt_long and of kevent are lists, the second up to the call that blocks for good.
-- The counters are integers, and System/Counters is about the range of a C `int`.
--
-- Not modelled: logging (include/log.h), which nothing depends on, and with it the test client's clock
-- and its call of network_info; registry_retain of broker/network.c, which returns its argument; the
-- contents of XPC's and CoreFoundation's objects beyond what the handlers read, and their memory but
-- for the log of effects; the bindings in Go and Swift with their test programs, and the scripts. No
-- other function of the C code is left out.
pub mod Base
pub mod Status
pub mod Machine
pub mod Config
pub mod Network
pub mod Xpc
pub mod Broker
pub mod System
pub mod Client
pub mod Clients
pub mod NetworkInfo
pub mod TestClient
pub mod Tests

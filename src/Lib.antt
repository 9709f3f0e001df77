-- ===== src/Lib.antt =====
-- Openeebus is an implementation of the EEBUS protocols SHIP and SPINE. A SHIP connection is a
-- websocket over which two nodes agree on trust, a protocol version and a PIN, and then exchange
-- SPINE data. This library models the thread that drives a connection, the queue and the timers on
-- which it stands, and of SPINE the managers of subscriptions and bindings.
--
-- Common models src/common. Common.Error has the error codes of eebus_errors.h and Common.Text
-- `StringNCompare` of string_util.c. Common.Queue is the bounded queue of
-- eebus_queue/eebus_queue.c: `send`, `receive`, `clear_internal` and `destruct` are `Send`,
-- `Receive`, `ClearInternal` and `Destruct`. A call that blocks forever is `none`; a call is one
-- step, since the code holds a mutex over it, and what other threads do to the queue are further
-- calls. Its children: Window, the messages in the buffer; Fifo, what one call does to them;
-- Refinement, a whole history of calls against a bounded list; Clearing, the messages that are
-- deallocated. Common.Timer is eebus_timer/eebus_timer_linux.c with `start`, `stop`, the expiry
-- `fire` and `get_remaining_time`; the clocks and the creation of the thread are arguments.
--
-- Common.Duration is eebus_date_time/eebus_duration.c: `parse` in Parse and `to_string` in Print.
-- The loop of the parser runs on the length of the text as fuel, since each round takes a
-- character, which Ends shows. Digits reads printed numbers, Reading printed durations, RoundTrip
-- has both signs.
--
-- Ship models src/ship/ship_connection. Ship.Types has the states of ship/model/types.h and the
-- messages of ship/model/model.h, as the codec hands them over. Ship.State has the state
-- `ShipConnection` and Ship.Connection the operations that all handlers share; a record
-- `Environment` holds what the thread calls: websocket, codec, info provider, clocks. Its answers
-- may depend on the whole `log` of what was done and said before. `inbox` is what the queue will
-- deliver, each message with the timers that expire before it is taken; at its end the queue is
-- closed. Hello, Handshake, Pin and DataExchange have the handlers of the phases, named as in
-- ship_connection.c, client.c and server.c; Machine has `client_step` and `server_step`, the two
-- switches, and `loop`, the thread for a number of rounds. A call of a message codec that fails is
-- an answer of the environment. The pause of half a second behind a close message is left out, as
-- are debug prints and the freeing of buffers, apart from `msg` being reset.
--
-- The proofs about the connection are children of Ship.Connection: Kept, what the shared
-- operations leave alone; Outcome, the two ways in which a handler ends; Diagram, the state
-- diagram as an indexed data type; HelloKept, HelloOutcome, PhaseOutcome, DataOutcome and
-- StepOutcome, the handlers against it; Trust, Closing and Livelock, what follows for the thread;
-- Agreement, Decisions and ShipId, what single phases guarantee; Cooperation, the handshake with a
-- peer that cooperates. Api has what other threads call on a connection, with the queue of
-- Common.Queue. The proofs go by rulesets, `keeps`, `outcomes` and `edges`. The bound of 13 rounds
-- for the handshake is the number of states that it passes.
--
-- Spine models the subscription and binding managers of src/spine. Spine.Address has the addresses
-- and their comparison, Spine.Device the lookup of features in a device, Spine.FeatureLink the
-- container of links and Spine.Manager the state of subscription_manager.c and binding_manager.c,
-- with their operations in Request, Delete, Release and Report, each named after the function of
-- the code without the word Subscription or Binding where both are alike. A read through a NULL
-- pointer is `none`. The loop that removes the links of an entity runs on the number of links as
-- fuel: each round passes or removes one. Its other children are Removal, Notification, RoundTrip,
-- Exclusive and Entries, one for each group of theorems.
--
-- A local feature stands on further modules. Spine.Message has the messages and commands of
-- spine/model and spine/api/message.h, where the data of a function is a number; Spine.Sender is
-- spine/device/sender.c, with Counters for its numbers; Spine.Function is
-- spine/function/function.c, where the access to the data is a record of functions. Spine.Pending
-- has the containers of requests that wait: Reply, Result and Write are pending_reply.c,
-- pending_result.c, pending_write_request.c of spine/feature and their containers, with the
-- countdown of Common.Countdown; Laws, Timeout and Once are about the walks over them. A callback
-- may add requests while it is called, but does nothing else to the container.
--
-- Spine.FeatureLocal is spine/feature/feature_local.c. A record `World` has the remote devices
-- with their senders, what is kept of remote features, and the log; a record `Environment` the
-- data access, the printing and the application. Approval has `process_write`, `try_approve_write`
-- and `deny_write`, an approval callback deciding while it is asked or later; Remotes the
-- subscriptions and bindings that the feature holds, Exchange the messages that it handles and
-- Requests those that it sends. Counting, Approvals and Repeated are about write approvals,
-- Termination about the loop that removes all subscriptions or bindings, whose rounds are its
-- fuel, with Containers and Ready behind it, Crossing about replies of two devices and Stale about
-- writes.
--
-- Spine.LocalDevice is spine/device/device_local.c with the features in their states, the two
-- managers and the remote devices in one record. NodeManagement has the handlers of
-- spine/node_management, with the functions named as there; the handler of detailed discovery is
-- an argument. Dispatch has `process_datagram` and `process_cmd` and the removal of a remote
-- device; its children Unbound and Bound are about writes. A remote device is known by its SKI.
-- Spine.Discovery is what spine/device/device_remote.c makes of the entities and features that a
-- peer describes, `none` being a read through a NULL pointer or past the end of a buffer: Entities
-- has the lemmas on lists of entities, Rounds one round of the loop over them, Given what feature
-- descriptions say, Features the whole loop, Undescribed missing descriptions; DeviceDescription
-- is the device's own description, with the memory that it takes. Description is what a local
-- device tells of itself, `AddInfo` of node_management_detailed_discovery.c; Mirror and RoundTrip
-- add that to a peer.
--
-- Not modelled: the start, stop and destruction of a connection; the JSON codec; websockets, mDNS,
-- TLS; the registry of connections in ship/ship_node; the rest of SPINE; the use cases.
pub mod Prelude
pub mod Common
pub mod Ship
pub mod Spine

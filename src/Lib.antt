-- ===== src/Lib.antt =====
-- mini-ocs-nos: the control software of an optical circuit switch.
--
-- The program takes connection requests, drives a (simulated) optical switch and reports what the
-- switch did. This library models the C++ core, whose sources are under cpp/:
--
-- * Errors models cpp/include/ocs/errors.hpp and cpp/src/errors.cpp: ErrorCode, Error, toString
--   and errorCodeFromString.
-- * ConnectionStateMachine models cpp/src/connection_state_machine.cpp: the statuses of a
--   connection, their names, canTransition and requireTransition. Paths has the paths of the
--   relation.
-- * DeviceTypes models cpp/include/ocs/device_types.hpp and cpp/include/ocs/connection.hpp.
-- * Device models cpp/src/simulated_ocs_device.cpp. Device.State has the fields, the constructor
--   and the port checks, Device.Apply has applyConnections cut at its stages, Device.Faults has
--   injectFault, clearFault, setPortAdminState and reset. The other children are proofs: Cells and
--   Routes relate the cross-connect tables to the connections, Invariant says when a switch is
--   consistent, Histories lists the calls a client can make and what holds after any of them.
-- * Reconciler models cpp/src/reconciler.cpp: buildReconciliationPlan. Plan says what its batch asks
--   for, Drifts when it has no drifts, Converges what the switch has after the batch.
-- * Json has the JSON library as a record of its functions and what its documentation says of them
--   (a parameter; Json.Postfix meets it).
-- * DeviceCommand models cpp/src/device_command.cpp: batches of commands as JSON texts.
-- * Orchestrator models cpp/src/orchestrator_service.cpp. The module itself has retryAtNs,
--   startApplyTransition and the checks of the constructor, Heartbeat publishHeartbeat, Decode the
--   configuration events, Databases the databases and the writes, Configs processConfigOne, Results
--   processResultOne, Timeouts handleTimeoutResult, Retries processRetryOne, Alarms the alarms of
--   timeouts. A handler is a function from the databases before it to those after it, cut at its
--   stages. It takes the messages that it claims and reads, the times at which it reads the clock,
--   and the caller's after_phase, which may throw, as arguments. It runs alone: its guarded writes
--   are those of RedisRepository, in rounds between which no other client writes.
--   Publications, Replacements and Clearing are lemmas on the events and hashes that a handler
--   publishes and on the clearing of an alarm; Configs.Repeats, Results.Statuses, Results.Rows,
--   Timeouts.Bounds and Timeouts.Schedules are proofs about the handlers.
-- * RedisKeys models cpp/include/ocs/redis_keys.hpp: the keys of the tables.
-- * RedisRepository models cpp/src/redis_repository.cpp. Events has the envelopes and their fields,
--   Endpoint the addresses, Server the Redis server as a record of commands and their documented
--   effects (a parameter; Server.Memory meets them), Watch the loop that the guarded writes share,
--   Writes and Streams the operations. Each guarded write hands the loop the keys that it watches.
--   A round of the loop (Watch.Attempt) has the database as it is read, the database as EXEC meets
--   it, and the keys that other clients touched in between: they write as they like, and EXEC is
--   refused exactly if a watched key was touched. The one hypothesis about them is IsFaithful: a
--   key that nobody touched is unchanged. A key is one of a stream or one of a hash, as commands on
--   a key of the wrong type are refused. Once, Newest and Latency say what a write did, Ends that
--   it ends.
-- * UdsCodec models cpp/src/uds_codec.cpp: encode and decode of the frames between the
--   synchronisation service and the switch.
-- * UdsJson models cpp/src/uds_json.cpp: the payloads of the frames. UdsJson.Names has the names of
--   the enumerations, UdsJson.Requests the payloads about ports, resets and faults.
--
-- Names keep the words of the source (applyConnections is apply_connections). A text is the list of
-- its bytes, and std::map<std::string, _> is the association list of Base.TextMap in the order of
-- the keys. Unsigned integers are natural numbers; where the source adds to one, the wrap-around is
-- written out. A call of at() out of range is the value none or out_of_range, and an exception of
-- a constructor is Outcome.throws. The simulated switch holds its mutex through each call, so that
-- the calls are steps one after the other.
--
-- Fuel: the loops of the guarded writes run eight rounds and the key scan reads 4096 pages, as in
-- the source; a printed number has at most 20 digits, enough for a uint64_t. The loop of makePorts
-- has the fuel count + 1, which is one more than its rounds; Outcome.diverges is the loop that does
-- not end. The other loops are structural.
--
-- Not modelled: the consumer groups of the orchestrator, what it leaves in its databases where it
-- throws, the synchronisation service, the text of JSON, sockets and threads, the entry points, the
-- Python front ends and the web interface. The time limit of an apply is carried in ApplyOptions
-- and is not read by the switch, as in the source.
-- std::ranges::sort is a sort that keeps the order of equal keys; where keys are equal, the plan
-- throws. The durations of a retry policy, which the constructor wants not to be negative, are
-- numbers.
pub mod Base
pub mod Errors
pub mod ConnectionStateMachine
pub mod DeviceTypes
pub mod Json
pub mod DeviceCommand
pub mod Device
pub mod UdsCodec
pub mod UdsJson
pub mod Reconciler
pub mod RedisKeys
pub mod RedisRepository
pub mod Orchestrator

-- ===== src/Lib.antt =====
-- The core of the manufacturing execution system: work orders and their reports, who may do what and
-- how users log in, the audit log, alarms and collection tasks, the outbox that carries messages to the
-- broker, the consumers of messages, the calls to outer systems with their circuit breaker and the saga
-- of a completed order, inspections and defects, the messages to browsers, and the collector that loads
-- its configuration and reads devices over Modbus.
--
-- The parts and their files:
-- - Base: Boolean tests, lists with their lemmas, rows of a table through its UPDATEs, texts split at a
--   byte, integers over the native numbers, and `int` with its wrap-around.
-- - WorkOrder: the work order service. StateMachine is mes-backend/src/models/WorkOrderStateMachine.hh
--   (`next`, `can_transition`, `is_terminal`), Rules is mes-backend/src/utils/ReportRules.hh, and
--   Store, Orders (`create`, `update`), Transit (`transit`) and Report (`report`) are
--   mes-backend/src/services/WorkOrderService.cc. The tables are lists of rows in a record `Db`; an
--   operation takes the tables and gives the tables after it with its answer or its error. A SQL
--   statement is a function on the rows that its WHERE selects. `end_txn` ends a transaction: it
--   commits, or the commit fails, or an exception drops it; `Env.dropped` says what the database
--   then holds, since that is up to the database driver. History runs requests one after the other:
--   the service locks the row of the order it changes.
-- - Outbox: mes-backend/src/mq/OutboxDispatcher.cc and OutboxPolicy.hh; `tick` is a round, the broker
--   a function from rows to answers.
-- - Ingest: the consumer of sensor messages, mes-backend/src/mq/DataIngestHandler.cc. Threshold is
--   `checkThreshold`; Consumer is `handleMessage`, `flushBatch` and the loop of `start`: an event is a
--   turn of the loop on the consumer's thread or an answer of the database on another, in any order,
--   and what goes to the channel is a log of effects. JSON and `double` are a record of operations.
-- - Breaker: mes-backend/src/utils/CircuitBreaker.hh; a history is a list of calls with their times.
-- - Iot: the collector. Modbus is mes-iot/src/modbus/ModbusClient.cc: the socket is the list of the
--   chunks that `recv` delivers, and `read_holding_registers` gives the client and the answer. Poller
--   is mes-iot/src/collector/DevicePoller.cc: `merge_frames`, `extract_value`, `split_values`, and
--   in Loop `poll_round`, one round of `pollLoop`. The poller is the client of Modbus; a message is
--   the pair of a sensor and its value. Commands is mes-iot/src/cmd/CmdConsumer.cc, which pauses and
--   resumes pollers.
--   In Config, mes-iot/src/collector/ConfigLoader.cc: `parse_url` and `body_of` in Urls, the devices and
--   their sensors in Config itself, and `load_config` in Load.
-- - Integration: mes-backend/src/services/IntegrationService.cc and mes-backend/src/utils/IntegRules.hh.
--   Urls is `urlEncode` and `parseMethodPath` on lists of bytes; Call is `callExternal`, which asks
--   Breaker and gives what comes of each attempt as a function of its number; Logs is `writeLog`,
--   `failExternal` and `retryLog`; Saga is `reportCompletionSaga` on the tables of WorkOrder, with what
--   its surroundings do as a record `Env`, and Messages in it what the outer systems were told; Wms is `wmsCall`; ErpOrders is `syncErpOrders`, whose whole
--   is in Answers, and `convertErpOrder`, which uses `create` of WorkOrder.
-- - Quality: mes-backend/src/services/QcService.cc and mes-backend/src/utils/QcRules.hh, inspections and
--   their defects.
-- - Broadcast: mes-backend/src/websocket/WsBroadcastManager.cc; an event is a subscription, the end of a
--   connection, a message of Redis, or a step of the timer, in any order. Leader is the election of the
--   instance that pushes the production messages.
-- - Json: what the program takes from its JSON library, as parameters.
-- - StopCollection: mes-backend/src/mq/StopCollectionHandler.cc, which relays a message to stop the
--   collection to each device of the work order's line; an event sends an insert to the outbox or
--   answers one, in any order. NeverPauses puts its messages, and those of `sendCommand` of
--   mes-backend/src/services/IotService.cc, into Iot.Commands.
-- - Access: who may do what. Permissions and Scope are mes-backend/src/services/RbacService.cc and
--   mes-backend/src/utils/DataScopeFilter.hh; Routes is mes-backend/src/middlewares/perm_routes.cc;
--   Tokens is mes-backend/src/utils/JwtUtils.cc; Captcha is mes-backend/src/utils/Captcha.hh; Checks
--   is `jwtCheck` and `rbacCheck` of mes-backend/src/middlewares/CrossCutting.cc, which use Routes
--   and Tokens and the answers of Permissions; Login and Sessions are
--   mes-backend/src/services/AuthService.cc, with the calls of mes-backend/src/utils/CryptoUtils.hh.
--   What Redis and the database answer is an input of a step.
-- - Audit: the audit log of mes-backend/src/middlewares/CrossCutting.cc, with Mask for
--   mes-backend/src/utils/AuditMask.hh, on lists of bytes.
-- - DeviceMonitor: mes-backend/src/mq/DeviceMonitor.cc; the events of any number of instances.
-- - Alerts, Tasks: what users do with alarms, and the creation of collection tasks, both of
--   mes-backend/src/services/IotService.cc.
--
-- Loops are structural recursion on the list they walk; `recv_n` recurses on the chunks that come, and
-- `attempt_loop` of Integration.Call on the number of attempts that are left;
-- only `toRegex` of Access.Routes is on fuel, since its loop need not end: one more than the
-- length of the pattern is enough where its braces are closed, which they are in the table. A byte
-- is a number below 256 and a register one below 65536; `uint16_t` and `int` keep their
-- wrap-around.
--
-- Not modelled: `double` and `std::sort` (parameters), the sockets, the JSON text of messages, the
-- threads and timers, the exception path of the dispatcher, the loss of a consumer's channel, the
-- libraries for tokens, regular expressions, bcrypt and SHA-256 (parameters), the pictures and the
-- store of captchas, the change of a password, other requests that use a breaker between the attempts of
-- one call, the overflow of a column of the database (its quantities are integers without bounds here),
-- the errors of the database where an inspection is inserted, and the components that only hand text to
-- the database.
pub mod Access
pub mod DeviceMonitor
pub mod Alerts
pub mod Tasks
pub mod Audit
pub mod Base
pub mod Breaker
pub mod Broadcast
pub mod Ingest
pub mod WorkOrder
pub mod Integration
pub mod Iot
pub mod Json
pub mod Outbox
pub mod Quality
pub mod StopCollection

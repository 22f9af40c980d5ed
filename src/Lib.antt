-- ===== src/Lib.antt =====
-- Relayna: a task consumer over RabbitMQ and Redis (`src/relayna`) and the backend of its studio
-- (`studio/backend/src/relayna_studio`).
--
-- How the parts interact. A producer publishes a task; `consumer/task_consumer.py` takes it from a
-- queue, normalizes its field names (`contracts/aliases.py`), takes a lease on it, runs the
-- handler and settles the message. For a failure the policy engine (`policies/retry.py`) decides
-- on a retry, a dead letter or a rejection; the attempt travels in the message's headers
-- (`consumer/context.py`). The studio asks optional providers of telemetry through the gates of
-- `_provider_availability.py` and summarizes failures by `_incident_groups.py`. In a workflow a
-- stage publishes to the next by a routing key of the topology (`topology/workflow.py`), checked
-- at both ends (`topology/workflow_contract.py`). Leases (`storage/task_lease_store.py`), the
-- events of a task (`status/store.py`) and dead letters (`dlq/store.py`) are kept in Redis; a
-- scanner takes expired leases for recovery, and an operator replays dead letters
-- (`dlq/service.py`).
--
-- Which file models what.
--   Prelude, Json: library names, Boolean tests, lists, `str` and `dict` operations, JSON values.
--   Contracts: Aliases is `contracts/aliases.py`, Schemas is `contracts/schemas.py`.
--   Policies: `policies/retry.py` and `consumer/_retry_decision.py`.
--   Consumer: Effects has the calls, their answers and Python's `try`, `except` and `finally`;
--     Context is `consumer/context.py`; Publish, Process and Handle are `TaskConsumer`:
--     `_publish_*`, `_process_task*` and `_handle_*`. Hoare, Triples, Settlement, Verdict and
--     Delivery prove what becomes of a message, Lease what becomes of a lease; Headers and
--     Redelivery are about the attempts of a message.
--   Topology: `topology/workflow.py`, with the checks of `__post_init__` in Validation, the checks
--     of a publication (`topology/workflow_contract.py`, `workflow/transitions.py`) in Contract,
--     topic bindings (`_matches_parts`, `_topic_binding_matches`) in Binding, and the edges of the
--     exported graph and the search for a routing key's stage in Routing. Mermaid has the graph's
--     node ids.
--   Workflow: `workflow/run_state.py`, `workflow/fanin.py` and `workflow/diagnostics.py`.
--   Backpressure: `observability/backpressure.py`.
--   Async: `map_bounded` of `_async.py`, which publishes the members of a batch.
--   Redis: the server as an interface (the state, its values, sets, scores and lists after every
--     command), how a call ends for the program, and the keys (`_redis.py`); Memory meets the
--     interface.
--   Storage: `storage/task_lease_store.py`. Refinement has the table of holders that it
--     implements; Claims, Once and Scan are about the scan for expired leases, Index and Owners
--     about its indexes.
--   Status: `status/store.py`, attempts to store events, in which any calls fail before or after
--     they reach the server.
--   Dlq: `dlq/store.py` (Records, Scan, Paging, Cursor and Follow are about its listing), and the
--     replay of a dead letter with `replay_message` of `dlq/service.py` (Replay, Once, Headers).
--   Studio: Availability is `_provider_availability.py`, Incidents is `_incident_groups.py`.
--   Examples: the theorems at concrete inputs.
--
-- How code becomes definitions. A coroutine of the consumer is a function from the trace of the
-- calls made so far to a result and a longer trace. What a call answers (a value, an exception, a
-- cancellation) is given by an environment that sees the whole trace, so a theorem for every
-- environment covers every behaviour of the broker, the stores and the handler. Functions of the
-- interpreter and of pydantic (`str`, `int`, the JSON codec, the validation of an envelope) are
-- fields of `Runtime`. The coroutines of the gate and of `map_bounded` are cut at their awaits; a
-- step is what one task does between two of them, and a run is any list of steps. A store is a
-- section over a server: its method is a function from the state of the server to an answer and
-- the next state, a pipeline is a list of commands, and a text that is no record's is `none`. A
-- run of the lease store is any list of its calls, each at a time of the clock.
--
-- Numbers are natural numbers: times are milliseconds since the start of the process in
-- Availability and microseconds in Incidents, Storage, Status and Dlq. Subtractions are exact,
-- which is proved where it is not plain. Fuel: `_resolve` visits an incident once at most, so it
-- gets one round more than there are incidents. A free node id is among one more candidates than
-- there are ids, which are pairwise different. `list_records` has one round more than there are
-- ids. A client that follows the cursors needs one page more than there are records, and a message
-- whose handler always fails one delivery more than its limit. All are proved to be enough.
--
-- Not modelled: the texts of log lines and exceptions, the outer loops that reconnect or scan,
-- what other clients do to the server within one call of a store, the expiry of keys but for the
-- leases' (so not of the lock of a replay), the index of failed tasks, the hub and the streams of
-- statuses, the body of a message that is replayed, the pages and clients of the studio, and the
-- exporters of metrics and traces.
pub mod Prelude
pub mod Json
pub mod Contracts
pub mod Consumer
pub mod Policies
pub mod Redis
pub mod Storage
pub mod Status
pub mod Dlq
pub mod Studio
pub mod Topology
pub mod Workflow
pub mod Backpressure
pub mod Async
pub mod Examples

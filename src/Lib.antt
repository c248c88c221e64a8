-- ===== src/Lib.antt =====
-- Verification of obase, a Python library of infrastructure for agent systems: guards around calls
-- (circuit breaker, rate limiter, retry, cost tracker, capability tokens, hardened executor), the
-- durable lease queue and the docker pool from which workers take work and containers, the bus on
-- which people approve it, the event log with its quota, the team registry, tool governance, and the
-- orchestrator and workflow engine that run stages, nodes and layers. The executor stands on
-- capability tokens; the quota tracker writes to the event log.
--
-- The parts, by file; sources are paths from the repository's root.
--   Base            shared names, lists over native numbers, Python's dict in insertion order
--                   (Base/Dict), signed integers (Base/Int), rows of a table (Base/Members), Python's
--                   `str` on ASCII (Base/Text).
--   CircuitBreaker  obase/circuit_breaker.py: one function per critical section of `call`.
--   RateLimit       obase/rate_limit.py: `acquire` as rounds over the readings of the clock, and the
--                   registry of limiters.
--   CostTracker     obase/cost_tracker.py: price lookup, `record` with its budget check, estimates and
--                   the helpers for the current tracker.
--   LeaseQueue      obase/durable_lease_queue.py: the table as a list of rows in insertion order, one
--                   function per method, each a transaction.
--   DockerPool      obase/docker_pool.py: the slots; `acquire` in the parts between its awaits.
--   Runbook         obase/orchestrator.py, graph mode: `start_runbook`, `runbook_goto` and the
--                   backends as dicts of states.
--   Pipeline        obase/orchestrator.py, linear mode: `run_pipeline`, with the state in memory and
--                   the state on disk.
--   HitlBus         obase/hitl_signal_bus.py: approval requests and the interrupt signal.
--   Workflow        obase/workflow_engine.py: the search for cycles, the sort into layers, and
--                   `execute` over the layers.
--   Capability      obase/permission_contract.py: capability tokens, their verification and matching.
--   LoopEvents      obase/loop_event_store.py: the log and its hash chain, migration, the quota
--                   tracker, and the tracker's state as what its log comes to.
--   Executor        obase/hardened_executor.py with obase/resource_limits.py and
--                   obase/zero_egress_sandbox.py: guards, honeypot, audit, and the environment and
--                   the start of a process.
--   Team            obase/team_registry.py: members, tasks, locks, inboxes, broadcasts.
--   Governance      obase/tool_governance.py: redaction, specifications of tools and servers, grants.
--   Retry           obase/retry.py: `execute` and `retry_with_backoff`.
--
-- How they correspond. A method that changes its object takes and returns a record of the object's
-- fields, with its result first; an exception is the error of a result, and what the method had
-- changed before it raised stays changed. Clocks, fresh ids, answers of the docker daemon and the
-- functions that a caller passes are arguments. A method that holds a lock, or that does not await, is
-- one step; where the source awaits in the middle and another call may run, the parts are steps of
-- their own.
--
-- Numbers. Times, prices and token counts are natural numbers: nanoseconds in RateLimit, millionths
-- in CostTracker, any one unit elsewhere; rounding of floating point is not modelled. Counters of the
-- source are Python integers, which do not overflow. Integers that may be negative (priorities,
-- `max_retries`) are signed; `max_retries` of a pipeline stage and `max_attempts` of an edge are
-- natural.
--
-- Loops. The attempts at a stage and of the retry functions run on the number of rounds that
-- `range` gives, so they end as the source does; the rounds of the limiter run on the list of clock
-- readings and stop in the middle of a sleep when it is used up. The depth of the search for cycles
-- and the rounds of the sort run on fuel, and one for each node and each edge is enough.
--
-- Lines. The event log is read in two ways, up to newlines and with `splitlines()`, which also cuts at
-- U+0085, U+2028 and U+2029; how the second cuts a line is a parameter of LoopEvents, and the theorems
-- on appended rows ask that it takes a row for one line.
--
-- Not modelled. JSON, YAML, hashing and signatures, logging and SQL execution; what is handed to the
-- trail, the causal store and the context store. Of the executor, elapsed times and bait that cannot be
-- written or deleted; of tool governance, the redaction of URLs and the records of requests and
-- results. The deadlock detector, provider routing, caches and event barrier, and the adapters, stores
-- and runtimes that mostly call services and processes, are left out.
pub mod Base
pub mod CircuitBreaker
pub mod RateLimit
pub mod CostTracker
pub mod LeaseQueue
pub mod DockerPool
pub mod Runbook
pub mod Pipeline
pub mod HitlBus
pub mod Retry
pub mod Workflow
pub mod Capability
pub mod LoopEvents
pub mod Executor
pub mod Team
pub mod Governance

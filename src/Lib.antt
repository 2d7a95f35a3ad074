-- ===== src/Lib.antt =====
-- The verification library of knittingCrab, a task scheduler for a fleet of workers.
--
-- The coordinator serves nodes over framed connections: a node takes a task from the coordinator's
-- queue, leases it, runs it and reports its end. The DAG scheduler, the queues, the breaker and the
-- policies of crates/core are libraries beside that. The parts and the files that model them:
-- Prelude and its children: tests on numbers, lists, and maps as association lists.
-- Core: Priority (crates/core/src/priority.rs), Task (TaskDescriptor of traits.rs and the types
--   of its fields), Error (error.rs, and a call with its effect on the state).
-- Dag (crates/scheduler/src/dag.rs): Policy, Pool and Heap are its small structs, Cycle is
--   `detect_cycle`, State is `Inner`, Enqueue, Finish and Dequeue are the methods of
--   `DagScheduler`. Invariant and its children hold the state's invariant and what each method
--   does; Run is any sequence of calls on a new scheduler; Limits, Leak and Late follow the pool,
--   a retried task and a task that comes late. `dfs` and the cascade of `fail` run on fuel, the
--   number of tasks: a path visits a task once and the cascade pushes a task once. A run out of
--   fuel is `panics`, as is a missing index.
-- Queue (crates/core/src/priority_queue.rs): four queues by priority. Laws keeps its counter,
--   View reads the queues as one list.
-- Backpressure (crates/core/src/queue_backpressure.rs, backpressure_integration.rs): the depth
--   of a queue, the mode that follows from it, and the filter of tasks. Race has users whose loads of
--   the depth and entries interleave.
-- Breaker (crates/core/src/circuit_breaker.rs): Laws has its invariant over interleaved steps,
--   Trips how it opens and closes.
-- Leases (crates/core/src/lease.rs, the trait LeaseStore, crates/worker/src/lease_manager.rs):
--   Store is the trait as an interface, and the stores that always answer; InMemory is one of these,
--   Manager is a client of any store. Collect follows its collection of expired leases, Race callers
--   of insert that interleave.
-- Nodes (crates/coordinator/src/node_registry.rs): the nodes the coordinator knows, and their health.
-- TimeSlice (crates/core/src/time_slice_scheduler.rs): turns of the priorities by their weights.
-- Retry (crates/core/src/retry.rs, crates/worker/src/retry_handler.rs): which outcome of a process
--   is tried again. The delay is exact where the source rounds floating-point numbers.
-- Events (crates/core/src/event.rs, MemoryEventLog of event_log.rs): what a worker reports, and the
--   log of it in memory.
-- Coordinator (crates/coordinator, with the queue of crates/scheduler/src/stub.rs and the messages
--   of crates/transport/src/messages.rs): Cache is the cache index, Stub the queue, State the shared
--   state, Server the handler of requests, the end of a connection, and the rounds of the reaper and
--   of the probes. Known and Runs follow the cache index over any sequence of these, Reaped and Lost
--   what a round of the reaper does. The network's answer to a probe is a parameter.
-- Worker (crates/worker/src/worker_runtime.rs and fake_worker.rs): the runtime over any queue,
--   lease store, resource monitor, event sink and process executor, all of them interfaces without
--   laws. What other tasks of the runtime do while a process runs is a list of steps. Steady and
--   Keeps say what every step keeps; Resources uses it, and Once, for a store that always answers.
-- Framing (crates/transport/src/framing.rs and error.rs): frames over a stream of bytes. The JSON of a
--   message is an interface with one law.
-- Node (crates/node/src): Connection is a node's connection, with the coordinator of Coordinator.Server
--   at its other end and the doing of the network as an argument; Clients are the lease store, queue,
--   event sink and cache client on it.
-- Remote (crates/worker/src/ssh_tmux_executor.rs, dispatching_executor.rs): Shell builds command lines,
--   Words is how a POSIX shell reads one, Executor runs a task over any session manager.
-- Inversion (crates/core/src/priority_inversion.rs): History compares the detector with a reference.
-- Aging (crates/core/src/task_aging.rs): the priority of a task that has waited.
-- Timeout (crates/core/src/task_timeout.rs): the enforcement of time limits as time passes.
-- Session (crates/aivcs-session/src/session.rs, crates/core/src/execution_location.rs): the names that
--   reach a remote machine. Gatekeeper (crates/scheduler/src/gatekeeper.rs): where a task may run.
--
-- A method that holds its lock throughout is one step. Clock readings are arguments; a duration is
-- a whole number of its unit; an `f32` or `f64` is a whole number of a small fraction, as each
-- file says. Unsigned integers keep their width where the source can wrap. Identifiers are numbers.
-- The number of polls of a remote task is an argument, and what stops them. The state of the other
-- end of a connection stands in the connection's own.
-- Not modelled: poisoned locks, processes of the operating system, SSH, tmux and sockets, the logs,
-- leases and ledger in SQLite, serialization, the hashes of cache artifacts, and the agent crate,
-- which is not a member of the workspace.
pub mod Prelude
pub mod Core
pub mod Dag
pub mod Queue
pub mod Backpressure
pub mod Breaker
pub mod Leases
pub mod Nodes
pub mod TimeSlice
pub mod Retry
pub mod Events
pub mod Coordinator
pub mod Worker
pub mod Node
pub mod Framing
pub mod Remote
pub mod Inversion
pub mod Aging
pub mod Timeout
pub mod Session
pub mod Gatekeeper

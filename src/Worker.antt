-- ===== src/Worker.antt =====
-- crates/worker: the parts that a worker is made of. The traits of crates/core/src/traits.rs are
-- interfaces on the type of their state; error.rs, the parameters of process.rs and the configuration
-- of worker_runtime.rs are data.
pub mod Runtime
pub mod Steady
pub mod Keeps
pub mod Resources
pub mod Once
pub mod Fake
mod Examples
use knitting_crab.Prelude.{ℕ, Bool, Option, none, some, List, String, Map}
use knitting_crab.Core.Task.{
  TaskId, WorkerId, TaskDescriptor, ResourceAllocation, ExecutionLocation,
}
use knitting_crab.Core.Error.{CoreError, Result, ok, err}
use knitting_crab.Events.{TaskEvent, LogLine}
use knitting_crab.Retry.{ExitOutcome}
use knitting_crab.Leases.Store.{LeaseStore}

pub data WorkerError : Type 0 where
  core : CoreError → WorkerError
  spawn_failed process_error io_error signal_error internal_error : String → WorkerError
  timeout : WorkerError

pub data WorkerResult (A : Type 0) : Type 0 where
  worker_ok : A → WorkerResult A
  worker_err : WorkerError → WorkerResult A

-- `#[from] CoreError`.
abbrev pub from_core : {A : Type 0} → Result A → WorkerResult A
from_core (ok a) = worker_ok a
from_core (err e) = worker_err (core e)

pub record Queue (Q : Type 0) : Type 0 where
  pub dequeue : WorkerId → Q → Q × Result (Option TaskDescriptor)
  pub requeue : TaskId → ℕ → Q → Q × Result (Unit {0})
  pub discard : TaskId → Q → Q × Result (Unit {0})

pub record ResourceMonitor (R : Type 0) : Type 0 where
  pub can_allocate : ResourceAllocation → R → Result Bool
  pub allocate : ResourceAllocation → R → R × Result (Unit {0})
  pub release : ResourceAllocation → R → R × Result (Unit {0})

pub record EventSink (E : Type 0) : Type 0 where
  pub emit_event : TaskEvent → E → E × Result (Unit {0})
  pub emit_log : LogLine → E → E × Result (Unit {0})

pub record SpawnParams : Type 0 where
  pub task_id : TaskId
  pub command : List String
  pub working_dir : String
  pub env : List (String × String)
  pub location : ExecutionLocation

-- How a process ends, and what becomes of the executor and of the sink that it is given. The flag is
-- that of the cancel token.
pub record ProcessExecutor (E X : Type 0) : Type 0 where
  pub execute : SpawnParams → Bool → E → X → X × E × WorkerResult ExitOutcome

-- The settings of a `WorkerRuntime`. Times are in the unit of the lease store.
pub record WorkerConfig : Type 0 where
  pub worker_id : WorkerId
  pub lease_ttl : ℕ
  pub heartbeat_interval_ms : ℕ
  pub reaper_interval_ms : ℕ

unfoldable pub new_config : WorkerId → WorkerConfig
new_config worker = record {
  worker_id = worker;
  lease_ttl = 30000000000;
  heartbeat_interval_ms = 5000;
  reaper_interval_ms = 10000;
}

unfoldable pub with_lease_ttl : ℕ → WorkerConfig → WorkerConfig
with_lease_ttl ttl c = record c { lease_ttl = ttl }

unfoldable pub with_heartbeat_interval : ℕ → WorkerConfig → WorkerConfig
with_heartbeat_interval ms c = record c { heartbeat_interval_ms = ms }

unfoldable pub with_reaper_interval : ℕ → WorkerConfig → WorkerConfig
with_reaper_interval ms c = record c { reaper_interval_ms = ms }

-- What a worker shares with the others, and its active tasks: whether each has been cancelled.
pub record World (Q S R E X : Type 0) : Type 0 where
  pub queue : Q
  pub leases : S
  pub monitor : R
  pub sink : E
  pub executor : X
  pub active_tasks : Map Bool

-- The implementations that a worker is given, and its settings. `from_std` is the conversion of
-- `chrono`, as in `new_lease`.
pub record WorkerRuntime (Q S R E X : Type 0) : Type 0 where
  pub queue : Queue Q
  pub lease_store : LeaseStore S
  pub resource_monitor : ResourceMonitor R
  pub event_sink : EventSink E
  pub process_executor : ProcessExecutor E X
  pub from_std : ℕ → Option ℕ
  pub config : WorkerConfig

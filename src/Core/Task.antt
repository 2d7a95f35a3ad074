-- ===== src/Core/Task.antt =====
-- crates/core/src/traits.rs (TaskDescriptor), resource.rs, retry.rs, execution_location.rs.
use knitting_crab.Prelude.{ℕ, Bool, List, String, Option}
use knitting_crab.Core.Priority.{Priority}

-- `TaskId(Uuid)`, `WorkerId(Uuid)`: 128-bit numbers, ordered as such.
abbrev pub TaskId : Type 0
TaskId = ℕ

abbrev pub WorkerId : Type 0
WorkerId = ℕ

-- `cpu_cores` is an `f32`: here a whole number of 1/1024 cores, whose sums are exact in an `f32`
-- below 16384 cores. The other two are `u32`.
pub record ResourceAllocation : Type 0 where
  pub cpu_cores : ℕ
  pub memory_mb : ℕ
  pub gpu_cores : ℕ

-- Durations in milliseconds; the multiplier (an `f64`) in hundredths; exit codes by the bits of
-- their `i32`.
pub record RetryPolicy : Type 0 where
  pub max_attempts : ℕ
  pub initial_backoff : ℕ
  pub backoff_multiplier : ℕ
  pub max_backoff : ℕ
  pub retryable_exit_codes : List ℕ

pub record RemoteSessionTarget : Type 0 where
  pub host : String
  pub user : String
  pub repo_name : String

pub data ExecutionLocation : Type 0 where
  local : ExecutionLocation
  remote_session : RemoteSessionTarget → ExecutionLocation

pub record EvaluationMetadata : Type 0 where
  pub aivcs_run_id : Option String
  pub rubric_path : Option String
  pub is_promotion_gate : Bool
  pub agent_phase : ℕ

pub record TaskDescriptor : Type 0 where
  pub task_id : TaskId
  pub command : List String
  pub working_dir : String
  pub env : List (String × String)
  pub resources : ResourceAllocation
  pub policy : RetryPolicy
  pub attempt : ℕ
  pub is_critical : Bool
  pub priority : Priority
  pub dependencies : List TaskId
  pub location : ExecutionLocation
  pub evaluation : EvaluationMetadata

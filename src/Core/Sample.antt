-- ===== src/Core/Sample.antt =====
-- A task for the examples: `TaskDescriptor` with the retry policy's defaults.
use knitting_crab.Prelude.{ℕ, false, none, List, [], ◌∷◌}
use knitting_crab.Core.Priority.{Priority}
use knitting_crab.Core.Task.{TaskId, TaskDescriptor, ResourceAllocation, local}

abbrev pub one_core : ResourceAllocation
one_core = record { cpu_cores = 1024; memory_mb = 256; gpu_cores = 0 }

abbrev pub task_of : ℕ → Priority → List TaskId → TaskDescriptor
task_of id priority deps = record {
  task_id = id;
  command = "true" ∷ [];
  working_dir = "/";
  env = [];
  resources = one_core;
  policy = record {
    max_attempts = 3;
    initial_backoff = 100;
    backoff_multiplier = 200;
    max_backoff = 30000;
    retryable_exit_codes = [];
  };
  attempt = 0;
  is_critical = false;
  priority = priority;
  dependencies = deps;
  location = local;
  evaluation = record {
    aivcs_run_id = none;
    rubric_path = none;
    is_promotion_gate = false;
    agent_phase = 0;
  };
}

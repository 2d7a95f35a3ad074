-- ===== src/Events.antt =====
-- crates/core/src/event.rs: what a worker reports of a task.
pub mod Memory
use knitting_crab.Prelude.{ℕ, String}
use knitting_crab.Core.Task.{TaskId, WorkerId}
use knitting_crab.Retry.{ExitOutcome}

pub data LogSource : Type 0 where
  stdout stderr : LogSource

pub record LogLine : Type 0 where
  pub task_id : TaskId
  pub seq : ℕ
  pub timestamp : ℕ
  pub source : LogSource
  pub content : String

unfoldable pub new_log_line : TaskId → ℕ → LogSource → String → ℕ → LogLine
new_log_line task seq source content now = record {
  task_id = task;
  seq = seq;
  timestamp = now;
  source = source;
  content = content;
}

pub data TaskEvent : Type 0 where
  acquired : TaskId → WorkerId → ℕ → TaskEvent
  started : TaskId → ℕ → TaskEvent
  completed : TaskId → ExitOutcome → TaskEvent
  cancelled : TaskId → TaskEvent
  will_retry : TaskId → ℕ → ℕ → TaskEvent
  abandoned : TaskId → String → TaskEvent
  lease_expired : TaskId → TaskEvent

-- The task that an event names, which `get_events_by_task` compares in each case.
unfoldable pub task_of_event : TaskEvent → TaskId
task_of_event (acquired task worker attempt) = task
task_of_event (started task pid) = task
task_of_event (completed task outcome) = task
task_of_event (cancelled task) = task
task_of_event (will_retry task attempt delay) = task
task_of_event (abandoned task reason) = task
task_of_event (lease_expired task) = task

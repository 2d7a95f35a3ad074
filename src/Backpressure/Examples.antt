-- ===== src/Backpressure/Examples.antt =====
-- The theorems of the backpressure at concrete depths.
use knitting_crab.Prelude.{ℕ, ◌-◌, ◌≡◌, ◌≢◌, refl, true, none, [], ◌+◌, arith, u64_mod}
use knitting_crab.Core.Priority.{normal}
use knitting_crab.Core.Task.{TaskDescriptor}
use knitting_crab.Core.Sample.{task_of}
use knitting_crab.Backpressure.{
  DegradationMode, BackpressureConfig, QueueBackpressureManager, default_config, new, dequeue,
  degradation_mode, critical_depth, moderate_depth, high_depth, can_execute_task,
}
use knitting_crab.Backpressure.Laws.{IsOrdered, dequeue-empty}
use knitting_crab.Backpressure.Race.{race, race-depth}

abbrev plain_task : TaskDescriptor
plain_task = task_of 1 normal []

abbrev at_depth : ℕ → QueueBackpressureManager
unfolding default_config
at_depth n = record { config = default_config; current_depth = n }

default-IsOrdered : IsOrdered default_config
unfolding default_config moderate_depth high_depth critical_depth
default-IsOrdered = record { moderate_high = omega arith; high_critical = omega arith }

abbrev of_one : BackpressureConfig
of_one = record {
  max_queue_depth = 1;
  moderate_threshold = 50;
  high_threshold = 80;
  critical_threshold = 95;
}

race-depth_example :
    ((race 2 0 (new of_one)).0.current_depth ≡ 0 + 2) × ((race 2 0 (new of_one)).1 ≡ true)
unfolding new
race-depth_example = race-depth 2 (new of_one) (omega arith) (omega arith)

dequeue-empty_example :
    ((dequeue (at_depth 0)).current_depth ≡ u64_mod - 1)
    × (degradation_mode (dequeue (at_depth 0)) ≡ DegradationMode.critical)
    × (can_execute_task (dequeue (at_depth 0)) plain_task ≢ none)
unfolding at_depth critical_depth
dequeue-empty_example = dequeue-empty (at_depth 0) plain_task refl (omega arith) refl

-- ===== src/Backpressure.antt =====
-- crates/core/src/queue_backpressure.rs and backpressure_integration.rs: the depth of the queue,
-- the degradation mode that follows from it, and the filter of tasks by that mode. An atomic
-- operation is one step on the state; `try_enqueue` is two, a load and what follows it. The depth is a `usize`, whose updates wrap.
pub mod Laws
pub mod Race
mod Examples
use knitting_crab.Prelude.{
  ℕ, ◌+◌, ◌-◌, ◌*◌, ◌/◌, ◌%◌, ◌≡◌, Bool, true, false, not, ◌&&◌, Option, none, some, leb, min,
  if◌then◌else◌, u64_mod,
}
use knitting_crab.Core.Task.{TaskDescriptor}
use knitting_crab.Core.Error.{CoreError, Result, ok, err, internal}

pub data DegradationMode : Type 0 where
  normal moderate high critical : DegradationMode

-- In hundredths (an `f64` in the source).
unfoldable pub timeout_multiplier : DegradationMode → ℕ
timeout_multiplier normal = 100
timeout_multiplier moderate = 150
timeout_multiplier high = 250
timeout_multiplier critical = 500

-- In hundredths (an `f64` in the source).
unfoldable pub parallelism_factor : DegradationMode → ℕ
parallelism_factor normal = 100
parallelism_factor moderate = 75
parallelism_factor high = 25
parallelism_factor critical = 0

unfoldable pub allows_non_critical : DegradationMode → Bool
allows_non_critical critical = false
allows_non_critical _ = true

-- The thresholds are `f64` fractions of the maximum: here whole hundredths.
pub record BackpressureConfig : Type 0 where
  pub max_queue_depth : ℕ
  pub moderate_threshold : ℕ
  pub high_threshold : ℕ
  pub critical_threshold : ℕ

unfoldable pub default_config : BackpressureConfig
default_config = record {
  max_queue_depth = 10000;
  moderate_threshold = 50;
  high_threshold = 80;
  critical_threshold = 95;
}

unfoldable pub strict : BackpressureConfig
strict = record {
  max_queue_depth = 1000;
  moderate_threshold = 30;
  high_threshold = 60;
  critical_threshold = 85;
}

unfoldable pub permissive : BackpressureConfig
permissive = record {
  max_queue_depth = 50000;
  moderate_threshold = 70;
  high_threshold = 90;
  critical_threshold = 98;
}

unfoldable pub moderate_depth : BackpressureConfig → ℕ
moderate_depth c = c.max_queue_depth * c.moderate_threshold / 100

unfoldable pub high_depth : BackpressureConfig → ℕ
high_depth c = c.max_queue_depth * c.high_threshold / 100

unfoldable pub critical_depth : BackpressureConfig → ℕ
critical_depth c = c.max_queue_depth * c.critical_threshold / 100

pub record QueueBackpressureManager : Type 0 where
  pub config : BackpressureConfig
  pub current_depth : ℕ

unfoldable pub new : BackpressureConfig → QueueBackpressureManager
new config = record { config = config; current_depth = 0 }

-- Without the limit.
unfoldable pub enqueue : QueueBackpressureManager → QueueBackpressureManager
enqueue m = record m { current_depth = (m.current_depth + 1) % u64_mod }

-- Once the depth has been loaded as `current`, which other users may have changed since.
unfoldable pub try_enqueue :
    ℕ → QueueBackpressureManager → QueueBackpressureManager × Result (Unit {0})
unfolding enqueue
try_enqueue current m =
    if leb m.config.max_queue_depth current
    then (m, err (internal "queue is full; backpressure limit exceeded"))
    else (enqueue m, ok tt)

unfoldable pub dequeue : QueueBackpressureManager → QueueBackpressureManager
dequeue m = record m { current_depth = (m.current_depth + u64_mod - 1) % u64_mod }

unfoldable pub degradation_mode : QueueBackpressureManager → DegradationMode
unfolding critical_depth high_depth moderate_depth
degradation_mode m =
    if leb (critical_depth m.config) m.current_depth
    then critical
    else if leb (high_depth m.config) m.current_depth
    then high
    else if leb (moderate_depth m.config) m.current_depth
    then moderate
    else normal

unfoldable pub reset : QueueBackpressureManager → QueueBackpressureManager
reset m = record m { current_depth = 0 }

pub data TaskRejectionReason : Type 0 where
  degradation_mode_rejects_non_critical : TaskRejectionReason

abbrev pub is_critical_mode : DegradationMode → Bool
is_critical_mode critical = true
is_critical_mode _ = false

-- `TaskExecutionFilter::can_execute_task`: `none` is `Ok(())`.
unfoldable pub can_execute_task :
    QueueBackpressureManager → TaskDescriptor → Option TaskRejectionReason
unfolding degradation_mode
can_execute_task m task =
    if is_critical_mode (degradation_mode m) && not task.is_critical
    then some degradation_mode_rejects_non_critical
    else none

unfoldable pub timeout_multiplier_for_task : QueueBackpressureManager → TaskDescriptor → ℕ
unfolding degradation_mode timeout_multiplier
timeout_multiplier_for_task m task =
    if task.is_critical then timeout_multiplier (degradation_mode m) else 100

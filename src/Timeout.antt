-- ===== src/Timeout.antt =====
-- crates/core/src/task_timeout.rs: the limits on the time of a task. A duration is a whole number of
-- one unit.
pub mod Laws
use knitting_crab.Prelude.{
  ℕ, ◌+◌, ◌-◌, Bool, true, false, Option, none, some, List, [], ◌∷◌, ltb, if◌then◌else◌,
}
use knitting_crab.Core.Task.{TaskId}
use knitting_crab.Core.Error.{Result, ok, err, internal}

pub record TimeoutPolicy : Type 0 where
  pub hard_timeout : ℕ
  pub soft_timeout : Option ℕ

unfoldable pub hard : ℕ → TimeoutPolicy
hard duration = record { hard_timeout = duration; soft_timeout = none }

unfoldable pub soft_and_hard : ℕ → ℕ → TimeoutPolicy
soft_and_hard soft limit = record { hard_timeout = limit; soft_timeout = some soft }

abbrev pub sooner : Option ℕ → ℕ → ℕ
sooner none limit = limit
sooner (some soft) limit = if ltb soft limit then soft else limit

unfoldable pub effective_timeout : TimeoutPolicy → ℕ
effective_timeout p = sooner p.soft_timeout p.hard_timeout

-- The two flags that all copies of a handle share.
pub record TimeoutHandle : Type 0 where
  pub task_id : TaskId
  pub cancelled : Bool
  pub soft_timeout_triggered : Bool

unfoldable pub new_handle : TaskId → TimeoutHandle
new_handle task = record { task_id = task; cancelled = false; soft_timeout_triggered = false }

unfoldable pub cancel : TimeoutHandle → TimeoutHandle
cancel h = record h { cancelled = true }

unfoldable pub trigger_soft_timeout : TimeoutHandle → TimeoutHandle
trigger_soft_timeout h = record h { soft_timeout_triggered = true }

unfoldable pub reset : TimeoutHandle → TimeoutHandle
reset h = record h { cancelled = false; soft_timeout_triggered = false }

pub record TaskTimeoutManager : Type 0 where
  pub policy : TimeoutPolicy
  pub handle : TimeoutHandle

unfoldable pub new : TaskId → TimeoutPolicy → TaskTimeoutManager
unfolding new_handle
new task policy = record { policy = policy; handle = new_handle task }

unfoldable pub check : TaskTimeoutManager → Result (Unit {0})
check m = if m.handle.cancelled then err (internal "task exceeded hard timeout") else ok tt

-- A flag that is up already is left as it is. The time since the start stands before the handle.
unfoldable pub soften : ℕ × TimeoutHandle → ℕ × TimeoutHandle
unfolding trigger_soft_timeout
soften (t, h) = (t, (if h.cancelled then h else trigger_soft_timeout h))

unfoldable pub harden : ℕ × TimeoutHandle → ℕ × TimeoutHandle
unfolding cancel
harden (t, h) = (t, (if h.cancelled then h else cancel h))

-- `start` runs beside the task: `others` is what the other holders of the handle do to it during a
-- sleep that ends at a time. The state is the time since the start and the handle.
module _ (others : ℕ → TimeoutHandle → TimeoutHandle) where
  unfoldable pub sleep : ℕ → ℕ × TimeoutHandle → ℕ × TimeoutHandle
  sleep duration (t, h) = (t + duration, others (t + duration) h)

  unfoldable pub wait_for : Option ℕ → ℕ → ℕ × TimeoutHandle → ℕ × TimeoutHandle
  unfolding sleep soften
  wait_for none limit s = sleep limit s
  wait_for (some soft) limit s =
      let softened = soften (sleep soft s) in
      if ltb 0 (limit - soft) then sleep (limit - soft) softened else softened

  unfoldable pub start : TaskTimeoutManager → ℕ × TimeoutHandle
  unfolding wait_for harden
  start m = harden (wait_for m.policy.soft_timeout m.policy.hard_timeout (0, m.handle))

pub data TimeoutStatus : Type 0 where
  completed soft_timeout_status hard_timeout_status cancelled_status : TimeoutStatus

unfoldable pub is_timeout : TimeoutStatus → Bool
is_timeout completed = false
is_timeout soft_timeout_status = true
is_timeout hard_timeout_status = true
is_timeout cancelled_status = false

unfoldable pub is_retryable : TimeoutStatus → Bool
is_retryable completed = false
is_retryable soft_timeout_status = true
is_retryable hard_timeout_status = true
is_retryable cancelled_status = false

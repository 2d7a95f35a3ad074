-- ===== src/Backpressure/Laws.antt =====
-- The modes as the depth grows, and the filter.
use knitting_crab.Prelude.{
  ℕ, ◌⊎◌, ◌-◌, ◌≤◌, ◌<◌, ◌≡◌, ◌≢◌, ◌↔◌, true, false, none, leb, Bool-cases, inl, inr, u64_mod,
  arith,
}
use knitting_crab.Core.Task.{TaskDescriptor}
use knitting_crab.Backpressure.{
  DegradationMode, normal, moderate, high, critical, BackpressureConfig, moderate_depth, high_depth,
  critical_depth, QueueBackpressureManager, dequeue, degradation_mode, can_execute_task,
  timeout_multiplier_for_task,
}

-- How severe a mode is.
pub severity : DegradationMode → ℕ
severity normal = 0
severity moderate = 1
severity high = 2
severity critical = 3

-- The thresholds rise.
pub record IsOrdered (c : BackpressureConfig) : Type 0 where
  pub moderate_high : moderate_depth c ≤ high_depth c
  pub high_critical : high_depth c ≤ critical_depth c

-- For one configuration with rising thresholds, a deeper queue never means a milder mode, nor a
-- shorter timeout for a task.
pub degradation_mode_mono :
    (m n : QueueBackpressureManager) (task : TaskDescriptor)
    → m.config ≡ n.config
    → IsOrdered m.config
    → m.current_depth ≤ n.current_depth
    → (severity (degradation_mode m) ≤ severity (degradation_mode n))
      × (timeout_multiplier_for_task m task ≤ timeout_multiplier_for_task n task)
unfolding severity degradation_mode timeout_multiplier_for_task
degradation_mode_mono m n task e o l = ground arith

-- A queue that is left when it is empty counts as the deepest: every task that is not critical is
-- rejected.
pub dequeue-empty :
    (m : QueueBackpressureManager) (task : TaskDescriptor)
    → m.current_depth ≡ 0
    → critical_depth m.config < u64_mod
    → task.is_critical ≡ false
    → ((dequeue m).current_depth ≡ u64_mod - 1)
      × (degradation_mode (dequeue m) ≡ critical)
      × (can_execute_task (dequeue m) task ≢ none)
unfolding dequeue degradation_mode can_execute_task
dequeue-empty m task z h n = (ground arith, ground arith, λ e. ground arith)

-- A task may run exactly when the depth is below the critical one or the task is critical.
pub can_execute_task_iff :
    (m : QueueBackpressureManager) (task : TaskDescriptor)
    → (can_execute_task m task ≡ none)
      ↔ ((m.current_depth < critical_depth m.config) ⊎ (task.is_critical ≡ true))
unfolding can_execute_task
can_execute_task_iff m task = (
  (λ e. elim (Bool-cases (leb (critical_depth m.config) m.current_depth)) [
    | inl q ↦ inr (ground arith)
    | inr q ↦ inl (ground arith)
  ]),
  (λ c. elim c [ inl l ↦ ground arith | inr e ↦ ground arith ]),
)

-- ===== src/Dag/Policy.antt =====
-- crates/scheduler/src/dag.rs, the policies, the metrics and `TaskMetadata`. A clock reading, in
-- milliseconds since the epoch, is an argument `now`.
use knitting_crab.Prelude.{
  ℕ, ◌+◌, ◌-◌, ◌%◌, min, Bool, true, none, some, ◌==◌, leb, if◌then◌else◌, u8_mod,
}
use knitting_crab.Core.Priority.{Priority, as_u8, from_u8}

pub record FairnessPolicy : Type 0 where
  pub aging_threshold_ms : ℕ
  pub aging_boost_levels : ℕ
  pub enable_weighted_selection : Bool

unfoldable pub default_fairness : FairnessPolicy
default_fairness = record {
  aging_threshold_ms = 500;
  aging_boost_levels = 1;
  enable_weighted_selection = true;
}

-- The two quotas are whole percentages (`f64` in the source, and read by nothing).
pub record StarvationPreventionPolicy : Type 0 where
  pub low_priority_quota_percent : ℕ
  pub normal_priority_quota_percent : ℕ
  pub max_queue_wait_ms : ℕ
  pub enable_quota_enforcement : Bool

unfoldable pub default_starvation : StarvationPreventionPolicy
default_starvation = record {
  low_priority_quota_percent = 5;
  normal_priority_quota_percent = 15;
  max_queue_wait_ms = 2000;
  enable_quota_enforcement = true;
}

-- The counters are `u64`s that count single events; they are left unbounded.
pub record StarvationMetrics : Type 0 where
  pub aging_events : ℕ
  pub deadline_enforcements : ℕ
  pub quota_enforcements : ℕ
  pub current_queue_depth : ℕ

unfoldable pub no_metrics : StarvationMetrics
no_metrics = record {
  aging_events = 0;
  deadline_enforcements = 0;
  quota_enforcements = 0;
  current_queue_depth = 0;
}

pub record TaskMetadata : Type 0 where
  pub enqueued_at_ms : ℕ
  pub effective_priority : Priority

unfoldable pub new_metadata : Priority → ℕ → TaskMetadata
new_metadata priority now = record { enqueued_at_ms = now; effective_priority = priority }

-- `saturating_sub`.
unfoldable pub waiting_time_ms : TaskMetadata → ℕ → ℕ
waiting_time_ms m now = now - m.enqueued_at_ms

-- The sum of two `u8`s wraps.
unfoldable pub boosted : Priority → ℕ → Priority
unfolding from_u8 as_u8
boosted p levels = elim (from_u8 (min ((as_u8 p + levels) % u8_mod) 3)) [ some q ↦ q | none ↦ p ]

unfoldable pub apply_aging : TaskMetadata → FairnessPolicy → ℕ → TaskMetadata
unfolding waiting_time_ms boosted
apply_aging m policy now =
    if policy.aging_threshold_ms == 0
    then m
    else if leb policy.aging_threshold_ms (waiting_time_ms m now)
    then record m { effective_priority = boosted m.effective_priority policy.aging_boost_levels }
    else m

-- ===== src/Aging.antt =====
-- crates/core/src/task_aging.rs: the priority of a task that has waited long. Ages are in
-- milliseconds.
pub mod Laws
mod Examples
use knitting_crab.Prelude.{ℕ, ◌*◌, ◌/◌, ◌%◌, Option, none, some, leb, if◌then◌else◌, u64_mod}
use knitting_crab.Core.Priority.{Priority, low, normal, high, critical}

pub data AgingPolicy : Type 0 where
  no_aging : AgingPolicy
  linear exponential : ℕ → AgingPolicy

unfoldable pub threshold_ms : AgingPolicy → Priority → Option ℕ
threshold_ms no_aging p = none
threshold_ms (linear base_ms) critical = none
threshold_ms (linear base_ms) high = some base_ms
threshold_ms (linear base_ms) normal = some base_ms
threshold_ms (linear base_ms) low = some base_ms
threshold_ms (exponential base_ms) critical = none
threshold_ms (exponential base_ms) high = some (base_ms * 2 % u64_mod)
threshold_ms (exponential base_ms) normal = some base_ms
threshold_ms (exponential base_ms) low = some (base_ms / 2)

unfoldable pub promote_priority : Priority → Priority
promote_priority low = normal
promote_priority normal = high
promote_priority high = critical
promote_priority critical = critical

abbrev pub promote_at : Option ℕ → ℕ → Priority → Priority
promote_at none age_ms p = p
promote_at (some threshold) age_ms p = if leb threshold age_ms then promote_priority p else p

-- For a task that was enqueued with a priority and has that age.
unfoldable pub compute_promoted_priority : AgingPolicy → Priority → ℕ → Priority
unfolding threshold_ms promote_priority
compute_promoted_priority policy original age_ms =
    promote_at (threshold_ms policy original) age_ms original

-- ===== src/Leases.antt =====
-- crates/core/src/lease.rs, the trait `LeaseStore` of traits.rs, and
-- crates/worker/src/lease_manager.rs. Times are nanoseconds; a clock reading and the identifier of
-- a new lease are arguments. A call of the store is one step.
pub mod Store
pub mod InMemory
pub mod Manager
pub mod Laws
pub mod Collect
pub mod Race
mod Examples
use knitting_crab.Prelude.{ℕ, ◌+◌, Bool, Option, none, some, ltb}
use knitting_crab.Core.Task.{TaskId, WorkerId}

pub data LeaseState : Type 0 where
  active : LeaseState
  completed : LeaseState
  failed : ℕ → LeaseState
  expired : LeaseState
  cancelled : LeaseState

pub record Lease : Type 0 where
  pub lease_id : ℕ
  pub task_id : TaskId
  pub worker_id : WorkerId
  pub state : LeaseState
  pub acquired_at : ℕ
  pub expires_at : ℕ
  pub attempt : ℕ

-- `chrono::Duration::from_std(ttl).unwrap_or_default()`, whose range is chrono's.
abbrev pub ttl_or_zero : (ℕ → Option ℕ) → ℕ → ℕ
ttl_or_zero from_std ttl = elim (from_std ttl) [ none ↦ 0 | some d ↦ d ]

unfoldable pub new_lease : (ℕ → Option ℕ) → ℕ → ℕ → TaskId → WorkerId → ℕ → ℕ → Lease
new_lease from_std id now task worker ttl attempt = record {
  lease_id = id;
  task_id = task;
  worker_id = worker;
  state = active;
  acquired_at = now;
  expires_at = now + ttl_or_zero from_std ttl;
  attempt = attempt;
}

unfoldable pub is_expired : ℕ → Lease → Bool
is_expired now l = ltb l.expires_at now

unfoldable pub renew_lease : (ℕ → Option ℕ) → ℕ → ℕ → Lease → Lease
renew_lease from_std now ttl l = record l { expires_at = now + ttl_or_zero from_std ttl }

abbrev pub is_active : LeaseState → Bool
is_active active = Bool.true
is_active _ = Bool.false

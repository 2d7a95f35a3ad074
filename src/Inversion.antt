-- ===== src/Inversion.antt =====
-- `PriorityInversionDetector` of crates/core/src/priority_inversion.rs: which task holds which lock,
-- and the waits of a task for a lock whose holder has a lower priority. Locks are never poisoned.
pub mod History
mod Examples
use knitting_crab.Prelude.{
  ℕ, ◌-◌, Bool, Option, none, some, List, [], ◌∷◌, ◌++◌, String, TextMap, text_lookup, text_insert,
  text_remove, retain, length, ltb, if◌then◌else◌,
}
use mathlib.Core.Option
use knitting_crab.Core.Task.{TaskId}
use knitting_crab.Core.Priority.{Priority, priority_lt}

pub record InversionRecord : Type 0 where
  pub waiter_id : TaskId
  pub waiter_priority : Priority
  pub blocker_id : TaskId
  pub blocker_priority : Priority
  pub lock_id : String
  pub detected_at : ℕ
  pub duration_ms : ℕ

pub record LockOwnership : Type 0 where
  pub holder_id : TaskId
  pub holder_priority : Priority
  pub acquired_at : ℕ

pub record PriorityInversionDetector : Type 0 where
  pub lock_ownership : TextMap LockOwnership
  pub inversion_history : List InversionRecord

unfoldable pub new : PriorityInversionDetector
new = record { lock_ownership = []; inversion_history = [] }

-- At the clock reading `now`.
unfoldable pub record_lock_acquire :
    String → TaskId → Priority → ℕ → PriorityInversionDetector → PriorityInversionDetector
unfolding text_insert
record_lock_acquire lock task priority now d =
    let owner : LockOwnership = record {
      holder_id = task;
      holder_priority = priority;
      acquired_at = now;
    } in
    record d { lock_ownership = text_insert lock owner d.lock_ownership }

unfoldable pub record_lock_release :
    String → PriorityInversionDetector → PriorityInversionDetector × Option TaskId
unfolding text_lookup text_remove
record_lock_release lock d = (
  record d { lock_ownership = text_remove lock d.lock_ownership },
  Option.map (λ o. o.holder_id) (text_lookup lock d.lock_ownership),
)

unfoldable pub inversion_of :
    TaskId → Priority → String → ℕ → Option LockOwnership → Option InversionRecord
unfolding priority_lt
inversion_of waiter priority lock now none = none
inversion_of waiter priority lock now (some owner) =
    if priority_lt owner.holder_priority priority
    then some (record {
      waiter_id = waiter;
      waiter_priority = priority;
      blocker_id = owner.holder_id;
      blocker_priority = owner.holder_priority;
      lock_id = lock;
      detected_at = now;
      duration_ms = 0;
    })
    else none

abbrev pub push_inversion : Option InversionRecord → List InversionRecord → List InversionRecord
push_inversion none history = history
push_inversion (some r) history = history ++ r ∷ []

unfoldable pub record_task_blocks :
    TaskId
    → Priority
    → String
    → ℕ
    → PriorityInversionDetector
    → PriorityInversionDetector × Option InversionRecord
unfolding inversion_of text_lookup
record_task_blocks waiter priority lock now d =
    let found = inversion_of waiter priority lock now (text_lookup lock d.lock_ownership) in
    (record d { inversion_history = push_inversion found d.inversion_history }, found)

-- Times are in milliseconds; `now` is late enough for the subtraction.
unfoldable pub recent_inversions : ℕ → ℕ → PriorityInversionDetector → List InversionRecord
recent_inversions since_ms now d =
    retain (λ r. ltb (now - since_ms) r.detected_at) d.inversion_history

unfoldable pub inversion_count : PriorityInversionDetector → ℕ
inversion_count d = length d.inversion_history

unfoldable pub clear_history : PriorityInversionDetector → PriorityInversionDetector
clear_history d = record d { inversion_history = [] }

unfoldable pub clear_locks : PriorityInversionDetector → PriorityInversionDetector
clear_locks d = record d { lock_ownership = [] }

-- ===== src/Queue.antt =====
-- crates/core/src/priority_queue.rs: four queues, one for each priority. A method holds its locks
-- only for its own steps; here a method is one step. No lock is ever poisoned.
pub mod Laws
pub mod View
mod Examples
use knitting_crab.Prelude.{
  ℕ, ◌+◌, ◌-◌, ◌%◌, ◌≡◌, Bool, true, false, Option, none, some, List, [], ◌∷◌, ◌++◌, length, ltb,
  if◌then◌else◌, u64_mod,
}
use knitting_crab.Core.Priority.{Priority, low, normal, high, critical}
use knitting_crab.Core.Task.{TaskDescriptor}
use knitting_crab.Backpressure.{DegradationMode}

pub record PriorityQueueStats : Type 0 where
  pub critical_count : ℕ
  pub high_count : ℕ
  pub normal_count : ℕ
  pub low_count : ℕ
  pub total_count : ℕ
  pub highest_priority : Option Priority

pub record PriorityQueueManager : Type 0 where
  pub critical_queue : List TaskDescriptor
  pub high_queue : List TaskDescriptor
  pub normal_queue : List TaskDescriptor
  pub low_queue : List TaskDescriptor
  pub total_depth : ℕ

unfoldable pub new : PriorityQueueManager
new = record {
  critical_queue = [];
  high_queue = [];
  normal_queue = [];
  low_queue = [];
  total_depth = 0;
}

-- The queue of a priority, for reading and for writing.
unfoldable pub queue_of : Priority → PriorityQueueManager → List TaskDescriptor
queue_of critical m = m.critical_queue
queue_of high m = m.high_queue
queue_of normal m = m.normal_queue
queue_of low m = m.low_queue

unfoldable pub set_queue :
    Priority → List TaskDescriptor → PriorityQueueManager → PriorityQueueManager
set_queue critical q m = record m { critical_queue = q }
set_queue high q m = record m { high_queue = q }
set_queue normal q m = record m { normal_queue = q }
set_queue low q m = record m { low_queue = q }

unfoldable pub enqueue_task : TaskDescriptor → PriorityQueueManager → PriorityQueueManager
unfolding queue_of set_queue
enqueue_task task m = record (set_queue task.priority (queue_of task.priority m ++ task ∷ []) m) {
  total_depth = (m.total_depth + 1) % u64_mod;
}

unfoldable pub queues_to_check : DegradationMode → List Priority
queues_to_check DegradationMode.normal = critical ∷ high ∷ normal ∷ low ∷ []
queues_to_check DegradationMode.moderate = critical ∷ high ∷ normal ∷ low ∷ []
queues_to_check DegradationMode.high = critical ∷ high ∷ normal ∷ []
queues_to_check DegradationMode.critical = critical ∷ []

-- The loop over the queues.
unfoldable pub try_queues :
    List Priority → PriorityQueueManager → PriorityQueueManager × Option TaskDescriptor
unfolding queue_of set_queue
try_queues [] m = (m, none)
try_queues (p ∷ ps) m = elim (queue_of p m) [
  | [] ↦ try_queues ps m
  | task ∷ rest ↦ (
    record (set_queue p rest m) { total_depth = (m.total_depth + u64_mod - 1) % u64_mod },
    some task,
  )
]

unfoldable pub dequeue_task :
    DegradationMode → PriorityQueueManager → PriorityQueueManager × Option TaskDescriptor
unfolding queues_to_check try_queues
dequeue_task mode m = try_queues (queues_to_check mode) m

unfoldable pub pending_at_priority : Priority → PriorityQueueManager → ℕ
unfolding queue_of
pending_at_priority p m = length (queue_of p m)

unfoldable pub stats : PriorityQueueManager → PriorityQueueStats
unfolding pending_at_priority
stats m =
    let c = pending_at_priority critical m in
    let h = pending_at_priority high m in
    let n = pending_at_priority normal m in
    let l = pending_at_priority low m in
    record {
      critical_count = c;
      high_count = h;
      normal_count = n;
      low_count = l;
      total_count = c + h + n + l;
      highest_priority =
          if ltb 0 c
          then some critical
          else if ltb 0 h
          then some high
          else if ltb 0 n
          then some normal
          else if ltb 0 l
          then some low
          else none;
    }

unfoldable pub clear : PriorityQueueManager → PriorityQueueManager
clear m = record {
  critical_queue = [];
  high_queue = [];
  normal_queue = [];
  low_queue = [];
  total_depth = 0;
}

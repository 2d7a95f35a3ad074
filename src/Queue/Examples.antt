-- ===== src/Queue/Examples.antt =====
-- The queues' theorems at one manager of three tasks.
use knitting_crab.Prelude.{◌≡◌, refl, Option, [], ◌∷◌, arith}
use knitting_crab.Core.Priority.{low, normal, high}
use knitting_crab.Core.Task.{TaskDescriptor}
use knitting_crab.Core.Sample.{task_of}
use knitting_crab.Backpressure.{DegradationMode}
use knitting_crab.Queue.{PriorityQueueManager, enqueue_task, dequeue_task, clear}
use knitting_crab.Queue.Laws.{IsSound, operations-IsSound}
use knitting_crab.Queue.View.{served, head, rest, view-dequeue_task}

abbrev sample : PriorityQueueManager
sample = record {
  critical_queue = [];
  high_queue = task_of 1 high [] ∷ [];
  normal_queue = task_of 2 normal [] ∷ task_of 3 normal [] ∷ [];
  low_queue = [];
  total_depth = 3;
}

sample-IsSound : IsSound sample
sample-IsSound = record {
  counts = record { counted = refl; bounded = omega arith };
  routes = record { criticals = tt; highs = (refl, tt); normals = (refl, (refl, tt)); lows = tt };
}

operations-IsSound_example :
    IsSound (enqueue_task (task_of 4 low []) sample)
    × IsSound (dequeue_task DegradationMode.high sample).0
    × IsSound (clear sample)
operations-IsSound_example =
    operations-IsSound sample (task_of 4 low []) DegradationMode.high sample-IsSound (omega arith)

view-dequeue_task_example :
    ((dequeue_task DegradationMode.high sample).1 ≡ head (served DegradationMode.high sample))
    × (served DegradationMode.high (dequeue_task DegradationMode.high sample).0
        ≡ rest (served DegradationMode.high sample))
view-dequeue_task_example = view-dequeue_task DegradationMode.high sample

try_it : Option TaskDescriptor
unfolding dequeue_task
try_it = (dequeue_task DegradationMode.high sample).1

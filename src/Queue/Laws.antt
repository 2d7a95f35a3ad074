-- ===== src/Queue/Laws.antt =====
-- The counter and the queues, and the priorities of the tasks in them.
use knitting_crab.Prelude.{
  ℕ, ◌+◌, ◌-◌, ◌%◌, ◌<◌, ◌≡◌, refl, List, [], ◌∷◌, ◌++◌, length, length-append, u64_mod, arith, All,
}
use mathlib.Core.Option
use knitting_crab.Core.Priority.{Priority, low, normal, high, critical}
use knitting_crab.Core.Task.{TaskDescriptor}
use knitting_crab.Backpressure.{DegradationMode}
use knitting_crab.Queue.{
  PriorityQueueManager, queue_of, set_queue, enqueue_task, queues_to_check, try_queues,
  dequeue_task, stats, clear,
}

abbrev pub total : PriorityQueueManager → ℕ
total m = length m.critical_queue + length m.high_queue + length m.normal_queue + length m.low_queue

-- `total_depth` is the number of tasks, which a `usize` holds.
pub record IsCounted (m : PriorityQueueManager) : Type 0 where
  pub counted : m.total_depth ≡ total m
  pub bounded : total m < u64_mod

abbrev pub HavePriority : Priority → List TaskDescriptor → Type 0
HavePriority p = All λ t. t.priority ≡ p

pub record IsRouted (m : PriorityQueueManager) : Type 0 where
  pub criticals : HavePriority critical m.critical_queue
  pub highs : HavePriority high m.high_queue
  pub normals : HavePriority normal m.normal_queue
  pub lows : HavePriority low m.low_queue

HavePriority-append :
    (p : Priority) (q : List TaskDescriptor) (task : TaskDescriptor)
    → HavePriority p q
    → task.priority ≡ p
    → HavePriority p (q ++ task ∷ [])
HavePriority-append p [] task h e = (e, tt)
HavePriority-append p (x ∷ q) task h e = (h.0, HavePriority-append p q task h.1 e)

enqueue-total :
    (p : Priority) (m : PriorityQueueManager) (task : TaskDescriptor)
    → total (set_queue p (queue_of p m ++ task ∷ []) m) ≡ total m + 1
unfolding set_queue queue_of
enqueue-total critical m task = omega (arith, length-append {0} m.critical_queue (task ∷ []))
enqueue-total high m task = omega (arith, length-append {0} m.high_queue (task ∷ []))
enqueue-total normal m task = omega (arith, length-append {0} m.normal_queue (task ∷ []))
enqueue-total low m task = omega (arith, length-append {0} m.low_queue (task ∷ []))

enqueue-IsRouted :
    (p : Priority) (m : PriorityQueueManager) (task : TaskDescriptor)
    → task.priority ≡ p
    → IsRouted m
    → IsRouted (set_queue p (queue_of p m ++ task ∷ []) m)
unfolding set_queue queue_of
enqueue-IsRouted critical m task e r = record {
  criticals = HavePriority-append critical m.critical_queue task r.criticals e;
  highs = r.highs;
  normals = r.normals;
  lows = r.lows;
}
enqueue-IsRouted high m task e r = record {
  criticals = r.criticals;
  highs = HavePriority-append high m.high_queue task r.highs e;
  normals = r.normals;
  lows = r.lows;
}
enqueue-IsRouted normal m task e r = record {
  criticals = r.criticals;
  highs = r.highs;
  normals = HavePriority-append normal m.normal_queue task r.normals e;
  lows = r.lows;
}
enqueue-IsRouted low m task e r = record {
  criticals = r.criticals;
  highs = r.highs;
  normals = r.normals;
  lows = HavePriority-append low m.low_queue task r.lows e;
}

-- Both invariants.
pub record IsSound (m : PriorityQueueManager) : Type 0 where
  pub counts : IsCounted m
  pub routes : IsRouted m

-- With room for one more task, `enqueue_task` keeps the invariants.
pub enqueue_task-IsSound :
    (task : TaskDescriptor) (m : PriorityQueueManager)
    → IsSound m
    → total m + 1 < u64_mod
    → IsSound (enqueue_task task m)
unfolding enqueue_task
enqueue_task-IsSound task m s h =
    let e = enqueue-total task.priority m task in
    let r = enqueue-IsRouted task.priority m task refl s.routes in
    record {
      counts = record { counted = omega (arith, e, s.counts.counted); bounded = omega (arith, e) };
      routes = record {
        criticals = r.criticals;
        highs = r.highs;
        normals = r.normals;
        lows = r.lows;
      };
    }

-- One queue of the loop: it hands out its head, or the loop goes on.
dequeue_one-IsSound :
    (p : Priority) (m : PriorityQueueManager) (task : TaskDescriptor) (rest : List TaskDescriptor)
    → queue_of p m ≡ task ∷ rest
    → IsSound m
    → IsSound
        (record (set_queue p rest m) { total_depth = (m.total_depth + u64_mod - 1) % u64_mod })
unfolding queue_of set_queue
dequeue_one-IsSound p m task rest e s = ground arith

try_queues-IsSound :
    (ps : List Priority) (m : PriorityQueueManager) → IsSound m → IsSound (try_queues ps m).0
unfolding try_queues
try_queues-IsSound [] m s = s
try_queues-IsSound (p ∷ ps) m s = go (queue_of p m) refl (try_queues-IsSound ps m s)
  where
    go :
        (q : List TaskDescriptor)
        → queue_of p m ≡ q
        → IsSound (try_queues ps m).0
        → IsSound (try_queues (p ∷ ps) m).0
    go [] e later = rw (e, try_queues) later
    go (task ∷ rest) e later = rw (e, try_queues) (dequeue_one-IsSound p m task rest e s)

pub dequeue_task-IsSound :
    (mode : DegradationMode) (m : PriorityQueueManager)
    → IsSound m
    → IsSound (dequeue_task mode m).0
unfolding dequeue_task
dequeue_task-IsSound mode m s = try_queues-IsSound (queues_to_check mode) m s

clear-IsSound : (m : PriorityQueueManager) → IsSound (clear m)
unfolding clear
clear-IsSound m = record {
  counts = record { counted = refl; bounded = omega arith };
  routes = record { criticals = tt; highs = tt; normals = tt; lows = tt };
}

-- Every operation keeps both invariants, the counter's and the routing's: `enqueue_task` when a
-- `usize` holds one task more, `dequeue_task` in every mode, and `clear`.
pub operations-IsSound :
    (m : PriorityQueueManager) (task : TaskDescriptor) (mode : DegradationMode)
    → IsSound m
    → total m + 1 < u64_mod
    → IsSound (enqueue_task task m) × IsSound (dequeue_task mode m).0 × IsSound (clear m)
operations-IsSound m task mode s h =
    (enqueue_task-IsSound task m s h, dequeue_task-IsSound mode m s, clear-IsSound m)

abbrev manager :
    List TaskDescriptor
    → List TaskDescriptor
    → List TaskDescriptor
    → List TaskDescriptor
    → ℕ
    → PriorityQueueManager
manager c h n l d = record {
  critical_queue = c;
  high_queue = h;
  normal_queue = n;
  low_queue = l;
  total_depth = d;
}

highest_priority-manager :
    (c h n l : List TaskDescriptor) (d : ℕ)
    → IsRouted (manager c h n l d)
    → (stats (manager c h n l d)).highest_priority
      ≡ Option.map (λ t. t.priority) (dequeue_task DegradationMode.normal (manager c h n l d)).1
unfolding stats dequeue_task
highest_priority-manager (t ∷ c) h n l d r = let e = r.criticals.0 in ground arith
highest_priority-manager [] (t ∷ h) n l d r = let e = r.highs.0 in ground arith
highest_priority-manager [] [] (t ∷ n) l d r = let e = r.normals.0 in ground arith
highest_priority-manager [] [] [] (t ∷ l) d r = let e = r.lows.0 in ground arith
highest_priority-manager [] [] [] [] d r = refl

-- The total of the statistics is the counter, and the highest priority is that of the task that
-- `dequeue_task` hands out in Normal mode.
pub stats-dequeue_task :
    (m : PriorityQueueManager)
    → IsSound m
    → ((stats m).total_count ≡ m.total_depth)
      × ((stats m).highest_priority
          ≡ Option.map (λ t. t.priority) (dequeue_task DegradationMode.normal m).1)
unfolding stats
stats-dequeue_task m s = (
  ground arith,
  highest_priority-manager m.critical_queue m.high_queue m.normal_queue m.low_queue m.total_depth
      (record {
        criticals = s.routes.criticals;
        highs = s.routes.highs;
        normals = s.routes.normals;
        lows = s.routes.lows;
      }),
)

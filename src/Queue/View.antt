-- ===== src/Queue/View.antt =====
-- The queues as one list: the tasks that a mode may hand out, in the order in which it does.
use knitting_crab.Prelude.{
  ℕ, ap, sym, ◌∙◌, ◌==◌, ◌||◌, subst, ◌≡◌, refl, Option, none, some, List, [], ◌∷◌, ◌++◌, arith,
  Bool, true, false,
}
use knitting_crab.Core.Priority.{Priority, low, normal, high, critical, as_u8}
use knitting_crab.Core.Task.{TaskDescriptor}
use knitting_crab.Backpressure.{DegradationMode}
use knitting_crab.Queue.{PriorityQueueManager, queue_of, queues_to_check, try_queues, dequeue_task}
use knitting_crab.Queue.Laws.{IsRouted, IsSound, HavePriority}

abbrev pub head : List TaskDescriptor → Option TaskDescriptor
head [] = none
head (t ∷ ts) = some t

abbrev pub rest : List TaskDescriptor → List TaskDescriptor
rest [] = []
rest (t ∷ ts) = ts

-- The tasks that each mode serves, in their order: Critical only the critical ones, High all but
-- the low ones, the other modes all of them, by falling priority.
unfoldable pub served : DegradationMode → PriorityQueueManager → List TaskDescriptor
served DegradationMode.normal m =
    m.critical_queue ++ (m.high_queue ++ (m.normal_queue ++ m.low_queue))
served DegradationMode.moderate m =
    m.critical_queue ++ (m.high_queue ++ (m.normal_queue ++ m.low_queue))
served DegradationMode.high m = m.critical_queue ++ (m.high_queue ++ m.normal_queue)
served DegradationMode.critical m = m.critical_queue

-- What the theorem below says of one mode and manager.
abbrev IsHead : DegradationMode → PriorityQueueManager → Type 0
IsHead mode m =
    ((dequeue_task mode m).1 ≡ head (served mode m))
    × (served mode (dequeue_task mode m).0 ≡ rest (served mode m))

abbrev manager :
    List TaskDescriptor
    → List TaskDescriptor
    → List TaskDescriptor
    → List TaskDescriptor
    → ℕ
    → PriorityQueueManager
manager c h n l d = record {
  critical_queue = c;
  high_queue = h;
  normal_queue = n;
  low_queue = l;
  total_depth = d;
}

manager-IsHead :
    (mode : DegradationMode) (c h n l : List TaskDescriptor) (d : ℕ)
    → IsHead mode (manager c h n l d)
unfolding dequeue_task served queues_to_check queue_of
manager-IsHead DegradationMode.normal (t ∷ c) h n l d = (refl, refl)
manager-IsHead DegradationMode.normal [] (t ∷ h) n l d = (refl, refl)
manager-IsHead DegradationMode.normal [] [] (t ∷ n) l d = (refl, refl)
manager-IsHead DegradationMode.normal [] [] [] (t ∷ l) d = (refl, refl)
manager-IsHead DegradationMode.normal [] [] [] [] d = (refl, refl)
manager-IsHead DegradationMode.moderate (t ∷ c) h n l d = (refl, refl)
manager-IsHead DegradationMode.moderate [] (t ∷ h) n l d = (refl, refl)
manager-IsHead DegradationMode.moderate [] [] (t ∷ n) l d = (refl, refl)
manager-IsHead DegradationMode.moderate [] [] [] (t ∷ l) d = (refl, refl)
manager-IsHead DegradationMode.moderate [] [] [] [] d = (refl, refl)
manager-IsHead DegradationMode.high (t ∷ c) h n l d = (refl, refl)
manager-IsHead DegradationMode.high [] (t ∷ h) n l d = (refl, refl)
manager-IsHead DegradationMode.high [] [] (t ∷ n) l d = (refl, refl)
manager-IsHead DegradationMode.high [] [] [] l d = (refl, refl)
manager-IsHead DegradationMode.critical (t ∷ c) h n l d = (refl, refl)
manager-IsHead DegradationMode.critical [] h n l d = (refl, refl)

-- `dequeue_task` takes the first of the tasks that the mode serves, which are the critical ones in
-- Critical mode, all but the low ones in High mode and all in the others, by falling priority and
-- in the order of their queue, and leaves the others of these in order.
pub view-dequeue_task :
    (mode : DegradationMode) (m : PriorityQueueManager)
    → ((dequeue_task mode m).1 ≡ head (served mode m))
      × (served mode (dequeue_task mode m).0 ≡ rest (served mode m))
view-dequeue_task mode m =
    manager-IsHead mode m.critical_queue m.high_queue m.normal_queue m.low_queue m.total_depth

abbrev pub is_among : Priority → List Priority → Bool
unfolding as_u8
is_among p [] = false
is_among p (q ∷ ps) = as_u8 q == as_u8 p || is_among p ps

some_inj : (t u : TaskDescriptor) → some t ≡ some u → t ≡ u
some_inj t u e = cc

head_of-priority :
    (p : Priority) (m : PriorityQueueManager) (task : TaskDescriptor) (ts : List TaskDescriptor)
    → IsRouted m
    → queue_of p m ≡ task ∷ ts
    → task.priority ≡ p
unfolding queue_of
head_of-priority critical m task ts r e = (subst (HavePriority critical) e r.criticals).0
head_of-priority high m task ts r e = (subst (HavePriority high) e r.highs).0
head_of-priority normal m task ts r e = (subst (HavePriority normal) e r.normals).0
head_of-priority low m task ts r e = (subst (HavePriority low) e r.lows).0

try_queues-empty :
    (p : Priority) (ps : List Priority) (m : PriorityQueueManager)
    → queue_of p m ≡ []
    → try_queues (p ∷ ps) m ≡ try_queues ps m
unfolding try_queues
try_queues-empty p ps m e = rw (e, try_queues) refl

try_queues-first :
    (p : Priority) (ps : List Priority) (m : PriorityQueueManager) (t : TaskDescriptor)
    (ts : List TaskDescriptor)
    → queue_of p m ≡ t ∷ ts
    → (try_queues (p ∷ ps) m).1 ≡ some t
unfolding try_queues
try_queues-first p ps m t ts e = rw (e, try_queues) refl

is_among-later :
    (p q : Priority) (ps : List Priority) → is_among p ps ≡ true → is_among p (q ∷ ps) ≡ true
unfolding is_among
is_among-later p q ps h = ground arith

is_among-first : (p q : Priority) (ps : List Priority) → p ≡ q → is_among p (q ∷ ps) ≡ true
unfolding is_among
is_among-first p q ps e = ground arith

try_queues-priority :
    (ps : List Priority) (m : PriorityQueueManager) (task : TaskDescriptor)
    → IsRouted m
    → (try_queues ps m).1 ≡ some task
    → is_among task.priority ps ≡ true
unfolding try_queues
try_queues-priority [] m task r h = cc
try_queues-priority (p ∷ ps) m task r h = go (queue_of p m) refl (try_queues-priority ps m task r)
  where
    go :
        (q : List TaskDescriptor)
        → queue_of p m ≡ q
        → ((try_queues ps m).1 ≡ some task → is_among task.priority ps ≡ true)
        → is_among task.priority (p ∷ ps) ≡ true
    go [] e later =
        is_among-later task.priority p ps
          (later (ap (λ r. r.1) (sym (try_queues-empty p ps m e)) ∙ h))
    go (t ∷ ts) e later =
        let same : t ≡ task = some_inj t task (sym (try_queues-first p ps m t ts e) ∙ h) in
        is_among-first task.priority p ps
          (ap (λ k. k.priority) (sym same) ∙ head_of-priority p m t ts r e)

-- The priority of the task that is handed out is one that the mode may serve: in Critical mode
-- only critical, in High mode any but low.
pub dequeue_task-priority :
    (mode : DegradationMode) (m : PriorityQueueManager) (task : TaskDescriptor)
    → IsSound m
    → (dequeue_task mode m).1 ≡ some task
    → is_among task.priority (queues_to_check mode) ≡ true
unfolding dequeue_task
dequeue_task-priority mode m task s h = try_queues-priority (queues_to_check mode) m task s.routes h

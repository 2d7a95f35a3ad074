-- ===== src/Dag/Invariant.antt =====
-- What holds of the scheduler between two calls: the graph is closed and ordered, and the degrees
-- and states agree with the dependencies that are still open.
pub mod Progress
pub mod Lower
pub mod Finish
pub mod Cascade
pub mod Downstream
pub mod Fail
pub mod Link
pub mod Admit
pub mod Detect
pub mod Enqueue
pub mod Start
pub mod Requeue
pub mod Dequeue
use knitting_crab.Prelude.{
  ℕ, ◌+◌, ◌≤◌, ◌<◌, ◌≡◌, Bool, true, false, Option, none, some, List, [], ◌∷◌, Map, lookup, has_key,
  contains, if◌then◌else◌,
}
use knitting_crab.Core.Task.{TaskId, TaskDescriptor}
use knitting_crab.Dag.State.{Inner, TaskState, successors_of, is_started}
use knitting_crab.Dag.Dequeue.{is_ready}
use knitting_crab.Dag.Greatest.{ids}
use knitting_crab.Dag.Waiting.{waiting}
use knitting_crab.Dag.Rank.{rank}

abbrev pub Distinct : List TaskId → Type 0
Distinct [] = Unit {0}
Distinct (x ∷ xs) = (contains x xs ≡ false) × Distinct xs

-- Every dependency is a task that was accepted earlier, and `successors` holds the edges reversed.
pub record IsGraph (tasks : Map TaskDescriptor) (successors : Map (List TaskId)) : Type 0 where
  pub named : (k : TaskId) (t : TaskDescriptor) → lookup k tasks ≡ some t → t.task_id ≡ k
  pub known :
      (k : TaskId) (t : TaskDescriptor) (d : TaskId)
      → lookup k tasks ≡ some t
      → contains d t.dependencies ≡ true
      → (has_key d tasks ≡ true) × (rank d tasks < rank k tasks)
  pub linked :
      (d x : TaskId)
      → contains x (successors_of d successors) ≡ true
      → (t : TaskDescriptor) × (lookup x tasks ≡ some t) × (contains d t.dependencies ≡ true)
  pub linked_back :
      (k : TaskId) (t : TaskDescriptor) (d : TaskId)
      → lookup k tasks ≡ some t
      → contains d t.dependencies ≡ true
      → contains k (successors_of d successors) ≡ true
  pub distinct : (d : TaskId) → Distinct (successors_of d successors)

-- `debt` holds the tasks whose degree is still to be lowered.
pub record IsProgress (debt : List TaskId) (tasks : Map TaskDescriptor) (states : Map TaskState)
    (in_degree : Map ℕ) : Type 0 where
  pub tracked : (k : TaskId) → has_key k tasks ≡ has_key k states
  pub counted :
      (k : TaskId) (t : TaskDescriptor)
      → lookup k tasks ≡ some t
      → (n : ℕ) × (lookup k in_degree ≡ some n)
        × (waiting states t.dependencies + (if contains k debt then 1 else 0) ≤ n)
  pub started :
      (k : TaskId) (t : TaskDescriptor)
      → lookup k tasks ≡ some t
      → is_started (lookup k states) ≡ true
      → waiting states t.dependencies ≡ 0

pub record IsConsistent (s : Inner) : Type 0 where
  pub graph : IsGraph s.tasks s.successors
  pub progress : IsProgress [] s.tasks s.states s.in_degree

-- If the task is ready, it has an entry in the heap.
abbrev pub HasEntry : Inner → TaskId → Type 0
HasEntry s k = is_ready (lookup k s.states) ≡ true → contains k (ids s.ready_heap) ≡ true

-- No ready task is lost.
abbrev pub IsQueued : Inner → Type 0
IsQueued s = (k : TaskId) → HasEntry s k

-- ===== src/Dag/Enqueue.antt =====
-- crates/scheduler/src/dag.rs, `DagScheduler::enqueue`. The lock is held throughout, so a call is
-- one step on the state; an error returns the state that the call leaves.
use knitting_crab.Prelude.{
  ℕ, ◌==◌, not, Option, none, some, List, [], ◌∷◌, Map, lookup, insert, remove, has_key, contains,
  retain, length, if◌then◌else◌,
}
use knitting_crab.Core.Priority.{Priority}
use knitting_crab.Core.Task.{TaskId, TaskDescriptor}
use knitting_crab.Core.Error.{
  Outcome, ok, err, returns, panics, duplicate_task, unknown_dependency, cyclic_dependency,
}
use knitting_crab.Dag.Policy.{new_metadata}
use knitting_crab.Dag.Heap.{ReadyEntry}
use knitting_crab.Dag.Cycle.{detect_cycle}
use knitting_crab.Dag.State.{Inner, pending, ready, successors_of}

-- The first dependency that is not in the graph.
unfoldable pub find_unknown : List TaskId → Map TaskDescriptor → Option TaskId
unfolding has_key
find_unknown [] tasks = none
find_unknown (dep ∷ deps) tasks =
    let rest = find_unknown deps tasks in if has_key dep tasks then rest else some dep

-- `HashSet::insert` and `HashSet::remove`.
unfoldable pub set_insert : TaskId → List TaskId → List TaskId
set_insert x xs = if contains x xs then xs else x ∷ xs

unfoldable pub set_remove : TaskId → List TaskId → List TaskId
set_remove x xs = retain (λ y. not (y == x)) xs

-- `successors.entry(dep).or_insert_with(HashSet::new).insert(id)` for each dependency.
unfoldable pub link : TaskId → List TaskId → Map (List TaskId) → Map (List TaskId)
unfolding set_insert successors_of
link id [] m = m
link id (dep ∷ deps) m = link id deps (insert dep (set_insert id (successors_of dep m)) m)

-- The undo of `link`: the emptied sets stay in the map.
unfoldable pub unlink : TaskId → List TaskId → Map (List TaskId) → Map (List TaskId)
unfolding set_remove
unlink id [] m = m
unlink id (dep ∷ deps) m =
    unlink id deps (elim (lookup dep m) [ none ↦ m | some xs ↦ insert dep (set_remove id xs) m ])

abbrev pub ready_entry : Priority → TaskId → ReadyEntry
ready_entry priority id = record {
  original_priority = priority;
  effective_priority = priority;
  task_id = id;
}

-- What follows a successful check for cycles: the state, the degree, the metadata and the heap.
unfoldable pub admit : TaskDescriptor → ℕ → Inner → Inner
unfolding new_metadata
admit task now s =
    let in_degree = length task.dependencies in
    let s' = record s {
      states = insert task.task_id (if in_degree == 0 then ready else pending) s.states;
      in_degree = insert task.task_id in_degree s.in_degree;
      metadata = insert task.task_id (new_metadata task.priority now) s.metadata;
    } in
    if in_degree == 0
    then record s' { ready_heap = ready_entry task.priority task.task_id ∷ s.ready_heap }
    else s'

-- What follows the check of the dependencies, on the state with the task inserted.
unfoldable pub check_cycle : TaskDescriptor → ℕ → Inner → Outcome Inner (Unit {0})
unfolding link unlink admit detect_cycle
check_cycle task now s =
    let linked = link task.task_id task.dependencies s.successors in
    elim (detect_cycle s.tasks) [
      | none ↦ panics
      | some found ↦ elim found [
        | none ↦ returns (admit task now (record s { successors = linked })) (ok tt)
        | some _ ↦
            returns
              (record s {
                tasks = remove task.task_id s.tasks;
                successors = unlink task.task_id task.dependencies linked;
              })
              (err (cyclic_dependency task.task_id))
      ]
    ]

unfoldable pub enqueue : TaskDescriptor → ℕ → Inner → Outcome Inner (Unit {0})
unfolding has_key find_unknown check_cycle
enqueue task now s =
    let inserted = record s { tasks = insert task.task_id task s.tasks } in
    if has_key task.task_id s.tasks
    then returns s (err (duplicate_task task.task_id))
    else elim (find_unknown task.dependencies inserted.tasks) [
      | some dep ↦
          returns (record inserted { tasks = remove task.task_id inserted.tasks })
            (err (unknown_dependency dep))
      | none ↦ check_cycle task now inserted
    ]

-- ===== src/Dag/Finish.antt =====
-- crates/scheduler/src/dag.rs, `DagScheduler::complete` and `fail`.
use knitting_crab.Prelude.{
  ℕ, zero, suc, Bool, true, false, Option, none, some, List, [], ◌∷◌, ◌++◌, Map, lookup, insert,
  remove, length, if◌then◌else◌, ◌==◌,
}
use knitting_crab.Core.Task.{TaskId}
use knitting_crab.Core.Error.{Outcome, ok, err, returns, panics, internal}
use knitting_crab.Dag.Policy.{new_metadata}
use knitting_crab.Dag.Pool.{release}
use knitting_crab.Dag.State.{
  Inner, TaskState, pending, ready, running, completed, failed, dependency_failed, successors_of,
}
use knitting_crab.Dag.Enqueue.{ready_entry}

-- `running_resources.remove(&task_id)`, and the release of what it returns.
unfoldable pub release_running : TaskId → Inner → Inner
unfolding lookup release
release_running id s = elim (lookup id s.running_resources) [
  | none ↦ s
  | some alloc ↦ record s {
    running_resources = remove id s.running_resources;
    resource_pool = elim s.resource_pool [ none ↦ none | some pool ↦ some (release pool alloc) ];
  }
]

-- A successor whose last dependency has completed becomes ready.
unfoldable pub make_ready : ℕ → TaskId → Inner → Inner
unfolding lookup new_metadata
make_ready now id s =
    let s' = record s { states = insert id ready s.states } in
    elim (lookup id s.tasks) [
      | none ↦ s'
      | some task ↦ record s' {
        metadata = insert id (new_metadata task.priority now) s.metadata;
        ready_heap = ready_entry task.priority id ∷ s.ready_heap;
      }
    ]

unfoldable pub is_pending : Option TaskState → Bool
is_pending (some pending) = true
is_pending _ = false

-- One round of the loop over the successors; `none` is the underflow of `*degree -= 1`.
unfoldable pub unblock_one : ℕ → TaskId → Inner → Option Inner
unfolding lookup make_ready is_pending
unblock_one now id s = elim (lookup id s.in_degree) [
  | none ↦ some s
  | some degree ↦ elim degree [
    | zero ↦ none
    | suc left ↦
        let s' = record s { in_degree = insert id left s.in_degree } in
        some (
          if left == 0
          then (if is_pending (lookup id s.states) then make_ready now id s' else s')
          else s')
  ]
]

unfoldable pub unblock : ℕ → List TaskId → Inner → Option Inner
unfolding unblock_one
unblock now [] s = some s
unblock now (id ∷ ids) s = elim (unblock_one now id s) [
  | none ↦ none
  | some s' ↦ unblock now ids s'
]

-- What `complete` does to a running task.
unfoldable pub finish : TaskId → ℕ → Inner → Outcome Inner (Unit {0})
unfolding release_running unblock successors_of
finish id now s =
    let s' = release_running id (record s { states = insert id completed s.states }) in
    elim (unblock now (successors_of id s'.successors) s') [
      | none ↦ panics
      | some t ↦ returns t (ok tt)
    ]

unfoldable pub complete : TaskId → ℕ → Inner → Outcome Inner (Unit {0})
unfolding finish lookup
complete id now s = elim (lookup id s.states) [
  | none ↦ returns s (err (internal "task not found"))
  | some state ↦ elim state [
    | running ↦ finish id now s
    | _ ↦ returns s (err (internal "cannot complete task in state"))
  ]
]

-- A task that a failed dependency stops.
unfoldable pub is_waiting : Option TaskState → Bool
is_waiting (some pending) = true
is_waiting (some ready) = true
is_waiting _ = false

-- The inner loop of the cascade: the states, and what it pushed to the back of the queue.
unfoldable pub mark_successors :
    List TaskId → Map TaskState → List TaskId → Map TaskState × List TaskId
unfolding lookup is_waiting
mark_successors [] states queue = (states, queue)
mark_successors (x ∷ xs) states queue =
    let stop = is_waiting (lookup x states) in
    mark_successors xs (if stop then insert x dependency_failed states else states)
      (if stop then queue ++ x ∷ [] else queue)

-- The breadth-first cascade; `none` is a model that ran out of fuel.
unfoldable pub cascade :
    ℕ → Map (List TaskId) → List TaskId → Map TaskState → Option (Map TaskState)
unfolding mark_successors successors_of
cascade fuel successors [] states = some states
cascade zero successors (x ∷ queue) states = none
cascade (suc fuel) successors (x ∷ queue) states =
    let (states', queue') = mark_successors (successors_of x successors) states queue in
    cascade fuel successors queue' states'

-- The whole of `fail` past its check. Each task is pushed at most once, and `task_id` before them.
unfoldable pub fail_from : Bool → TaskId → Inner → Outcome Inner (Unit {0})
unfolding release_running cascade
fail_from was_running id s =
    let s' = record s { states = insert id failed s.states } in
    let t = if was_running then release_running id s' else s' in
    elim (cascade (suc (length t.states)) t.successors (id ∷ []) t.states) [
      | none ↦ panics
      | some states ↦ returns (record t { states = states }) (ok tt)
    ]

unfoldable pub fail : TaskId → Inner → Outcome Inner (Unit {0})
unfolding fail_from lookup
fail id s = elim (lookup id s.states) [
  | none ↦ returns s (err (internal "task not found"))
  | some state ↦ elim state [
    | running ↦ fail_from true id s
    | ready ↦ fail_from false id s
    | pending ↦ fail_from false id s
    | _ ↦ returns s (err (internal "cannot fail task in state"))
  ]
]

-- `Queue::discard`.
unfoldable pub discard : TaskId → Inner → Outcome Inner (Unit {0})
unfolding fail
discard id s = fail id s

-- ===== src/Dag/Dequeue.antt =====
-- crates/scheduler/src/dag.rs, `Queue for DagScheduler`: `dequeue` and `requeue`. One clock
-- reading `now` stands for the readings of one call.
use knitting_crab.Prelude.{
  ℕ, zero, suc, Bool, true, false, ◌&&◌, Option, none, some, List, [], ◌∷◌, ◌++◌, Map, lookup,
  insert, length, if◌then◌else◌, leb, ltb,
}
use knitting_crab.Core.Priority.{Priority, normal, priority_lt}
use knitting_crab.Core.Task.{TaskId, TaskDescriptor}
use knitting_crab.Dag.Policy.{
  StarvationPreventionPolicy, TaskMetadata, apply_aging, waiting_time_ms, new_metadata,
}
use knitting_crab.Dag.Pool.{ResourcePool, can_fit, allocate}
use knitting_crab.Dag.Heap.{ReadyEntry, pop}
use knitting_crab.Dag.State.{Inner, TaskState, ready, running}
use knitting_crab.Dag.Enqueue.{ready_entry}

abbrev pub count_if : Bool → ℕ → ℕ
count_if b n = if b then suc n else n

-- The deadline: a task that has waited too long has at least the priority Normal.
unfoldable pub past_deadline : StarvationPreventionPolicy → TaskMetadata → ℕ → Bool
unfolding waiting_time_ms priority_lt
past_deadline policy m now =
    policy.enable_quota_enforcement
    && (ltb 0 policy.max_queue_wait_ms
        && (leb policy.max_queue_wait_ms (waiting_time_ms m now)
            && priority_lt m.effective_priority normal))

-- One round of the loop over the entries, on the metadata and the metrics.
unfoldable pub age_entry : ℕ → ReadyEntry → Inner → Inner × ReadyEntry
unfolding apply_aging past_deadline
age_entry now e s = elim (lookup e.task_id s.metadata) [
  | none ↦ (s, e)
  | some m ↦
      let aged = apply_aging m s.fairness_policy now in
      let late = past_deadline s.starvation_policy aged now in
      let m' = if late then record aged { effective_priority = normal } else aged in
      let metrics' = record (s.metrics) {
        aging_events =
            count_if (priority_lt m.effective_priority aged.effective_priority)
              s.metrics.aging_events;
        deadline_enforcements = count_if late s.metrics.deadline_enforcements;
      } in
      (
        record s { metadata = insert e.task_id m' s.metadata; metrics = metrics' },
        record e { effective_priority = m'.effective_priority },
      )
]

unfoldable pub age_entries : ℕ → List ReadyEntry → Inner → Inner × List ReadyEntry
unfolding age_entry
age_entries now [] s = (s, [])
age_entries now (e ∷ es) s =
    let (s', e') = age_entry now e s in let (t, es') = age_entries now es s' in (t, e' ∷ es')

-- What the loop does with an entry that it pops.
pub data Verdict : Type 0 where
  stale : Verdict
  blocked : Verdict
  start : TaskDescriptor → Verdict

-- With no pool the resources are unlimited.
unfoldable pub fits : Option ResourcePool → TaskDescriptor → Bool
unfolding can_fit
fits none task = true
fits (some pool) task = can_fit pool task.resources

abbrev pub is_ready : Option TaskState → Bool
is_ready (some ready) = true
is_ready _ = false

-- The resource check of a task that is ready.
unfoldable pub judge_task : Option ResourcePool → Option TaskDescriptor → Verdict
unfolding fits
judge_task pool none = stale
judge_task pool (some task) = if fits pool task then start task else blocked

unfoldable pub judge : Inner → ReadyEntry → Verdict
unfolding lookup judge_task
judge s e =
    if is_ready (lookup e.task_id s.states)
    then judge_task s.resource_pool (lookup e.task_id s.tasks)
    else stale

-- The entry's task starts.
unfoldable pub launch : ReadyEntry → TaskDescriptor → Inner → Inner
unfolding lookup allocate
launch e task s =
    let s' = record s {
      states = insert e.task_id running s.states;
      metadata = elim (lookup e.task_id s.metadata) [
        | none ↦ s.metadata
        | some m ↦
            insert e.task_id (record m { effective_priority = e.original_priority }) s.metadata
      ];
    } in
    elim s.resource_pool [
      | none ↦ s'
      | some pool ↦ record s' {
        resource_pool = some (allocate pool task.resources);
        running_resources = insert e.task_id task.resources s.running_resources;
      }
    ]

-- The loop that pops entries, over those popped that did not fit. The fuel is the heap's size.
unfoldable pub select :
    ℕ → List ReadyEntry → List ReadyEntry → Inner → Inner × Option TaskDescriptor
unfolding pop judge launch
select zero heap skipped s = (record s { ready_heap = skipped ++ heap }, none)
select (suc fuel) heap skipped s = elim (pop heap) [
  | none ↦ (record s { ready_heap = skipped ++ heap }, none)
  | some (e, rest) ↦ elim (judge s e) [
    | stale ↦ select fuel rest skipped s
    | blocked ↦ select fuel rest (e ∷ skipped) s
    | start task ↦ (record (launch e task s) { ready_heap = skipped ++ rest }, some task)
  ]
]

unfoldable pub dequeue : ℕ → Inner → Inner × Option TaskDescriptor
unfolding age_entries select
dequeue now s =
    let (s', entries) = age_entries now s.ready_heap s in select (length entries) entries [] s'

-- `task.attempt = attempt`.
unfoldable pub set_attempt : TaskId → ℕ → Inner → Inner
unfolding lookup
set_attempt id attempt s = elim (lookup id s.tasks) [
  | none ↦ s
  | some task ↦ record s { tasks = insert id (record task { attempt = attempt }) s.tasks }
]

unfoldable pub is_running : Option TaskState → Bool
is_running (some running) = true
is_running _ = false

-- `unwrap_or(Priority::Normal)`.
unfoldable pub priority_of : TaskId → Map TaskDescriptor → Priority
unfolding lookup
priority_of id tasks = elim (lookup id tasks) [ none ↦ normal | some task ↦ task.priority ]

unfoldable pub requeue : TaskId → ℕ → ℕ → Inner → Inner
unfolding set_attempt is_running priority_of new_metadata
requeue id attempt now s =
    let s' = set_attempt id attempt s in
    let priority = priority_of id s'.tasks in
    if is_running (lookup id s'.states)
    then record s' {
      states = insert id ready s'.states;
      metadata = insert id (new_metadata priority now) s'.metadata;
      ready_heap = ready_entry priority id ∷ s'.ready_heap;
    }
    else s'

-- ===== src/Dag/Limits.antt =====
-- The resource pool under the calls: its limits hold.
use knitting_crab.Prelude.{
  ℕ, suc, ◌≡◌, refl, sym, ◌∙◌, subst, Bool, true, false, Option, none, some, List, [], ◌∷◌, lookup,
  insert, length, if◌then◌else◌, arith, Option-cases, inl, inr,
}
use knitting_crab.Core.Task.{TaskId, TaskDescriptor, ResourceAllocation}
use knitting_crab.Core.Error.{state_after}
use knitting_crab.Dag.Pool.{
  ResourceConfig, ResourcePool, can_fit, allocate, release, IsWithin, new_pool-IsWithin,
  allocate-IsWithin, release-IsWithin,
}
use knitting_crab.Dag.Heap.{ReadyEntry}
use knitting_crab.Dag.State.{
  Inner, TaskState, running, ready, pending, completed, failed, dependency_failed,
  new_with_resource_config, set_fairness_policy, set_starvation_policy, successors_of,
}
use knitting_crab.Dag.Enqueue.{admit, enqueue}
use knitting_crab.Dag.Finish.{
  release_running, unblock_one, unblock, finish, complete, cascade, fail_from, fail, discard,
}
use knitting_crab.Dag.Dequeue.{start, judge, launch, dequeue, set_attempt, requeue}
use knitting_crab.Dag.Choice.{Chooses, idle, chosen}
use knitting_crab.Dag.Invariant.Start.{age_entries-SameWork}
use knitting_crab.Dag.Invariant.Dequeue.{aged, aged_entries, dequeue-Chooses}
use knitting_crab.Dag.Run.{
  Call, enqueues, completes, fails, discards, dequeues, requeues, sets_fairness, sets_starvation,
  step, run,
}

-- If there is a pool, its use is within its limits.
abbrev pub IsWithinLimits : Option ResourcePool → Type 0
IsWithinLimits none = Unit {0}
IsWithinLimits (some pool) = IsWithin pool

enqueue-pool :
    (task : TaskDescriptor) (now : ℕ) (s : Inner)
    → (state_after s (enqueue task now s)).resource_pool ≡ s.resource_pool
unfolding enqueue admit
enqueue-pool task now s = ground arith

unblock_one-pool :
    (now : ℕ) (x : TaskId) (s t : Inner)
    → unblock_one now x s ≡ some t
    → (t.resource_pool ≡ s.resource_pool) × (t.running_resources ≡ s.running_resources)
unfolding unblock_one
unblock_one-pool now x s t h = ground arith

pub unblock-pool :
    (now : ℕ) (xs : List TaskId) (s t : Inner)
    → unblock now xs s ≡ some t
    → (t.resource_pool ≡ s.resource_pool) × (t.running_resources ≡ s.running_resources)
unfolding unblock
unblock-pool now [] s t h = (ground arith, ground arith)
unblock-pool now (x ∷ xs) s t h = elim (Option-cases (unblock_one now x s)) [
  | inl e ↦ absurd (let h' = rw (e, unblock) at h in ground arith)
  | inr (s1, e) ↦
      let h' : unblock now xs s1 ≡ some t = rw (e, unblock) at h in
      let (a, b) = unblock-pool now xs s1 t h' in
      let (c, d) = unblock_one-pool now x s s1 e in (a ∙ c, b ∙ d)
]

release_running-IsWithinLimits :
    (id : TaskId) (s : Inner)
    → IsWithinLimits s.resource_pool
    → IsWithinLimits (release_running id s).resource_pool
unfolding release_running
release_running-IsWithinLimits id s h = elim (Option-cases (lookup id s.running_resources)) [
  | inl e ↦ rw (e, release_running) h
  | inr (alloc, e) ↦ rw (e, release_running) (released s.resource_pool h alloc)
]
  where
    released :
        (o : Option ResourcePool)
        → IsWithinLimits o
        → (alloc : ResourceAllocation)
        → IsWithinLimits (elim o [ none ↦ none | some pool ↦ some (release pool alloc) ])
    released none h alloc = tt
    released (some pool) h alloc = release-IsWithin pool alloc h

finish-IsWithinLimits :
    (id : TaskId) (now : ℕ) (s : Inner)
    → IsWithinLimits s.resource_pool
    → IsWithinLimits (state_after s (finish id now s)).resource_pool
unfolding finish
finish-IsWithinLimits id now s h =
    let s' = release_running id (record s { states = insert id completed s.states }) in
    let within : IsWithinLimits s'.resource_pool =
      release_running-IsWithinLimits id (record s { states = insert id completed s.states }) h in
    elim (Option-cases (unblock now (successors_of id s'.successors) s')) [
      | inl e ↦ rw (e, finish) h
      | inr (t, e) ↦
          rw (e, finish)
            (subst IsWithinLimits (sym (unblock-pool now (successors_of id s'.successors) s' t e).0)
              within)
    ]

complete-IsWithinLimits :
    (id : TaskId) (now : ℕ) (s : Inner)
    → IsWithinLimits s.resource_pool
    → IsWithinLimits (state_after s (complete id now s)).resource_pool
unfolding complete
complete-IsWithinLimits id now s h = go (lookup id s.states) refl
  where
    go :
        (o : Option TaskState)
        → lookup id s.states ≡ o
        → IsWithinLimits (state_after s (complete id now s)).resource_pool
    go (some running) e = rw (e, complete) (finish-IsWithinLimits id now s h)
    go none e = rw (e, complete) h
    go (some pending) e = rw (e, complete) h
    go (some ready) e = rw (e, complete) h
    go (some completed) e = rw (e, complete) h
    go (some failed) e = rw (e, complete) h
    go (some dependency_failed) e = rw (e, complete) h

fail_from-IsWithinLimits :
    (b : Bool) (id : TaskId) (s : Inner)
    → IsWithinLimits s.resource_pool
    → IsWithinLimits (state_after s (fail_from b id s)).resource_pool
unfolding fail_from
fail_from-IsWithinLimits b id s h =
    let s' = record s { states = insert id failed s.states } in
    let t = if b then release_running id s' else s' in
    let within : IsWithinLimits t.resource_pool =
      branch b (release_running-IsWithinLimits id s' h) in
    elim (Option-cases (cascade (suc (length t.states)) t.successors (id ∷ []) t.states)) [
      | inl e ↦ rw (e, fail_from) h
      | inr (st, e) ↦ rw (e, fail_from) within
    ]
  where
    branch :
        (b : Bool)
        → IsWithinLimits
            (release_running id (record s { states = insert id failed s.states })).resource_pool
        → IsWithinLimits
            (if b
              then release_running id (record s { states = insert id failed s.states })
              else record s { states = insert id failed s.states }).resource_pool
    branch true r = r
    branch false r = h

fail-IsWithinLimits :
    (id : TaskId) (s : Inner)
    → IsWithinLimits s.resource_pool
    → IsWithinLimits (state_after s (fail id s)).resource_pool
unfolding fail
fail-IsWithinLimits id s h = go (lookup id s.states) refl
  where
    go :
        (o : Option TaskState)
        → lookup id s.states ≡ o
        → IsWithinLimits (state_after s (fail id s)).resource_pool
    go (some running) e = rw (e, fail) (fail_from-IsWithinLimits true id s h)
    go (some pending) e = rw (e, fail) (fail_from-IsWithinLimits false id s h)
    go (some ready) e = rw (e, fail) (fail_from-IsWithinLimits false id s h)
    go none e = rw (e, fail) h
    go (some completed) e = rw (e, fail) h
    go (some failed) e = rw (e, fail) h
    go (some dependency_failed) e = rw (e, fail) h

-- What `launch` does to the pool.
pub launch-pool :
    (e : ReadyEntry) (task : TaskDescriptor) (s : Inner) (pool : ResourcePool)
    → s.resource_pool ≡ some pool
    → ((launch e task s).resource_pool ≡ some (allocate pool task.resources))
      × ((launch e task s).running_resources ≡ insert e.task_id task.resources s.running_resources)
unfolding launch
launch-pool e task s pool h = (ground arith, ground arith)

launch-no_pool :
    (e : ReadyEntry) (task : TaskDescriptor) (s : Inner)
    → s.resource_pool ≡ none
    → (launch e task s).resource_pool ≡ none
unfolding launch
launch-no_pool e task s h = ground arith

judge-can_fit :
    (s : Inner) (e : ReadyEntry) (task : TaskDescriptor) (pool : ResourcePool)
    → judge s e ≡ start task
    → s.resource_pool ≡ some pool
    → can_fit pool task.resources ≡ true
unfolding judge
judge-can_fit s e task pool h p = ground arith

Chooses-IsWithinLimits :
    (s : Inner) (heap : List ReadyEntry) (held : TaskId → Bool) (r : Inner × Option TaskDescriptor)
    → IsWithinLimits s.resource_pool
    → Chooses s heap held r
    → IsWithinLimits r.0.resource_pool
Chooses-IsWithinLimits s heap held r h (idle rest none_of keeps) = h
Chooses-IsWithinLimits s heap held r h (chosen e task rest j listed best keeps) =
    elim (Option-cases s.resource_pool) [
      | inl p ↦ rw (launch-no_pool e task s p) tt
      | inr (pool, p) ↦
          rw ((launch-pool e task s pool p).0)
            (allocate-IsWithin pool task.resources (judge-can_fit s e task pool j p))
    ]

-- `requeue` leaves the pool and the allocations as they are.
pub requeue-pool :
    (id : TaskId) (attempt now : ℕ) (s : Inner)
    → ((requeue id attempt now s).resource_pool ≡ s.resource_pool)
      × ((requeue id attempt now s).running_resources ≡ s.running_resources)
unfolding requeue set_attempt
requeue-pool id attempt now s = (ground arith, ground arith)

pub step-IsWithinLimits :
    (s : Inner) (c : ℕ × Call)
    → IsWithinLimits s.resource_pool
    → IsWithinLimits (step s c).resource_pool
unfolding step discard requeue set_attempt set_fairness_policy set_starvation_policy
step-IsWithinLimits s (now, enqueues task) h =
    subst IsWithinLimits (sym (enqueue-pool task now s)) h
step-IsWithinLimits s (now, completes id) h = complete-IsWithinLimits id now s h
step-IsWithinLimits s (now, fails id) h = fail-IsWithinLimits id s h
step-IsWithinLimits s (now, discards id) h = fail-IsWithinLimits id s h
step-IsWithinLimits s (now, dequeues) h =
    Chooses-IsWithinLimits (aged now s) (aged_entries now s) _ (dequeue now s)
      (subst IsWithinLimits (sym (age_entries-SameWork now s.ready_heap s).same_pool) h)
      (dequeue-Chooses now s)
step-IsWithinLimits s (now, requeues id attempt) h =
    subst IsWithinLimits (sym (requeue-pool id attempt now s).0) h
step-IsWithinLimits s (now, sets_fairness policy) h = h
step-IsWithinLimits s (now, sets_starvation policy) h = h

run-IsWithinLimits :
    (s : Inner) (cs : List (ℕ × Call))
    → IsWithinLimits s.resource_pool
    → IsWithinLimits (run s cs).resource_pool
unfolding run
run-IsWithinLimits s [] h = h
run-IsWithinLimits s (c ∷ cs) h = run-IsWithinLimits (step s c) cs (step-IsWithinLimits s c h)

-- After any calls on a scheduler with a resource pool, the use of each resource is within its limit.
pub run-limits :
    (config : ResourceConfig) (cs : List (ℕ × Call)) (pool : ResourcePool)
    → (run (new_with_resource_config config) cs).resource_pool ≡ some pool
    → IsWithin pool
unfolding new_with_resource_config
run-limits config cs pool e =
    subst IsWithinLimits e
      (run-IsWithinLimits (new_with_resource_config config) cs (new_pool-IsWithin config))

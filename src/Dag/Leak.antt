-- ===== src/Dag/Leak.antt =====
-- A retried task: `requeue` keeps the allocation of the attempt that ran, and the next attempt is
-- allocated on top of it.
use knitting_crab.Prelude.{
  ℕ, ◌+◌, ◌<◌, ◌≡◌, ◌≢◌, refl, sym, ◌∙◌, subst, ap, none, some, lookup, lookup-insert,
  lookup-remove, insert, ==_refl, arith, Option-cases, inl, inr, u32_mod,
}
use knitting_crab.Core.Task.{TaskId, TaskDescriptor, ResourceAllocation}
use knitting_crab.Core.Error.{ok, returns, panics, state_after}
use knitting_crab.Dag.Pool.{ResourcePool, allocate, release, release-allocate}
use knitting_crab.Dag.State.{Inner, running, completed, successors_of}
use knitting_crab.Dag.Finish.{release_running, unblock, finish, complete}
use knitting_crab.Dag.Dequeue.{dequeue, requeue}
use knitting_crab.Dag.Invariant.{IsConsistent}
use knitting_crab.Dag.Invariant.Start.{judge-start, age_entries-SameWork, SameWork-IsConsistent}
use knitting_crab.Dag.Invariant.Dequeue.{Chooses-some, aged, dequeue-Chooses, dequeue-some}
use knitting_crab.Dag.Invariant.Requeue.{requeue-IsConsistent}
use knitting_crab.Dag.Invariant.Finish.{complete-running}
use knitting_crab.Dag.Limits.{launch-pool, unblock-pool, requeue-pool}

-- Handing out a task allocates its resources.
pub dequeue-allocates :
    (now : ℕ) (s : Inner) (task : TaskDescriptor) (pool : ResourcePool)
    → IsConsistent s
    → s.resource_pool ≡ some pool
    → (dequeue now s).1 ≡ some task
    → ((dequeue now s).0.resource_pool ≡ some (allocate pool task.resources))
      × (lookup task.task_id (dequeue now s).0.running_resources ≡ some task.resources)
dequeue-allocates now s task pool c p h =
    let w = age_entries-SameWork now s.ready_heap s in
    let ch = Chooses-some task (dequeue-Chooses now s) h in
    let c' = SameWork-IsConsistent w c in
    let e = ch.entry in
    let name = c'.graph.named e.task_id task (judge-start (aged now s) e task ch.judged).1 in
    let (a, b) = launch-pool e task (aged now s) pool (w.same_pool ∙ p) in
    (
      rw (ch.left) a,
      rw (ch.left) (
          rw b (
            rw (lookup-insert e.task_id task.task_id task.resources (aged now s).running_resources)
              (rw name (rw (==_refl e.task_id) refl)))),
    )

release_running-pool :
    (id : TaskId) (s : Inner) (pool : ResourcePool) (alloc : ResourceAllocation)
    → s.resource_pool ≡ some pool
    → lookup id s.running_resources ≡ some alloc
    → ((release_running id s).resource_pool ≡ some (release pool alloc))
      × (lookup id (release_running id s).running_resources ≡ none)
unfolding release_running
release_running-pool id s pool alloc p r =
    (ground arith, ground (arith, lookup-remove id id s.running_resources, ==_refl id))

-- The pool has taken `alloc` back, and no allocation is on record for the task.
abbrev pub Released : TaskId → ResourcePool → Inner → Type 0
Released id pool t = (t.resource_pool ≡ some pool) × (lookup id t.running_resources ≡ none)

finish-releases :
    (id : TaskId) (now : ℕ) (s : Inner) (pool : ResourcePool) (alloc : ResourceAllocation)
    → finish id now s ≢ panics
    → s.resource_pool ≡ some pool
    → lookup id s.running_resources ≡ some alloc
    → Released id (release pool alloc) (state_after s (finish id now s))
unfolding finish
finish-releases id now s pool alloc returned p r =
    let s0 : Inner = record s { states = insert id completed s.states } in
    let s' : Inner = release_running id s0 in
    elim (Option-cases (unblock now (successors_of id s'.successors) s')) [
      | inl e ↦ absurd (returned (rw (e, finish) refl))
      | inr (t, e) ↦
          let (same, same_running) = unblock-pool now (successors_of id s'.successors) s' t e in
          let (back, gone) = release_running-pool id s0 pool alloc p r in
          rw (e, finish) (same ∙ back, ap (lookup id) same_running ∙ gone)
    ]

-- A completed task gives its last allocation back.
pub complete-releases :
    (id : TaskId) (now : ℕ) (s : Inner) (pool : ResourcePool) (alloc : ResourceAllocation)
    → IsConsistent s
    → lookup id s.states ≡ some running
    → s.resource_pool ≡ some pool
    → lookup id s.running_resources ≡ some alloc
    → Released id (release pool alloc) (state_after s (complete id now s))
unfolding complete
complete-releases id now s pool alloc c h p r =
    let (t, e, _) = complete-running id now s c h in
    let e' : finish id now s ≡ returns t (ok tt) = rw (h, complete) at e in
    rw (h, complete)
      (finish-releases id now s pool alloc (λ q. let f = sym e' ∙ q in ground arith) p r)

-- A running task that is retried and then completes leaves the allocation of its first attempt in
-- the pool: `pool` holds that allocation before the retry, and is the pool at the end, where no
-- allocation is on record for the task.
pub requeue_leaks :
    (s : Inner) (pool : ResourcePool) (task : TaskDescriptor) (attempt t1 t2 t3 : ℕ)
    → IsConsistent s
    → lookup task.task_id s.states ≡ some running
    → s.resource_pool ≡ some pool
    → (dequeue t2 (requeue task.task_id attempt t1 s)).1 ≡ some task
    → pool.used_memory_mb + task.resources.memory_mb < u32_mod
    → pool.used_gpu_cores + task.resources.gpu_cores < u32_mod
    → let u = (dequeue t2 (requeue task.task_id attempt t1 s)).0 in
      Released task.task_id pool (state_after u (complete task.task_id t3 u))
requeue_leaks s pool task attempt t1 t2 t3 c started p h m g =
    let id = task.task_id in
    let r = requeue id attempt t1 s in
    let u = (dequeue t2 r).0 in
    let p' : r.resource_pool ≡ some pool = (requeue-pool id attempt t1 s).0 ∙ p in
    let c' = requeue-IsConsistent id attempt t1 s c in
    let hands = dequeue-some t2 r task c' h in
    let (a, b) = dequeue-allocates t2 r task pool c' p' h in
    subst (λ q. Released id q (state_after u (complete id t3 u)))
      (release-allocate pool task.resources m g)
      (complete-releases id t3 u (allocate pool task.resources) task.resources hands.consistent
        (rw (hands.now_running) (ground (arith, lookup-insert id id running r.states))) a b)

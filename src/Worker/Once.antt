-- ===== src/Worker/Once.antt =====
-- The lease of a task over the actions of a worker, and the executions of a task that has one.
use knitting_crab.Prelude.{
  ℕ, ◌==◌, ==_refl, ◌≡◌, refl, sym, ap, subst, ◌∙◌, Bool, true, false, Option, none, some, List, [],
  ◌∷◌, Option-cases, inl, inr, if◌then◌else◌,
}
use knitting_crab.Core.Task.{TaskId, TaskDescriptor}
use knitting_crab.Core.Error.{already_leased, Result, ok, err}
use knitting_crab.Leases.{Lease, new_lease}
use knitting_crab.Leases.Store.{IsReliable}
use knitting_crab.Leases.Manager
use knitting_crab.Leases.Manager.{
  ended_lease, add_collected, go_on, expire_found, collect_loop, collect_from, collect_expired,
}
use knitting_crab.Worker.{World, WorkerRuntime}
use knitting_crab.Worker.Runtime.{
  Meanwhile, meanwhile, requeue_task, with_lease, acquire_and_run, with_resources, when_allowed,
  execute_task, work, worker_round,
}
use knitting_crab.Worker.Keeps.{IsKept, meanwhile-keeps, with_lease-keeps, acquire_and_run-keeps}

module _ {Q S R E X : Type 0} (rt : WorkerRuntime Q S R E X)
    (reliable : IsReliable rt.lease_store) where
  -- The store holds a lease for the task.
  abbrev pub IsLeased : TaskId → S → Type 0
  IsLeased id s = (l : Lease) × (reliable.find id s ≡ some l)

  either_lease :
      (b : Bool) (l : Lease) (o : Option Lease)
      → ((m : Lease) × (o ≡ some m))
      → (m : Lease) × ((if b then some l else o) ≡ some m)
  either_lease true l o h = (l, refl)
  either_lease false l o h = h

  insert_lease-IsLeased :
      (id : TaskId) (l : Lease) (s : S)
      → IsLeased id s
      → IsLeased id (rt.lease_store.insert_lease l s).0
  insert_lease-IsLeased id l s h = elim (Option-cases (reliable.find l.task_id s)) [
    | inl new ↦
        subst (λ o. (m : Lease) × (o ≡ some m)) (sym (reliable.insert-find l s id new))
          (either_lease (l.task_id == id) l (reliable.find id s) h)
    | inr (o, e) ↦ subst (λ r. IsLeased id r.0) (sym (reliable.insert-leased l o s e)) h
  ]

  update-IsLeased :
      (id : TaskId) (l : Lease) (s : S) → IsLeased id s → IsLeased id (rt.lease_store.update l s).0
  update-IsLeased id l s h = elim (Option-cases (reliable.find l.task_id s)) [
    | inl missing ↦ subst (λ r. IsLeased id r.0) (sym (reliable.update-missing l s missing)) h
    | inr (o, e) ↦
        subst (λ o. (m : Lease) × (o ≡ some m)) (sym (reliable.update-find l o s id e))
          (either_lease (l.task_id == id) l (reliable.find id s) h)
  ]

  get-IsLeased : (id k : TaskId) (s : S) → IsLeased id s → IsLeased id (rt.lease_store.get k s).0
  get-IsLeased id k s h = subst (λ r. IsLeased id r.0) (sym (reliable.get-find k s)) h

  active_leases-IsLeased :
      (id : TaskId) (s : S) → IsLeased id s → IsLeased id (rt.lease_store.active_leases s).0
  active_leases-IsLeased id s h =
      let (ls, e, _) = reliable.active-listed s in subst (λ r. IsLeased id r.0) (sym e) h

  IsLeased-IsKept : (id : TaskId) → IsKept rt (λ w. IsLeased id w.leases)
  IsLeased-IsKept id = record {
    queue = λ q w h. h;
    sink = λ e w h. h;
    executor = λ x w h. h;
    active = λ a w h. h;
    leases = λ w. record {
      inserts = insert_lease-IsLeased id;
      reads = get-IsLeased id;
      lists = active_leases-IsLeased id;
      updates = update-IsLeased id;
    };
  }

  -- Acquiring a lease makes the task leased, whichever way it goes.
  acquired-IsLeased : (l : Lease) (s : S) → IsLeased l.task_id (rt.lease_store.insert_lease l s).0
  acquired-IsLeased l s = elim (Option-cases (reliable.find l.task_id s)) [
    | inl new ↦ (
      l,
      reliable.insert-find l s l.task_id new
          ∙ ap (λ b. if b then some l else reliable.find l.task_id s) (==_refl l.task_id),
    )
    | inr (o, e) ↦ (
      o,
      subst (λ r. reliable.find l.task_id r.0 ≡ some o) (sym (reliable.insert-leased l o s e)) e,
    )
  ]

  -- The whole execution of any task.
  with_resources-IsLeased :
      (id now : ℕ) (task : TaskDescriptor) (ms : List Meanwhile) (r : R × Result (Unit {0}))
      (w : World Q S R E X) (k : TaskId)
      → IsLeased k w.leases
      → IsLeased k (with_resources rt id now task ms r w).0.leases
  unfolding with_resources
  with_resources-IsLeased id now task ms (m, err e) w k h = h
  with_resources-IsLeased id now task ms (m, ok u) w k h =
      acquire_and_run-keeps rt (λ v. IsLeased k v.leases) (IsLeased-IsKept k) id now task ms
        (record w { monitor = m }) h

  when_allowed-IsLeased :
      (id now : ℕ) (task : TaskDescriptor) (ms : List Meanwhile) (r : Result Bool)
      (w : World Q S R E X) (k : TaskId)
      → IsLeased k w.leases
      → IsLeased k (when_allowed rt id now task ms r w).0.leases
  unfolding when_allowed requeue_task
  when_allowed-IsLeased id now task ms (err e) w k h = h
  when_allowed-IsLeased id now task ms (ok false) w k h = h
  when_allowed-IsLeased id now task ms (ok true) w k h =
      with_resources-IsLeased id now task ms (rt.resource_monitor.allocate task.resources w.monitor)
        w k h

  work-IsLeased :
      (id now : ℕ) (ms : List Meanwhile) (r : Q × Result (Option TaskDescriptor))
      (w : World Q S R E X) (k : TaskId)
      → IsLeased k w.leases
      → IsLeased k (work rt id now ms r w).leases
  unfolding work execute_task
  work-IsLeased id now ms (q, ok (some task)) w k h =
      when_allowed-IsLeased id now task ms
        (rt.resource_monitor.can_allocate task.resources w.monitor) (record w { queue = q }) k h
  work-IsLeased id now ms (q, ok none) w k h = h
  work-IsLeased id now ms (q, err e) w k h = h

  -- What a worker does over time: rounds of its loop, and the steps that may also come while a process
  -- runs: a heartbeat never ends, since the lease stays.
  pub data Action : Type 0 where
    works : ℕ → ℕ → List Meanwhile → Action
    waits : List Meanwhile → Action

  unfoldable pub act : Action → World Q S R E X → World Q S R E X
  unfolding worker_round meanwhile
  act (works id now ms) w = worker_round rt id now ms w
  act (waits ms) w = meanwhile rt ms w

  unfoldable pub run : List Action → World Q S R E X → World Q S R E X
  unfolding act
  run [] w = w
  run (a ∷ as_left) w = run as_left (act a w)

  act-IsLeased :
      (a : Action) (w : World Q S R E X) (k : TaskId)
      → IsLeased k w.leases
      → IsLeased k (act a w).leases
  unfolding act worker_round
  act-IsLeased (works id now ms) w k h =
      work-IsLeased id now ms (rt.queue.dequeue rt.config.worker_id w.queue) w k h
  act-IsLeased (waits ms) w k h =
      meanwhile-keeps rt (λ v. IsLeased k v.leases) (IsLeased-IsKept k) ms w h

  pub run-IsLeased :
      (actions : List Action) (w : World Q S R E X) (k : TaskId)
      → IsLeased k w.leases
      → IsLeased k (run actions w).leases
  unfolding run
  run-IsLeased [] w k h = h
  run-IsLeased (a ∷ actions) w k h = run-IsLeased actions (act a w) k (act-IsLeased a w k h)

  -- A task that has a lease is not run.
  with_lease-leased :
      (task : TaskDescriptor) (ms : List Meanwhile) (w : World Q S R E X)
      → (with_lease rt task ms (err already_leased) w).0 ≡ w
  unfolding with_lease
  with_lease-leased task ms w = refl

  acquire_and_run-leased :
      (id now : ℕ) (task : TaskDescriptor) (ms : List Meanwhile) (w : World Q S R E X)
      → IsLeased task.task_id w.leases
      → (acquire_and_run rt id now task ms w).0 ≡ w
  unfolding acquire_and_run Manager.acquire
  acquire_and_run-leased id now task ms w (o, h) =
      let l =
        new_lease rt.from_std id now task.task_id rt.config.worker_id rt.config.lease_ttl
          task.attempt in
      subst (λ r. (with_lease rt task ms r.1 (record w { leases = r.0 })).0 ≡ w)
        (sym (reliable.insert-leased l o w.leases h)) (with_lease-leased task ms w)

  with_resources-leased :
      (id now : ℕ) (task : TaskDescriptor) (ms : List Meanwhile) (r : R × Result (Unit {0}))
      (w : World Q S R E X)
      → IsLeased task.task_id w.leases
      → (with_resources rt id now task ms r w).0.executor ≡ w.executor
  unfolding with_resources
  with_resources-leased id now task ms (m, err e) w h = refl
  with_resources-leased id now task ms (m, ok u) w h =
      ap (λ v. v.executor) (acquire_and_run-leased id now task ms (record w { monitor = m }) h)

  when_allowed-leased :
      (id now : ℕ) (task : TaskDescriptor) (ms : List Meanwhile) (r : Result Bool)
      (w : World Q S R E X)
      → IsLeased task.task_id w.leases
      → (when_allowed rt id now task ms r w).0.executor ≡ w.executor
  unfolding when_allowed requeue_task
  when_allowed-leased id now task ms (err e) w h = refl
  when_allowed-leased id now task ms (ok false) w h = refl
  when_allowed-leased id now task ms (ok true) w h =
      with_resources-leased id now task ms (rt.resource_monitor.allocate task.resources w.monitor) w
        h

  -- An execution that gets its resources leases the task.
  first-IsLeased :
      (id now : ℕ) (task : TaskDescriptor) (ms : List Meanwhile) (w : World Q S R E X)
      → IsLeased task.task_id (acquire_and_run rt id now task ms w).0.leases
  unfolding acquire_and_run Manager.acquire
  first-IsLeased id now task ms w =
      let l =
        new_lease rt.from_std id now task.task_id rt.config.worker_id rt.config.lease_ttl
          task.attempt in
      let r = rt.lease_store.insert_lease l w.leases in
      with_lease-keeps rt (λ v. IsLeased task.task_id v.leases) (IsLeased-IsKept task.task_id) task
        ms r.1 (record w { leases = r.0 }) (acquired-IsLeased l w.leases)

  when_allowed-first :
      (id now : ℕ) (task : TaskDescriptor) (ms : List Meanwhile) (w : World Q S R E X)
      (r : R × Result (Unit {0}))
      → r.1 ≡ ok tt
      → IsLeased task.task_id (with_resources rt id now task ms r w).0.leases
  unfolding with_resources
  when_allowed-first id now task ms w (m, ok u) h =
      first-IsLeased id now task ms (record w { monitor = m })
  when_allowed-first id now task ms w (m, err e) h = cc

  execute_task-IsLeased :
      (id now : ℕ) (task : TaskDescriptor) (ms : List Meanwhile) (w : World Q S R E X)
      → rt.resource_monitor.can_allocate task.resources w.monitor ≡ ok true
      → (rt.resource_monitor.allocate task.resources w.monitor).1 ≡ ok tt
      → IsLeased task.task_id (execute_task rt id now task ms w).0.leases
  unfolding execute_task when_allowed
  execute_task-IsLeased id now task ms w allowed given =
      subst (λ r. IsLeased task.task_id (when_allowed rt id now task ms r w).0.leases) (sym allowed)
        (when_allowed-first id now task ms w (rt.resource_monitor.allocate task.resources w.monitor)
          given)

  -- On a reliable lease store, as the one in memory: when a task has been given its resources once,
  -- then after any later actions of the worker, an execution of a task with that identifier does not
  -- touch the process executor: also when the first run was to be retried, or when the reaper has put the task back.
  pub executed_once :
      (id now : ℕ) (first : TaskDescriptor) (ms : List Meanwhile) (w : World Q S R E X)
      (actions : List Action) (id' now' : ℕ) (again : TaskDescriptor) (ms' : List Meanwhile)
      → rt.resource_monitor.can_allocate first.resources w.monitor ≡ ok true
      → (rt.resource_monitor.allocate first.resources w.monitor).1 ≡ ok tt
      → again.task_id ≡ first.task_id
      → let later = run actions (execute_task rt id now first ms w).0 in
        (execute_task rt id' now' again ms' later).0.executor ≡ later.executor
  unfolding execute_task
  executed_once id now first ms w actions id' now' again ms' allowed given same =
      let later = run actions (execute_task rt id now first ms w).0 in
      when_allowed-leased id' now' again ms'
        (rt.resource_monitor.can_allocate again.resources later.monitor) later
        (subst (λ k. IsLeased k later.leases) (sym same)
          (run-IsLeased actions (execute_task rt id now first ms w).0 first.task_id
            (execute_task-IsLeased id now first ms w allowed given)))

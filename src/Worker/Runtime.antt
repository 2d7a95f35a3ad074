-- ===== src/Worker/Runtime.antt =====
-- `WorkerRuntime` of crates/worker/src/worker_runtime.rs, over any queue, lease store, monitor, sink
-- and executor. The calls of one execution stand in their order; what other tasks of the runtime do
-- to the leases while the process runs is a list of steps, made before the process ends. The release
-- of the resources, a task of its own in the source, is the last step of an execution.
use knitting_crab.Prelude.{
  ℕ, ◌+◌, ◌%◌, Bool, true, false, Option, none, some, List, [], ◌∷◌, lookup, insert, remove,
  is_some, if◌then◌else◌, u32_mod, u64_mod,
}
use knitting_crab.Core.Task.{TaskId, TaskDescriptor}
use knitting_crab.Core.Error.{CoreError, already_leased, Result, ok, err}
use knitting_crab.Events.{
  TaskEvent, acquired, completed, cancelled, will_retry, abandoned, lease_expired,
}
use knitting_crab.Retry.{ExitOutcome, RetryDecision, retry, abandon, complete, decide}
use knitting_crab.Leases.{Lease, new_lease}
use knitting_crab.Leases.Manager
use knitting_crab.Worker.{
  core, WorkerResult, worker_ok, worker_err, from_core, SpawnParams, World, WorkerRuntime,
}

-- `?`: what follows is not reached after an error.
abbrev pub and_then :
    {W A B : Type 0} → W × WorkerResult A → (W → W × WorkerResult B) → W × WorkerResult B
and_then (w, worker_ok a) k = k w
and_then (w, worker_err e) k = (w, worker_err e)

abbrev pub is_already_leased : CoreError → Bool
is_already_leased already_leased = true
is_already_leased e = false

abbrev pub token_of : Option Bool → Bool
token_of none = false
token_of (some cancelled_now) = cancelled_now

unfoldable pub spawn_params : TaskDescriptor → SpawnParams
spawn_params task = record {
  task_id = task.task_id;
  command = task.command;
  working_dir = task.working_dir;
  env = task.env;
  location = task.location;
}

-- While a process runs: a tick of a task's heartbeat, a cancellation of a task, or a round of the
-- reaper.
pub data Meanwhile : Type 0 where
  beats : TaskId → ℕ → Meanwhile
  cancels : TaskId → Meanwhile
  reaps : ℕ → Meanwhile

module _ {Q S R E X : Type 0} (rt : WorkerRuntime Q S R E X) where
  abbrev pub on_queue :
      {A : Type 0} → Q × Result A → World Q S R E X → World Q S R E X × WorkerResult A
  on_queue (q, r) w = (record w { queue = q }, from_core r)

  abbrev pub on_leases :
      {A : Type 0} → S × Result A → World Q S R E X → World Q S R E X × WorkerResult A
  on_leases (s, r) w = (record w { leases = s }, from_core r)

  abbrev pub on_sink :
      {A : Type 0} → E × Result A → World Q S R E X → World Q S R E X × WorkerResult A
  on_sink (e, r) w = (record w { sink = e }, from_core r)

  unfoldable pub emit : TaskEvent → World Q S R E X → World Q S R E X × WorkerResult (Unit {0})
  emit event w = on_sink (rt.event_sink.emit_event event w.sink) w

  unfoldable pub requeue_task :
      TaskId → ℕ → World Q S R E X → World Q S R E X × WorkerResult (Unit {0})
  requeue_task id attempt w = on_queue (rt.queue.requeue id attempt w.queue) w

  -- One tick of the heartbeat. The loop ends when the task has no lease any more.
  unfoldable pub renew_found : TaskId → ℕ → S × Result (Option Lease) → S
  unfolding Manager.renew
  renew_found id now (s, ok none) = s
  renew_found id now (s, ok (some l)) =
      (Manager.renew rt.lease_store rt.from_std id rt.config.lease_ttl now s).0
  renew_found id now (s, err e) =
      (Manager.renew rt.lease_store rt.from_std id rt.config.lease_ttl now s).0

  unfoldable pub heartbeat : TaskId → ℕ → S → S
  unfolding renew_found
  heartbeat id now s = renew_found id now (rt.lease_store.get id s)

  -- `cancel_task`, once the store has been asked for the lease.
  unfoldable pub cancel_lease :
      TaskId
      → World Q S R E X × WorkerResult (Option Lease)
      → World Q S R E X × WorkerResult (Unit {0})
  unfolding Manager.cancel
  cancel_lease id (w, worker_err e) = (w, worker_err e)
  cancel_lease id (w, worker_ok none) = (w, worker_ok tt)
  cancel_lease id (w, worker_ok (some l)) = on_leases (Manager.cancel rt.lease_store id w.leases) w

  unfoldable pub cancel_task : TaskId → World Q S R E X → World Q S R E X × WorkerResult (Unit {0})
  unfolding cancel_lease emit lookup insert
  cancel_task id w =
      let w' : World Q S R E X =
        if is_some (lookup id w.active_tasks)
        then (record w { active_tasks = insert id true w.active_tasks })
        else w in
      and_then (cancel_lease id (on_leases (rt.lease_store.get id w'.leases) w'))
        λ w1. and_then (on_queue (rt.queue.discard id w1.queue) w1) λ w2. emit (cancelled id) w2

  unfoldable pub reap_leases :
      List Lease → World Q S R E X → World Q S R E X × WorkerResult (Unit {0})
  unfolding emit requeue_task
  reap_leases [] w = (w, worker_ok tt)
  reap_leases (l ∷ ls) w =
      and_then (emit (lease_expired l.task_id) w) λ w1.
        and_then (requeue_task l.task_id ((l.attempt + 1) % u32_mod) w1) λ w2. reap_leases ls w2

  unfoldable pub reap_collected :
      S × Result (List Lease) → World Q S R E X → World Q S R E X × WorkerResult (Unit {0})
  unfolding reap_leases
  reap_collected (s, ok ls) w = reap_leases ls (record w { leases = s })
  reap_collected (s, err e) w = (record w { leases = s }, worker_ok tt)

  -- One round of the reaper's loop, at `now`; an error ends the loop.
  unfoldable pub reaper_round : ℕ → World Q S R E X → World Q S R E X × WorkerResult (Unit {0})
  unfolding reap_collected Manager.collect_expired
  reaper_round now w = reap_collected (Manager.collect_expired rt.lease_store now w.leases) w

  unfoldable pub meanwhile : List Meanwhile → World Q S R E X → World Q S R E X
  unfolding heartbeat cancel_task reaper_round
  meanwhile [] w = w
  meanwhile (beats id now ∷ ms) w = meanwhile ms (record w { leases = heartbeat id now w.leases })
  meanwhile (cancels id ∷ ms) w = meanwhile ms (cancel_task id w).0
  meanwhile (reaps now ∷ ms) w = meanwhile ms (reaper_round now w).0

  -- What follows the decision of the retry handler.
  unfoldable pub settle :
      TaskDescriptor → RetryDecision → World Q S R E X → World Q S R E X × WorkerResult (Unit {0})
  unfolding emit requeue_task Manager.complete Manager.fail
  settle task complete w = on_leases (Manager.complete rt.lease_store task.task_id w.leases) w
  settle task (retry delay) w =
      let next = (task.attempt + 1) % u32_mod in
      and_then (emit (will_retry task.task_id next (delay % u64_mod)) w) λ w1.
        and_then (on_leases (Manager.fail rt.lease_store task.task_id next w1.leases) w1)
          λ w2. requeue_task task.task_id next w2
  settle task abandon w =
      and_then (emit (abandoned task.task_id "max attempts exceeded") w)
        λ w1. on_leases (Manager.fail rt.lease_store task.task_id task.attempt w1.leases) w1

  -- The end of the process.
  unfoldable pub conclude :
      TaskDescriptor
      → WorkerResult ExitOutcome
      → World Q S R E X
      → World Q S R E X × WorkerResult (Unit {0})
  unfolding emit settle decide
  conclude task (worker_err e) w = (w, worker_err e)
  conclude task (worker_ok outcome) w =
      settle task (decide outcome task.policy task.attempt)
        (emit (completed task.task_id outcome) w).0

  -- From the lease on: the event, the active task, the process, and the active task's end. A failure
  -- to emit an event is logged only.
  unfoldable pub run_leased :
      TaskDescriptor → List Meanwhile → World Q S R E X → World Q S R E X × WorkerResult (Unit {0})
  unfolding emit meanwhile conclude insert remove lookup spawn_params
  run_leased task ms w =
      let w1 = (emit (acquired task.task_id rt.config.worker_id task.attempt) w).0 in
      let w2 : World Q S R E X = record w1 {
        active_tasks = insert task.task_id false w1.active_tasks;
      } in
      let w3 = meanwhile ms w2 in
      let r =
        rt.process_executor.execute (spawn_params task)
          (token_of (lookup task.task_id w3.active_tasks)) w3.sink w3.executor in
      let done = conclude task r.2 (record w3 { executor = r.0; sink = r.1 }) in
      (record (done.0) { active_tasks = remove task.task_id done.0.active_tasks }, done.1)

  unfoldable pub with_lease :
      TaskDescriptor
      → List Meanwhile
      → Result (Unit {0})
      → World Q S R E X
      → World Q S R E X × WorkerResult (Unit {0})
  unfolding run_leased requeue_task
  with_lease task ms (ok u) w = run_leased task ms w
  with_lease task ms (err e) w =
      if is_already_leased e
      then (w, worker_ok tt)
      else and_then (requeue_task task.task_id task.attempt w) (λ w1. (w1, worker_err (core e)))

  -- A new lease with the identifier `id`, acquired at `now`.
  unfoldable pub acquire_and_run :
      ℕ
      → ℕ
      → TaskDescriptor
      → List Meanwhile
      → World Q S R E X
      → World Q S R E X × WorkerResult (Unit {0})
  unfolding with_lease new_lease Manager.acquire
  acquire_and_run id now task ms w =
      let l =
        new_lease rt.from_std id now task.task_id rt.config.worker_id rt.config.lease_ttl
          task.attempt in
      let r = Manager.acquire rt.lease_store l w.leases in
      with_lease task ms r.1 (record w { leases = r.0 })

  -- The allocation, and its release when the rest is over.
  unfoldable pub with_resources :
      ℕ
      → ℕ
      → TaskDescriptor
      → List Meanwhile
      → R × Result (Unit {0})
      → World Q S R E X
      → World Q S R E X × WorkerResult (Unit {0})
  unfolding acquire_and_run
  with_resources id now task ms (m, err e) w = (record w { monitor = m }, worker_err (core e))
  with_resources id now task ms (m, ok u) w =
      let done = acquire_and_run id now task ms (record w { monitor = m }) in
      (
        record (done.0) { monitor = (rt.resource_monitor.release task.resources done.0.monitor).0 },
        done.1,
      )

  unfoldable pub when_allowed :
      ℕ
      → ℕ
      → TaskDescriptor
      → List Meanwhile
      → Result Bool
      → World Q S R E X
      → World Q S R E X × WorkerResult (Unit {0})
  unfolding with_resources requeue_task
  when_allowed id now task ms (err e) w = (w, worker_err (core e))
  when_allowed id now task ms (ok false) w = requeue_task task.task_id task.attempt w
  when_allowed id now task ms (ok true) w =
      with_resources id now task ms (rt.resource_monitor.allocate task.resources w.monitor) w

  unfoldable pub execute_task :
      ℕ
      → ℕ
      → TaskDescriptor
      → List Meanwhile
      → World Q S R E X
      → World Q S R E X × WorkerResult (Unit {0})
  unfolding when_allowed
  execute_task id now task ms w =
      when_allowed id now task ms (rt.resource_monitor.can_allocate task.resources w.monitor) w

  -- One round of the worker's loop. Errors are logged only.
  unfoldable pub work :
      ℕ
      → ℕ
      → List Meanwhile
      → Q × Result (Option TaskDescriptor)
      → World Q S R E X
      → World Q S R E X
  unfolding execute_task
  work id now ms (q, ok (some task)) w = (execute_task id now task ms (record w { queue = q })).0
  work id now ms (q, ok none) w = record w { queue = q }
  work id now ms (q, err e) w = record w { queue = q }

  unfoldable pub worker_round : ℕ → ℕ → List Meanwhile → World Q S R E X → World Q S R E X
  unfolding work
  worker_round id now ms w = work id now ms (rt.queue.dequeue rt.config.worker_id w.queue) w

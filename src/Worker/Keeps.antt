-- ===== src/Worker/Keeps.antt =====
-- What every part of an execution keeps: a property of the world that the queue, the sink, the
-- executor, the active tasks, and the operations on leases but for a removal do not touch.
use knitting_crab.Prelude.{
  ℕ, ◌+◌, ◌%◌, Bool, true, false, Option, none, some, List, [], ◌∷◌, Map, lookup, insert, remove,
  is_some, if◌then◌else◌, Bool-cases, inl, inr, u32_mod, u64_mod,
}
use knitting_crab.Core.Task.{TaskId, TaskDescriptor}
use knitting_crab.Core.Error.{Result, ok, err}
use knitting_crab.Events.{
  TaskEvent, acquired, completed, cancelled, will_retry, abandoned, lease_expired,
}
use knitting_crab.Retry.{ExitOutcome, RetryDecision, retry, abandon, complete, decide}
use knitting_crab.Leases.{Lease, LeaseState, new_lease}
use knitting_crab.Leases.Manager
use knitting_crab.Leases.Manager.{
  change_found, expire_found, collect_loop, collect_from, collect_expired, push_some,
}
use knitting_crab.Worker.{WorkerResult, worker_ok, worker_err, from_core, World, WorkerRuntime}
use knitting_crab.Worker.Steady.{
  IsSteady, change_found-keeps, renew_found-keeps, collect_from-keeps,
}
use knitting_crab.Worker.Runtime.{
  and_then, token_of, is_already_leased, spawn_params, Meanwhile, beats, cancels, reaps, emit,
  requeue_task, heartbeat, cancel_lease, cancel_task, meanwhile, settle, conclude, run_leased,
  with_lease, acquire_and_run, reap_leases, reap_collected, reaper_round,
}

pub and_then-keeps :
    {W A B : Type 0} (P : W → Type 0) (r : W × WorkerResult A) (k : W → W × WorkerResult B)
    → P r.0
    → ((w : W) → P w → P (k w).0)
    → P (and_then r k).0
and_then-keeps P (w, worker_ok a) k h f = f w h
and_then-keeps P (w, worker_err e) k h f = h

module _ {Q S R E X : Type 0} (rt : WorkerRuntime Q S R E X) where
  pub record IsKept (P : World Q S R E X → Type 0) : Type 0 where
    pub queue : (q : Q) (w : World Q S R E X) → P w → P (record w { queue = q })
    pub sink : (e : E) (w : World Q S R E X) → P w → P (record w { sink = e })
    pub executor : (x : X) (w : World Q S R E X) → P w → P (record w { executor = x })
    pub active : (m : Map Bool) (w : World Q S R E X) → P w → P (record w { active_tasks = m })
    pub leases : (w : World Q S R E X) → IsSteady rt (λ s. P (record w { leases = s }))

  -- The leases, seen through the property of the world.
  on_leases-keeps :
      (P : World Q S R E X → Type 0) (k : IsKept P) (f : Lease → Lease)
      (found : S × Result (Option Lease)) (w : World Q S R E X)
      → P (record w { leases = found.0 })
      → P (record w { leases = (change_found rt.lease_store f found).0 })
  on_leases-keeps P k f found w h =
      change_found-keeps rt (λ s. P (record w { leases = s })) f found (k.leases w) h

  pub emit-keeps :
      (P : World Q S R E X → Type 0) (k : IsKept P) (event : TaskEvent) (w : World Q S R E X)
      → P w
      → P (emit rt event w).0
  unfolding emit
  emit-keeps P k event w h = k.sink (rt.event_sink.emit_event event w.sink).0 w h

  pub requeue_task-keeps :
      (P : World Q S R E X → Type 0) (k : IsKept P) (id : TaskId) (attempt : ℕ)
      (w : World Q S R E X)
      → P w
      → P (requeue_task rt id attempt w).0
  unfolding requeue_task
  requeue_task-keeps P k id attempt w h = k.queue (rt.queue.requeue id attempt w.queue).0 w h

  cancel_lease-keeps :
      (P : World Q S R E X → Type 0) (k : IsKept P) (id : TaskId)
      (found : World Q S R E X × WorkerResult (Option Lease))
      → P found.0
      → P (cancel_lease rt id found).0
  unfolding cancel_lease Manager.cancel
  cancel_lease-keeps P k id (w, worker_err e) h = h
  cancel_lease-keeps P k id (w, worker_ok none) h = h
  cancel_lease-keeps P k id (w, worker_ok (some l)) h =
      on_leases-keeps P k (λ o. record o { state = LeaseState.cancelled })
        (rt.lease_store.get id w.leases) w ((k.leases w).reads id w.leases h)

  -- The cancellation flag.
  flagged-keeps :
      (P : World Q S R E X → Type 0) (k : IsKept P) (b : Bool) (m : Map Bool) (w : World Q S R E X)
      → P w
      → P (if b then (record w { active_tasks = m }) else w)
  flagged-keeps P k true m w h = k.active m w h
  flagged-keeps P k false m w h = h

  pub cancel_task-keeps :
      (P : World Q S R E X → Type 0) (k : IsKept P) (id : TaskId) (w : World Q S R E X)
      → P w
      → P (cancel_task rt id w).0
  unfolding cancel_task
  cancel_task-keeps P k id w h =
      let w' : World Q S R E X =
        if is_some (lookup id w.active_tasks)
        then (record w { active_tasks = insert id true w.active_tasks })
        else w in
      let h' : P w' =
        flagged-keeps P k (is_some (lookup id w.active_tasks)) (insert id true w.active_tasks) w
          h in
      let found : World Q S R E X × WorkerResult (Option Lease) = (
        record w' { leases = (rt.lease_store.get id w'.leases).0 },
        from_core (rt.lease_store.get id w'.leases).1,
      ) in
      and_then-keeps P (cancel_lease rt id found) _
        (cancel_lease-keeps P k id found ((k.leases w').reads id w'.leases h'))
        (λ w1 h1.
          and_then-keeps P
            (
              record w1 { queue = (rt.queue.discard id w1.queue).0 },
              from_core (rt.queue.discard id w1.queue).1,
            )
            _ (k.queue (rt.queue.discard id w1.queue).0 w1 h1)
            (λ w2 h2. emit-keeps P k (cancelled id) w2 h2))

  reap_leases-keeps :
      (P : World Q S R E X → Type 0) (k : IsKept P) (ls : List Lease) (w : World Q S R E X)
      → P w
      → P (reap_leases rt ls w).0
  unfolding reap_leases
  reap_leases-keeps P k [] w h = h
  reap_leases-keeps P k (l ∷ ls) w h =
      let rest : (v : World Q S R E X) → P v → P (reap_leases rt ls v).0 =
        λ v g. reap_leases-keeps P k ls v g in
      and_then-keeps P (emit rt (lease_expired l.task_id) w) _
        (emit-keeps P k (lease_expired l.task_id) w h)
        (λ w1 h1.
          and_then-keeps P (requeue_task rt l.task_id ((l.attempt + 1) % u32_mod) w1) _
            (requeue_task-keeps P k l.task_id ((l.attempt + 1) % u32_mod) w1 h1) rest)

  reap_collected-keeps :
      (P : World Q S R E X → Type 0) (k : IsKept P) (r : S × Result (List Lease))
      (w : World Q S R E X)
      → P (record w { leases = r.0 })
      → P (reap_collected rt r w).0
  unfolding reap_collected
  reap_collected-keeps P k (s, ok ls) w h = reap_leases-keeps P k ls (record w { leases = s }) h
  reap_collected-keeps P k (s, err e) w h = h

  pub reaper_round-keeps :
      (P : World Q S R E X → Type 0) (k : IsKept P) (now : ℕ) (w : World Q S R E X)
      → P w
      → P (reaper_round rt now w).0
  unfolding reaper_round collect_expired
  reaper_round-keeps P k now w h =
      reap_collected-keeps P k (collect_expired rt.lease_store now w.leases) w (
        collect_from-keeps rt now (rt.lease_store.active_leases w.leases)
          (λ s. P (record w { leases = s })) (k.leases w) ((k.leases w).lists w.leases h))

  pub heartbeat-keeps :
      (P : World Q S R E X → Type 0) (k : IsKept P) (id : TaskId) (now : ℕ) (w : World Q S R E X)
      → P w
      → P (record w { leases = heartbeat rt id now w.leases })
  unfolding heartbeat
  heartbeat-keeps P k id now w h =
      renew_found-keeps rt (λ s. P (record w { leases = s })) id now
        (rt.lease_store.get id w.leases) (k.leases w) ((k.leases w).reads id w.leases h)

  pub meanwhile-keeps :
      (P : World Q S R E X → Type 0) (k : IsKept P) (ms : List Meanwhile) (w : World Q S R E X)
      → P w
      → P (meanwhile rt ms w)
  unfolding meanwhile
  meanwhile-keeps P k [] w h = h
  meanwhile-keeps P k (beats id now ∷ ms) w h =
      meanwhile-keeps P k ms (record w { leases = heartbeat rt id now w.leases })
        (heartbeat-keeps P k id now w h)
  meanwhile-keeps P k (cancels id ∷ ms) w h =
      meanwhile-keeps P k ms (cancel_task rt id w).0 (cancel_task-keeps P k id w h)
  meanwhile-keeps P k (reaps now ∷ ms) w h =
      meanwhile-keeps P k ms (reaper_round rt now w).0 (reaper_round-keeps P k now w h)

  settle-keeps :
      (P : World Q S R E X → Type 0) (k : IsKept P) (task : TaskDescriptor) (d : RetryDecision)
      (w : World Q S R E X)
      → P w
      → P (settle rt task d w).0
  unfolding settle Manager.complete Manager.fail
  settle-keeps P k task complete w h =
      on_leases-keeps P k (λ o. record o { state = LeaseState.completed })
        (rt.lease_store.get task.task_id w.leases) w ((k.leases w).reads task.task_id w.leases h)
  settle-keeps P k task (retry delay) w h =
      let next = (task.attempt + 1) % u32_mod in
      and_then-keeps P (emit rt (will_retry task.task_id next (delay % u64_mod)) w) _
        (emit-keeps P k (will_retry task.task_id next (delay % u64_mod)) w h)
        (λ w1 h1.
          and_then-keeps P
            (
              record w1 { leases = (Manager.fail rt.lease_store task.task_id next w1.leases).0 },
              from_core (Manager.fail rt.lease_store task.task_id next w1.leases).1,
            )
            _
            (on_leases-keeps P k (λ o. record o { state = LeaseState.failed next })
              (rt.lease_store.get task.task_id w1.leases) w1
              ((k.leases w1).reads task.task_id w1.leases h1))
            (λ w2 h2. requeue_task-keeps P k task.task_id next w2 h2))
  settle-keeps P k task abandon w h =
      and_then-keeps P (emit rt (abandoned task.task_id "max attempts exceeded") w) _
        (emit-keeps P k (abandoned task.task_id "max attempts exceeded") w h)
        (λ w1 h1.
          on_leases-keeps P k (λ o. record o { state = LeaseState.failed task.attempt })
            (rt.lease_store.get task.task_id w1.leases) w1
            ((k.leases w1).reads task.task_id w1.leases h1))

  conclude-keeps :
      (P : World Q S R E X → Type 0) (k : IsKept P) (task : TaskDescriptor)
      (r : WorkerResult ExitOutcome) (w : World Q S R E X)
      → P w
      → P (conclude rt task r w).0
  unfolding conclude
  conclude-keeps P k task (worker_err e) w h = h
  conclude-keeps P k task (worker_ok outcome) w h =
      settle-keeps P k task (decide outcome task.policy task.attempt)
        (emit rt (completed task.task_id outcome) w).0
        (emit-keeps P k (completed task.task_id outcome) w h)

  pub run_leased-keeps :
      (P : World Q S R E X → Type 0) (k : IsKept P) (task : TaskDescriptor) (ms : List Meanwhile)
      (w : World Q S R E X)
      → P w
      → P (run_leased rt task ms w).0
  unfolding run_leased
  run_leased-keeps P k task ms w h =
      let w1 = (emit rt (acquired task.task_id rt.config.worker_id task.attempt) w).0 in
      let w2 : World Q S R E X = record w1 {
        active_tasks = insert task.task_id false w1.active_tasks;
      } in
      let w3 = meanwhile rt ms w2 in
      let h3 = meanwhile-keeps P k ms w2 (
        k.active (insert task.task_id false w1.active_tasks) w1
          (emit-keeps P k (acquired task.task_id rt.config.worker_id task.attempt) w h)) in
      let r =
        rt.process_executor.execute (spawn_params task)
          (token_of (lookup task.task_id w3.active_tasks)) w3.sink w3.executor in
      let done = conclude rt task r.2 (record w3 { executor = r.0; sink = r.1 }) in
      k.active (remove task.task_id done.0.active_tasks) done.0 (
        conclude-keeps P k task r.2 (record w3 { executor = r.0; sink = r.1 })
          (k.sink r.1 (record w3 { executor = r.0 }) (k.executor r.0 w3 h3)))

  pub with_lease-keeps :
      (P : World Q S R E X → Type 0) (k : IsKept P) (task : TaskDescriptor) (ms : List Meanwhile)
      (r : Result (Unit {0})) (w : World Q S R E X)
      → P w
      → P (with_lease rt task ms r w).0
  unfolding with_lease
  with_lease-keeps P k task ms (ok u) w h = run_leased-keeps P k task ms w h
  with_lease-keeps P k task ms (err e) w h = elim (Bool-cases (is_already_leased e)) [
    | inl leased ↦ rw (leased) h
    | inr other ↦ rw (other) (
        and_then-keeps P (requeue_task rt task.task_id task.attempt w) _
          (requeue_task-keeps P k task.task_id task.attempt w h) (λ w1 h1. h1))
  ]

  pub acquire_and_run-keeps :
      (P : World Q S R E X → Type 0) (k : IsKept P) (id now : ℕ) (task : TaskDescriptor)
      (ms : List Meanwhile) (w : World Q S R E X)
      → P w
      → P (acquire_and_run rt id now task ms w).0
  unfolding acquire_and_run Manager.acquire
  acquire_and_run-keeps P k id now task ms w h =
      let l =
        new_lease rt.from_std id now task.task_id rt.config.worker_id rt.config.lease_ttl
          task.attempt in
      let r = rt.lease_store.insert_lease l w.leases in
      with_lease-keeps P k task ms r.1 (record w { leases = r.0 })
        ((k.leases w).inserts l w.leases h)

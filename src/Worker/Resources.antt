-- ===== src/Worker/Resources.antt =====
-- What an execution asks of the resource monitor.
use knitting_crab.Prelude.{ℕ, ◌≡◌, refl, sym, ap, subst, Bool, true, false, List}
use knitting_crab.Core.Task.{TaskDescriptor, ResourceAllocation}
use knitting_crab.Core.Error.{CoreError, Result, ok, err}
use knitting_crab.Worker.{World, WorkerRuntime}
use knitting_crab.Worker.Runtime.{
  Meanwhile, requeue_task, with_resources, when_allowed, execute_task,
}
use knitting_crab.Worker.Keeps.{IsKept, acquire_and_run-keeps}

module _ {Q S R E X : Type 0} (rt : WorkerRuntime Q S R E X) where
  -- What an execution leaves of the monitor `m`: it was not asked for resources, it refused them, or
  -- it gave them and got them back.
  pub data Balances (req : ResourceAllocation) (m : R) : R → Type 0 where
    not_asked : Balances req m m
    refused :
        (e : CoreError)
        → (rt.resource_monitor.allocate req m).1 ≡ err e
        → Balances req m (rt.resource_monitor.allocate req m).0
    returned :
        (rt.resource_monitor.allocate req m).1 ≡ ok tt
        → Balances req m (rt.resource_monitor.release req (rt.resource_monitor.allocate req m).0).0

  monitor-IsKept : (m : R) → IsKept rt (λ w. w.monitor ≡ m)
  monitor-IsKept m = record {
    queue = λ q w h. h;
    sink = λ e w h. h;
    executor = λ x w h. h;
    active = λ a w h. h;
    leases = λ w. record {
      inserts = λ l s h. h;
      reads = λ k s h. h;
      lists = λ s h. h;
      updates = λ l s h. h;
    };
  }

  with_resources-Balances :
      (id now : ℕ) (task : TaskDescriptor) (ms : List Meanwhile) (r : R × Result (Unit {0}))
      (w : World Q S R E X)
      → rt.resource_monitor.allocate task.resources w.monitor ≡ r
      → Balances task.resources w.monitor (with_resources rt id now task ms r w).0.monitor
  unfolding with_resources
  with_resources-Balances id now task ms (m, err e) w h =
      subst (Balances task.resources w.monitor) (ap (λ r. r.0) h) (refused e (ap (λ r. r.1) h))
  with_resources-Balances id now task ms (m, ok u) w h =
      let same =
        acquire_and_run-keeps rt (λ v. v.monitor ≡ m) (monitor-IsKept m) id now task ms
          (record w { monitor = m }) refl in
      subst
        (λ n. Balances task.resources w.monitor (rt.resource_monitor.release task.resources n).0)
        (sym same)
        (subst
          (λ n. Balances task.resources w.monitor (rt.resource_monitor.release task.resources n).0)
          (ap (λ r. r.0) h) (returned (ap (λ r. r.1) h)))

  when_allowed-Balances :
      (id now : ℕ) (task : TaskDescriptor) (ms : List Meanwhile) (r : Result Bool)
      (w : World Q S R E X)
      → Balances task.resources w.monitor (when_allowed rt id now task ms r w).0.monitor
  unfolding when_allowed requeue_task
  when_allowed-Balances id now task ms (err e) w = not_asked
  when_allowed-Balances id now task ms (ok false) w = not_asked
  when_allowed-Balances id now task ms (ok true) w =
      with_resources-Balances id now task ms (rt.resource_monitor.allocate task.resources w.monitor)
        w refl

  -- On every path of an execution, whatever happens while the process runs and whichever call fails,
  -- the monitor is as it was, or has refused the allocation, or has made it once and then released
  -- it once.
  pub execute_task-Balances :
      (id now : ℕ) (task : TaskDescriptor) (ms : List Meanwhile) (w : World Q S R E X)
      → Balances task.resources w.monitor (execute_task rt id now task ms w).0.monitor
  unfolding execute_task
  execute_task-Balances id now task ms w =
      when_allowed-Balances id now task ms
        (rt.resource_monitor.can_allocate task.resources w.monitor) w

-- ===== src/Worker/Examples.antt =====
-- The theorems of a worker with the queue and the sink of the fake worker, a monitor and an executor
-- that count, and the leases in memory.
use knitting_crab.Prelude.{ℕ, ◌+◌, ◌-◌, ◌≡◌, refl, true, some, List, [], ◌∷◌}
use knitting_crab.Core.Priority.{normal}
use knitting_crab.Core.Sample.{task_of}
use knitting_crab.Core.Task.{TaskDescriptor}
use knitting_crab.Core.Error.{ok, err, internal}
use knitting_crab.Events.{TaskEvent, LogLine}
use knitting_crab.Retry.{failed_with_code}
use knitting_crab.Leases.InMemory.{InMemoryLeaseStore, in_memory, in_memory-IsReliable}
use knitting_crab.Leases.Store.{LeaseStore, IsReliable}
use knitting_crab.Worker.{
  worker_ok, ResourceMonitor, ProcessExecutor, World, WorkerRuntime, new_config,
}
use knitting_crab.Worker.Runtime.{beats, cancels, reaps, execute_task}
use knitting_crab.Worker.Resources.{Balances, execute_task-Balances}
use knitting_crab.Worker.Once.{works, waits, run, executed_once}
use knitting_crab.Worker.Fake.{fake_queue, fake_sink}

-- The cores that are free.
abbrev counting_monitor : ResourceMonitor ℕ
counting_monitor = record {
  can_allocate = λ req m. ok true;
  allocate = λ req m. (m - req.cpu_cores, ok tt);
  release = λ req m. (m + req.cpu_cores, ok tt);
}

-- The number of processes that have run; each of them fails.
abbrev counting_executor : ProcessExecutor (List TaskEvent × List LogLine) ℕ
counting_executor = record {
  execute = λ params cancelled_now sink runs. (runs + 1, sink, worker_ok (failed_with_code 1));
}

abbrev Fakes : Type 0
Fakes = World (List TaskDescriptor) InMemoryLeaseStore ℕ (List TaskEvent × List LogLine) ℕ

unfoldable fake_runtime :
    WorkerRuntime (List TaskDescriptor) InMemoryLeaseStore ℕ (List TaskEvent × List LogLine) ℕ
unfolding fake_queue fake_sink in_memory new_config
fake_runtime = record {
  queue = fake_queue;
  lease_store = in_memory;
  resource_monitor = counting_monitor;
  event_sink = fake_sink;
  process_executor = counting_executor;
  from_std = some;
  config = new_config 7;
}

fake_runtime-IsReliable : IsReliable fake_runtime.lease_store
unfolding fake_runtime
fake_runtime-IsReliable = in_memory-IsReliable

-- A task that is still queued while its copy is executed.
abbrev fresh : Fakes
fresh = record {
  queue = task_of 3 normal [] ∷ [];
  leases = [];
  monitor = 8192;
  sink = ([], []);
  executor = 0;
  active_tasks = [];
}

-- The first execution runs the process, which fails and is to be retried.
runs_once :
    (execute_task fake_runtime 100 5 (task_of 3 normal []) (beats 3 6 ∷ []) fresh).0.executor ≡ 1
unfolding fake_runtime execute_task
runs_once = refl

execute_task-Balances_example :
    Balances fake_runtime
      (task_of 3 normal []).resources
      8192
      (execute_task fake_runtime 100 5
        (task_of 3 normal [])
        (beats 3 6 ∷ cancels 3 ∷ [])
        fresh).0.monitor
execute_task-Balances_example =
    execute_task-Balances fake_runtime 100 5 (task_of 3 normal []) (beats 3 6 ∷ cancels 3 ∷ [])
      fresh

executed_once_example :
    let later =
      run fake_runtime fake_runtime-IsReliable
        (works 101 8 [] ∷ waits (reaps 40 ∷ []) ∷ [])
        (execute_task fake_runtime 100 5 (task_of 3 normal []) (beats 3 6 ∷ []) fresh).0 in
    (execute_task fake_runtime 102 50 (task_of 3 normal []) [] later).0.executor ≡ later.executor
unfolding fake_runtime
executed_once_example =
    executed_once fake_runtime fake_runtime-IsReliable 100 5 (task_of 3 normal []) (beats 3 6 ∷ [])
      fresh (works 101 8 [] ∷ waits (reaps 40 ∷ []) ∷ []) 102 50 (task_of 3 normal []) [] refl refl
      refl

-- A lease store whose machine cannot be reached.
abbrev unreachable : LeaseStore InMemoryLeaseStore
unreachable = record {
  insert_lease = λ l s. (s, err (internal "unreachable"));
  get = λ k s. (s, err (internal "unreachable"));
  update = λ l s. (s, err (internal "unreachable"));
  remove_lease = λ k s. (s, err (internal "unreachable"));
  active_leases = λ s. (s, err (internal "unreachable"));
}

-- The task is not run, and its resources are given back.
not_run_unleased :
    let rt = record fake_runtime { lease_store = unreachable } in
    let w = (execute_task rt 100 5 (task_of 3 normal []) [] fresh).0 in
    (w.executor ≡ 0) × (w.monitor ≡ 8192)
unfolding fake_runtime execute_task
not_run_unleased = (refl, refl)

-- ===== src/Dag/Examples.antt =====
-- The scheduler's theorems at concrete calls, and tests of its operations.
use knitting_crab.Prelude.{
  ℕ, ◌≡◌, ◌≢◌, refl, subst, true, false, some, List, [], ◌∷◌, lookup, insert, contains, arith,
}
use knitting_crab.Core.Priority.{low, normal, high}
use knitting_crab.Core.Task.{TaskId, TaskDescriptor}
use knitting_crab.Core.Sample.{task_of}
use knitting_crab.Core.Error.{returns, panics, ok, state_after}
use knitting_crab.Dag.Policy.{default_fairness, default_starvation}
use knitting_crab.Dag.Pool.{ResourceConfig, ResourcePool, IsWithin}
use knitting_crab.Dag.State.{
  Inner, pending, running, completed, dependency_failed, new_with_policies,
  new_with_resource_config,
}
use knitting_crab.Dag.Enqueue.{enqueue}
use knitting_crab.Dag.Finish.{complete, fail}
use knitting_crab.Dag.Dequeue.{dequeue, requeue, fits}
use knitting_crab.Dag.Invariant.{IsConsistent}
use knitting_crab.Dag.Invariant.Fail.{Fails, fail-Fails}
use knitting_crab.Dag.Invariant.Enqueue.{Accepts, enqueue-Accepts}
use knitting_crab.Dag.Invariant.Dequeue.{Hands, dequeue-some}
use knitting_crab.Dag.Run.{
  Call, enqueues, completes, dequeues, run, step, Fresh, plain, limited, run-IsSound, Fresh-IsSound,
  run-deps_completed, run_no_panic, run-dequeue-none,
}
use knitting_crab.Dag.Limits.{run-limits}
use knitting_crab.Dag.Leak.{Released, requeue_leaks}
use knitting_crab.Dag.Late.{IsStranded, starts, finishes, after_work, enqueue_late}

abbrev first : TaskDescriptor
first = task_of 1 normal []

abbrev second : TaskDescriptor
second = task_of 2 high (1 ∷ [])

-- The second task depends on the first, which completes.
abbrev calls : List (ℕ × Call)
calls = (0, enqueues first) ∷ (1, enqueues second) ∷ (2, dequeues) ∷ (3, completes 1) ∷ []

abbrev running_first : List (ℕ × Call)
running_first = (0, enqueues first) ∷ (1, enqueues second) ∷ (2, dequeues) ∷ []

abbrev base : Inner
base = new_with_policies default_fairness default_starvation

base-Fresh : Fresh base
base-Fresh = plain default_fairness default_starvation

-- The states after some calls; to unfold these is to unfold the operations.
after : List (ℕ × Call) → Inner
unfolding run step enqueue complete fail dequeue requeue new_with_policies lookup insert
    default_fairness default_starvation
after cs = run base cs

after-IsConsistent : (cs : List (ℕ × Call)) → IsConsistent (after cs)
unfolding after
after-IsConsistent cs = (run-IsSound base cs (Fresh-IsSound base-Fresh)).consistent

run-deps_completed_example : lookup 1 (run base calls).states ≡ some completed
unfolding after
run-deps_completed_example = run-deps_completed base calls 2 1 second base-Fresh refl refl refl

run_no_panic_example : enqueue (task_of 3 low (3 ∷ [])) 4 (run base calls) ≢ panics
run_no_panic_example = (run_no_panic base calls (task_of 3 low (3 ∷ [])) 1 4 base-Fresh).0

-- A pool of two cores, in which the large task does not fit beside the first.
abbrev two_cores : ResourceConfig
two_cores = record { max_cpu_cores = 2048; max_memory_mb = 1024; max_gpu_cores = 0 }

abbrev large : TaskDescriptor
large = record (task_of 3 high []) {
  resources = record { cpu_cores = 2048; memory_mb = 256; gpu_cores = 0 };
}

abbrev limited_calls : List (ℕ × Call)
limited_calls = (0, enqueues first) ∷ (1, dequeues) ∷ (2, enqueues large) ∷ []

limited_after : List (ℕ × Call) → Inner
unfolding after new_with_resource_config
limited_after cs = run (new_with_resource_config two_cores) cs

run-dequeue-none_example :
    fits (run (new_with_resource_config two_cores) limited_calls).resource_pool large ≡ false
unfolding limited_after
run-dequeue-none_example =
    run-dequeue-none (new_with_resource_config two_cores) limited_calls 3 3 large
      (limited two_cores) refl refl refl

-- The pool with the first task's allocation.
abbrev pool_first : ResourcePool
pool_first = record {
  config = two_cores;
  used_cpu = 1024;
  used_memory_mb = 256;
  used_gpu_cores = 0;
}

run-limits_example : IsWithin pool_first
unfolding limited_after
run-limits_example = run-limits two_cores limited_calls pool_first refl

limited_after-IsConsistent : (cs : List (ℕ × Call)) → IsConsistent (limited_after cs)
unfolding limited_after
limited_after-IsConsistent cs =
    (run-IsSound (new_with_resource_config two_cores) cs
      (Fresh-IsSound (limited two_cores))).consistent

abbrev first_runs : List (ℕ × Call)
first_runs = (0, enqueues first) ∷ (1, dequeues) ∷ []

-- The task that the retry hands out.
abbrev retried : TaskDescriptor
retried = record first { attempt = 1 }

requeue_leaks_example :
    let u = (dequeue 3 (requeue 1 1 2 (limited_after first_runs))).0 in
    Released 1 pool_first (state_after u (complete 1 4 u))
unfolding limited_after
requeue_leaks_example =
    requeue_leaks (limited_after first_runs) pool_first retried 1 2 3 4
      (limited_after-IsConsistent first_runs) refl refl refl (omega arith) (omega arith)

abbrev third : TaskDescriptor
third = task_of 3 low (1 ∷ [])

enqueue_late_example :
    (t : Inner) × (enqueue third 9 (after calls) ≡ returns t (ok tt))
    × IsStranded third (after_work t ((10, starts) ∷ (11, finishes 2) ∷ []))
unfolding after
enqueue_late_example =
    enqueue_late third 9 (after calls) ((10, starts) ∷ (11, finishes 2) ∷ [])
      (after-IsConsistent calls) refl (omega arith) (λ d m. one d m)
  where
    one : (d : TaskId) → contains d (1 ∷ []) ≡ true → lookup d (after calls).states ≡ some completed
    one d m =
        let q : ◌≡◌ {A = ℕ} 1 d = ground arith in
        subst (λ j. lookup j (after calls).states ≡ some completed) q refl

enqueue-Accepts_example : Accepts third 9 (after calls) (enqueue third 9 (after calls))
enqueue-Accepts_example = enqueue-Accepts third 9 (after calls) (after-IsConsistent calls)

dequeue-some_example : Hands 9 (after calls) (dequeue 9 (after calls)).0 second
unfolding after
dequeue-some_example = dequeue-some 9 (after calls) second (after-IsConsistent calls) refl

fail-Fails_example :
    (t : Inner) × (fail 1 (after running_first) ≡ returns t (ok tt))
    × Fails 1 (after running_first) t
unfolding after
fail-Fails_example =
    fail-Fails 1 (after running_first) running (after-IsConsistent running_first) refl refl

-- Tests.
second_fails :
    lookup 2 (state_after (after running_first) (fail 1 (after running_first))).states
    ≡ some dependency_failed
unfolding after
second_fails = refl

-- Between two tasks of one priority the larger identifier is handed out first.
tie_breaks_down :
    (dequeue 2
      (after ((0, enqueues (task_of 1 normal [])) ∷ (1, enqueues (task_of 2 normal [])) ∷ []))).1
    ≡ some (task_of 2 normal [])
unfolding after
tie_breaks_down = refl

-- A dependency that is written twice is counted twice and unblocked once.
written_twice :
    lookup 2
      (after (
        (0, enqueues first)
        ∷ (1, enqueues (task_of 2 normal (1 ∷ 1 ∷ [])))
        ∷ (2, dequeues)
        ∷ (3, completes 1)
        ∷ [])).states
    ≡ some pending
unfolding after
written_twice = refl

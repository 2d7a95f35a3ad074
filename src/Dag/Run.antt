-- ===== src/Dag/Run.antt =====
-- Any sequence of calls, each with the clock reading that it makes. The scheduler's lock makes the
-- calls of concurrent workers such a sequence.
use knitting_crab.Prelude.{
  ℕ, ◌≡◌, ◌≢◌, refl, true, false, Option, none, some, List, [], ◌∷◌, lookup, has_key, contains,
  arith,
}
use knitting_crab.Core.Task.{TaskId, TaskDescriptor}
use knitting_crab.Core.Error.{Outcome, returns, panics, state_after}
use knitting_crab.Dag.Policy.{
  FairnessPolicy, StarvationPreventionPolicy, default_fairness, default_starvation,
}
use knitting_crab.Dag.Pool.{ResourceConfig}
use knitting_crab.Dag.State.{
  Inner, TaskState, pending, ready, running, completed, failed, dependency_failed,
  new_with_policies, new_with_resource_config, set_fairness_policy, set_starvation_policy,
  is_started, successors_of,
}
use knitting_crab.Dag.Enqueue.{enqueue}
use knitting_crab.Dag.Finish.{complete, fail, discard}
use knitting_crab.Dag.Dequeue.{dequeue, requeue, fits}
use knitting_crab.Dag.Waiting.{is_done, waiting-zero}
use knitting_crab.Dag.Invariant.{IsConsistent, IsQueued}
use knitting_crab.Dag.Invariant.Finish.{complete-running}
use knitting_crab.Dag.Invariant.Fail.{may_fail, fail-Fails, Fails-IsQueued}
use knitting_crab.Dag.Invariant.Enqueue.{
  Accepts, enqueue-Accepts, Accepts-IsConsistent, Accepts-IsQueued,
}
use knitting_crab.Dag.Invariant.Requeue.{requeue-IsConsistent, requeue-IsQueued}
use knitting_crab.Dag.Invariant.Dequeue.{dequeue-IsConsistent, dequeue-IsQueued, dequeue-none}

pub data Call : Type 0 where
  enqueues : TaskDescriptor → Call
  completes fails discards : TaskId → Call
  dequeues : Call
  requeues : TaskId → ℕ → Call
  sets_fairness : FairnessPolicy → Call
  sets_starvation : StarvationPreventionPolicy → Call

-- The state after a call.
unfoldable pub step : Inner → ℕ × Call → Inner
step s (now, enqueues task) = state_after s (enqueue task now s)
step s (now, completes id) = state_after s (complete id now s)
step s (now, fails id) = state_after s (fail id s)
step s (now, discards id) = state_after s (discard id s)
step s (now, dequeues) = (dequeue now s).0
step s (now, requeues id attempt) = requeue id attempt now s
step s (now, sets_fairness policy) = set_fairness_policy policy s
step s (now, sets_starvation policy) = set_starvation_policy policy s

unfoldable pub run : Inner → List (ℕ × Call) → Inner
run s [] = s
run s (c ∷ cs) = run (step s c) cs

-- The two invariants together.
pub record IsSound (s : Inner) : Type 0 where
  pub consistent : IsConsistent s
  pub queued : IsQueued s

pub new_with_policies-IsSound :
    (f : FairnessPolicy) (p : StarvationPreventionPolicy) → IsSound (new_with_policies f p)
unfolding new_with_policies lookup successors_of has_key
new_with_policies-IsSound f p = record {
  consistent = record {
    graph = record {
      named = λ k t e. cc;
      known = λ k t d e m. cc;
      linked = λ d x m. cc;
      linked_back = λ k t d e m. cc;
      distinct = λ d. tt;
    };
    progress = record { tracked = λ k. refl; counted = λ k t e. cc; started = λ k t e h. cc };
  };
  queued = λ k h. cc;
}

pub new_with_resource_config-IsSound : (c : ResourceConfig) → IsSound (new_with_resource_config c)
unfolding new_with_resource_config
new_with_resource_config-IsSound c =
    let s = new_with_policies-IsSound default_fairness default_starvation in
    record {
      consistent = record { graph = s.consistent.graph; progress = s.consistent.progress };
      queued = s.queued;
    }

-- A call that returns keeps the invariants.
pub record Returns (s : Inner) (o : Outcome Inner (Unit {0})) : Type 0 where
  pub in_time : o ≢ panics
  pub sound : IsSound (state_after s o)

enqueue-Returns :
    (task : TaskDescriptor) (now : ℕ) (s : Inner) → IsSound s → Returns s (enqueue task now s)
enqueue-Returns task now s i =
    let a = enqueue-Accepts task now s i.consistent in
    record {
      in_time = no_panic (enqueue task now s) a;
      sound = record {
        consistent = Accepts-IsConsistent i.consistent a;
        queued = Accepts-IsQueued i.queued a;
      };
    }
  where
    no_panic : (o : Outcome Inner (Unit {0})) → Accepts task now s o → o ≢ panics
    no_panic (returns t r) a e = cc
    no_panic panics a e = elim a [ ]

complete-Returns : (id : TaskId) (now : ℕ) (s : Inner) → IsSound s → Returns s (complete id now s)
unfolding complete
complete-Returns id now s i = go (lookup id s.states) refl
  where
    go : (o : Option TaskState) → lookup id s.states ≡ o → Returns s (complete id now s)
    go (some running) e =
        let (t, r, done) = complete-running id now s i.consistent e in
        rw r (record {
          in_time = λ h. cc;
          sound = record {
            consistent = done.consistent;
            queued = λ k. done.entries_kept k (i.queued k);
          };
        })
    go none e = rw (e, complete) (record { in_time = λ h. cc; sound = i })
    go (some pending) e = rw (e, complete) (record { in_time = λ h. cc; sound = i })
    go (some ready) e = rw (e, complete) (record { in_time = λ h. cc; sound = i })
    go (some completed) e = rw (e, complete) (record { in_time = λ h. cc; sound = i })
    go (some failed) e = rw (e, complete) (record { in_time = λ h. cc; sound = i })
    go (some dependency_failed) e = rw (e, complete) (record { in_time = λ h. cc; sound = i })

fail-Returns : (id : TaskId) (s : Inner) → IsSound s → Returns s (fail id s)
unfolding fail
fail-Returns id s i = go (lookup id s.states) refl
  where
    fails :
        (v : TaskState) → may_fail v ≡ true → lookup id s.states ≡ some v → Returns s (fail id s)
    fails v m e =
        let (t, r, f) = fail-Fails id s v i.consistent e m in
        rw r (record {
          in_time = λ h. cc;
          sound = record { consistent = f.consistent; queued = Fails-IsQueued id s t f i.queued };
        })

    go : (o : Option TaskState) → lookup id s.states ≡ o → Returns s (fail id s)
    go (some running) e = fails running refl e
    go (some pending) e = fails pending refl e
    go (some ready) e = fails ready refl e
    go none e = rw (e, fail) (record { in_time = λ h. cc; sound = i })
    go (some completed) e = rw (e, fail) (record { in_time = λ h. cc; sound = i })
    go (some failed) e = rw (e, fail) (record { in_time = λ h. cc; sound = i })
    go (some dependency_failed) e = rw (e, fail) (record { in_time = λ h. cc; sound = i })

pub step-IsSound : (s : Inner) (c : ℕ × Call) → IsSound s → IsSound (step s c)
unfolding step discard set_fairness_policy set_starvation_policy
step-IsSound s (now, enqueues task) i = (enqueue-Returns task now s i).sound
step-IsSound s (now, completes id) i = (complete-Returns id now s i).sound
step-IsSound s (now, fails id) i = (fail-Returns id s i).sound
step-IsSound s (now, discards id) i = (fail-Returns id s i).sound
step-IsSound s (now, dequeues) i = record {
  consistent = dequeue-IsConsistent now s i.consistent;
  queued = dequeue-IsQueued now s i.consistent i.queued;
}
step-IsSound s (now, requeues id attempt) i = record {
  consistent = requeue-IsConsistent id attempt now s i.consistent;
  queued = requeue-IsQueued id attempt now s i.queued;
}
step-IsSound s (now, sets_fairness policy) i = record {
  consistent = record { graph = i.consistent.graph; progress = i.consistent.progress };
  queued = i.queued;
}
step-IsSound s (now, sets_starvation policy) i = record {
  consistent = record { graph = i.consistent.graph; progress = i.consistent.progress };
  queued = i.queued;
}

pub run-IsSound : (s : Inner) (cs : List (ℕ × Call)) → IsSound s → IsSound (run s cs)
unfolding run
run-IsSound s [] i = i
run-IsSound s (c ∷ cs) i = run-IsSound (step s c) cs (step-IsSound s c i)

-- A scheduler as the constructors make it.
pub data Fresh : Inner → Type 0 where
  plain : (f : FairnessPolicy) (p : StarvationPreventionPolicy) → Fresh (new_with_policies f p)
  limited : (c : ResourceConfig) → Fresh (new_with_resource_config c)

pub Fresh-IsSound : {s : Inner} → Fresh s → IsSound s
Fresh-IsSound (plain f p) = new_with_policies-IsSound f p
Fresh-IsSound (limited c) = new_with_resource_config-IsSound c

-- After any calls on a new scheduler, every dependency of a task that is ready, runs or has
-- completed is itself completed.
pub run-deps_completed :
    (s : Inner) (cs : List (ℕ × Call)) (k d : TaskId) (task : TaskDescriptor)
    → Fresh s
    → lookup k (run s cs).tasks ≡ some task
    → is_started (lookup k (run s cs).states) ≡ true
    → contains d task.dependencies ≡ true
    → lookup d (run s cs).states ≡ some completed
run-deps_completed s cs k d task f e h m =
    let c = (run-IsSound s cs (Fresh-IsSound f)).consistent in
    let done : is_done (run s cs).states d ≡ true =
      waiting-zero (run s cs).states task.dependencies d (c.progress.started k task e h) m in
    ground arith

-- After any calls on a new scheduler, `enqueue`, `complete`, `fail` and `discard` return: no index
-- is missing, no degree underflows, and the searches end.
pub run_no_panic :
    (s : Inner) (cs : List (ℕ × Call)) (task : TaskDescriptor) (id : TaskId) (now : ℕ)
    → Fresh s
    → (enqueue task now (run s cs) ≢ panics)
      × (complete id now (run s cs) ≢ panics)
      × (fail id (run s cs) ≢ panics)
      × (discard id (run s cs) ≢ panics)
unfolding discard
run_no_panic s cs task id now f =
    let i = run-IsSound s cs (Fresh-IsSound f) in
    (
      (enqueue-Returns task now (run s cs) i).in_time,
      (complete-Returns id now (run s cs) i).in_time,
      (fail-Returns id (run s cs) i).in_time,
      (fail-Returns id (run s cs) i).in_time,
    )

-- After any calls on a new scheduler, `dequeue` returns nothing only if no ready task fits.
pub run-dequeue-none :
    (s : Inner) (cs : List (ℕ × Call)) (now : ℕ) (k : TaskId) (task : TaskDescriptor)
    → Fresh s
    → (dequeue now (run s cs)).1 ≡ none
    → lookup k (run s cs).states ≡ some ready
    → lookup k (run s cs).tasks ≡ some task
    → fits (run s cs).resource_pool task ≡ false
run-dequeue-none s cs now k task f h a b =
    dequeue-none now (run s cs) k task (run-IsSound s cs (Fresh-IsSound f)).queued h a b

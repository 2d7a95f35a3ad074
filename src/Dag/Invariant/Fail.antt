-- ===== src/Dag/Invariant/Fail.antt =====
-- `fail`: it returns, keeps the invariant, and stops what waits downstream of the task.
use knitting_crab.Prelude.{
  ℕ, suc, ◌≡◌, ◌≢◌, refl, sym, subst, ◌∙◌, Bool, true, false, some, List, [], ◌∷◌, Map, lookup,
  insert, lookup-insert, contains, length, if◌then◌else◌, ◌==◌, ==_refl, arith, Bool-cases,
  ℕ_discrete, inl, inr, ◌⊎◌,
}
use knitting_crab.Core.Task.{TaskId}
use knitting_crab.Core.Error.{ok, returns}
use knitting_crab.Dag.State.{
  Inner, TaskState, pending, ready, running, completed, failed, dependency_failed, successors_of,
}
use knitting_crab.Dag.Finish.{release_running, is_waiting, cascade, fail_from, fail}
use knitting_crab.Dag.Invariant.{IsProgress, IsConsistent, IsQueued}
use knitting_crab.Dag.Invariant.Progress.{state-known, IsProgress-state}
use knitting_crab.Dag.Invariant.Cascade.{count_waiting-le, cascade_total, cascade-IsProgress}
use knitting_crab.Dag.Invariant.Downstream.{
  Stops, cascade-Stops, cascade_closed, cascade_downstream,
}

-- The tasks that depend on `id`, directly or through tasks with `Through`.
pub data Downstream (Through : TaskId → Type 0) (successors : Map (List TaskId)) (id : TaskId)
    : TaskId → Type 0 where
  direct :
      {x : TaskId}
      → contains x (successors_of id successors) ≡ true
      → Downstream Through successors id x
  further :
      {k x : TaskId}
      → Downstream Through successors id k
      → Through k
      → contains x (successors_of k successors) ≡ true
      → Downstream Through successors id x

abbrev pub Dependent : Inner → TaskId → TaskId → Type 0
Dependent s = Downstream (λ k. Unit {0}) s.successors

-- Through tasks that still wait.
abbrev pub WaitsOn : Inner → TaskId → TaskId → Type 0
WaitsOn s = Downstream (λ k. is_waiting (lookup k s.states) ≡ true) s.successors

-- What `fail` does to a task in a state that may fail.
pub record Fails (id : TaskId) (s t : Inner) : Type 0 where
  pub consistent : IsConsistent t
  pub failed_now : lookup id t.states ≡ some failed
  pub others :
      (k : TaskId)
      → k ≢ id
      → (lookup k t.states ≡ lookup k s.states)
        ⊎ ((is_waiting (lookup k s.states) ≡ true)
            × (lookup k t.states ≡ some dependency_failed)
            × Dependent s id k)
  pub heap_kept : t.ready_heap ≡ s.ready_heap
  pub none_left : (k : TaskId) → WaitsOn s id k → is_waiting (lookup k t.states) ≡ false

abbrev pub may_fail : TaskState → Bool
may_fail pending = true
may_fail ready = true
may_fail running = true
may_fail _ = false

-- The state that the cascade starts from.
before : Bool → TaskId → Inner → Inner
before was_running id s =
    let s' = record s { states = insert id failed s.states } in
    if was_running then release_running id s' else s'

before-same :
    (was_running : Bool) (id : TaskId) (s : Inner)
    → let t = before was_running id s in
      (t.tasks ≡ s.tasks)
      × (t.successors ≡ s.successors)
      × (t.states ≡ insert id failed s.states)
      × (t.in_degree ≡ s.in_degree)
      × (t.ready_heap ≡ s.ready_heap)
unfolding before release_running
before-same was_running id s = ground arith

-- From the cascade's result.
module _ (id : TaskId) (s : Inner) (states' : Map TaskState) (fuel : ℕ) (c : IsConsistent s)
    (e : cascade fuel s.successors (id ∷ []) (insert id failed s.states) ≡ some states') where
  stops : Stops (insert id failed s.states) states'
  stops = cascade-Stops fuel s.successors (id ∷ []) (insert id failed s.states) states' e

  id_failed : lookup id states' ≡ some failed
  unfolding is_waiting
  id_failed = ground (arith, stops id, lookup-insert id id failed s.states, ==_refl id)

  reached :
      (k : TaskId)
      → (lookup k states' ≡ lookup k (insert id failed s.states)) ⊎ ((k ≡ id) ⊎ Dependent s id k)
  reached =
      cascade_downstream (λ k. (k ≡ id) ⊎ Dependent s id k) fuel s.successors (id ∷ []) _ states' e
        (λ k x p m. elim p [
          | inl same ↦
              inr (direct (subst (λ j. contains x (successors_of j s.successors) ≡ true) same m))
          | inr d ↦ inr (further d tt m)
        ])
        (λ k m. inl (ground arith))

  changed :
      (k : TaskId)
      → k ≢ id
      → (lookup k states' ≡ lookup k s.states)
        ⊎ ((is_waiting (lookup k s.states) ≡ true)
            × (lookup k states' ≡ some dependency_failed)
            × Dependent s id k)
  changed k other =
      let away : lookup k (insert id failed s.states) ≡ lookup k s.states =
        ground (arith, lookup-insert id k failed s.states) in
      elim (reached k) [
        | inl same ↦ inl (same ∙ away)
        | inr p ↦ elim p [
          | inl q ↦ absurd (other q)
          | inr d ↦ elim (stops k) [
            | inl same ↦ inl (same ∙ away)
            | inr (w, f) ↦ inr (subst (λ o. is_waiting o ≡ true) away w, f, d)
          ]
        ]
      ]

  settled : (k : TaskId) → WaitsOn s id k → is_waiting (lookup k states') ≡ false
  settled k (direct m) =
      cascade_closed fuel s.successors (id ∷ []) _ states' e id k (inl (ground arith)) m
  settled x (further {k = k} d w m) = elim (Bool-cases (id == k)) [
    | inl same ↦ cascade_closed fuel s.successors (id ∷ []) _ states' e k x (inl (ground arith)) m
    | inr other ↦
        cascade_closed fuel s.successors (id ∷ []) _ states' e k x
          (inr (ground (arith, lookup-insert id k failed s.states), settled k d)) m
  ]

  fails-IsProgress :
      (v : TaskState)
      → lookup id s.states ≡ some v
      → may_fail v ≡ true
      → IsProgress [] s.tasks states' s.in_degree
  fails-IsProgress v h m =
      cascade-IsProgress fuel s.successors (id ∷ []) (insert id failed s.states) states' e (
        IsProgress-state c.progress id failed (state-known c.progress id v h) (ground arith) refl
          (λ t _ b. cc))

module _ (was_running : Bool) (id : TaskId) (s : Inner) (c : IsConsistent s) (v : TaskState)
    (h : lookup id s.states ≡ some v) (m : may_fail v ≡ true) where
  start : Inner
  start = before was_running id s

  after : Map TaskState → Inner
  after states = record start { states = states }

  found :
      (st : Map TaskState) × (cascade
          (suc (length start.states))
          start.successors
          (id ∷ [])
          start.states
        ≡ some st)
  found =
      cascade_total (suc (length start.states)) start.successors (id ∷ []) start.states
        (omega (arith, count_waiting-le start.states))

  found_plain :
      cascade (suc (length start.states)) s.successors (id ∷ []) (insert id failed s.states)
      ≡ some found.0
  unfolding start
  found_plain =
      let (e1, e2, e3, e4, e5) = before-same was_running id s in
      subst (λ st. cascade (suc (length start.states)) s.successors (id ∷ []) st ≡ some found.0) e3
        (subst (λ su. cascade (suc (length start.states)) su (id ∷ []) start.states ≡ some found.0)
          e2 found.1)

  found-Fails : Fails id s (after found.0)
  unfolding after start
  found-Fails =
      let (e1, e2, e3, e4, e5) = before-same was_running id s in
      record {
        consistent = record {
          graph = rw (e1, e2) c.graph;
          progress = rw (e1, e4) (fails-IsProgress id s found.0 _ c found_plain v h m);
        };
        failed_now = id_failed id s found.0 _ c found_plain;
        others = changed id s found.0 _ c found_plain;
        heap_kept = e5;
        none_left = settled id s found.0 _ c found_plain;
      }

  fail_from-Fails : (t : Inner) × (fail_from was_running id s ≡ returns t (ok tt)) × Fails id s t
  fail_from-Fails =
      (after found.0, unfold fail_from before start after in rw (found.1, fail_from), found-Fails)

-- In a consistent state `fail` on a task that has not ended succeeds: the task is failed, every
-- other task is as it was or was waiting, depends on the failed one, and is now dependency-failed,
-- and no task that waits on it through waiting tasks is left waiting. The state stays consistent,
-- and the heap is kept.
pub fail-Fails :
    (id : TaskId) (s : Inner) (v : TaskState)
    → IsConsistent s
    → lookup id s.states ≡ some v
    → may_fail v ≡ true
    → (t : Inner) × (fail id s ≡ returns t (ok tt)) × Fails id s t
unfolding fail
fail-Fails id s pending c h m =
    let (t, e, f) = fail_from-Fails false id s c pending h m in (t, rw (h, fail) e, f)
fail-Fails id s ready c h m =
    let (t, e, f) = fail_from-Fails false id s c ready h m in (t, rw (h, fail) e, f)
fail-Fails id s running c h m =
    let (t, e, f) = fail_from-Fails true id s c running h m in (t, rw (h, fail) e, f)
fail-Fails id s completed c h m = cc
fail-Fails id s failed c h m = cc
fail-Fails id s dependency_failed c h m = cc

pub Fails-IsQueued : (id : TaskId) (s t : Inner) → Fails id s t → IsQueued s → IsQueued t
Fails-IsQueued id s t f q k = elim (ℕ_discrete k id) [
  | yes same ↦ λ r. absurd (
      let e : lookup k t.states ≡ some failed =
        subst (λ j. lookup j t.states ≡ some failed) (sym same) f.failed_now in
      ground arith)
  | no other ↦ rw (f.heap_kept) λ r. elim (f.others k other) [
    | inl e ↦ q k (rw e at r)
    | inr (w, d, _) ↦ absurd (ground arith)
  ]
]

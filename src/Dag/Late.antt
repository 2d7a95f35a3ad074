-- ===== src/Dag/Late.antt =====
-- A task that is enqueued after its dependencies have completed: nothing unblocks it.
use knitting_crab.Prelude.{
  ℕ, ◌<◌, ◌≡◌, refl, sym, subst, ap, ◌∙◌, true, false, Option, none, some, List, [], ◌∷◌,
  Option-cases, lookup, lookup-insert, has_key, contains, length, if◌then◌else◌, ◌==◌, ==_iff,
  arith, Bool-cases, inl, inr,
}
use knitting_crab.Core.Task.{TaskId, TaskDescriptor}
use knitting_crab.Core.Error.{Outcome, ok, returns, state_after}
use knitting_crab.Dag.State.{
  Inner, TaskState, pending, ready, running, completed, failed, dependency_failed, successors_of,
}
use knitting_crab.Dag.Enqueue.{enqueue}
use knitting_crab.Dag.Finish.{is_pending, complete}
use knitting_crab.Dag.Dequeue.{dequeue}
use knitting_crab.Dag.Run.{Call, completes, dequeues, step}
use knitting_crab.Dag.Invariant.{IsConsistent}
use knitting_crab.Dag.Invariant.Finish.{Completes, marked, complete-running}
use knitting_crab.Dag.Invariant.Dequeue.{dequeue-IsConsistent, dequeue-some, dequeue-same}
use knitting_crab.Dag.Invariant.Enqueue.{
  Accepts, duplicate, unknown, cyclic, admitted, Admits, enqueue-Accepts,
}

-- The task waits, with a degree above zero, and its dependencies have completed.
pub record IsStranded (task : TaskDescriptor) (t : Inner) : Type 0 where
  pub named : lookup task.task_id t.tasks ≡ some task
  pub waits : lookup task.task_id t.states ≡ some pending
  pub done : (d : TaskId) → contains d task.dependencies ≡ true → lookup d t.states ≡ some completed

stranded :
    (task : TaskDescriptor) (now : ℕ) (s t : Inner)
    → Admits task now s t
    → has_key task.task_id s.tasks ≡ false
    → ((d : TaskId) → contains d task.dependencies ≡ true → has_key d s.tasks ≡ true)
    → 0 < length task.dependencies
    → ((d : TaskId) → contains d task.dependencies ≡ true → lookup d s.states ≡ some completed)
    → IsStranded task t
stranded task now s t a fresh known some_deps all_done = record {
  named = rw (a.tasks_with) (ground (arith, lookup-insert task.task_id task.task_id task s.tasks));
  waits = rw (a.states_with) (
      ground (
        arith,
        lookup-insert task.task_id task.task_id pending s.states,
        lookup-insert task.task_id task.task_id ready s.states,
      ));
  done = completed_in;
}
  where
    other : (d : TaskId) → contains d task.dependencies ≡ true → (task.task_id == d) ≡ false
    other d m = elim (Bool-cases (task.task_id == d)) [
      | inr f ↦ f
      | inl f ↦
          let q : task.task_id ≡ d = (==_iff task.task_id d).0 f in
          let k : has_key task.task_id s.tasks ≡ true =
            subst (λ j. has_key j s.tasks ≡ true) (sym q) (known d m) in
          ground arith
    ]

    completed_in :
        (d : TaskId) → contains d task.dependencies ≡ true → lookup d t.states ≡ some completed
    completed_in d m = rw (a.states_with) (
        rw
          (lookup-insert task.task_id d (if length task.dependencies == 0 then ready else pending)
            s.states)
          (rw (other d m) (all_done d m)))

-- A task whose state is known is in the graph.
done-has_key :
    (s : Inner) (d : TaskId)
    → IsConsistent s
    → lookup d s.states ≡ some completed
    → has_key d s.tasks ≡ true
unfolding has_key
done-has_key s d c e = let same = c.progress.tracked d in ground arith

late-Accepts :
    (task : TaskDescriptor) (now : ℕ) (s : Inner) (o : Outcome Inner (Unit {0}))
    → IsConsistent s
    → has_key task.task_id s.tasks ≡ false
    → Accepts task now s o
    → 0 < length task.dependencies
    → ((d : TaskId) → contains d task.dependencies ≡ true → lookup d s.states ≡ some completed)
    → (t : Inner) × (o ≡ returns t (ok tt)) × IsConsistent t × IsStranded task t
late-Accepts task now s o c fresh (duplicate h) l all_done = absurd (ground arith)
late-Accepts task now s o c fresh (unknown d m h) l all_done =
    absurd (ground (arith, done-has_key s d c (all_done d m)))
late-Accepts task now s o c fresh (cyclic u self a b h f c') l all_done =
    absurd (ground (arith, done-has_key s task.task_id c (all_done task.task_id self)))
late-Accepts task now s o c fresh (admitted u _ known a) l all_done =
    (u, refl, a.consistent, stranded task now s u a fresh known l all_done)

-- What workers do: they ask for tasks, and complete some.
pub data Work : Type 0 where
  starts : Work
  finishes : TaskId → Work

unfoldable pub call_of : Work → Call
call_of starts = dequeues
call_of (finishes id) = completes id

unfoldable pub after_work : Inner → List (ℕ × Work) → Inner
unfolding step call_of
after_work s [] = s
after_work s ((now, w) ∷ ws) = after_work (step s (now, call_of w)) ws

module _ (task : TaskDescriptor) (s : Inner) (c : IsConsistent s) (i : IsStranded task s) where
  -- A task that runs is no dependency of `task`, so `task` is none of its successors.
  no_successor :
      (id : TaskId)
      → lookup id s.states ≡ some running
      → contains task.task_id (successors_of id s.successors) ≡ false
  no_successor id e = elim (Bool-cases (contains task.task_id (successors_of id s.successors))) [
    | inr h ↦ h
    | inl h ↦
        let (t, found, dep) = c.graph.linked id task.task_id h in
        let same : t ≡ task = (let n = i.named in ground arith) in
        let done = i.done id (subst (λ u. contains id u.dependencies ≡ true) same dep) in
        absurd (ground arith)
  ]

  finish-IsStranded :
      (id : TaskId) (t : Inner)
      → lookup id s.states ≡ some running
      → Completes id s t
      → IsStranded task t
  unfolding is_pending
  finish-IsStranded id t e f =
      let w = i.waits in
      record {
        named = rw (f.tasks_kept) i.named;
        waits =
            (f.freed.others task.task_id (no_successor id e)).0
            ∙ ground (arith, lookup-insert id task.task_id completed s.states);
        done = λ d m.
            let old = i.done d m in
            let now_ = lookup-insert id d completed s.states in
            let there : lookup d (marked id s).states ≡ some completed = ground arith in
            f.settled_kept d (rw there refl) ∙ there;
      }

  complete-IsStranded :
      (id : TaskId) (now : ℕ)
      → let t = state_after s (complete id now s) in IsConsistent t × IsStranded task t
  unfolding complete
  complete-IsStranded id now = go (lookup id s.states) refl
    where
      go :
          (o : Option TaskState)
          → lookup id s.states ≡ o
          → IsConsistent (state_after s (complete id now s))
            × IsStranded task (state_after s (complete id now s))
      go (some running) e =
          let (t, r, f) = complete-running id now s c e in
          rw r (f.consistent, finish-IsStranded id t e f)
      go none e = rw (e, complete) (c, i)
      go (some pending) e = rw (e, complete) (c, i)
      go (some ready) e = rw (e, complete) (c, i)
      go (some completed) e = rw (e, complete) (c, i)
      go (some failed) e = rw (e, complete) (c, i)
      go (some dependency_failed) e = rw (e, complete) (c, i)

  dequeue-IsStranded : (now : ℕ) → IsStranded task (dequeue now s).0
  dequeue-IsStranded now = elim (Option-cases (dequeue now s).1) [
    | inl h ↦
        let (a, b) = dequeue-same now s h in
        record { named = rw a i.named; waits = rw b i.waits; done = λ d m. rw b (i.done d m) }
    | inr (u, h) ↦
        let hands = dequeue-some now s u c h in
        let was = hands.was_ready in
        let w = i.waits in
        record {
          named = rw (hands.tasks_kept) i.named;
          waits =
              ap (lookup task.task_id) hands.now_running
              ∙ ground (arith, lookup-insert u.task_id task.task_id running s.states);
          done = λ d m.
              let old = i.done d m in
              ap (lookup d) hands.now_running
              ∙ ground (arith, lookup-insert u.task_id d running s.states);
        }
  ]

after_work-IsStranded :
    (task : TaskDescriptor) (ws : List (ℕ × Work)) (s : Inner)
    → IsConsistent s
    → IsStranded task s
    → IsStranded task (after_work s ws)
unfolding after_work step call_of
after_work-IsStranded task [] s c i = i
after_work-IsStranded task ((now, starts) ∷ ws) s c i =
    after_work-IsStranded task ws (dequeue now s).0 (dequeue-IsConsistent now s c)
      (dequeue-IsStranded task s c i now)
after_work-IsStranded task ((now, finishes id) ∷ ws) s c i =
    let (c', i') = complete-IsStranded task s c i id now in
    after_work-IsStranded task ws (state_after s (complete id now s)) c' i'

-- In a consistent state, `enqueue` accepts a new task with dependencies that have all completed,
-- and leaves it pending; however many tasks workers then ask for and complete, it stays pending,
-- with all its dependencies completed.
pub enqueue_late :
    (task : TaskDescriptor) (now : ℕ) (s : Inner) (ws : List (ℕ × Work))
    → IsConsistent s
    → has_key task.task_id s.tasks ≡ false
    → 0 < length task.dependencies
    → ((d : TaskId) → contains d task.dependencies ≡ true → lookup d s.states ≡ some completed)
    → (t : Inner) × (enqueue task now s ≡ returns t (ok tt)) × IsStranded task (after_work t ws)
enqueue_late task now s ws c fresh l all_done =
    let (t, e, c', i) =
      late-Accepts task now s (enqueue task now s) c fresh (enqueue-Accepts task now s c) l
        all_done in
    (t, e, after_work-IsStranded task ws t c' i)

-- ===== src/Dag/Invariant/Start.antt =====
-- `dequeue` and `requeue` keep the invariant; what `dequeue` hands out has all its dependencies
-- completed.
use knitting_crab.Prelude.{
  ℕ, ◌≡◌, refl, ◌∙◌, some, List, [], ◌∷◌, lookup, insert, arith, Option-cases, inl, inr,
}
use knitting_crab.Core.Task.{TaskDescriptor}
use knitting_crab.Dag.Heap.{ReadyEntry}
use knitting_crab.Dag.State.{Inner, ready, running}
use knitting_crab.Dag.Dequeue.{start, judge, launch, age_entry, age_entries}
use knitting_crab.Dag.Greatest.{ids}
use knitting_crab.Dag.Invariant.{IsConsistent}
use knitting_crab.Dag.Invariant.Progress.{IsProgress-state}
use knitting_crab.Dag.Invariant.Admit.{found-has_key}

-- Two states with the same graph, states, degrees and resources.
pub record SameWork (s t : Inner) : Type 0 where
  pub same_tasks : t.tasks ≡ s.tasks
  pub same_states : t.states ≡ s.states
  pub same_successors : t.successors ≡ s.successors
  pub same_in_degree : t.in_degree ≡ s.in_degree
  pub same_pool : t.resource_pool ≡ s.resource_pool
  pub same_running : t.running_resources ≡ s.running_resources

age_entry-SameWork : (now : ℕ) (e : ReadyEntry) (s : Inner) → SameWork s (age_entry now e s).0
unfolding age_entry
age_entry-SameWork now e s = elim (Option-cases (lookup e.task_id s.metadata)) [
  | inl h ↦ rw (h, age_entry) (assumption refl)
  | inr (m, h) ↦ rw (h, age_entry) (assumption refl)
]

SameWork-trans : (a b c : Inner) → SameWork a b → SameWork b c → SameWork a c
SameWork-trans a b c x y = record {
  same_tasks = y.same_tasks ∙ x.same_tasks;
  same_states = y.same_states ∙ x.same_states;
  same_successors = y.same_successors ∙ x.same_successors;
  same_in_degree = y.same_in_degree ∙ x.same_in_degree;
  same_pool = y.same_pool ∙ x.same_pool;
  same_running = y.same_running ∙ x.same_running;
}

pub age_entries-SameWork :
    (now : ℕ) (es : List ReadyEntry) (s : Inner) → SameWork s (age_entries now es s).0
unfolding age_entries
age_entries-SameWork now [] s = assumption refl
age_entries-SameWork now (e ∷ es) s =
    SameWork-trans s (age_entry now e s).0 _ (age_entry-SameWork now e s)
      (age_entries-SameWork now es (age_entry now e s).0)

-- Aging moves no entry.
pub age_entries-ids :
    (now : ℕ) (es : List ReadyEntry) (s : Inner) → ids (age_entries now es s).1 ≡ ids es
unfolding age_entries
age_entries-ids now [] s = refl
age_entries-ids now (e ∷ es) s =
    ground (arith, age_entries-ids now es (age_entry now e s).0, age_id)
  where
    age_id : (age_entry now e s).1.task_id ≡ e.task_id
    age_id = unfold age_entry in ground arith

pub SameWork-IsConsistent : {s t : Inner} → SameWork s t → IsConsistent s → IsConsistent t
SameWork-IsConsistent w c = record {
  graph = rw (w.same_tasks, w.same_successors) c.graph;
  progress = rw (w.same_tasks, w.same_states, w.same_in_degree) c.progress;
}

-- The entry and the state from which a task starts.
pub judge-start :
    (s : Inner) (e : ReadyEntry) (task : TaskDescriptor)
    → judge s e ≡ start task
    → (lookup e.task_id s.states ≡ some ready) × (lookup e.task_id s.tasks ≡ some task)
unfolding judge
judge-start s e task h = ground arith

pub launch-same :
    (e : ReadyEntry) (task : TaskDescriptor) (s : Inner)
    → let t = launch e task s in
      (t.tasks ≡ s.tasks)
      × (t.successors ≡ s.successors)
      × (t.states ≡ insert e.task_id running s.states)
      × (t.in_degree ≡ s.in_degree)
unfolding launch
launch-same e task s = ground arith

pub launch-IsConsistent :
    (s : Inner) (e : ReadyEntry) (task : TaskDescriptor)
    → judge s e ≡ start task
    → IsConsistent s
    → IsConsistent (launch e task s)
launch-IsConsistent s e task h c =
    let (in_state, in_tasks) = judge-start s e task h in
    let (e1, e2, e3, e4) = launch-same e task s in
    record {
      graph = rw (e1, e2) c.graph;
      progress =
          rw (e1, e3, e4)
            (IsProgress-state c.progress e.task_id running
              (found-has_key e.task_id task s.tasks in_tasks) (ground arith) refl
              (λ t at _. c.progress.started e.task_id t at (ground arith)));
    }

-- ===== src/Dag/Invariant/Enqueue.antt =====
-- What `enqueue` returns, and the state that it leaves.
use knitting_crab.Prelude.{
  ℕ, ◌≡◌, refl, sym, subst, true, false, none, some, List, [], ◌∷◌, Map, lookup, insert, remove,
  lookup-insert, remove-insert, has_key, contains, length, if◌then◌else◌, ◌==◌, ==_iff, arith,
  Bool-cases, Option-cases, inl, inr,
}
use knitting_crab.Core.Task.{TaskId, TaskDescriptor}
use knitting_crab.Core.Error.{
  Outcome, ok, err, returns, duplicate_task, unknown_dependency, cyclic_dependency, state_after,
}
use knitting_crab.Dag.State.{Inner, pending, ready, successors_of}
use knitting_crab.Dag.Enqueue.{find_unknown, link, unlink, admit, check_cycle, enqueue}
use knitting_crab.Dag.Invariant.{IsGraph, IsConsistent, IsQueued}
use knitting_crab.Dag.Heap.{ReadyEntry}
use knitting_crab.Dag.Policy.{new_metadata}
use knitting_crab.Dag.Dequeue.{is_ready}
use knitting_crab.Dag.Invariant.Link.{unlink-link}
use knitting_crab.Dag.Invariant.Admit.{
  find_unknown-none, has_key-insert, unlinked, admit-IsGraph, admit-IsProgress,
}
use knitting_crab.Dag.Invariant.Detect.{detect_cycle-none, detect_cycle-some}

abbrev pub own_entry : TaskDescriptor → ReadyEntry
own_entry task = record {
  original_priority = task.priority;
  effective_priority = task.priority;
  task_id = task.task_id;
}

-- An admitted task is new to every map, and ready at once, with an entry of its own priority, if
-- it depends on nothing.
pub record Admits (task : TaskDescriptor) (now : ℕ) (s t : Inner) : Type 0 where
  pub consistent : IsConsistent t
  pub tasks_with : t.tasks ≡ insert task.task_id task s.tasks
  pub states_with :
      t.states
      ≡ insert task.task_id (if length task.dependencies == 0 then ready else pending) s.states
  pub in_degree_with : t.in_degree ≡ insert task.task_id (length task.dependencies) s.in_degree
  pub metadata_with :
      t.metadata
      ≡ insert task.task_id
          (record { enqueued_at_ms = now; effective_priority = task.priority })
          s.metadata
  pub heap_with :
      t.ready_heap
      ≡ (if length task.dependencies == 0 then own_entry task ∷ s.ready_heap else s.ready_heap)
  pub successors_with : t.successors ≡ link task.task_id task.dependencies s.successors
  pub pool_kept : t.resource_pool ≡ s.resource_pool
  pub running_kept : t.running_resources ≡ s.running_resources

-- The four ways in which `enqueue` returns.
pub data Accepts (task : TaskDescriptor) (now : ℕ) (s : Inner)
    : Outcome Inner (Unit {0}) → Type 0 where
  duplicate :
      has_key task.task_id s.tasks ≡ true
      → Accepts task now s (returns s (err (duplicate_task task.task_id)))
  unknown :
      (d : TaskId)
      → contains d task.dependencies ≡ true
      → has_key d s.tasks ≡ false
      → Accepts task now s (returns s (err (unknown_dependency d)))
  cyclic :
      (t : Inner)
      → contains task.task_id task.dependencies ≡ true
      → t.tasks ≡ s.tasks
      → t.states ≡ s.states
      → t.ready_heap ≡ s.ready_heap
      → ((d : TaskId) → successors_of d t.successors ≡ successors_of d s.successors)
      → IsConsistent t
      → Accepts task now s (returns t (err (cyclic_dependency task.task_id)))
  admitted :
      (t : Inner)
      → has_key task.task_id s.tasks ≡ false
      → ((d : TaskId) → contains d task.dependencies ≡ true → has_key d s.tasks ≡ true)
      → Admits task now s t
      → Accepts task now s (returns t (ok tt))

find_unknown-some :
    (ds : List TaskId) (tasks : Map TaskDescriptor) (d : TaskId)
    → find_unknown ds tasks ≡ some d
    → (contains d ds ≡ true) × (has_key d tasks ≡ false)
unfolding find_unknown
find_unknown-some [] tasks d e = cc
find_unknown-some (x ∷ ds) tasks d e = elim (Bool-cases (has_key x tasks)) [
  | inl h ↦ let (m, k) = find_unknown-some ds tasks d (ground arith) in (ground arith, k)
  | inr h ↦ (ground arith, let q : x ≡ d = ground arith in subst (λ j. has_key j tasks ≡ false) q h)
]

fresh-lookup {ℓ} : {V : Type ℓ} (k : TaskId) (m : Map V) → has_key k m ≡ false → lookup k m ≡ none
unfolding has_key
fresh-lookup k m h = ground arith

-- A rejected task leaves the edges as they were, and so the graph.
unlinked-IsGraph :
    (tasks : Map TaskDescriptor) (successors m : Map (List TaskId))
    → IsGraph tasks successors
    → ((d : TaskId) → successors_of d m ≡ successors_of d successors)
    → IsGraph tasks m
unlinked-IsGraph tasks successors m g same = record {
  named = g.named;
  known = g.known;
  linked = λ d x h. g.linked d x (subst (λ xs. contains x xs ≡ true) (same d) h);
  linked_back =
      λ k t d e h. subst (λ xs. contains k xs ≡ true) (sym (same d)) (g.linked_back k t d e h);
  distinct = λ d. rw (same d) (g.distinct d);
}

module _ (task : TaskDescriptor) (now : ℕ) (s : Inner) (c : IsConsistent s)
    (fresh : has_key task.task_id s.tasks ≡ false) where
  abbrev inserted : Inner
  inserted = record s { tasks = insert task.task_id task s.tasks }

  abbrev linked : Map (List TaskId)
  linked = link task.task_id task.dependencies s.successors

  admit-Admits :
      ((d : TaskId) → contains d task.dependencies ≡ true → has_key d s.tasks ≡ true)
      → Admits task now s (admit task now (record inserted { successors = linked }))
  unfolding admit new_metadata
  admit-Admits known = elim (Bool-cases (length task.dependencies == 0)) [
    | inl z ↦
        rw (z, admit)
          (record {
            consistent = record {
              graph = admit-IsGraph c.graph task fresh known;
              progress = admit-IsProgress c.progress task fresh ready (inr (refl, ground arith));
            };
            tasks_with = refl;
            states_with = rw z refl;
            in_degree_with = refl;
            metadata_with = refl;
            heap_with = rw z refl;
            successors_with = refl;
            pool_kept = refl;
            running_kept = refl;
          })
    | inr z ↦
        rw (z, admit)
          (record {
            consistent = record {
              graph = admit-IsGraph c.graph task fresh known;
              progress = admit-IsProgress c.progress task fresh pending (inl refl);
            };
            tasks_with = refl;
            states_with = rw z refl;
            in_degree_with = refl;
            metadata_with = refl;
            heap_with = rw z refl;
            successors_with = refl;
            pool_kept = refl;
            running_kept = refl;
          })
  ]

  undone : Inner
  undone = record inserted {
    tasks = remove task.task_id inserted.tasks;
    successors = unlink task.task_id task.dependencies linked;
  }

  undone-cyclic :
      contains task.task_id task.dependencies ≡ true
      → Accepts task now s (returns undone (err (cyclic_dependency task.task_id)))
  unfolding undone
  undone-cyclic self =
      let back : undone.tasks ≡ s.tasks =
        remove-insert task.task_id task s.tasks (fresh-lookup task.task_id s.tasks fresh) in
      let same : (d : TaskId) → successors_of d undone.successors ≡ successors_of d s.successors =
        λ d.
          unlink-link task.task_id task.dependencies s.successors d
            (unlinked c.graph task fresh d) in
      cyclic undone self back refl refl same (record {
        graph = rw back (unlinked-IsGraph s.tasks s.successors undone.successors c.graph same);
        progress = rw back c.progress;
      })

  check_cycle-Accepts :
      ((d : TaskId) → contains d task.dependencies ≡ true → has_key d inserted.tasks ≡ true)
      → Accepts task now s (check_cycle task now inserted)
  unfolding check_cycle
  check_cycle-Accepts known = elim (Bool-cases (contains task.task_id task.dependencies)) [
    | inl self ↦
        let (k, found) = detect_cycle-some c.graph task fresh known self in
        rw (found, check_cycle) (unfold undone in undone-cyclic self)
    | inr none_self ↦
        let known' : (d : TaskId) → contains d task.dependencies ≡ true → has_key d s.tasks ≡ true =
          λ d m.
            ground
              (arith, known d m, has_key-insert task.task_id d task s.tasks, other d none_self m) in
        rw (detect_cycle-none c.graph task fresh known', check_cycle)
          (admitted _ fresh known' (admit-Admits known'))
  ]
    where
      other :
          (d : TaskId)
          → contains task.task_id task.dependencies ≡ false
          → contains d task.dependencies ≡ true
          → (task.task_id == d) ≡ false
      other d h m = elim (Bool-cases (task.task_id == d)) [
        | inr f ↦ f
        | inl f ↦ let q : task.task_id ≡ d = (==_iff task.task_id d).0 f in ground arith
      ]

  enqueue_fresh : Accepts task now s (enqueue task now s)
  unfolding enqueue
  enqueue_fresh = elim (Option-cases (find_unknown task.dependencies inserted.tasks)) [
    | inl e ↦
        rw (fresh, e, enqueue)
          (check_cycle-Accepts λ d m. find_unknown-none task.dependencies inserted.tasks d e m)
    | inr (d, e) ↦
        let (m, h) = find_unknown-some task.dependencies inserted.tasks d e in
        rw (fresh, e, enqueue)
          (subst
            (λ m'.
              Accepts task now s (returns (record s { tasks = m' }) (err (unknown_dependency d))))
            (sym
              (remove-insert task.task_id task s.tasks (fresh-lookup task.task_id s.tasks fresh)))
            (unknown d m (ground (arith, has_key-insert task.task_id d task s.tasks))))
  ]

-- In a consistent state `enqueue` returns in one of four ways: a duplicate or a task with an unknown
-- dependency is refused and changes nothing, a task that depends on itself is refused and leaves
-- the tasks, states, heap and successors as they were, and any other task is admitted: it is
-- inserted with its state, the number of its dependencies and the time and priority of its
-- arrival, linked to its dependencies, and pushed on the heap with its own priority exactly when it
-- has no dependency, and the resources stay as they were.
pub enqueue-Accepts :
    (task : TaskDescriptor) (now : ℕ) (s : Inner)
    → IsConsistent s
    → Accepts task now s (enqueue task now s)
enqueue-Accepts task now s c = elim (Bool-cases (has_key task.task_id s.tasks)) [
  | inl h ↦ unfold enqueue in rw (h, enqueue) (duplicate h)
  | inr h ↦ enqueue_fresh task now s c h
]

pub Accepts-IsConsistent :
    {task : TaskDescriptor} {now : ℕ} {s : Inner} {o : Outcome Inner (Unit {0})}
    → IsConsistent s
    → Accepts task now s o
    → IsConsistent (state_after s o)
Accepts-IsConsistent c (duplicate h) = c
Accepts-IsConsistent c (unknown d m h) = c
Accepts-IsConsistent c (cyclic t self a b h e c') = c'
Accepts-IsConsistent c (admitted t h k a) = a.consistent

pub Accepts-IsQueued :
    {task : TaskDescriptor} {now : ℕ} {s : Inner} {o : Outcome Inner (Unit {0})}
    → IsQueued s
    → Accepts task now s o
    → IsQueued (state_after s o)
Accepts-IsQueued q (duplicate h) k = q k
Accepts-IsQueued q (unknown d m h) k = q k
Accepts-IsQueued q (cyclic t self a b h e c') k = rw (b, h) (q k)
Accepts-IsQueued {task} {now} {s} q (admitted t h known a) k =
    rw (a.states_with, a.heap_with)
      λ r. elim (Bool-cases (length task.dependencies == 0)) [
        | inl z ↦ rw z (
            let first = lookup-insert task.task_id k ready s.states in
            let last = q k in
            let r' : is_ready (lookup k (insert task.task_id ready s.states)) ≡ true = rw z at r in
            ground arith)
        | inr z ↦ rw z (
            let first = lookup-insert task.task_id k pending s.states in
            let last = q k in
            let r' : is_ready (lookup k (insert task.task_id pending s.states)) ≡ true =
              rw z at r in
            ground arith)
      ]

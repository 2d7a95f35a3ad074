-- ===== src/Dag/Invariant/Progress.antt =====
-- How the states and the degrees move: a task completes, a degree is lowered, a state changes.
use knitting_crab.Prelude.{
  ℕ, suc, ◌≡◌, true, false, some, List, [], ◌∷◌, Map, lookup, insert, lookup-insert, has_key,
  contains, if◌then◌else◌, ◌==◌, arith, Bool-cases, inl, inr,
}
use knitting_crab.Core.Task.{TaskId, TaskDescriptor}
use knitting_crab.Dag.State.{TaskState, completed, is_started, is_completed, successors_of}
use knitting_crab.Dag.Waiting.{waiting, is_done, waiting-congr, is_done-insert, waiting_complete}
use knitting_crab.Dag.Invariant.{IsGraph, IsProgress}

module _ {debt : List TaskId} {tasks : Map TaskDescriptor} {states : Map TaskState}
    {degrees : Map ℕ} where
  tracked-insert :
      IsProgress debt tasks states degrees
      → (k : TaskId) (v : TaskState) → has_key k tasks ≡ true
      → (j : TaskId) → has_key j tasks ≡ has_key j (insert k v states)
  unfolding has_key
  tracked-insert p k v known j = ground (arith, p.tracked j, lookup-insert k j v states)

  -- What has a state is a task.
  pub state-known :
      IsProgress debt tasks states degrees
      → (k : TaskId) (v : TaskState) → lookup k states ≡ some v
      → has_key k tasks ≡ true
  unfolding has_key
  state-known p k v e = ground (arith, p.tracked k)

  -- A task that neither was nor becomes completed may take a new state, a started one only if it
  -- waits for nothing.
  pub IsProgress-state :
      IsProgress debt tasks states degrees
      → (k : TaskId) (v : TaskState) → has_key k tasks ≡ true
      → is_done states k ≡ false
      → is_completed (some v) ≡ false
      → ((t : TaskDescriptor)
          → lookup k tasks ≡ some t
          → is_started (some v) ≡ true
          → waiting states t.dependencies ≡ 0)
      → IsProgress debt tasks (insert k v states) degrees
  IsProgress-state p k v known old new allowed = record {
    tracked = tracked-insert p k v known;
    counted = λ j t e.
        let (n, found, bound) = p.counted j t e in (n, found, rw (← same t.dependencies) bound);
    started = λ j t e h.
        ground (arith, same t.dependencies, lookup-insert k j v states, p.started j t e, allowed t);
  }
    where
      same : (xs : List TaskId) → waiting states xs ≡ waiting (insert k v states) xs
      same xs = waiting-congr states (insert k v states) xs (is_done-insert states k v old new)

-- A running task completes: its successors' degrees are to be lowered.
pub IsProgress-complete :
    {tasks : Map TaskDescriptor} {states : Map TaskState} {degrees : Map ℕ}
    {successors : Map (List TaskId)}
    → IsGraph tasks successors
    → IsProgress [] tasks states degrees
    → (k : TaskId) → has_key k tasks ≡ true
    → is_done states k ≡ false
    → is_started (lookup k states) ≡ true
    → IsProgress (successors_of k successors) tasks (insert k completed states) degrees
IsProgress-complete {tasks} {states} {degrees} {successors} g p k known old was = record {
  tracked = tracked-insert p k completed known;
  counted = λ j t e.
      let (n, found, bound) = p.counted j t e in
      (
        n,
        found,
        elim (Bool-cases (contains j (successors_of k successors))) [
          | inl here ↦
              let (t', e', dep) = g.linked k j here in
              rw here
                (ground (arith, waiting_complete states k t.dependencies old, edge j t t' e e' dep))
          | inr away ↦ rw away (ground (arith, waiting_complete states k t.dependencies old))
        ],
      );
  started = λ j t e h. ground (
    arith,
    waiting_complete states k t.dependencies old,
    lookup-insert k j completed states,
    p.started j t e,
  );
}
  where
    edge :
        (j : TaskId) (t t' : TaskDescriptor)
        → lookup j tasks ≡ some t
        → lookup j tasks ≡ some t'
        → contains k t'.dependencies ≡ true
        → contains k t.dependencies ≡ true
    edge j t t' e e' dep = ground arith

-- The degree of the first debtor is lowered, and stays above what it still waits for.
pub IsProgress-lower :
    {x : TaskId} {xs : List TaskId} {tasks : Map TaskDescriptor} {states : Map TaskState}
    {degrees : Map ℕ}
    → IsProgress (x ∷ xs) tasks states degrees
    → contains x xs ≡ false
    → (left : ℕ) → lookup x degrees ≡ some (suc left)
    → IsProgress xs tasks states (insert x left degrees)
IsProgress-lower {x} {xs} {degrees = degrees} p once left e = record {
  tracked = p.tracked;
  counted = λ j t ej.
      let (n, found, bound) = p.counted j t ej in
      (
        if x == j then left else n,
        rw (lookup-insert x j left degrees) (ground arith),
        ground arith,
      );
  started = p.started;
}

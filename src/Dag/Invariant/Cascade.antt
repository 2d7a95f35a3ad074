-- ===== src/Dag/Invariant/Cascade.antt =====
-- The cascade of `fail`: it ends, it keeps the invariant, and what it stops is exactly what waits
-- downstream.
use knitting_crab.Prelude.{
  ℕ, suc, zero, ◌+◌, ◌≤◌, ◌≡◌, refl, subst, true, some, List, [], ◌∷◌, ◌++◌, Map, lookup, insert,
  length, length-append, if◌then◌else◌, arith, Bool-cases, Option-cases, inl, inr,
}
use knitting_crab.Core.Task.{TaskId, TaskDescriptor}
use knitting_crab.Dag.State.{TaskState, dependency_failed, successors_of}
use knitting_crab.Dag.Finish.{is_waiting, mark_successors, cascade}
use knitting_crab.Dag.Invariant.{IsProgress}
use knitting_crab.Dag.Invariant.Progress.{state-known, IsProgress-state}

-- The number of tasks that the cascade may still stop.
pub count_waiting : Map TaskState → ℕ
count_waiting [] = 0
count_waiting ((k, v) ∷ m) = (if is_waiting (some v) then 1 else 0) + count_waiting m

pub count_waiting-le : (m : Map TaskState) → count_waiting m ≤ length m
unfolding count_waiting is_waiting
count_waiting-le [] = omega arith
count_waiting-le ((k, v) ∷ m) = ground (arith, count_waiting-le m)

count_waiting-stop :
    (x : TaskId) (m : Map TaskState)
    → is_waiting (lookup x m) ≡ true
    → suc (count_waiting (insert x dependency_failed m)) ≡ count_waiting m
unfolding count_waiting is_waiting lookup insert
count_waiting-stop x [] h = cc
count_waiting-stop x ((k, v) ∷ m) h = ground (arith, count_waiting-stop x m)

mark_count :
    (xs : List TaskId) (st : Map TaskState) (q : List TaskId)
    → let (st', q') = mark_successors xs st q in
      count_waiting st' + length q' ≡ count_waiting st + length q
unfolding mark_successors
mark_count [] st q = refl
mark_count (x ∷ xs) st q = elim (Bool-cases (is_waiting (lookup x st))) [
  | inl h ↦
      rw (h, mark_successors)
        (omega (
          arith,
          mark_count xs (insert x dependency_failed st) (q ++ x ∷ []),
          count_waiting-stop x st h,
          length-append {0} q (x ∷ []),
        ))
  | inr h ↦ rw (h, mark_successors) (mark_count xs st q)
]

-- There is always fuel enough.
pub cascade_total :
    (fuel : ℕ) (successors : Map (List TaskId)) (q : List TaskId) (st : Map TaskState)
    → count_waiting st + length q ≤ fuel
    → (st' : Map TaskState) × (cascade fuel successors q st ≡ some st')
unfolding cascade
cascade_total zero successors [] st h = (st, refl)
cascade_total (suc fuel) successors [] st h = (st, refl)
cascade_total zero successors (x ∷ q) st h = absurd (omega arith)
cascade_total (suc fuel) successors (x ∷ q) st h =
    cascade_total fuel successors (mark_successors (successors_of x successors) st q).1
      (mark_successors (successors_of x successors) st q).0
      (omega (arith, mark_count (successors_of x successors) st q))

module _ {tasks : Map TaskDescriptor} {degrees : Map ℕ} where
  mark-IsProgress :
      (xs : List TaskId) (st : Map TaskState) (q : List TaskId)
      → IsProgress [] tasks st degrees
      → IsProgress [] tasks (mark_successors xs st q).0 degrees
  unfolding mark_successors
  mark-IsProgress [] st q p = p
  mark-IsProgress (x ∷ xs) st q p = elim (Option-cases (lookup x st)) [
    | inl e ↦ rw (e, mark_successors) (unfold is_waiting in mark-IsProgress xs st q p)
    | inr (v, e) ↦ elim (Bool-cases (is_waiting (some v))) [
      | inl h ↦
          rw (e, h, mark_successors)
            (mark-IsProgress xs (insert x dependency_failed st) (q ++ x ∷ []) (
              IsProgress-state p x dependency_failed (state-known p x v e)
                (unfold is_waiting in ground arith) refl (λ t _ b. cc)))
      | inr h ↦ rw (e, h, mark_successors) (mark-IsProgress xs st q p)
    ]
  ]

  pub cascade-IsProgress :
      (fuel : ℕ) (successors : Map (List TaskId)) (q : List TaskId) (st st' : Map TaskState)
      → cascade fuel successors q st ≡ some st'
      → IsProgress [] tasks st degrees
      → IsProgress [] tasks st' degrees
  unfolding cascade
  cascade-IsProgress zero successors [] st st' e p =
      subst (λ m. IsProgress [] tasks m degrees) (ground arith) p
  cascade-IsProgress (suc fuel) successors [] st st' e p =
      subst (λ m. IsProgress [] tasks m degrees) (ground arith) p
  cascade-IsProgress zero successors (x ∷ q) st st' e p = cc
  cascade-IsProgress (suc fuel) successors (x ∷ q) st st' e p =
      cascade-IsProgress fuel successors (mark_successors (successors_of x successors) st q).1
        (mark_successors (successors_of x successors) st q).0 st' e
        (mark-IsProgress (successors_of x successors) st q p)

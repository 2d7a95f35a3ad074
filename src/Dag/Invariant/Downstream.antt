-- ===== src/Dag/Invariant/Downstream.antt =====
-- What the cascade of `fail` stops: the waiting tasks downstream, and no others.
use knitting_crab.Prelude.{
  ℕ, suc, zero, ◌≡◌, refl, ◌∙◌, true, false, ◌||◌, some, List, [], ◌∷◌, ◌++◌, Map, lookup, insert,
  lookup-insert, contains, contains-append, if◌then◌else◌, ◌==◌, ==_iff, arith, Bool-cases, inl,
  inr, ◌⊎◌,
}
use knitting_crab.Core.Task.{TaskId}
use knitting_crab.Dag.State.{TaskState, dependency_failed, successors_of}
use knitting_crab.Dag.Finish.{is_waiting, mark_successors, cascade}

-- A state stays, or goes from a waiting one to `dependency_failed`.
abbrev pub Stops : Map TaskState → Map TaskState → Type 0
Stops st st' =
    (k : TaskId)
    → (lookup k st' ≡ lookup k st)
      ⊎ ((is_waiting (lookup k st) ≡ true) × (lookup k st' ≡ some dependency_failed))

Stops-trans : (a b c : Map TaskState) → Stops a b → Stops b c → Stops a c
unfolding is_waiting
Stops-trans a b c p q k = ground (arith, p k, q k)

Stops-insert :
    (x : TaskId) (st : Map TaskState)
    → is_waiting (lookup x st) ≡ true
    → Stops st (insert x dependency_failed st)
Stops-insert x st h k = ground (arith, lookup-insert x k dependency_failed st)

-- What no longer waits does not wait again.
pub Stops-settled :
    (a b : Map TaskState) (k : TaskId)
    → Stops a b
    → is_waiting (lookup k a) ≡ false
    → is_waiting (lookup k b) ≡ false
Stops-settled a b k p h = ground (arith, p k)

mark-Stops :
    (xs : List TaskId) (st : Map TaskState) (q : List TaskId) → Stops st (mark_successors xs st q).0
unfolding mark_successors
mark-Stops [] st q k = inl refl
mark-Stops (x ∷ xs) st q k = elim (Bool-cases (is_waiting (lookup x st))) [
  | inl h ↦
      rw (h, mark_successors)
        (Stops-trans st (insert x dependency_failed st) _ (Stops-insert x st h)
          (mark-Stops xs (insert x dependency_failed st) (q ++ x ∷ [])) k)
  | inr h ↦ rw (h, mark_successors) (mark-Stops xs st q k)
]

mark_settles :
    (xs : List TaskId) (st : Map TaskState) (q : List TaskId) (k : TaskId)
    → contains k xs ≡ true
    → is_waiting (lookup k (mark_successors xs st q).0) ≡ false
unfolding mark_successors
mark_settles [] st q k m = cc
mark_settles (x ∷ xs) st q k m = elim (Bool-cases (x == k)) [
  | inl e ↦
      let st1 = if is_waiting (lookup x st) then insert x dependency_failed st else st in
      let q1 = if is_waiting (lookup x st) then q ++ x ∷ [] else q in
      Stops-settled st1 (mark_successors xs st1 q1).0 k (mark-Stops xs st1 q1)
        (unfold is_waiting in ground (arith, lookup-insert x k dependency_failed st))
  | inr e ↦ mark_settles xs _ _ k (ground arith)
]

mark_keeps :
    (xs : List TaskId) (st : Map TaskState) (q : List TaskId) (k : TaskId)
    → contains k q ≡ true
    → contains k (mark_successors xs st q).1 ≡ true
unfolding mark_successors
mark_keeps [] st q k m = m
mark_keeps (x ∷ xs) st q k m =
    mark_keeps xs _ (if is_waiting (lookup x st) then q ++ x ∷ [] else q) k
      (ground (arith, contains-append k q (x ∷ [])))

-- A task that the inner loop stops is pushed.
mark_pushes :
    (xs : List TaskId) (st : Map TaskState) (q : List TaskId) (k : TaskId)
    → is_waiting (lookup k st) ≡ true
    → is_waiting (lookup k (mark_successors xs st q).0) ≡ false
    → contains k (mark_successors xs st q).1 ≡ true
unfolding mark_successors
mark_pushes [] st q k w h = cc
mark_pushes (x ∷ xs) st q k w h = elim (Bool-cases (is_waiting (lookup x st))) [
  | inl s ↦ elim (Bool-cases (x == k)) [
    | inl e ↦
        rw (s, mark_successors)
          (mark_keeps xs (insert x dependency_failed st) (q ++ x ∷ []) k
            (ground (arith, contains-append k q (x ∷ []))))
    | inr e ↦
        rw (s, mark_successors)
          (mark_pushes xs (insert x dependency_failed st) (q ++ x ∷ []) k
            (ground (arith, lookup-insert x k dependency_failed st)) (rw (s, mark_successors) at h))
  ]
  | inr s ↦ rw (s, mark_successors) (mark_pushes xs st q k w (rw (s, mark_successors) at h))
]

pub cascade-Stops :
    (fuel : ℕ) (successors : Map (List TaskId)) (q : List TaskId) (st st' : Map TaskState)
    → cascade fuel successors q st ≡ some st'
    → Stops st st'
unfolding cascade
cascade-Stops zero successors [] st st' e k = inl (ground arith)
cascade-Stops (suc fuel) successors [] st st' e k = inl (ground arith)
cascade-Stops zero successors (x ∷ q) st st' e k = cc
cascade-Stops (suc fuel) successors (x ∷ q) st st' e k =
    Stops-trans st (mark_successors (successors_of x successors) st q).0 st'
      (mark-Stops (successors_of x successors) st q) (cascade-Stops fuel successors _ _ st' e) k

-- No successor of a task that was stopped, or of one that the queue held, still waits.
pub cascade_closed :
    (fuel : ℕ) (successors : Map (List TaskId)) (q : List TaskId) (st st' : Map TaskState)
    → cascade fuel successors q st ≡ some st'
    → (k x : TaskId)
    → (contains k q ≡ true)
      ⊎ ((is_waiting (lookup k st) ≡ true) × (is_waiting (lookup k st') ≡ false))
    → contains x (successors_of k successors) ≡ true
    → is_waiting (lookup x st') ≡ false
unfolding cascade
cascade_closed zero successors [] st st' e k x h m = ground arith
cascade_closed (suc fuel) successors [] st st' e k x h m = ground arith
cascade_closed zero successors (y ∷ q) st st' e k x h m = cc
cascade_closed (suc fuel) successors (y ∷ q) st st' e k x h m =
    let st1 = (mark_successors (successors_of y successors) st q).0 in
    let q1 = (mark_successors (successors_of y successors) st q).1 in
    let rest = cascade_closed fuel successors q1 st1 st' e k x in
    elim (Bool-cases (y == k)) [
      | inl same ↦
          Stops-settled st1 st' x (cascade-Stops fuel successors q1 st1 st' e)
            (mark_settles (successors_of y successors) st q x (ground (arith, (==_iff y k).0 same)))
      | inr other ↦ elim (Bool-cases (is_waiting (lookup k st1))) [
        | inl w ↦
            rest
              (elim h [
                | inl queued ↦ inl (mark_keeps (successors_of y successors) st q k (ground arith))
                | inr (_, stopped) ↦ inr (w, stopped)
              ])
              m
        | inr w ↦
            rest
              (inl (elim h [
                | inl queued ↦ mark_keeps (successors_of y successors) st q k (ground arith)
                | inr (before, _) ↦ mark_pushes (successors_of y successors) st q k before w
              ]))
              m
      ]
    ]

mark_only :
    (xs : List TaskId) (st : Map TaskState) (q : List TaskId) (k : TaskId)
    → ((lookup k (mark_successors xs st q).0 ≡ lookup k st) ⊎ (contains k xs ≡ true))
      × (contains k (mark_successors xs st q).1 ≡ true → (contains k q || contains k xs) ≡ true)
unfolding mark_successors
mark_only [] st q k = (inl refl, λ m. ground arith)
mark_only (x ∷ xs) st q k =
    let st1 = if is_waiting (lookup x st) then insert x dependency_failed st else st in
    let q1 = if is_waiting (lookup x st) then q ++ x ∷ [] else q in
    let (p, r) = mark_only xs st1 q1 k in
    (
      ground (arith, lookup-insert x k dependency_failed st),
      λ m. let m' = r m in ground (arith, contains-append k q (x ∷ [])),
    )

-- A task whose state changed lies in every set that holds the queue and is closed downstream.
pub cascade_downstream {ℓ} :
    (P : TaskId → Type ℓ) (fuel : ℕ) (successors : Map (List TaskId)) (q : List TaskId)
    (st st' : Map TaskState)
    → cascade fuel successors q st ≡ some st'
    → ((k x : TaskId) → P k → contains x (successors_of k successors) ≡ true → P x)
    → ((k : TaskId) → contains k q ≡ true → P k)
    → (k : TaskId) → (lookup k st' ≡ lookup k st) ⊎ P k
unfolding cascade
cascade_downstream P zero successors [] st st' e closed held k = inl (ground arith)
cascade_downstream P (suc fuel) successors [] st st' e closed held k = inl (ground arith)
cascade_downstream P zero successors (y ∷ q) st st' e closed held k = cc
cascade_downstream P (suc fuel) successors (y ∷ q) st st' e closed held k =
    let xs = successors_of y successors in
    let st1 = (mark_successors xs st q).0 in
    let q1 = (mark_successors xs st q).1 in
    let held_y : P y = held y (ground arith) in
    let held1 : (j : TaskId) → contains j q1 ≡ true → P j = λ j m.
      elim (Bool-cases (contains j xs)) [
        | inl new ↦ closed y j held_y new
        | inr old ↦ held j (let m' = (mark_only xs st q j).1 m in ground arith)
      ] in
    elim (cascade_downstream P fuel successors q1 st1 st' e closed held1 k) [
      | inr p ↦ inr p
      | inl same ↦ elim (mark_only xs st q k).0 [
        | inl same' ↦ inl (same ∙ same')
        | inr new ↦ inr (closed y k held_y new)
      ]
    ]

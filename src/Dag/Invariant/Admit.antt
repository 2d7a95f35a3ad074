-- ===== src/Dag/Invariant/Admit.antt =====
-- A task that `enqueue` admits: the graph and the progress with it.
use knitting_crab.Prelude.{
  ℕ, ◌<◌, ◌≡◌, sym, subst, true, false, none, some, List, [], ◌∷◌, Map, lookup, insert,
  lookup-insert, has_key, contains, length, if◌then◌else◌, ◌==◌, ==_iff, arith, Bool-cases, inl,
  inr, ◌⊎◌,
}
use knitting_crab.Core.Task.{TaskId, TaskDescriptor}
use knitting_crab.Dag.State.{TaskState, pending, ready, successors_of}
use knitting_crab.Dag.Enqueue.{find_unknown, link}
use knitting_crab.Dag.Waiting.{waiting, is_done, waiting-congr, is_done-insert, waiting-le-length}
use knitting_crab.Dag.Rank.{rank, rank-lt-length, rank-missing, rank-insert}
use knitting_crab.Dag.Invariant.{Distinct, IsGraph, IsProgress}
use knitting_crab.Dag.Invariant.Link.{link_lem, contains-set_insert, set_insert-Distinct}

pub find_unknown-none :
    (ds : List TaskId) (tasks : Map TaskDescriptor) (d : TaskId)
    → find_unknown ds tasks ≡ none
    → contains d ds ≡ true
    → has_key d tasks ≡ true
unfolding find_unknown
find_unknown-none [] tasks d h m = cc
find_unknown-none (x ∷ ds) tasks d h m = elim (Bool-cases (x == d)) [
  | inl e ↦ subst (λ j. has_key j tasks ≡ true) ((==_iff x d).0 e) (ground arith)
  | inr e ↦ find_unknown-none ds tasks d (ground arith) (ground arith)
]

pub has_key-insert {ℓ} :
    {V : Type ℓ} (k j : TaskId) (v : V) (m : Map V)
    → has_key j (insert k v m) ≡ (if k == j then true else has_key j m)
unfolding has_key
has_key-insert k j v m = ground (arith, lookup-insert k j v m)

-- A task that is in the map is not the new one.
pub not_new {ℓ} :
    {V : Type ℓ} (k j : TaskId) (v : V) (m : Map V)
    → has_key k m ≡ false
    → lookup j m ≡ some v
    → (k == j) ≡ false
unfolding has_key
not_new k j v m h e = elim (Bool-cases (k == j)) [
  | inr f ↦ f
  | inl f ↦ let q : k ≡ j = (==_iff k j).0 f in ground arith
]

pub found-has_key {ℓ} :
    {V : Type ℓ} (k : TaskId) (v : V) (m : Map V) → lookup k m ≡ some v → has_key k m ≡ true
unfolding has_key
found-has_key k v m e = rw (e, has_key)

module _ {tasks : Map TaskDescriptor} {successors : Map (List TaskId)}
    (g : IsGraph tasks successors) (task : TaskDescriptor)
    (fresh : has_key task.task_id tasks ≡ false) where
  -- No edge leads to a task that is not there.
  pub unlinked : (d : TaskId) → contains task.task_id (successors_of d successors) ≡ false
  unlinked d = elim (Bool-cases (contains task.task_id (successors_of d successors))) [
    | inr f ↦ f
    | inl f ↦
        let (t, e, _) = g.linked d task.task_id f in
        absurd (let q = not_new task.task_id task.task_id t tasks fresh e in ground arith)
  ]

  module _
      (known' : (d : TaskId) → contains d task.dependencies ≡ true → has_key d tasks ≡ true) where
    -- An old edge, or one from the new task.
    pub edge_known :
        (k : TaskId) (t : TaskDescriptor) (d : TaskId)
        → lookup k (insert task.task_id task tasks) ≡ some t
        → contains d t.dependencies ≡ true
        → (has_key d tasks ≡ true) × (rank d tasks < rank k tasks)
    edge_known k t d e m = elim (Bool-cases (task.task_id == k)) [
      | inl new ↦
          let known_d : has_key d tasks ≡ true =
            known' d (ground (arith, lookup-insert task.task_id k task tasks)) in
          let q : task.task_id ≡ k = (==_iff task.task_id k).0 new in
          (
            known_d,
            omega (
              arith,
              rank-lt-length {0} d tasks known_d,
              subst (λ j. rank j tasks ≡ length tasks) q (rank-missing task.task_id tasks fresh),
            ),
          )
      | inr old ↦ g.known k t d (ground (arith, lookup-insert task.task_id k task tasks)) m
    ]

    pub admit-IsGraph :
        IsGraph (insert task.task_id task tasks) (link task.task_id task.dependencies successors)
    admit-IsGraph = record {
      named = λ k t e. elim (Bool-cases (task.task_id == k)) [
        | inl new ↦
            ground (arith, lookup-insert task.task_id k task tasks, (==_iff task.task_id k).0 new)
        | inr old ↦ g.named k t (ground (arith, lookup-insert task.task_id k task tasks))
      ];
      known = λ k t d e m.
          let (known_d, less) = edge_known k t d e m in
          let still : has_key d (insert task.task_id task tasks) ≡ true =
            ground (arith, has_key-insert task.task_id d task tasks) in
          (
            still,
            omega (
              arith,
              rank-insert task.task_id d task tasks still,
              rank-insert task.task_id k task tasks (found-has_key k t _ e),
            ),
          );
      linked = λ d x m. elim (Bool-cases (task.task_id == x)) [
        | inl new ↦ (
          task,
          ground (arith, lookup-insert task.task_id x task tasks),
          ground (
            arith,
            link_lem task.task_id task.dependencies successors d,
            unlinked d,
            (==_iff task.task_id x).0 new,
          ),
        )
        | inr old ↦
            let (t, e, dep) = g.linked d x (
              ground (
                arith,
                link_lem task.task_id task.dependencies successors d,
                contains-set_insert task.task_id x (successors_of d successors),
              )) in
            (t, ground (arith, lookup-insert task.task_id x task tasks), dep)
      ];
      linked_back = λ k t d e m. elim (Bool-cases (task.task_id == k)) [
        | inl new ↦ ground (
          arith,
          lookup-insert task.task_id k task tasks,
          link_lem task.task_id task.dependencies successors d,
          contains-set_insert task.task_id k (successors_of d successors),
        )
        | inr old ↦ ground (
          arith,
          link_lem task.task_id task.dependencies successors d,
          contains-set_insert task.task_id k (successors_of d successors),
          g.linked_back k t d (ground (arith, lookup-insert task.task_id k task tasks)) m,
        )
      ];
      distinct = λ d. elim (Bool-cases (contains d task.dependencies)) [
        | inl h ↦
            subst Distinct
              (sym (ground (arith, link_lem task.task_id task.dependencies successors d)))
              (set_insert-Distinct task.task_id (successors_of d successors) (g.distinct d))
        | inr h ↦
            subst Distinct
              (sym (ground (arith, link_lem task.task_id task.dependencies successors d)))
              (g.distinct d)
      ];
    }

-- Its state, its degree and the dependencies that it waits for.
module _ {tasks : Map TaskDescriptor} {states : Map TaskState} {degrees : Map ℕ}
    (p : IsProgress [] tasks states degrees) (task : TaskDescriptor)
    (fresh : has_key task.task_id tasks ≡ false) (v : TaskState)
    (fits : (v ≡ pending) ⊎ ((v ≡ ready) × (length task.dependencies ≡ 0))) where
  unborn : is_done states task.task_id ≡ false
  unfolding has_key
  unborn = ground (arith, p.tracked task.task_id)

  same_waiting : (xs : List TaskId) → waiting states xs ≡ waiting (insert task.task_id v states) xs
  same_waiting xs =
      waiting-congr states (insert task.task_id v states) xs
        (is_done-insert states task.task_id v unborn (ground arith))

  pub admit-IsProgress :
      IsProgress []
        (insert task.task_id task tasks)
        (insert task.task_id v states)
        (insert task.task_id (length task.dependencies) degrees)
  admit-IsProgress = record {
    tracked = λ k. ground (
      arith,
      has_key-insert task.task_id k task tasks,
      has_key-insert task.task_id k v states,
      p.tracked k,
    );
    counted = λ k t e. elim (Bool-cases (task.task_id == k)) [
      | inl new ↦ (
        length task.dependencies,
        ground (arith, lookup-insert task.task_id k (length task.dependencies) degrees),
        ground (
          arith,
          lookup-insert task.task_id k task tasks,
          waiting-le-length (insert task.task_id v states) t.dependencies,
        ),
      )
      | inr old ↦
          let (n, found, bound) =
            p.counted k t (ground (arith, lookup-insert task.task_id k task tasks)) in
          (
            n,
            ground (arith, lookup-insert task.task_id k (length task.dependencies) degrees),
            ground (arith, same_waiting t.dependencies),
          )
    ];
    started = λ k t e h. elim (Bool-cases (task.task_id == k)) [
      | inl new ↦ ground (
        arith,
        lookup-insert task.task_id k task tasks,
        lookup-insert task.task_id k v states,
        waiting-le-length (insert task.task_id v states) t.dependencies,
      )
      | inr old ↦ ground (
        arith,
        same_waiting t.dependencies,
        lookup-insert task.task_id k v states,
        p.started k t (ground (arith, lookup-insert task.task_id k task tasks)),
      )
    ];
  }

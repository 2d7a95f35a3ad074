-- ===== src/Dag/Invariant/Detect.antt =====
-- `detect_cycle` at a new task: the graph had no cycle, so only the task itself can close one.
use knitting_crab.Prelude.{
  ℕ, suc, ◌<◌, ◌≡◌, ◌≢◌, refl, sym, ◌∙◌, subst, true, false, none, some, List, [], ◌∷◌, Map, lookup,
  insert, lookup-insert, has_key, keys, contains, contains-keys, length, if◌then◌else◌, ◌==◌,
  ==_iff, arith, Bool-cases, Option-cases, inl, inr,
}
use knitting_crab.Core.Task.{TaskId, TaskDescriptor}
use knitting_crab.Dag.Cycle.{white, gray, all_white, detect_cycle}
use knitting_crab.Dag.Rank.{rank, rank-lt-length, rank-missing, length-insert_new}
use knitting_crab.Dag.Acyclic.{scan_keys-none, scan_keys-some}
use knitting_crab.Dag.Invariant.{IsGraph}
use knitting_crab.Dag.Invariant.Admit.{edge_known, has_key-insert, found-has_key}

lookup-all_white :
    (g : TaskId) (ks : List TaskId)
    → lookup g (all_white ks) ≡ (if contains g ks then some white else none)
unfolding all_white lookup
lookup-all_white g [] = refl
lookup-all_white g (k ∷ ks) =
    ground (arith, lookup-insert k g white (all_white ks), lookup-all_white g ks)

has_key-found {ℓ} :
    {V : Type ℓ} (k : TaskId) (m : Map V) → has_key k m ≡ true → (v : V) × (lookup k m ≡ some v)
unfolding has_key
has_key-found k m h = elim (Option-cases (lookup k m)) [
  | inl e ↦ absurd (ground arith)
  | inr found ↦ found
]

module _ {tasks : Map TaskDescriptor} {successors : Map (List TaskId)}
    (g : IsGraph tasks successors) (task : TaskDescriptor)
    (fresh : has_key task.task_id tasks ≡ false) where
  -- The map with the new task, and the order of acceptance without it.
  abbrev grown : Map TaskDescriptor
  grown = insert task.task_id task tasks

  abbrev age : TaskId → ℕ
  age x = rank x tasks

  no_path : (ks : List TaskId) (x : TaskId) → lookup x (all_white ks) ≢ some gray
  no_path ks x e = ground (arith, lookup-all_white x ks)

  key-found :
      (k : TaskId)
      → contains k (keys grown) ≡ true
      → (age k < suc (length tasks)) × ((t : TaskDescriptor) × (lookup k grown ≡ some t))
  key-found k m =
      let h : has_key k grown ≡ true = sym (contains-keys k grown) ∙ m in
      (
        elim (Bool-cases (has_key k tasks)) [
          | inl old ↦ omega (arith, rank-lt-length {0} k tasks old)
          | inr new ↦ omega (arith, rank-missing {0} k tasks new)
        ],
        has_key-found k grown h,
      )

  -- The search finds nothing where the dependencies are older tasks.
  pub detect_cycle-none :
      ((d : TaskId) → contains d task.dependencies ≡ true → has_key d tasks ≡ true)
      → detect_cycle grown ≡ some none
  unfolding detect_cycle
  detect_cycle-none known =
      scan_keys-none age grown (suc (length tasks))
        (λ k t d _ e m.
          let (known_d, less) = edge_known g task fresh known k t d e m in
          (ground (arith, has_key-insert task.task_id d task tasks), less))
        (length grown) (keys grown) (all_white (keys grown))
        (omega (arith, length-insert_new {0} task.task_id task tasks fresh)) key-found
        (no_path (keys grown))

  other-found :
      (d : TaskId)
      → has_key d grown ≡ true
      → d ≢ task.task_id
      → (age d < length tasks) × ((t : TaskDescriptor) × (lookup d grown ≡ some t))
  other-found d h other = (
    rank-lt-length {0} d tasks (ground (arith, has_key-insert task.task_id d task tasks)),
    has_key-found d grown h,
  )

  -- It finds a task that depends on itself.
  pub detect_cycle-some :
      ((d : TaskId) → contains d task.dependencies ≡ true → has_key d grown ≡ true)
      → contains task.task_id task.dependencies ≡ true
      → (k : TaskId) × (detect_cycle grown ≡ some (some k))
  unfolding detect_cycle
  detect_cycle-some known self =
      let new : contains task.task_id (keys grown) ≡ true =
        contains-keys task.task_id grown ∙ found-has_key task.task_id task grown at_new in
      let (k, found) =
        scan_keys-some age grown (length tasks) below task.task_id task
          (rank-missing task.task_id tasks fresh) at_new (length tasks) (keys grown)
          (all_white (keys grown)) (omega arith) (λ d m. other-found d (known d m)) self
          (λ d m. other-found d (sym (contains-keys d grown) ∙ m)) new (no_path (keys grown))
          (ground (arith, lookup-all_white task.task_id (keys grown))) in
      (k, rw (length-insert_new task.task_id task tasks fresh) found)
    where
      at_new : lookup task.task_id grown ≡ some task
      at_new = ground (arith, lookup-insert task.task_id task.task_id task tasks)

      below :
          (k : TaskId) (t : TaskDescriptor) (d : TaskId)
          → age k < length tasks
          → lookup k grown ≡ some t
          → contains d t.dependencies ≡ true
          → (has_key d grown ≡ true) × (age d < age k)
      below k t d b e m = elim (Bool-cases (task.task_id == k)) [
        | inl same ↦ absurd (
            let q : task.task_id ≡ k = (==_iff task.task_id k).0 same in
            let r : age k ≡ length tasks =
              subst (λ j. age j ≡ length tasks) q (rank-missing task.task_id tasks fresh) in
            omega arith)
        | inr other ↦
            let (known_d, less) =
              g.known k t d (ground (arith, lookup-insert task.task_id k task tasks)) m in
            (ground (arith, has_key-insert task.task_id d task tasks), less)
      ]

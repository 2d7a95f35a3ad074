-- ===== src/Dag/Cycle.antt =====
-- crates/scheduler/src/dag.rs, `detect_cycle`: the depth-first search with three colors. A panic
-- stands for an index that is not in the map, and for a search that ran out of fuel.
use knitting_crab.Prelude.{
  ℕ, zero, suc, Option, none, some, List, [], ◌∷◌, Map, lookup, insert, keys, length,
}
use knitting_crab.Core.Task.{TaskId, TaskDescriptor}

pub data Color : Type 0 where
  white gray black : Color

-- What `dfs` returns with the colors that it leaves; `none` is a panic.
abbrev pub Visit : Type 0
Visit = Option (Option TaskId × Map Color)

-- The loop of `dfs` over the dependencies, and what follows it.
unfoldable pub visit_deps : (TaskId → Map Color → Visit) → TaskId → List TaskId → Map Color → Visit
visit_deps visit node [] colors = some (none, insert node black colors)
visit_deps visit node (dep ∷ deps) colors = elim (lookup dep colors) [
  | none ↦ visit_deps visit node deps colors
  | some color ↦ elim color [
    | gray ↦ some (some dep, colors)
    | black ↦ visit_deps visit node deps colors
    | white ↦ elim (visit dep colors) [
      | none ↦ none
      | some (found, colors') ↦ elim found [
        | some _ ↦ some (some dep, colors')
        | none ↦ visit_deps visit node deps colors'
      ]
    ]
  ]
]

-- The fuel bounds the depth of the recursion.
unfoldable pub dfs : ℕ → Map TaskDescriptor → TaskId → Map Color → Visit
unfolding visit_deps
dfs zero tasks node colors = none
dfs (suc fuel) tasks node colors = elim (lookup node tasks) [
  | none ↦ none
  | some task ↦ visit_deps (dfs fuel tasks) node task.dependencies (insert node gray colors)
]

-- The outer loop; `none` is a panic.
unfoldable pub scan_keys : ℕ → Map TaskDescriptor → List TaskId → Map Color → Option (Option TaskId)
unfolding dfs
scan_keys fuel tasks [] colors = some none
scan_keys fuel tasks (k ∷ ks) colors = elim (lookup k colors) [
  | none ↦ scan_keys fuel tasks ks colors
  | some color ↦ elim color [
    | gray ↦ scan_keys fuel tasks ks colors
    | black ↦ scan_keys fuel tasks ks colors
    | white ↦ elim (dfs fuel tasks k colors) [
      | none ↦ none
      | some (found, colors') ↦ elim found [
        | some _ ↦ some (some k)
        | none ↦ scan_keys fuel tasks ks colors'
      ]
    ]
  ]
]

unfoldable pub all_white : List TaskId → Map Color
all_white [] = []
all_white (k ∷ ks) = insert k white (all_white ks)

-- A chain of nested calls visits distinct tasks, so there are at most as many as tasks.
unfoldable pub detect_cycle : Map TaskDescriptor → Option (Option TaskId)
unfolding scan_keys all_white keys
detect_cycle tasks = scan_keys (length tasks) tasks (keys tasks) (all_white (keys tasks))

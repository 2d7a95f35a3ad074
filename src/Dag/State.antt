-- ===== src/Dag/State.antt =====
-- crates/scheduler/src/dag.rs, `TaskState` and `Inner`. A hash map is an association list, a hash
-- set a list of its elements, both in the order of iteration.
use knitting_crab.Prelude.{ℕ, Bool, true, false, Option, none, some, List, [], Map, lookup}
use knitting_crab.Core.Task.{TaskId, TaskDescriptor, ResourceAllocation}
use knitting_crab.Dag.Policy.{
  FairnessPolicy, StarvationPreventionPolicy, StarvationMetrics, TaskMetadata, default_fairness,
  default_starvation, no_metrics,
}
use knitting_crab.Dag.Pool.{ResourceConfig, ResourcePool, new_pool}
use knitting_crab.Dag.Heap.{ReadyEntry}

pub data TaskState : Type 0 where
  pending ready running completed failed dependency_failed : TaskState

pub record Inner : Type 0 where
  pub tasks : Map TaskDescriptor
  pub states : Map TaskState
  pub successors : Map (List TaskId)
  pub in_degree : Map ℕ
  pub ready_heap : List ReadyEntry
  pub fairness_policy : FairnessPolicy
  pub starvation_policy : StarvationPreventionPolicy
  pub metadata : Map TaskMetadata
  pub metrics : StarvationMetrics
  pub resource_pool : Option ResourcePool
  pub running_resources : Map ResourceAllocation

unfoldable pub new_with_policies : FairnessPolicy → StarvationPreventionPolicy → Inner
unfolding no_metrics
new_with_policies fairness starvation = record {
  tasks = [];
  states = [];
  successors = [];
  in_degree = [];
  ready_heap = [];
  fairness_policy = fairness;
  starvation_policy = starvation;
  metadata = [];
  metrics = no_metrics;
  resource_pool = none;
  running_resources = [];
}

-- `Inner::new`, and `new_with_policy` for another fairness policy.
unfoldable pub new_with_policy : FairnessPolicy → Inner
unfolding new_with_policies default_starvation
new_with_policy policy = new_with_policies policy default_starvation

unfoldable pub new : Inner
unfolding new_with_policy default_fairness
new = new_with_policy default_fairness

unfoldable pub new_with_resource_config : ResourceConfig → Inner
unfolding new new_pool
new_with_resource_config config = record new { resource_pool = some (new_pool config) }

unfoldable pub set_fairness_policy : FairnessPolicy → Inner → Inner
set_fairness_policy policy s = record s { fairness_policy = policy }

unfoldable pub set_starvation_policy : StarvationPreventionPolicy → Inner → Inner
set_starvation_policy policy s = record s { starvation_policy = policy }

-- The elements of `successors[id]`, and none where there is no entry.
unfoldable pub successors_of : TaskId → Map (List TaskId) → List TaskId
unfolding lookup
successors_of id m = elim (lookup id m) [ none ↦ [] | some xs ↦ xs ]

-- A task that has started, or may start at once.
abbrev pub is_started : Option TaskState → Bool
is_started (some ready) = true
is_started (some running) = true
is_started (some completed) = true
is_started _ = false

abbrev pub is_completed : Option TaskState → Bool
is_completed (some completed) = true
is_completed _ = false

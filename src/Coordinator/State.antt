-- ===== src/Coordinator/State.antt =====
-- crates/coordinator/src/state.rs, and the requests and responses of
-- crates/transport/src/messages.rs.
use knitting_crab.Prelude.{ℕ, Bool, Option, List, [], String}
use knitting_crab.Core.Task.{TaskId, WorkerId, TaskDescriptor, ResourceAllocation}
use knitting_crab.Leases.{Lease}
use knitting_crab.Leases.InMemory.{InMemoryLeaseStore}
use knitting_crab.Events.{TaskEvent, LogLine}
use knitting_crab.Nodes
use knitting_crab.Nodes.{NodeRegistry}
use knitting_crab.Coordinator.Cache
use knitting_crab.Coordinator.Cache.{CacheIndex, CacheLocation}
use knitting_crab.Coordinator.Stub.{StubScheduler, enqueue, dequeue}

pub record CoordinatorState : Type 0 where
  pub queue : StubScheduler
  pub lease_store : InMemoryLeaseStore
  pub node_registry : NodeRegistry
  pub cache_index : CacheIndex

unfoldable pub new_state : CoordinatorState
unfolding Nodes.new Cache.new
new_state = record {
  queue = [];
  lease_store = [];
  node_registry = Nodes.new;
  cache_index = Cache.new;
}

unfoldable pub enqueue_task : TaskDescriptor → CoordinatorState → CoordinatorState
unfolding enqueue
enqueue_task task s = record s { queue = enqueue task s.queue }

unfoldable pub dequeue_task : CoordinatorState → CoordinatorState × Option TaskDescriptor
unfolding dequeue
dequeue_task s = let (q, task) = dequeue s.queue in (record s { queue = q }, task)

pub data CoordinatorRequest : Type 0 where
  register_node : WorkerId → String → ResourceAllocation → Bool → CoordinatorRequest
  node_heartbeat : WorkerId → CoordinatorRequest
  dequeue_request : WorkerId → CoordinatorRequest
  requeue_request : TaskId → ℕ → CoordinatorRequest
  discard_request : TaskId → CoordinatorRequest
  insert_lease_request : Lease → CoordinatorRequest
  get_lease_request : TaskId → CoordinatorRequest
  update_lease_request : Lease → CoordinatorRequest
  remove_lease_request : TaskId → CoordinatorRequest
  active_leases_request : CoordinatorRequest
  emit_event_request : TaskEvent → CoordinatorRequest
  emit_log_request : LogLine → CoordinatorRequest
  query_cache : String → CoordinatorRequest
  announce_cache : String → String → CoordinatorRequest

-- The text of an error is kept up to the values that it prints.
pub data CoordinatorResponse : Type 0 where
  done : CoordinatorResponse
  dequeued : Option TaskDescriptor → CoordinatorResponse
  lease_response : Option Lease → CoordinatorResponse
  leases_response : List Lease → CoordinatorResponse
  cache_locations : List CacheLocation → CoordinatorResponse
  error_response : String → CoordinatorResponse

-- ===== src/Coordinator/Server/Runs.antt =====
-- Any sequence of requests on any number of connections, ends of connections, rounds of the reaper
-- and of the probes, and tasks that are enqueued.
use knitting_crab.Prelude.{
  ℕ, ◌≡◌, Bool, true, Option, none, some, List, [], ◌∷◌, String, All, Map, lookup, insert, remove,
  has_key,
}
use knitting_crab.Core.Task.{WorkerId, TaskDescriptor}
use knitting_crab.Nodes
use knitting_crab.Nodes.{NodeInfo}
use knitting_crab.Coordinator.Cache
use knitting_crab.Coordinator.Cache.{CacheLocation}
use knitting_crab.Coordinator.State.{CoordinatorState, new_state, enqueue_task, CoordinatorRequest}
use knitting_crab.Coordinator.Server.{handle_request, close_connection, reap, probe_all}

-- The open connections, each with the node that it has registered.
pub record System : Type 0 where
  pub state : CoordinatorState
  pub connections : Map (Option WorkerId)

pub data Event : Type 0 where
  connects : ℕ → Event
  requests : ℕ → ℕ → ℕ → CoordinatorRequest → Event
  disconnects : ℕ → Event
  reaps : ℕ → ℕ → Event
  probes : (String → ℕ → Bool) → ℕ → Event
  enqueues : TaskDescriptor → Event

abbrev pub registered_on : Option (Option WorkerId) → Option WorkerId
registered_on none = none
registered_on (some c) = c

unfoldable pub step : System → Event → System
unfolding handle_request close_connection reap probe_all enqueue_task
step y (connects id) = record y { connections = insert id none y.connections }
step y (requests id utc now request) =
    let served = handle_request utc now request (registered_on (lookup id y.connections)) y.state in
    record { state = served.state; connections = insert id served.registered y.connections }
step y (disconnects id) = record {
  state = close_connection (registered_on (lookup id y.connections)) y.state;
  connections = remove id y.connections;
}
step y (reaps timeout now) = record y { state = reap timeout now y.state }
step y (probes probe port) = record y {
  state = record (y.state) { node_registry = probe_all probe port y.state.node_registry };
}
step y (enqueues task) = record y { state = enqueue_task task y.state }

unfoldable pub run : System → List Event → System
unfolding step
run y [] = y
run y (e ∷ es) = run (step y e) es

unfoldable pub start : System
unfolding new_state
start = record { state = new_state; connections = [] }

abbrev LocatedOn : Map NodeInfo → List CacheLocation → Type 0
LocatedOn nodes = All λ l. has_key l.worker_id nodes ≡ true

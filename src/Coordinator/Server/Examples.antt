-- ===== src/Coordinator/Server/Examples.antt =====
-- The coordinator's theorems at two nodes, an artifact and a task.
use knitting_crab.Prelude.{◌≡◌, refl, true, none, some, List, [], ◌∷◌, lookup}
use knitting_crab.Core.Priority.{normal}
use knitting_crab.Core.Sample.{task_of, one_core}
use knitting_crab.Leases.{Lease, active}
use knitting_crab.Nodes.{stale_nodes, unhealthy_nodes}
use knitting_crab.Coordinator.State.{
  CoordinatorState, register_node, announce_cache, dequeue_request, requeue_request,
  insert_lease_request, dequeued, error_response,
}
use knitting_crab.Coordinator.Server.{handle_request, reap}
use knitting_crab.Coordinator.Server.Runs.{Event, connects, requests, disconnects, reaps}
use knitting_crab.Coordinator.Server.Lost.{requeue-dequeued, reap_leased}
use knitting_crab.Coordinator.Server.Reaped.{reap_clears}

-- Two nodes announce one artifact, and the connection of the first ends.
abbrev events : List Event
events =
    connects 1
    ∷ requests 1 10 100 (register_node 7 "studio" one_core true)
    ∷ requests 1 11 110 (announce_cache "key" "/tmp/a")
    ∷ connects 2
    ∷ requests 2 12 120 (register_node 8 "mini" one_core true)
    ∷ requests 2 13 130 (announce_cache "key" "/tmp/b")
    ∷ disconnects 1
    ∷ reaps 60 140
    ∷ []

abbrev lease : Lease
lease = record {
  lease_id = 100;
  task_id = 3;
  worker_id = 7;
  state = active;
  acquired_at = 10;
  expires_at = 40;
  attempt = 0;
}

-- A node that was last seen at time 5 and holds the lease of a task.
abbrev silent : CoordinatorState
silent = record {
  queue = task_of 3 normal [] ∷ task_of 4 normal [] ∷ [];
  lease_store = (3, lease) ∷ [];
  node_registry = record { nodes = []; last_seen = (7, 5) ∷ []; probe_failures = (7, 0) ∷ [] };
  cache_index = [];
}

requeue-dequeued_example :
    let served = handle_request 1 2 (dequeue_request 7) none silent in
    (served.response ≡ dequeued (some (task_of 3 normal [])))
    × (served.state.queue ≡ task_of 4 normal [] ∷ [])
    × ((handle_request 1 2 (requeue_request 3 1) none served.state).state ≡ served.state)
requeue-dequeued_example =
    requeue-dequeued 1 2 7 1 none silent (task_of 3 normal []) (task_of 4 normal [] ∷ []) refl refl

held : lookup 3 silent.lease_store ≡ some lease
unfolding lookup
held = refl

reap_leased_example :
    ((reap 60 90 silent).lease_store ≡ silent.lease_store)
    × ((handle_request 20 91 (insert_lease_request lease) none (reap 60 90 silent)).response
        ≡ error_response "already leased")
reap_leased_example = reap_leased 20 60 90 91 none silent lease lease held

reap_clears_example :
    (stale_nodes 60 90 (reap 60 90 silent).node_registry ≡ [])
    × (unhealthy_nodes (reap 60 90 silent).node_registry ≡ [])
reap_clears_example = reap_clears 60 90 silent

-- ===== src/Coordinator/Server.antt =====
-- crates/coordinator/src/server.rs: `handle_request`, the end of a connection, and one round of
-- `node_reaper_loop`; crates/coordinator/src/ssh_health.rs: one round of probes.
pub mod Known
pub mod Runs
pub mod Reaped
pub mod Lost
mod Examples
use knitting_crab.Prelude.{
  ℕ, ◌+◌, ◌==◌, ◌%◌, Bool, true, false, Option, none, some, List, [], ◌∷◌, String, if◌then◌else◌,
  u32_mod,
}
use knitting_crab.Core.Task.{TaskId, WorkerId, ResourceAllocation}
use knitting_crab.Core.Error.{CoreError, already_leased, Result, ok, err}
use knitting_crab.Leases.{Lease}
use knitting_crab.Leases.InMemory.{
  insert_lease, get_lease, update_lease, remove_lease, active_leases,
}
use knitting_crab.Nodes.{
  NodeInfo, NodeRegistry, register, heartbeat, stale_nodes, unhealthy_nodes, remove_node,
  get_node_info, all_nodes, record_probe_success, record_probe_failure,
}
use knitting_crab.Coordinator.Cache.{CacheIndexEntry, announce, query, evict_node}
use knitting_crab.Coordinator.Stub.{requeue, discard}
use knitting_crab.Coordinator.State.{
  CoordinatorState, dequeue_task, CoordinatorRequest, register_node, node_heartbeat,
  dequeue_request, requeue_request, discard_request, insert_lease_request, get_lease_request,
  update_lease_request, remove_lease_request, active_leases_request, emit_event_request,
  emit_log_request, query_cache, announce_cache, CoordinatorResponse, done, dequeued,
  lease_response, leases_response, cache_locations, error_response,
}

-- The state after a request, the node that the connection has registered, and the response.
pub record Served : Type 0 where
  pub state : CoordinatorState
  pub registered : Option WorkerId
  pub response : CoordinatorResponse

abbrev pub reply : CoordinatorState → Option WorkerId → CoordinatorResponse → Served
reply s registered response = record { state = s; registered = registered; response = response }

abbrev pub insert_response : Result (Unit {0}) → CoordinatorResponse
insert_response (ok u) = done
insert_response (err already_leased) = error_response "already leased"
insert_response (err e) = error_response "insert lease failed"

abbrev pub unit_response : String → Result (Unit {0}) → CoordinatorResponse
unit_response message (ok u) = done
unit_response message (err e) = error_response message

abbrev pub get_response : Result (Option Lease) → CoordinatorResponse
get_response (ok l) = lease_response l
get_response (err e) = error_response "get lease failed"

-- `AnnounceCache`, once the node of the connection has been looked up.
unfoldable pub announce_for :
    Option NodeInfo → String → String → CoordinatorState → CoordinatorState × CoordinatorResponse
unfolding announce
announce_for none key path s = (s, error_response "node not found")
announce_for (some info) key path s =
    let entry : CacheIndexEntry = record {
      worker_id = info.worker_id;
      hostname = info.hostname;
      path = path;
    } in
    (record s { cache_index = announce key entry s.cache_index }, done)

unfoldable pub announce_registered :
    Option WorkerId → String → String → CoordinatorState → CoordinatorState × CoordinatorResponse
unfolding announce_for get_node_info
announce_registered none key path s = (s, error_response "not registered")
announce_registered (some worker) key path s =
    announce_for (get_node_info worker s.node_registry) key path s

-- At the time `utc` of the calendar clock and `now` of the monotonic clock.
unfoldable pub handle_request :
    ℕ → ℕ → CoordinatorRequest → Option WorkerId → CoordinatorState → Served
unfolding register heartbeat dequeue_task requeue discard insert_lease get_lease update_lease
    remove_lease active_leases query announce_registered
handle_request utc now (register_node worker hostname capacity is_production) c s =
    let info : NodeInfo = record {
      worker_id = worker;
      hostname = hostname;
      capacity = capacity;
      registered_at = utc;
      is_production = is_production;
    } in
    reply (record s { node_registry = register info now s.node_registry }) (some worker) done
handle_request utc now (node_heartbeat worker) c s =
    reply (record s { node_registry = heartbeat worker now s.node_registry }) c done
handle_request utc now (dequeue_request worker) c s =
    let (s', task) = dequeue_task s in reply s' c (dequeued task)
handle_request utc now (requeue_request task attempt) c s =
    reply (record s { queue = requeue task attempt s.queue }) c done
handle_request utc now (discard_request task) c s =
    reply (record s { queue = discard task s.queue }) c done
handle_request utc now (insert_lease_request l) c s =
    let (leases, r) = insert_lease l s.lease_store in
    reply (record s { lease_store = leases }) c (insert_response r)
handle_request utc now (get_lease_request task) c s =
    reply s c (get_response (get_lease task s.lease_store))
handle_request utc now (update_lease_request l) c s =
    let (leases, r) = update_lease l s.lease_store in
    reply (record s { lease_store = leases }) c (unit_response "update lease failed" r)
handle_request utc now (remove_lease_request task) c s =
    let (leases, r) = remove_lease task s.lease_store in
    reply (record s { lease_store = leases }) c (unit_response "remove lease failed" r)
handle_request utc now active_leases_request c s =
    reply s c (leases_response (active_leases s.lease_store))
handle_request utc now (emit_event_request event) c s = reply s c done
handle_request utc now (emit_log_request line) c s = reply s c done
handle_request utc now (query_cache key) c s = reply s c (cache_locations (query key s.cache_index))
handle_request utc now (announce_cache key path) c s =
    let (s', r) = announce_registered c key path s in reply s' c r

-- A node leaves: its connection ends, or the reaper takes it.
unfoldable pub drop_node : WorkerId → CoordinatorState → CoordinatorState
unfolding remove_node evict_node
drop_node worker s = record s {
  node_registry = remove_node worker s.node_registry;
  cache_index = evict_node worker s.cache_index;
}

-- The end of a connection, by a clean EOF or by an error.
unfoldable pub close_connection : Option WorkerId → CoordinatorState → CoordinatorState
unfolding drop_node
close_connection none s = s
close_connection (some worker) s = drop_node worker s

-- The tasks whose active leases a node holds, each put back with its next attempt.
unfoldable pub requeue_leases : WorkerId → List Lease → CoordinatorState → CoordinatorState
unfolding requeue
requeue_leases worker [] s = s
requeue_leases worker (l ∷ ls) s =
    let s' = record s { queue = requeue l.task_id ((l.attempt + 1) % u32_mod) s.queue } in
    requeue_leases worker ls (if l.worker_id == worker then s' else s)

unfoldable pub reap_node : WorkerId → CoordinatorState → CoordinatorState
unfolding requeue_leases active_leases drop_node
reap_node worker s = drop_node worker (requeue_leases worker (active_leases s.lease_store) s)

unfoldable pub reap_nodes : List WorkerId → CoordinatorState → CoordinatorState
unfolding reap_node
reap_nodes [] s = s
reap_nodes (worker ∷ workers) s = reap_nodes workers (reap_node worker s)

-- One round of the reaper: first the nodes that are stale at `now`, then the unhealthy ones.
unfoldable pub reap : ℕ → ℕ → CoordinatorState → CoordinatorState
unfolding reap_nodes stale_nodes unhealthy_nodes
reap timeout now s =
    let s' = reap_nodes (stale_nodes timeout now s.node_registry) s in
    reap_nodes (unhealthy_nodes s'.node_registry) s'

-- One round of probes of the nodes that were known at its start: `probe` is the network's answer
-- for a host and a port.
module _ (probe : String → ℕ → Bool) (port : ℕ) where
  unfoldable pub probe_node : NodeInfo → NodeRegistry → NodeRegistry
  unfolding record_probe_success record_probe_failure
  probe_node info r =
      if probe info.hostname port
      then record_probe_success info.worker_id r
      else record_probe_failure info.worker_id r

  unfoldable pub probe_nodes : List NodeInfo → NodeRegistry → NodeRegistry
  unfolding probe_node
  probe_nodes [] r = r
  probe_nodes (info ∷ infos) r = probe_nodes infos (probe_node info r)

  unfoldable pub probe_all : NodeRegistry → NodeRegistry
  unfolding probe_nodes all_nodes
  probe_all r = probe_nodes (all_nodes r) r

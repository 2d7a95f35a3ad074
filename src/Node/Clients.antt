-- ===== src/Node/Clients.antt =====
-- The clients of a connection: crates/node/src/network_lease_store.rs, network_queue.rs,
-- network_event_sink.rs and network_cache.rs.
pub mod Answered
pub mod Truth
mod Examples
use knitting_crab.Prelude.{
  ℕ, Bool, true, false, Option, none, some, List, [], String, has_text, if◌then◌else◌,
}
use knitting_crab.Core.Task.{TaskId, WorkerId, TaskDescriptor}
use knitting_crab.Core.Error.{CoreError, already_leased, internal, Result, ok, err}
use knitting_crab.Leases.{Lease}
use knitting_crab.Events.{TaskEvent, LogLine}
use knitting_crab.Coordinator.Cache.{CacheLocation}
use knitting_crab.Coordinator.State.{
  CoordinatorRequest, dequeue_request, requeue_request, discard_request, insert_lease_request,
  get_lease_request, update_lease_request, remove_lease_request, active_leases_request,
  emit_event_request, emit_log_request, query_cache, announce_cache, CoordinatorResponse, done,
  dequeued, lease_response, leases_response, cache_locations, error_response,
}
use knitting_crab.Node.{NodeError, NodeResult, node_ok, node_err, core_error, Fate, NodeConnection}
use knitting_crab.Node.Connection.{request}

-- A response read as the result of a call without a value.
abbrev pub unit_result : String → NodeResult CoordinatorResponse → Result (Unit {0})
unit_result unexpected (node_ok done) = ok tt
unit_result unexpected (node_ok (error_response e)) = err (internal e)
unit_result unexpected (node_ok r) = err (internal unexpected)
unit_result unexpected (node_err e) = err (internal "network error")

-- As `unit_result`, with the text of an error read for what it says.
abbrev pub insert_result : NodeResult CoordinatorResponse → Result (Unit {0})
insert_result (node_ok done) = ok tt
insert_result (node_ok (error_response e)) =
    if has_text "already" e then err already_leased else err (internal e)
insert_result (node_ok r) = err (internal "unexpected response to insert lease")
insert_result (node_err e) = err (internal "network error")

abbrev pub lease_result : NodeResult CoordinatorResponse → Result (Option Lease)
lease_result (node_ok (lease_response l)) = ok l
lease_result (node_ok (error_response e)) = err (internal e)
lease_result (node_ok r) = err (internal "unexpected response to get lease")
lease_result (node_err e) = err (internal "network error")

abbrev pub leases_result : NodeResult CoordinatorResponse → Result (List Lease)
leases_result (node_ok (leases_response ls)) = ok ls
leases_result (node_ok (error_response e)) = err (internal e)
leases_result (node_ok r) = err (internal "unexpected response to active leases")
leases_result (node_err e) = err (internal "network error")

abbrev pub dequeue_result : NodeResult CoordinatorResponse → Result (Option TaskDescriptor)
dequeue_result (node_ok (dequeued task)) = ok task
dequeue_result (node_ok (error_response e)) = err (internal e)
dequeue_result (node_ok r) = err (internal "unexpected response to dequeue")
dequeue_result (node_err e) = err (internal "network error")

abbrev pub locations_result : NodeResult CoordinatorResponse → NodeResult (List CacheLocation)
locations_result (node_ok (cache_locations ls)) = node_ok ls
locations_result (node_ok (error_response e)) = node_err (core_error e)
locations_result (node_ok r) = node_err (core_error "unexpected response to query cache")
locations_result (node_err e) = node_err e

abbrev pub announce_result : NodeResult CoordinatorResponse → NodeResult (Unit {0})
announce_result (node_ok done) = node_ok tt
announce_result (node_ok (error_response e)) = node_err (core_error e)
announce_result (node_ok r) = node_err (core_error "unexpected response to announce cache")
announce_result (node_err e) = node_err e

-- At the readings of the coordinator's clocks and with the network's doing.
module _ (utc now : ℕ) (fate : Fate) where
  -- `NetworkLeaseStore`.
  unfoldable pub insert_lease : Lease → NodeConnection → NodeConnection × Result (Unit {0})
  unfolding request
  insert_lease l k =
      let (k', r) = request utc now fate (insert_lease_request l) k in (k', insert_result r)

  unfoldable pub get_lease : TaskId → NodeConnection → NodeConnection × Result (Option Lease)
  unfolding request
  get_lease task k =
      let (k', r) = request utc now fate (get_lease_request task) k in (k', lease_result r)

  unfoldable pub update_lease : Lease → NodeConnection → NodeConnection × Result (Unit {0})
  unfolding request
  update_lease l k =
      let (k', r) = request utc now fate (update_lease_request l) k in
      (k', unit_result "unexpected response to update lease" r)

  unfoldable pub remove_lease : TaskId → NodeConnection → NodeConnection × Result (Unit {0})
  unfolding request
  remove_lease task k =
      let (k', r) = request utc now fate (remove_lease_request task) k in
      (k', unit_result "unexpected response to remove lease" r)

  unfoldable pub active_leases : NodeConnection → NodeConnection × Result (List Lease)
  unfolding request
  active_leases k =
      let (k', r) = request utc now fate active_leases_request k in (k', leases_result r)

  -- `NetworkQueue`.
  unfoldable pub dequeue :
      WorkerId → NodeConnection → NodeConnection × Result (Option TaskDescriptor)
  unfolding request
  dequeue worker k =
      let (k', r) = request utc now fate (dequeue_request worker) k in (k', dequeue_result r)

  unfoldable pub requeue : TaskId → ℕ → NodeConnection → NodeConnection × Result (Unit {0})
  unfolding request
  requeue task attempt k =
      let (k', r) = request utc now fate (requeue_request task attempt) k in
      (k', unit_result "unexpected response to requeue" r)

  unfoldable pub discard : TaskId → NodeConnection → NodeConnection × Result (Unit {0})
  unfolding request
  discard task k =
      let (k', r) = request utc now fate (discard_request task) k in
      (k', unit_result "unexpected response to discard" r)

  -- `NetworkEventSink`: a response is not looked at.
  unfoldable pub emit_event : TaskEvent → NodeConnection → NodeConnection × Result (Unit {0})
  unfolding request
  emit_event event k = ((request utc now fate (emit_event_request event) k).0, ok tt)

  unfoldable pub emit_log : LogLine → NodeConnection → NodeConnection × Result (Unit {0})
  unfolding request
  emit_log line k = ((request utc now fate (emit_log_request line) k).0, ok tt)

  -- `NetworkCacheClient`.
  unfoldable pub query_locations :
      String → NodeConnection → NodeConnection × NodeResult (List CacheLocation)
  unfolding request
  query_locations key k =
      let (k', r) = request utc now fate (query_cache key) k in (k', locations_result r)

  unfoldable pub announce :
      String → String → NodeConnection → NodeConnection × NodeResult (Unit {0})
  unfolding request
  announce key path k =
      let (k', r) = request utc now fate (announce_cache key path) k in (k', announce_result r)

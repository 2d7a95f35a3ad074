-- ===== src/Node/Clients/Examples.antt =====
-- A node that is connected to a coordinator at its start.
use knitting_crab.Prelude.{◌≡◌, refl, true, none, [], ◌∷◌}
use knitting_crab.Core.Sample.{one_core}
use knitting_crab.Core.Error.{ok}
use knitting_crab.Leases.{Lease, active}
use knitting_crab.Leases.InMemory
use knitting_crab.Coordinator.State.{new_state, active_leases_request}
use knitting_crab.Node.{NodeConnection, answers, unsent, unanswered, node_err, transport_error}
use knitting_crab.Node.Connection.{request}
use knitting_crab.Node.Connection.Stuck.{reconnect_rounds, request-unsent}
use knitting_crab.Node.Clients.{insert_lease, get_lease, update_lease, remove_lease, active_leases}
use knitting_crab.Node.Clients.Answered.{as_seen, answered_lem}
use knitting_crab.Node.Clients.Truth.{Tells, insert_lease-Tells}

abbrev node : NodeConnection
node = record {
  is_connected = true;
  worker_id = 7;
  hostname = "studio";
  capacity = one_core;
  server = new_state;
  session = none;
}

abbrev lease : Lease
lease = record {
  lease_id = 100;
  task_id = 3;
  worker_id = 7;
  state = active;
  acquired_at = 10;
  expires_at = 40;
  attempt = 0;
}

answered_lem_example :
    let s = node.server.lease_store in
    let inserted = insert_lease 1 2 answers lease node in
    let updated = update_lease 1 2 answers lease node in
    let removed = remove_lease 1 2 answers 3 node in
    let got = get_lease 1 2 answers 3 node in
    let listed = active_leases 1 2 answers node in
    ((inserted.0.server.lease_store ≡ (InMemory.insert_lease lease s).0)
      × (inserted.1 ≡ as_seen "insert lease failed" (InMemory.insert_lease lease s).1))
    × ((updated.0.server.lease_store ≡ (InMemory.update_lease lease s).0)
        × (updated.1 ≡ as_seen "update lease failed" (InMemory.update_lease lease s).1))
    × ((removed.0.server.lease_store ≡ (InMemory.remove_lease 3 s).0)
        × (removed.1 ≡ as_seen "remove lease failed" (InMemory.remove_lease 3 s).1))
    × ((got.0.server.lease_store ≡ s)
        × (got.1 ≡ as_seen "get lease failed" (InMemory.get_lease 3 s)))
    × ((listed.0.server.lease_store ≡ s) × (listed.1 ≡ ok (InMemory.active_leases s)))
answered_lem_example = answered_lem 1 2 node lease 3 refl

insert_lease-Tells_example :
    let r = insert_lease 1 2 (unanswered "reset") lease node in
    Tells lease node.server.lease_store r.0.server.lease_store r.1
insert_lease-Tells_example = insert_lease-Tells 1 2 (unanswered "reset") lease node

request-unsent_example :
    let r = request 1 2 (unsent "broken pipe") active_leases_request node in
    (r.1 ≡ node_err (transport_error "broken pipe"))
    × (reconnect_rounds ((3, 4, answers) ∷ []) (r.0, 1) ≡ (node, 1))
request-unsent_example =
    request-unsent 1 2 "broken pipe" active_leases_request node ((3, 4, answers) ∷ []) 1 refl

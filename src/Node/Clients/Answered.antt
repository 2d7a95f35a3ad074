-- ===== src/Node/Clients/Answered.antt =====
-- The lease store of a node while its requests are answered, and the coordinator's.
use knitting_crab.Prelude.{ℕ, ◌≡◌, refl, ap, ◌∙◌, true, Bool-cases, inl, inr, has_key, String}
use knitting_crab.Core.Task.{TaskId}
use knitting_crab.Core.Error.{
  already_leased, lease_not_found, stale_lease_id, internal, lock_poisoned, cyclic_dependency,
  unknown_dependency, duplicate_task, dependency_failed, Result, ok, err,
}
use knitting_crab.Leases.{Lease}
use knitting_crab.Leases.InMemory
use knitting_crab.Coordinator.State.{
  insert_lease_request, update_lease_request, remove_lease_request, get_lease_request,
  active_leases_request,
}
use knitting_crab.Coordinator.Server.{handle_request, insert_response, unit_response}
use knitting_crab.Node.{node_ok, answers, NodeConnection}
use knitting_crab.Node.Connection.{exchange, request-connected}
use knitting_crab.Node.Clients.{
  unit_result, insert_result, lease_result, leases_result, insert_lease, get_lease, update_lease,
  remove_lease, active_leases,
}

-- A result as it comes over the network: an error is a text, but for a task that is already leased.
abbrev pub as_seen {ℓ} : {A : Type ℓ} → String → Result A → Result A
as_seen message (ok a) = ok a
as_seen message (err already_leased) = err already_leased
as_seen message (err e) = err (internal message)

insert_seen :
    (r : Result (Unit {0}))
    → insert_result (node_ok (insert_response r)) ≡ as_seen "insert lease failed" r
insert_seen (ok u) = refl
insert_seen (err already_leased) = refl
insert_seen (err lease_not_found) = refl
insert_seen (err stale_lease_id) = refl
insert_seen (err (internal e)) = refl
insert_seen (err (lock_poisoned e)) = refl
insert_seen (err (cyclic_dependency t)) = refl
insert_seen (err (unknown_dependency t)) = refl
insert_seen (err (duplicate_task t)) = refl
insert_seen (err (dependency_failed t)) = refl

update_seen :
    (l : Lease) (s : InMemory.InMemoryLeaseStore)
    → unit_result "unexpected response to update lease"
        (node_ok (unit_response "update lease failed" (InMemory.update_lease l s).1))
      ≡ as_seen "update lease failed" (InMemory.update_lease l s).1
unfolding InMemory.update_lease
update_seen l s = elim (Bool-cases (has_key l.task_id s)) [
  | inl held ↦ rw (held) refl
  | inr free ↦ rw (free) refl
]

-- Of a connection that answers, at any time: each operation of the node's lease store changes the
-- leases of the coordinator as the store in memory does, or leaves them as that does, and its
-- result is that of the store in memory, where an error other than an existing lease is a text.
pub answered_lem :
    (utc now : ℕ) (k : NodeConnection) (l : Lease) (task : TaskId)
    → k.is_connected ≡ true
    → let s = k.server.lease_store in
      let inserted = insert_lease utc now answers l k in
      let updated = update_lease utc now answers l k in
      let removed = remove_lease utc now answers task k in
      let got = get_lease utc now answers task k in
      let listed = active_leases utc now answers k in
      ((inserted.0.server.lease_store ≡ (InMemory.insert_lease l s).0)
        × (inserted.1 ≡ as_seen "insert lease failed" (InMemory.insert_lease l s).1))
      × ((updated.0.server.lease_store ≡ (InMemory.update_lease l s).0)
          × (updated.1 ≡ as_seen "update lease failed" (InMemory.update_lease l s).1))
      × ((removed.0.server.lease_store ≡ (InMemory.remove_lease task s).0)
          × (removed.1 ≡ as_seen "remove lease failed" (InMemory.remove_lease task s).1))
      × ((got.0.server.lease_store ≡ s)
          × (got.1 ≡ as_seen "get lease failed" (InMemory.get_lease task s)))
      × ((listed.0.server.lease_store ≡ s) × (listed.1 ≡ ok (InMemory.active_leases s)))
unfolding insert_lease update_lease remove_lease get_lease active_leases exchange handle_request
    InMemory.remove_lease InMemory.get_lease
answered_lem utc now k l task h =
    let insertion = request-connected utc now answers (insert_lease_request l) k h in
    let update = request-connected utc now answers (update_lease_request l) k h in
    let removal = request-connected utc now answers (remove_lease_request task) k h in
    let look = request-connected utc now answers (get_lease_request task) k h in
    let listing = request-connected utc now answers active_leases_request k h in
    (
      (
        ap (λ r. r.0.server.lease_store) insertion,
        ap (λ r. insert_result r.1) insertion
            ∙ insert_seen (InMemory.insert_lease l k.server.lease_store).1,
      ),
      (
        ap (λ r. r.0.server.lease_store) update,
        ap (λ r. unit_result "unexpected response to update lease" r.1) update
            ∙ update_seen l k.server.lease_store,
      ),
      (
        ap (λ r. r.0.server.lease_store) removal,
        ap (λ r. unit_result "unexpected response to remove lease" r.1) removal,
      ),
      (ap (λ r. r.0.server.lease_store) look, ap (λ r. lease_result r.1) look),
      (ap (λ r. r.0.server.lease_store) listing, ap (λ r. leases_result r.1) listing),
    )

-- ===== src/Coordinator/Server/Lost.antt =====
-- What becomes of a task whose worker is lost, or which is to be tried again: its place in the queue
-- and its lease.
use knitting_crab.Prelude.{
  ℕ, ◌≡◌, refl, sym, ap, ◌∙◌, false, Option, none, some, List, [], ◌∷◌, map, contains, lookup,
  has_key, arith,
}
use knitting_crab.Core.Task.{TaskId, WorkerId, TaskDescriptor}
use knitting_crab.Leases.{Lease}
use knitting_crab.Leases.InMemory.{active_leases, insert_lease}
use knitting_crab.Nodes.{stale_nodes, unhealthy_nodes}
use knitting_crab.Coordinator.Stub.{StubScheduler, dequeue, update_first, push_found, requeue}
use knitting_crab.Coordinator.State.{
  CoordinatorState, dequeue_task, insert_lease_request, requeue_request, dequeue_request, dequeued,
  error_response,
}
use knitting_crab.Coordinator.Server.{handle_request, drop_node, reap_node, reap_nodes, reap}
use knitting_crab.Coordinator.Server.Known.{requeue_leases-registry}

abbrev pub queued_ids : StubScheduler → List TaskId
queued_ids = map (λ t. t.task_id)

update_first-missing :
    (id : TaskId) (attempt : ℕ) (q : StubScheduler)
    → contains id (queued_ids q) ≡ false
    → update_first id attempt q ≡ (q, none)
unfolding update_first
update_first-missing id attempt [] h = refl
update_first-missing id attempt (task ∷ q) h =
    let later = update_first-missing id attempt q in ground arith

requeue-missing :
    (id : TaskId) (attempt : ℕ) (q : StubScheduler)
    → contains id (queued_ids q) ≡ false
    → requeue id attempt q ≡ q
unfolding requeue
requeue-missing id attempt q h = ap (λ r. push_found r.1 r.0) (update_first-missing id attempt q h)

-- A task that the queue holds once is handed out; a request to queue it again then changes nothing.
pub requeue-dequeued :
    (utc now : ℕ) (worker : WorkerId) (attempt : ℕ) (c : Option WorkerId) (s : CoordinatorState)
    (task : TaskDescriptor) (rest : StubScheduler)
    → s.queue ≡ task ∷ rest
    → contains task.task_id (queued_ids rest) ≡ false
    → let served = handle_request utc now (dequeue_request worker) c s in
      (served.response ≡ dequeued (some task))
      × (served.state.queue ≡ rest)
      × ((handle_request utc now (requeue_request task.task_id attempt) c served.state).state
          ≡ served.state)
unfolding handle_request dequeue_task dequeue requeue
requeue-dequeued utc now worker attempt c s task rest q h =
    let d : dequeue s.queue ≡ (rest, some task) = ap dequeue q in
    let left : (dequeue s.queue).0 ≡ rest = ap (λ r. r.0) d in
    (
      ap (λ r. dequeued r.1) d,
      left,
      ap (λ x. record s { queue = x })
          (ap (requeue task.task_id attempt) left
            ∙ requeue-missing task.task_id attempt rest h
            ∙ sym left),
    )

reap_node-lease_store :
    (worker : WorkerId) (s : CoordinatorState) → (reap_node worker s).lease_store ≡ s.lease_store
unfolding reap_node drop_node
reap_node-lease_store worker s =
    let (r, c, l) = requeue_leases-registry worker (active_leases s.lease_store) s in l

reap_nodes-lease_store :
    (workers : List WorkerId) (s : CoordinatorState)
    → (reap_nodes workers s).lease_store ≡ s.lease_store
unfolding reap_nodes
reap_nodes-lease_store [] s = refl
reap_nodes-lease_store (worker ∷ workers) s =
    reap_nodes-lease_store workers (reap_node worker s) ∙ reap_node-lease_store worker s

reap-lease_store :
    (timeout now : ℕ) (s : CoordinatorState) → (reap timeout now s).lease_store ≡ s.lease_store
unfolding reap
reap-lease_store timeout now s =
    let stale = stale_nodes timeout now s.node_registry in
    let t = reap_nodes stale s in
    reap_nodes-lease_store (unhealthy_nodes t.node_registry) t ∙ reap_nodes-lease_store stale s

insert_lease-leased :
    (utc now : ℕ) (l o : Lease) (c : Option WorkerId) (s : CoordinatorState)
    → lookup l.task_id s.lease_store ≡ some o
    → (handle_request utc now (insert_lease_request l) c s).response
      ≡ error_response "already leased"
unfolding handle_request insert_lease has_key
insert_lease-leased utc now l o c s h = rw (h, insert_lease) refl

-- A round of the reaper leaves every lease as it was. So after a node is reaped, a worker that asks
-- for a lease of a task that the node had leased is refused.
pub reap_leased :
    (utc timeout now later : ℕ) (c : Option WorkerId) (s : CoordinatorState) (l o : Lease)
    → lookup l.task_id s.lease_store ≡ some o
    → ((reap timeout now s).lease_store ≡ s.lease_store)
      × ((handle_request utc later (insert_lease_request l) c (reap timeout now s)).response
          ≡ error_response "already leased")
reap_leased utc timeout now later c s l o h =
    let same = reap-lease_store timeout now s in
    (
      same,
      insert_lease-leased utc later l o c (reap timeout now s)
          (ap (λ m. lookup l.task_id m) same ∙ h),
    )

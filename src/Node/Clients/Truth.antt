-- ===== src/Node/Clients/Truth.antt =====
-- What the result of an insertion tells a node, whatever the network does.
use knitting_crab.Prelude.{
  ℕ, ◌≡◌, refl, sym, ap, subst, true, false, Bool-cases, Option-cases, inl, inr, ◌⊎◌, none, lookup,
  insert, has_key, is_some,
}
use knitting_crab.Core.Error.{already_leased, Result, ok, err}
use knitting_crab.Leases.{Lease}
use knitting_crab.Leases.InMemory
use knitting_crab.Leases.InMemory.{InMemoryLeaseStore}
use knitting_crab.Coordinator.State.{insert_lease_request}
use knitting_crab.Coordinator.Server.{handle_request, close_connection, drop_node, insert_response}
use knitting_crab.Node.{node_ok, Fate, answers, unsent, unanswered, closes, NodeConnection}
use knitting_crab.Node.Connection.{served, exchange, ended_stream, request-connected, request-lost}
use knitting_crab.Node.Clients.{insert_result, insert_lease}

-- The leases after an insertion, by its result: it was made; another lease stood there and nothing
-- changed; or either of these, or nothing at all, and the node cannot tell.
abbrev pub Tells : Lease → InMemoryLeaseStore → InMemoryLeaseStore → Result (Unit {0}) → Type 0
Tells l s s' (ok u) = (lookup l.task_id s ≡ none) × (s' ≡ insert l.task_id l s)
Tells l s s' (err already_leased) = (is_some (lookup l.task_id s) ≡ true) × (s' ≡ s)
Tells l s s' (err e) = (s' ≡ s) ⊎ ((lookup l.task_id s ≡ none) × (s' ≡ insert l.task_id l s))

ended_stream-leases :
    (k : NodeConnection) → (ended_stream k).server.lease_store ≡ k.server.lease_store
unfolding ended_stream close_connection drop_node
ended_stream-leases k = elim (Option-cases k.session) [
  | inl open_session ↦ rw (open_session) refl
  | inr (w, named) ↦ rw (named) refl
]

-- The coordinator's own insertion.
insertion-Tells :
    (l : Lease) (s : InMemoryLeaseStore)
    → Tells l s
        (InMemory.insert_lease l s).0
        (insert_result (node_ok (insert_response (InMemory.insert_lease l s).1)))
unfolding InMemory.insert_lease has_key
insertion-Tells l s = elim (Option-cases (lookup l.task_id s)) [
  | inl free ↦ rw (free) (free, refl)
  | inr (o, held) ↦ rw (held) (ap is_some held, refl)
]

-- What an insertion may have done when its response is lost.
insertion_unknown :
    (l : Lease) (s : InMemoryLeaseStore)
    → ((InMemory.insert_lease l s).0 ≡ s)
      ⊎ ((lookup l.task_id s ≡ none) × ((InMemory.insert_lease l s).0 ≡ insert l.task_id l s))
unfolding InMemory.insert_lease has_key
insertion_unknown l s = elim (Option-cases (lookup l.task_id s)) [
  | inl free ↦ rw (free) (inr (refl, refl))
  | inr (o, held) ↦ rw (held) (inl refl)
]

exchange-Tells :
    (utc now : ℕ) (fate : Fate) (l : Lease) (k : NodeConnection)
    → let r = exchange utc now fate (insert_lease_request l) k in
      Tells l k.server.lease_store r.0.server.lease_store (insert_result r.1)
unfolding exchange handle_request
exchange-Tells utc now answers l k = insertion-Tells l k.server.lease_store
exchange-Tells utc now (unsent e) l k = inl refl
exchange-Tells utc now (unanswered e) l k = insertion_unknown l k.server.lease_store
exchange-Tells utc now (closes false) l k = inl (ended_stream-leases k)
exchange-Tells utc now (closes true) l k =
    subst
      (λ t.
        (t ≡ k.server.lease_store)
        ⊎ ((lookup l.task_id k.server.lease_store ≡ none)
            × (t ≡ insert l.task_id l k.server.lease_store)))
      (sym (
        ended_stream-leases
          (served (handle_request utc now (insert_lease_request l) k.session k.server) k)))
      (insertion_unknown l k.server.lease_store)

-- Whatever the network does with an insertion: success means that the task had no lease and that the
-- coordinator has stored this one, a refusal that the task has a lease and nothing changed, and any
-- other error that one of these has happened to the leases, nothing or the insertion.
pub insert_lease-Tells :
    (utc now : ℕ) (fate : Fate) (l : Lease) (k : NodeConnection)
    → let r = insert_lease utc now fate l k in
      Tells l k.server.lease_store r.0.server.lease_store r.1
unfolding insert_lease
insert_lease-Tells utc now fate l k = elim (Bool-cases k.is_connected) [
  | inl held ↦
      subst (λ r. Tells l k.server.lease_store r.0.server.lease_store (insert_result r.1))
        (sym (request-connected utc now fate (insert_lease_request l) k held))
        (exchange-Tells utc now fate l k)
  | inr lost ↦
      subst (λ r. Tells l k.server.lease_store r.0.server.lease_store (insert_result r.1))
        (sym (request-lost utc now fate (insert_lease_request l) k lost)) (inl refl)
]

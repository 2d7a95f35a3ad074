-- ===== src/Coordinator/Server/Known.antt =====
-- The locations in the cache index and the nodes that the coordinator knows.
use knitting_crab.Prelude.{
  ℕ, ◌+◌, ◌%◌, u32_mod, ◌==◌, ◌≡◌, refl, sym, ap, subst, ◌∙◌, Bool, true, not, Option, none, some,
  List, [], ◌∷◌, ◌++◌, String, All, All-map, Map, lookup, insert, remove, has_key, is_some, retain,
  same_text, lookup-insert, lookup-remove, arith, Bool-cases, inl, inr,
}
use knitting_crab.Core.Task.{WorkerId}
use knitting_crab.Leases.{Lease}
use knitting_crab.Leases.InMemory.{active_leases}
use knitting_crab.Coordinator.Stub.{requeue}
use knitting_crab.Nodes.{
  NodeInfo, NodeRegistry, register, heartbeat, remove_node, get_node_info, record_probe_success,
  record_probe_failure, stale_nodes, unhealthy_nodes, all_nodes,
}
use knitting_crab.Coordinator.Cache.{
  CacheIndexEntry, CacheIndex, announce, drop_entries, evict_node, has_entries,
}
use knitting_crab.Coordinator.State.{
  CoordinatorState, dequeue_task, CoordinatorRequest, register_node, node_heartbeat,
  dequeue_request, requeue_request, discard_request, insert_lease_request, get_lease_request,
  update_lease_request, remove_lease_request, active_leases_request, emit_event_request,
  emit_log_request, query_cache, announce_cache,
}
use knitting_crab.Coordinator.Server.{
  handle_request, announce_for, announce_registered, drop_node, close_connection, requeue_leases,
  reap_node, reap_nodes, reap, probe_node, probe_nodes, probe_all,
}

-- Each entry of a list, and each entry of the index, is on a node of the map.
abbrev pub OnKnown : Map NodeInfo → List CacheIndexEntry → Type 0
OnKnown nodes = All λ e. has_key e.worker_id nodes ≡ true

abbrev pub AllKnown : Map NodeInfo → CacheIndex → Type 0
AllKnown nodes = All λ row. OnKnown nodes row.1

-- Each node is filed under its own identifier.
abbrev pub IsFiled : Map NodeInfo → Type 0
IsFiled nodes = (k : WorkerId) (info : NodeInfo) → lookup k nodes ≡ some info → info.worker_id ≡ k

pub record IsKnown (s : CoordinatorState) : Type 0 where
  pub filed : IsFiled s.node_registry.nodes
  pub known : AllKnown s.node_registry.nodes s.cache_index

OnKnown-append :
    (nodes : Map NodeInfo) (es : List CacheIndexEntry) (e : CacheIndexEntry)
    → OnKnown nodes es
    → has_key e.worker_id nodes ≡ true
    → OnKnown nodes (es ++ e ∷ [])
OnKnown-append nodes [] e a h = (h, tt)
OnKnown-append nodes (x ∷ es) e (b, a) h = (b, OnKnown-append nodes es e a h)

AllKnown-announce :
    (nodes : Map NodeInfo) (key : String) (e : CacheIndexEntry) (index : CacheIndex)
    → AllKnown nodes index
    → has_key e.worker_id nodes ≡ true
    → AllKnown nodes (announce key e index)
unfolding announce
AllKnown-announce nodes key e [] a h = ((h, tt), tt)
AllKnown-announce nodes key e ((name, es) ∷ index) (a, later) h =
    elim (Bool-cases (same_text name key)) [
      | inl same ↦ rw (same) (OnKnown-append nodes es e a h, later)
      | inr other ↦ rw (other) (a, AllKnown-announce nodes key e index later h)
    ]

-- A node more is no harm.
AllKnown-insert :
    (nodes : Map NodeInfo) (k : WorkerId) (info : NodeInfo) (index : CacheIndex)
    → AllKnown nodes index
    → AllKnown (insert k info nodes) index
unfolding has_key
AllKnown-insert nodes k info index =
    All-map index
      λ row. All-map row.1 λ e h. let f = lookup-insert k e.worker_id info nodes in ground arith

IsFiled-insert :
    (nodes : Map NodeInfo) (info : NodeInfo)
    → IsFiled nodes
    → IsFiled (insert info.worker_id info nodes)
IsFiled-insert nodes info f k i h =
    let e = lookup-insert info.worker_id k info nodes in let g = f k i in ground arith

-- What is left after a node's entries are taken out is on the nodes that are left.
OnKnown-retain :
    (nodes : Map NodeInfo) (worker : WorkerId) (es : List CacheIndexEntry)
    → OnKnown nodes es
    → OnKnown (remove worker nodes) (retain (λ e. not (e.worker_id == worker)) es)
unfolding has_key
OnKnown-retain nodes worker [] a = tt
OnKnown-retain nodes worker (e ∷ es) (a, later) =
    let f = lookup-remove worker e.worker_id nodes in
    let rest = OnKnown-retain nodes worker es later in
    elim (Bool-cases (e.worker_id == worker)) [
      | inl same ↦ rw (same) rest
      | inr other ↦ rw (other) (ground arith, rest)
    ]

AllKnown-drop_entries :
    (nodes : Map NodeInfo) (worker : WorkerId) (index : CacheIndex)
    → AllKnown nodes index
    → AllKnown (remove worker nodes) (drop_entries worker index)
unfolding drop_entries
AllKnown-drop_entries nodes worker [] a = tt
AllKnown-drop_entries nodes worker ((name, es) ∷ index) (a, later) =
    (OnKnown-retain nodes worker es a, AllKnown-drop_entries nodes worker index later)

All-retain :
    (P : List CacheIndexEntry → Type 0) (p : List CacheIndexEntry → Bool) (index : CacheIndex)
    → All (λ row. P row.1) index
    → All (λ row. P row.1) (retain (λ row. p row.1) index)
All-retain P p [] h = tt
All-retain P p ((name, es) ∷ index) (h, hs) =
    let rest = All-retain P p index hs in
    elim (Bool-cases (p es)) [ inl keep ↦ rw (keep) (h, rest) | inr drop ↦ rw (drop) rest ]

IsFiled-remove :
    (nodes : Map NodeInfo) (worker : WorkerId) → IsFiled nodes → IsFiled (remove worker nodes)
IsFiled-remove nodes worker f k i h =
    let e = lookup-remove worker k nodes in let g = f k i in ground arith

drop_node-IsKnown :
    (worker : WorkerId) (s : CoordinatorState) → IsKnown s → IsKnown (drop_node worker s)
unfolding drop_node remove_node evict_node
drop_node-IsKnown worker s i =
    let nodes = s.node_registry.nodes in
    record {
      filed = IsFiled-remove nodes worker i.filed;
      known =
          All-retain (OnKnown (remove worker nodes)) has_entries (drop_entries worker s.cache_index)
            (AllKnown-drop_entries nodes worker s.cache_index i.known);
    }

pub close_connection-IsKnown :
    (c : Option WorkerId) (s : CoordinatorState) → IsKnown s → IsKnown (close_connection c s)
unfolding close_connection
close_connection-IsKnown none s i = i
close_connection-IsKnown (some worker) s i = drop_node-IsKnown worker s i

-- The queue and the leases do not matter.
other_queue-IsKnown :
    (s t : CoordinatorState)
    → t.node_registry ≡ s.node_registry
    → t.cache_index ≡ s.cache_index
    → IsKnown s
    → IsKnown t
other_queue-IsKnown s t r c i = record {
  filed = subst (λ x. IsFiled x.nodes) (sym r) i.filed;
  known =
      subst (λ x. AllKnown x.nodes t.cache_index) (sym r)
        (subst (AllKnown s.node_registry.nodes) (sym c) i.known);
}

pub requeue_leases-registry :
    (worker : WorkerId) (ls : List Lease) (s : CoordinatorState)
    → ((requeue_leases worker ls s).node_registry ≡ s.node_registry)
      × ((requeue_leases worker ls s).cache_index ≡ s.cache_index)
      × ((requeue_leases worker ls s).lease_store ≡ s.lease_store)
unfolding requeue_leases
requeue_leases-registry worker [] s = (refl, refl, refl)
requeue_leases-registry worker (l ∷ ls) s =
    let s' : CoordinatorState = record s {
      queue = requeue l.task_id ((l.attempt + 1) % u32_mod) s.queue;
    } in
    elim (Bool-cases (l.worker_id == worker)) [
      | inl mine ↦ rw (mine, requeue_leases) (requeue_leases-registry worker ls s')
      | inr other ↦ rw (other, requeue_leases) (requeue_leases-registry worker ls s)
    ]

reap_nodes-IsKnown :
    (workers : List WorkerId) (s : CoordinatorState) → IsKnown s → IsKnown (reap_nodes workers s)
unfolding reap_nodes reap_node
reap_nodes-IsKnown [] s i = i
reap_nodes-IsKnown (worker ∷ workers) s i =
    let ls = active_leases s.lease_store in
    let (r, c, l) = requeue_leases-registry worker ls s in
    reap_nodes-IsKnown workers (reap_node worker s) (
      drop_node-IsKnown worker (requeue_leases worker ls s)
        (other_queue-IsKnown s (requeue_leases worker ls s) r c i))

pub reap-IsKnown :
    (timeout now : ℕ) (s : CoordinatorState) → IsKnown s → IsKnown (reap timeout now s)
unfolding reap
reap-IsKnown timeout now s i =
    let t = reap_nodes (stale_nodes timeout now s.node_registry) s in
    reap_nodes-IsKnown (unhealthy_nodes t.node_registry) t
      (reap_nodes-IsKnown (stale_nodes timeout now s.node_registry) s i)

probe_nodes-nodes :
    (probe : String → ℕ → Bool) (port : ℕ) (infos : List NodeInfo) (r : NodeRegistry)
    → (probe_nodes probe port infos r).nodes ≡ r.nodes
unfolding probe_nodes probe_node record_probe_success record_probe_failure
probe_nodes-nodes probe port [] r = refl
probe_nodes-nodes probe port (info ∷ infos) r = elim (Bool-cases (probe info.hostname port)) [
  | inl up ↦
      rw (up, probe_nodes, probe_node)
        (probe_nodes-nodes probe port infos (record_probe_success info.worker_id r))
  | inr down ↦
      rw (down, probe_nodes, probe_node)
        (probe_nodes-nodes probe port infos (record_probe_failure info.worker_id r))
]

pub probe_all-IsKnown :
    (probe : String → ℕ → Bool) (port : ℕ) (s : CoordinatorState)
    → IsKnown s
    → IsKnown (record s { node_registry = probe_all probe port s.node_registry })
unfolding probe_all
probe_all-IsKnown probe port s i =
    let e = probe_nodes-nodes probe port (all_nodes s.node_registry) s.node_registry in
    record {
      filed = subst IsFiled (sym e) i.filed;
      known = subst (λ n. AllKnown n s.cache_index) (sym e) i.known;
    }

announce_for-IsKnown :
    (worker : WorkerId) (found : Option NodeInfo) (key path : String) (s : CoordinatorState)
    → get_node_info worker s.node_registry ≡ found
    → IsKnown s
    → IsKnown (announce_for found key path s).0
unfolding announce_for get_node_info has_key
announce_for-IsKnown worker none key path s e i = i
announce_for-IsKnown worker (some info) key path s e i =
    let same = i.filed worker info e in
    record {
      filed = i.filed;
      known =
          AllKnown-announce s.node_registry.nodes key
            (record { worker_id = info.worker_id; hostname = info.hostname; path = path })
            s.cache_index i.known
            (ap (λ k. is_some (lookup k s.node_registry.nodes)) same ∙ ap is_some e);
    }

announce_registered-IsKnown :
    (c : Option WorkerId) (key path : String) (s : CoordinatorState)
    → IsKnown s
    → IsKnown (announce_registered c key path s).0
unfolding announce_registered
announce_registered-IsKnown none key path s i = i
announce_registered-IsKnown (some worker) key path s i =
    announce_for-IsKnown worker (get_node_info worker s.node_registry) key path s refl i

pub handle_request-IsKnown :
    (utc now : ℕ) (request : CoordinatorRequest) (c : Option WorkerId) (s : CoordinatorState)
    → IsKnown s
    → IsKnown (handle_request utc now request c s).state
unfolding handle_request register heartbeat dequeue_task
handle_request-IsKnown utc now (register_node worker hostname capacity is_production) c s i =
    let info : NodeInfo = record {
      worker_id = worker;
      hostname = hostname;
      capacity = capacity;
      registered_at = utc;
      is_production = is_production;
    } in
    record {
      filed = IsFiled-insert s.node_registry.nodes info i.filed;
      known = AllKnown-insert s.node_registry.nodes worker info s.cache_index i.known;
    }
handle_request-IsKnown utc now (announce_cache key path) c s i =
    announce_registered-IsKnown c key path s i
handle_request-IsKnown utc now (node_heartbeat worker) c s i = record {
  filed = i.filed;
  known = i.known;
}
handle_request-IsKnown utc now (dequeue_request worker) c s i = record {
  filed = i.filed;
  known = i.known;
}
handle_request-IsKnown utc now (requeue_request task attempt) c s i = record {
  filed = i.filed;
  known = i.known;
}
handle_request-IsKnown utc now (discard_request task) c s i = record {
  filed = i.filed;
  known = i.known;
}
handle_request-IsKnown utc now (insert_lease_request l) c s i = record {
  filed = i.filed;
  known = i.known;
}
handle_request-IsKnown utc now (get_lease_request task) c s i = i
handle_request-IsKnown utc now (update_lease_request l) c s i = record {
  filed = i.filed;
  known = i.known;
}
handle_request-IsKnown utc now (remove_lease_request task) c s i = record {
  filed = i.filed;
  known = i.known;
}
handle_request-IsKnown utc now active_leases_request c s i = i
handle_request-IsKnown utc now (emit_event_request event) c s i = i
handle_request-IsKnown utc now (emit_log_request line) c s i = i
handle_request-IsKnown utc now (query_cache key) c s i = i

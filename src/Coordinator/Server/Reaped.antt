-- ===== src/Coordinator/Server/Reaped.antt =====
-- The stale and the unhealthy nodes after a round of the reaper.
use knitting_crab.Prelude.{
  ℕ, ◌==◌, ◌≡◌, refl, ap, ◌∙◌, true, false, List, [], ◌∷◌, Map, remove, contains, retain, not,
  contains-retain, arith, Bool-cases, inl, inr,
}
use knitting_crab.Core.Task.{WorkerId}
use knitting_crab.Nodes.{
  NodeRegistry, stale_entries, stale_nodes, unhealthy_entries, unhealthy_nodes, remove_node,
}
use knitting_crab.Leases.InMemory.{active_leases}
use knitting_crab.Coordinator.State.{CoordinatorState}
use knitting_crab.Coordinator.Server.{drop_node, reap_node, reap_nodes, reap}
use knitting_crab.Coordinator.Server.Known.{requeue_leases-registry}

-- The nodes that a list names, removed.
unfoldable pub remove_nodes : List WorkerId → NodeRegistry → NodeRegistry
unfolding remove_node
remove_nodes [] r = r
remove_nodes (worker ∷ workers) r = remove_nodes workers (remove_node worker r)

reap_node-registry :
    (worker : WorkerId) (s : CoordinatorState)
    → (reap_node worker s).node_registry ≡ remove_node worker s.node_registry
unfolding reap_node drop_node
reap_node-registry worker s =
    let (r, c, l) = requeue_leases-registry worker (active_leases s.lease_store) s in
    ap (remove_node worker) r

reap_nodes-registry :
    (workers : List WorkerId) (s : CoordinatorState)
    → (reap_nodes workers s).node_registry ≡ remove_nodes workers s.node_registry
unfolding reap_nodes remove_nodes
reap_nodes-registry [] s = refl
reap_nodes-registry (worker ∷ workers) s =
    reap_nodes-registry workers (reap_node worker s)
    ∙ ap (remove_nodes workers) (reap_node-registry worker s)

without : WorkerId → List WorkerId → List WorkerId
without worker = retain (λ k. not (k == worker))

stale_entries-remove :
    (timeout now : ℕ) (worker : WorkerId) (m : Map ℕ)
    → stale_entries timeout now (remove worker m) ≡ without worker (stale_entries timeout now m)
unfolding stale_entries remove without
stale_entries-remove timeout now worker [] = refl
stale_entries-remove timeout now worker ((k, seen) ∷ m) =
    let later = stale_entries-remove timeout now worker m in ground arith

unhealthy_entries-remove :
    (worker : WorkerId) (m : Map ℕ)
    → unhealthy_entries (remove worker m) ≡ without worker (unhealthy_entries m)
unfolding unhealthy_entries remove without
unhealthy_entries-remove worker [] = refl
unhealthy_entries-remove worker ((k, failures) ∷ m) =
    let later = unhealthy_entries-remove worker m in ground arith

subtract : List WorkerId → List WorkerId → List WorkerId
subtract [] ks = ks
subtract (worker ∷ workers) ks = subtract workers (without worker ks)

stale_nodes-remove_nodes :
    (timeout now : ℕ) (workers : List WorkerId) (r : NodeRegistry)
    → stale_nodes timeout now (remove_nodes workers r)
      ≡ subtract workers (stale_nodes timeout now r)
unfolding stale_nodes remove_nodes remove_node subtract
stale_nodes-remove_nodes timeout now [] r = refl
stale_nodes-remove_nodes timeout now (worker ∷ workers) r =
    stale_nodes-remove_nodes timeout now workers (remove_node worker r)
    ∙ ap (subtract workers) (stale_entries-remove timeout now worker r.last_seen)

unhealthy_nodes-remove_nodes :
    (workers : List WorkerId) (r : NodeRegistry)
    → unhealthy_nodes (remove_nodes workers r) ≡ subtract workers (unhealthy_nodes r)
unfolding unhealthy_nodes remove_nodes remove_node subtract
unhealthy_nodes-remove_nodes [] r = refl
unhealthy_nodes-remove_nodes (worker ∷ workers) r =
    unhealthy_nodes-remove_nodes workers (remove_node worker r)
    ∙ ap (subtract workers) (unhealthy_entries-remove worker r.probe_failures)

subtract-missing :
    (k : WorkerId) (workers ks : List WorkerId)
    → contains k ks ≡ false
    → contains k (subtract workers ks) ≡ false
unfolding subtract without
subtract-missing k [] ks h = h
subtract-missing k (worker ∷ workers) ks h =
    subtract-missing k workers (without worker ks)
      (let e = contains-retain k (λ j. not (j == worker)) ks in ground arith)

contains-subtract :
    (k : WorkerId) (workers ks : List WorkerId)
    → contains k workers ≡ true
    → contains k (subtract workers ks) ≡ false
unfolding subtract without
contains-subtract k [] ks h = cc
contains-subtract k (worker ∷ workers) ks h = elim (Bool-cases (contains k workers)) [
  | inl later ↦ contains-subtract k workers (without worker ks) later
  | inr here ↦
      subtract-missing k workers (without worker ks)
        (let e = contains-retain k (λ j. not (j == worker)) ks in ground arith)
]

contains_none : (ks : List WorkerId) → ((k : WorkerId) → contains k ks ≡ false) → ks ≡ []
contains_none [] h = refl
contains_none (k ∷ ks) h = let e = h k in ground arith

subtract_self : (ks : List WorkerId) → subtract ks ks ≡ []
subtract_self ks = contains_none (subtract ks ks) λ k. elim (Bool-cases (contains k ks)) [
  | inl there ↦ contains-subtract k ks ks there
  | inr missing ↦ subtract-missing k ks ks missing
]

subtract_none : (workers : List WorkerId) → subtract workers [] ≡ []
unfolding subtract without
subtract_none [] = refl
subtract_none (worker ∷ workers) = subtract_none workers

reap_stale :
    (timeout now : ℕ) (s : CoordinatorState)
    → stale_nodes timeout now (reap_nodes (stale_nodes timeout now s.node_registry) s).node_registry
      ≡ []
reap_stale timeout now s =
    let stale = stale_nodes timeout now s.node_registry in
    ap (stale_nodes timeout now) (reap_nodes-registry stale s)
    ∙ stale_nodes-remove_nodes timeout now stale s.node_registry
    ∙ subtract_self stale

reap_unhealthy :
    (s : CoordinatorState)
    → unhealthy_nodes (reap_nodes (unhealthy_nodes s.node_registry) s).node_registry ≡ []
reap_unhealthy s =
    let ill = unhealthy_nodes s.node_registry in
    ap unhealthy_nodes (reap_nodes-registry ill s)
    ∙ unhealthy_nodes-remove_nodes ill s.node_registry
    ∙ subtract_self ill

-- After a round of the reaper, no node that the registry has seen is stale at the time of the round,
-- and none is unhealthy.
pub reap_clears :
    (timeout now : ℕ) (s : CoordinatorState)
    → (stale_nodes timeout now (reap timeout now s).node_registry ≡ [])
      × (unhealthy_nodes (reap timeout now s).node_registry ≡ [])
unfolding reap
reap_clears timeout now s =
    let t = reap_nodes (stale_nodes timeout now s.node_registry) s in
    let ill = unhealthy_nodes t.node_registry in
    (
      ap (stale_nodes timeout now) (reap_nodes-registry ill t)
          ∙ stale_nodes-remove_nodes timeout now ill t.node_registry
          ∙ ap (subtract ill) (reap_stale timeout now s)
          ∙ subtract_none ill,
      reap_unhealthy t,
    )

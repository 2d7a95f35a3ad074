-- ===== src/Nodes/Laws.antt =====
-- The health of a node by its probes, and the lists of stale and unhealthy nodes.
use knitting_crab.Prelude.{
  ℕ, zero, suc, ◌+◌, ◌-◌, ◌<◌, ◌≡◌, refl, false, none, [], ◌∷◌, Map, lookup, remove, ltb, ◌==◌, min,
  contains, if◌then◌else◌, u32_mod, lookup-insert, lookup-remove, arith,
}
use knitting_crab.Core.Task.{WorkerId}
use knitting_crab.Nodes.{
  healthy, degraded, unhealthy, NodeRegistry, stale_entries, stale_nodes, remove_node,
  get_node_info, record_probe_success, or_zero, record_probe_failure, health_status,
  unhealthy_entries, unhealthy_nodes,
}

-- Probes that fail one after the other.
unfoldable pub fail_probes : ℕ → WorkerId → NodeRegistry → NodeRegistry
unfolding record_probe_failure
fail_probes zero id r = r
fail_probes (suc n) id r = fail_probes n id (record_probe_failure id r)

failures : WorkerId → NodeRegistry → ℕ
failures id r = or_zero (lookup id r.probe_failures)

failure_counts :
    (id : WorkerId) (r : NodeRegistry)
    → failures id (record_probe_failure id r) ≡ min (failures id r + 1) (u32_mod - 1)
unfolding failures record_probe_failure
failure_counts id r =
    let e =
      lookup-insert id id (min (or_zero (lookup id r.probe_failures) + 1) (u32_mod - 1))
        r.probe_failures in
    ground arith

fail_probes-failures :
    (n : ℕ) (id : WorkerId) (r : NodeRegistry)
    → failures id r + n < u32_mod
    → failures id (fail_probes n id r) ≡ failures id r + n
unfolding fail_probes
fail_probes-failures zero id r w = omega arith
fail_probes-failures (suc n) id r w =
    let e = failure_counts id r in
    let later = fail_probes-failures n id (record_probe_failure id r) (omega arith) in omega arith

success_clears : (id : WorkerId) (r : NodeRegistry) → failures id (record_probe_success id r) ≡ 0
unfolding failures record_probe_success
success_clears id r = let e = lookup-insert id id 0 r.probe_failures in ground arith

-- After a successful probe a node is healthy; one or two failed probes after it make it degraded,
-- and three or more, up to what a `u32` holds, unhealthy.
pub fail_probes-health_status :
    (n : ℕ) (id : WorkerId) (r : NodeRegistry)
    → n < u32_mod
    → health_status id (fail_probes n id (record_probe_success id r))
      ≡ (if n == 0 then healthy else if ltb n 3 then degraded else unhealthy)
unfolding health_status failures
fail_probes-health_status n id r w =
    let z = success_clears id r in
    let e = fail_probes-failures n id (record_probe_success id r) (omega arith) in ground arith

contains-stale_entries-remove :
    (id timeout now : ℕ) (m : Map ℕ) → contains id (stale_entries timeout now (remove id m)) ≡ false
unfolding stale_entries remove
contains-stale_entries-remove id timeout now [] = refl
contains-stale_entries-remove id timeout now ((j, seen) ∷ m) =
    ground (arith, contains-stale_entries-remove id timeout now m)

contains-unhealthy_entries-remove :
    (id : ℕ) (m : Map ℕ) → contains id (unhealthy_entries (remove id m)) ≡ false
unfolding unhealthy_entries remove
contains-unhealthy_entries-remove id [] = refl
contains-unhealthy_entries-remove id ((j, failures) ∷ m) =
    ground (arith, contains-unhealthy_entries-remove id m)

-- A node that is removed is unknown and counts as healthy, and is neither among the stale nodes, at
-- any time and timeout, nor among the unhealthy ones.
pub remove_node_forgets :
    (id timeout now : ℕ) (r : NodeRegistry)
    → (get_node_info id (remove_node id r) ≡ none)
      × (health_status id (remove_node id r) ≡ healthy)
      × (contains id (stale_nodes timeout now (remove_node id r)) ≡ false)
      × (contains id (unhealthy_nodes (remove_node id r)) ≡ false)
unfolding get_node_info health_status stale_nodes unhealthy_nodes remove_node
remove_node_forgets id timeout now r = (
  (let e = lookup-remove id id r.nodes in ground arith),
  (let e = lookup-remove id id r.probe_failures in ground arith),
  contains-stale_entries-remove id timeout now r.last_seen,
  contains-unhealthy_entries-remove id r.probe_failures,
)

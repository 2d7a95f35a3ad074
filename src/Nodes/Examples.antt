-- ===== src/Nodes/Examples.antt =====
-- The node theorems at two nodes.
use knitting_crab.Prelude.{ℕ, ◌≡◌, true, arith}
use knitting_crab.Core.Sample.{one_core}
use knitting_crab.Nodes.{
  NodeInfo, NodeRegistry, degraded, new, register, health_status, record_probe_success,
}
use knitting_crab.Nodes.Laws.{fail_probes, fail_probes-health_status}

abbrev node : ℕ → NodeInfo
node id = record {
  worker_id = id;
  hostname = "studio";
  capacity = one_core;
  registered_at = 0;
  is_production = true;
}

two_nodes : NodeRegistry
two_nodes = register (node 2) 7 (register (node 1) 5 new)

fail_probes-health_status_example :
    health_status 1 (fail_probes 2 1 (record_probe_success 1 two_nodes)) ≡ degraded
fail_probes-health_status_example = fail_probes-health_status 2 1 two_nodes (omega arith)

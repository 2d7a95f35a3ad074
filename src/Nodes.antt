-- ===== src/Nodes.antt =====
-- crates/coordinator/src/node_registry.rs: the nodes that the coordinator knows, when each was last
-- seen, and the probes that it failed in a row. A method is one step, and an `Instant` is a number
-- of nanoseconds, given as `now`. The three maps are of concurrent type; a method's steps on them
-- are taken together.
pub mod Laws
mod Examples
use knitting_crab.Prelude.{
  ℕ, ◌+◌, ◌-◌, ◌≤◌, ◌==◌, Bool, true, false, Option, none, some, List, [], ◌∷◌, String, Map, lookup,
  insert, remove, leb, ltb, min, map, if◌then◌else◌, u32_mod,
}
use knitting_crab.Core.Task.{WorkerId, ResourceAllocation}

pub data NodeHealth : Type 0 where
  healthy degraded unhealthy : NodeHealth

abbrev pub degraded_threshold : ℕ
degraded_threshold = 1

abbrev pub unhealthy_threshold : ℕ
unhealthy_threshold = 3

pub record NodeInfo : Type 0 where
  pub worker_id : WorkerId
  pub hostname : String
  pub capacity : ResourceAllocation
  pub registered_at : ℕ
  pub is_production : Bool

pub record NodeRegistry : Type 0 where
  pub nodes : Map NodeInfo
  pub last_seen : Map ℕ
  pub probe_failures : Map ℕ

unfoldable pub new : NodeRegistry
new = record { nodes = []; last_seen = []; probe_failures = [] }

unfoldable pub register : NodeInfo → ℕ → NodeRegistry → NodeRegistry
unfolding insert
register info now r = record {
  nodes = insert info.worker_id info r.nodes;
  last_seen = insert info.worker_id now r.last_seen;
  probe_failures = insert info.worker_id 0 r.probe_failures;
}

unfoldable pub heartbeat : WorkerId → ℕ → NodeRegistry → NodeRegistry
unfolding insert
heartbeat id now r = record r { last_seen = insert id now r.last_seen }

-- `duration_since` is 0 for an instant that is still to come, as `-` is.
unfoldable pub stale_entries : ℕ → ℕ → Map ℕ → List WorkerId
stale_entries timeout now [] = []
stale_entries timeout now ((id, seen) ∷ m) =
    let rest = stale_entries timeout now m in if ltb timeout (now - seen) then id ∷ rest else rest

unfoldable pub stale_nodes : ℕ → ℕ → NodeRegistry → List WorkerId
unfolding stale_entries
stale_nodes timeout now r = stale_entries timeout now r.last_seen

unfoldable pub remove_node : WorkerId → NodeRegistry → NodeRegistry
unfolding remove
remove_node id r = record {
  nodes = remove id r.nodes;
  last_seen = remove id r.last_seen;
  probe_failures = remove id r.probe_failures;
}

unfoldable pub get_node_info : WorkerId → NodeRegistry → Option NodeInfo
unfolding lookup
get_node_info id r = lookup id r.nodes

unfoldable pub all_nodes : NodeRegistry → List NodeInfo
all_nodes r = map (λ e. e.1) r.nodes

unfoldable pub record_probe_success : WorkerId → NodeRegistry → NodeRegistry
unfolding insert
record_probe_success id r = record r { probe_failures = insert id 0 r.probe_failures }

abbrev pub or_zero : Option ℕ → ℕ
or_zero none = 0
or_zero (some n) = n

-- `saturating_add` on a `u32`.
unfoldable pub record_probe_failure : WorkerId → NodeRegistry → NodeRegistry
unfolding insert lookup
record_probe_failure id r = record r {
  probe_failures =
      insert id (min (or_zero (lookup id r.probe_failures) + 1) (u32_mod - 1)) r.probe_failures;
}

unfoldable pub health_of : ℕ → NodeHealth
health_of failures =
    if leb unhealthy_threshold failures
    then unhealthy
    else if leb degraded_threshold failures
    then degraded
    else healthy

unfoldable pub health_status : WorkerId → NodeRegistry → NodeHealth
unfolding lookup health_of
health_status id r = health_of (or_zero (lookup id r.probe_failures))

unfoldable pub unhealthy_entries : Map ℕ → List WorkerId
unhealthy_entries [] = []
unhealthy_entries ((id, failures) ∷ m) =
    let rest = unhealthy_entries m in if leb unhealthy_threshold failures then id ∷ rest else rest

unfoldable pub unhealthy_nodes : NodeRegistry → List WorkerId
unfolding unhealthy_entries
unhealthy_nodes r = unhealthy_entries r.probe_failures

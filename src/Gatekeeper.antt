-- ===== src/Gatekeeper.antt =====
-- crates/scheduler/src/gatekeeper.rs: which nodes may run a task. A node is whether it is in
-- production.
use knitting_crab.Prelude.{◌≡◌, Bool, true, false, not, ◌&&◌, leb, ltb, if◌then◌else◌, arith}
use knitting_crab.Core.Task.{TaskDescriptor}

unfoldable pub can_run_on_node : TaskDescriptor → Bool → Bool
can_run_on_node task is_production =
    if task.evaluation.is_promotion_gate && not is_production
    then false
    else if (ltb 0 task.evaluation.agent_phase && leb task.evaluation.agent_phase 2)
        && is_production
    then if not task.evaluation.is_promotion_gate then false else true
    else true

-- A task that may run nowhere: there is none.
pub can_run_on_node-somewhere :
    (task : TaskDescriptor) → can_run_on_node task false ≡ false → can_run_on_node task true ≡ true
unfolding can_run_on_node
can_run_on_node-somewhere task h = ground arith

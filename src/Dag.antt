-- ===== src/Dag.antt =====
-- crates/scheduler/src/dag.rs: the dependency-ordered scheduler.
pub mod Policy
pub mod Pool
pub mod Heap
pub mod Cycle
pub mod State
pub mod Enqueue
pub mod Finish
pub mod Dequeue
pub mod Waiting
pub mod Rank
pub mod Acyclic
pub mod Greatest
pub mod Choice
pub mod Invariant
pub mod Run
pub mod Limits
pub mod Leak
pub mod Late
mod Examples

-- ===== src/Core.antt =====
-- crates/core/src: the types that the scheduler, the queues and the workers share.
pub mod Priority
pub mod Task
pub mod Error
pub mod Sample

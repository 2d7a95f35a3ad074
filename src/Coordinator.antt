-- ===== src/Coordinator.antt =====
-- The coordinator: crates/coordinator/src/cache_index.rs (Cache), crates/scheduler/src/stub.rs (Stub),
-- state.rs and server.rs (State, Server), ssh_health.rs (Probes). A request is one step; the network
-- that carries it is not modelled.
pub mod Cache
pub mod Stub
pub mod State
pub mod Server

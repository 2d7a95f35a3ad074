-- ===== src/Remote.antt =====
-- The execution of a task in a session on another machine, crates/worker/src/ssh_tmux_executor.rs.
pub mod Shell
pub mod Words
pub mod Executor

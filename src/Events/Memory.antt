-- ===== src/Events/Memory.antt =====
-- `MemoryEventLog` of crates/core/src/event_log.rs: two buffers that keep the latest entries.
-- Locks are never poisoned.
mod Examples
pub mod Latest
use knitting_crab.Prelude.{
  ℕ, zero, suc, ◌==◌, List, [], ◌∷◌, ◌++◌, map, retain, length, ltb, if◌then◌else◌,
}
use knitting_crab.Core.Task.{TaskId}
use knitting_crab.Events.{LogLine, TaskEvent, task_of_event}

pub record MemoryEventLog : Type 0 where
  pub events : List (ℕ × TaskEvent)
  pub logs : List LogLine
  pub max_events : ℕ
  pub max_logs : ℕ

unfoldable pub new : ℕ → ℕ → MemoryEventLog
new max_events max_logs = record {
  events = [];
  logs = [];
  max_events = max_events;
  max_logs = max_logs;
}

unfoldable pub get_events : MemoryEventLog → List TaskEvent
get_events log = map (λ e. e.1) log.events

unfoldable pub get_logs : MemoryEventLog → List LogLine
get_logs log = log.logs

unfoldable pub get_events_by_task : TaskId → MemoryEventLog → List TaskEvent
unfolding task_of_event
get_events_by_task task log = map (λ e. e.1) (retain (λ e. task_of_event e.1 == task) log.events)

unfoldable pub clear : MemoryEventLog → MemoryEventLog
clear log = record log { events = []; logs = [] }

-- `while buffer.len() > max { buffer.pop_front(); }`: each round takes one entry away.
unfoldable pub evict {ℓ} : {A : Type ℓ} → ℕ → List A → List A
evict max [] = []
evict max (x ∷ xs) = let rest = evict max xs in if ltb max (length (x ∷ xs)) then rest else x ∷ xs

-- At the clock reading of the call.
unfoldable pub emit_event : ℕ → TaskEvent → MemoryEventLog → MemoryEventLog
unfolding evict
emit_event now event log = record log {
  events = evict log.max_events (log.events ++ (now, event) ∷ []);
}

unfoldable pub emit_log : LogLine → MemoryEventLog → MemoryEventLog
unfolding evict
emit_log line log = record log { logs = evict log.max_logs (log.logs ++ line ∷ []) }

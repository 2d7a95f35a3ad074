-- ===== src/Worker/Fake.antt =====
-- crates/worker/src/fake_worker.rs: `FakeWorker` behind the traits of a worker, each with the part of
-- its state that it reads.
use knitting_crab.Prelude.{
  ℕ, ◌==◌, Bool, true, false, not, Option, none, some, List, [], ◌∷◌, ◌++◌, Map, lookup, insert,
  retain, if◌then◌else◌,
}
use knitting_crab.Core.Task.{TaskId, WorkerId, TaskDescriptor, ResourceAllocation}
use knitting_crab.Core.Error.{Result, ok}
use knitting_crab.Events.{TaskEvent, LogLine}
use knitting_crab.Retry.{ExitOutcome, success, failed_with_code, killed_by_signal}
use knitting_crab.Coordinator.Stub.{update_first, push_found}
use knitting_crab.Worker.{Queue, ResourceMonitor, EventSink, SpawnParams}

pub data FakeBehavior : Type 0 where
  succeeds : ℕ → FakeBehavior
  fails : ℕ → ℕ → FakeBehavior
  hangs : FakeBehavior
  crashes : FakeBehavior

pub data ResourceBehavior : Type 0 where
  always_allow always_deny : ResourceBehavior

pub record FakeWorker : Type 0 where
  pub queue : List TaskDescriptor
  pub events : List TaskEvent
  pub logs : List LogLine
  pub behaviors : Map FakeBehavior
  pub resource_behavior : ResourceBehavior

unfoldable pub new : FakeWorker
new = record {
  queue = [];
  events = [];
  logs = [];
  behaviors = [];
  resource_behavior = always_allow;
}

unfoldable pub set_resource_behavior : ResourceBehavior → FakeWorker → FakeWorker
set_resource_behavior behavior w = record w { resource_behavior = behavior }

unfoldable pub enqueue : TaskDescriptor → FakeWorker → FakeWorker
enqueue task w = record w { queue = w.queue ++ task ∷ [] }

unfoldable pub set_behavior : TaskId → FakeBehavior → FakeWorker → FakeWorker
unfolding insert
set_behavior id behavior w = record w { behaviors = insert id behavior w.behaviors }

unfoldable pub drain_events : FakeWorker → FakeWorker × List TaskEvent
drain_events w = (record w { events = [] }, w.events)

unfoldable pub drain_logs : FakeWorker → FakeWorker × List LogLine
drain_logs w = (record w { logs = [] }, w.logs)

unfoldable pub get_behavior : TaskId → Map FakeBehavior → Option FakeBehavior
unfolding lookup
get_behavior id behaviors = lookup id behaviors

abbrev pub pop_front : List TaskDescriptor → List TaskDescriptor × Option TaskDescriptor
pop_front [] = ([], none)
pop_front (task ∷ q) = (q, some task)

unfoldable pub dequeue :
    WorkerId → List TaskDescriptor → List TaskDescriptor × Result (Option TaskDescriptor)
dequeue worker q = let (rest, task) = pop_front q in (rest, ok task)

unfoldable pub requeue : TaskId → ℕ → List TaskDescriptor → List TaskDescriptor × Result (Unit {0})
unfolding update_first
requeue id attempt q = let (q', found) = update_first id attempt q in (push_found found q', ok tt)

unfoldable pub discard : TaskId → List TaskDescriptor → List TaskDescriptor × Result (Unit {0})
discard id q = (retain (λ task. not (task.task_id == id)) q, ok tt)

unfoldable pub fake_queue : Queue (List TaskDescriptor)
unfolding dequeue requeue discard
fake_queue = record { dequeue = dequeue; requeue = requeue; discard = discard }

unfoldable pub can_allocate : ResourceAllocation → ResourceBehavior → Result Bool
can_allocate req always_allow = ok true
can_allocate req always_deny = ok false

unfoldable pub fake_monitor : ResourceMonitor ResourceBehavior
unfolding can_allocate
fake_monitor = record {
  can_allocate = can_allocate;
  allocate = λ req m. (m, ok tt);
  release = λ req m. (m, ok tt);
}

unfoldable pub fake_sink : EventSink (List TaskEvent × List LogLine)
fake_sink = record {
  emit_event = λ event (events, logs). ((events ++ event ∷ [], logs), ok tt);
  emit_log = λ line (events, logs). ((events, logs ++ line ∷ []), ok tt);
}

-- A delay is over first unless the task is cancelled. A task that hangs does not end until then.
unfoldable pub outcome_of : FakeBehavior → Bool → Option ExitOutcome
outcome_of (succeeds delay) cancelled_now =
    some (if cancelled_now then killed_by_signal 15 else success)
outcome_of (fails code delay) cancelled_now =
    some (if cancelled_now then killed_by_signal 15 else failed_with_code code)
outcome_of hangs cancelled_now = if cancelled_now then some (killed_by_signal 15) else none
outcome_of crashes cancelled_now = some (failed_with_code 1)

abbrev pub or_default : Option FakeBehavior → FakeBehavior
or_default none = succeeds 10
or_default (some behavior) = behavior

-- Whether the task is cancelled before the execution, and whether it is cancelled during it.
unfoldable pub execute : SpawnParams → Bool → Bool → Map FakeBehavior → Option ExitOutcome
unfolding outcome_of get_behavior
execute params cancelled_before cancelled_now behaviors =
    if cancelled_before
    then some success
    else outcome_of (or_default (get_behavior params.task_id behaviors)) cancelled_now

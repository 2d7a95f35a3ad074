-- ===== src/Coordinator/Stub.antt =====
-- crates/scheduler/src/stub.rs: the queue that the coordinator uses. The lock is never poisoned.
use knitting_crab.Prelude.{ℕ, ◌==◌, Option, none, some, List, [], ◌∷◌, ◌++◌, if◌then◌else◌}
use knitting_crab.Core.Task.{TaskId, TaskDescriptor}

abbrev pub StubScheduler : Type 0
StubScheduler = List TaskDescriptor

unfoldable pub enqueue : TaskDescriptor → StubScheduler → StubScheduler
enqueue task q = q ++ task ∷ []

unfoldable pub dequeue : StubScheduler → StubScheduler × Option TaskDescriptor
dequeue [] = ([], none)
dequeue (task ∷ q) = (q, some task)

-- The first task with the identifier, updated in place; the copy of it goes to the back.
unfoldable pub update_first :
    TaskId → ℕ → List TaskDescriptor → List TaskDescriptor × Option TaskDescriptor
update_first id attempt [] = ([], none)
update_first id attempt (task ∷ q) =
    let (q', found) = update_first id attempt q in
    if task.task_id == id
    then (record task { attempt = attempt } ∷ q, some (record task { attempt = attempt }))
    else (task ∷ q', found)

abbrev pub push_found : Option TaskDescriptor → List TaskDescriptor → List TaskDescriptor
push_found none q = q
push_found (some task) q = q ++ task ∷ []

unfoldable pub requeue : TaskId → ℕ → StubScheduler → StubScheduler
unfolding update_first
requeue id attempt q = let (q', found) = update_first id attempt q in push_found found q'

unfoldable pub discard : TaskId → StubScheduler → StubScheduler
discard id q = q

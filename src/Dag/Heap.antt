-- ===== src/Dag/Heap.antt =====
-- crates/scheduler/src/dag.rs, `ReadyEntry`, its order, and `std`'s `BinaryHeap` of entries as the
-- list of its entries, in no particular order, from which `pop` takes a greatest one.
use knitting_crab.Prelude.{Bool, Option, none, some, List, [], ◌∷◌, ◌==◌, ltb, leb, if◌then◌else◌}
use knitting_crab.Core.Priority.{Priority, as_u8}
use knitting_crab.Core.Task.{TaskId}

pub record ReadyEntry : Type 0 where
  pub original_priority : Priority
  pub effective_priority : Priority
  pub task_id : TaskId

-- `a <= b` by `Ord for ReadyEntry`: the effective priority, then the identifier.
unfoldable pub entry_le : ReadyEntry → ReadyEntry → Bool
unfolding as_u8
entry_le a b =
    if as_u8 a.effective_priority == as_u8 b.effective_priority
    then leb a.task_id b.task_id
    else ltb (as_u8 a.effective_priority) (as_u8 b.effective_priority)

-- A greatest of an entry and a list, and the others.
unfoldable pub take_max : ReadyEntry → List ReadyEntry → ReadyEntry × List ReadyEntry
unfolding entry_le
take_max e [] = (e, [])
take_max e (f ∷ es) =
    let (top, rest) = take_max (if entry_le e f then f else e) es in
    (top, (if entry_le e f then e else f) ∷ rest)

-- `BinaryHeap::pop`.
unfoldable pub pop : List ReadyEntry → Option (ReadyEntry × List ReadyEntry)
unfolding take_max
pop [] = none
pop (e ∷ es) = some (take_max e es)

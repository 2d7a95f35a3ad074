-- ===== src/TimeSlice.antt =====
-- crates/core/src/time_slice_scheduler.rs: turns of the priorities in a fixed round. A method is a
-- function of the state that it is given; the round counter is a `u64`, which wraps.
pub mod Round
mod Examples
use knitting_crab.Prelude.{
  ℕ, ◌+◌, ◌%◌, Option, none, some, List, [], ◌∷◌, ◌++◌, replicate, length, get_elem?, ◌==◌,
  if◌then◌else◌, u64_mod,
}
use knitting_crab.Core.Priority.{Priority, low, normal, high, critical, weight_percentage}

pub record SchedulerState : Type 0 where
  pub queue : List Priority
  pub current_index : ℕ
  pub round_counter : ℕ

abbrev pub critical_weight : ℕ
critical_weight = 50

abbrev pub high_weight : ℕ
high_weight = 30

abbrev pub normal_weight : ℕ
normal_weight = 15

abbrev pub low_weight : ℕ
low_weight = 5

unfoldable pub weight_for_priority : Priority → ℕ
unfolding weight_percentage
weight_for_priority p = weight_percentage p

unfoldable pub new_state : SchedulerState
new_state = record {
  queue =
      replicate critical_weight critical
      ++ (replicate high_weight high
          ++ (replicate normal_weight normal ++ replicate low_weight low));
  current_index = 0;
  round_counter = 0;
}

-- The step to the next position, with the count of a full round.
unfoldable pub advance : SchedulerState → SchedulerState
advance s =
    let next = (s.current_index + 1) % length s.queue in
    record s {
      current_index = next;
      round_counter = if next == 0 then (s.round_counter + 1) % u64_mod else s.round_counter;
    }

-- The turn at a position of a queue; `none` is the panic of an index past the end.
unfoldable pub priority_at : List Priority → ℕ → SchedulerState → Option (SchedulerState × Priority)
unfolding advance
priority_at [] i s = some (s, normal)
priority_at (x ∷ xs) i s = elim (get_elem? (x ∷ xs) i) [
  | none ↦ none
  | some priority ↦ some (advance s, priority)
]

unfoldable pub next_priority : SchedulerState → Option (SchedulerState × Priority)
unfolding priority_at
next_priority s = priority_at s.queue s.current_index s

unfoldable pub reset_state : SchedulerState → SchedulerState
reset_state s = record s { current_index = 0; round_counter = (s.round_counter + 1) % u64_mod }

pub record SchedulerStats : Type 0 where
  pub round_number : ℕ
  pub current_position : ℕ
  pub total_positions : ℕ
  pub critical_count : ℕ
  pub high_count : ℕ
  pub normal_count : ℕ
  pub low_count : ℕ

unfoldable pub stats : SchedulerState → SchedulerStats
stats s = record {
  round_number = s.round_counter;
  current_position = s.current_index;
  total_positions = length s.queue;
  critical_count = critical_weight;
  high_count = high_weight;
  normal_count = normal_weight;
  low_count = low_weight;
}

-- ===== src/TimeSlice/Examples.antt =====
-- The round's theorems at a scheduler in its third round, and at a queue of two.
use knitting_crab.Prelude.{◌≡◌, refl, some, List, [], ◌∷◌}
use knitting_crab.Core.Priority.{Priority, low, high, weight_percentage}
use knitting_crab.TimeSlice.{SchedulerState, new_state}
use knitting_crab.TimeSlice.Round.{turns, count, turns-weight_percentage}

abbrev two : SchedulerState
two = record { queue = high ∷ low ∷ []; current_index = 0; round_counter = 4 }

abbrev third_round : SchedulerState
third_round = record { queue = new_state.queue; current_index = 0; round_counter = 2 }

turns-weight_percentage_example :
    (ps : List Priority) × (turns 100 third_round
      ≡ some (record third_round { round_counter = 3 }, ps))
    × (count low ps ≡ weight_percentage low)
turns-weight_percentage_example = turns-weight_percentage low third_round refl refl

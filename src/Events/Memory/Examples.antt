-- ===== src/Events/Memory/Examples.antt =====
-- The event log with room for two events and one line.
use knitting_crab.Prelude.{◌≡◌, refl, List, [], ◌∷◌}
use knitting_crab.Events.{LogLine, stdout, started, cancelled}
use knitting_crab.Events.Memory.{new, get_events_by_task}
use knitting_crab.Events.Memory.Latest.{
  Entry, reports, prints, emit_all, reported, printed, latest, emit_all-latest,
}

abbrev line : LogLine
line = record { task_id = 3; seq = 0; timestamp = 11; source = stdout; content = "hello" }

abbrev entries : List Entry
entries =
    reports 10 (started 3 99)
    ∷ prints line
    ∷ reports 12 (cancelled 4)
    ∷ reports 13 (cancelled 3)
    ∷ []

events_of_task : get_events_by_task 3 (emit_all entries (new 2 1)) ≡ cancelled 3 ∷ []
unfolding get_events_by_task emit_all new
events_of_task = refl

emit_all-latest_example :
    ((emit_all entries (new 2 1)).events ≡ latest 2 (reported entries))
    × ((emit_all entries (new 2 1)).logs ≡ latest 1 (printed entries))
emit_all-latest_example = emit_all-latest entries 2 1

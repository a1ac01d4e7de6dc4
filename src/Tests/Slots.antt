-- ===== src/Tests/Slots.antt =====
-- Slots and the calendar.
use congenial_octo_telegram.Base.{ℕ, ◌≡◌, List, [], ◌∷◌, arith, refl}
use congenial_octo_telegram.Event.{Event}
use congenial_octo_telegram.World.{Shared}
use congenial_octo_telegram.Slot.{insert}
use congenial_octo_telegram.Slot.Order.{IsSorted, at_time, at_time-insert}
use congenial_octo_telegram.Queue.{queue_insert, update_timing}
use congenial_octo_telegram.Queue.Calendar.{IsCalendar, queue_insert-IsCalendar}
use congenial_octo_telegram.Queue.Epoch.{update_timing-IsCalendar}
use congenial_octo_telegram.Tests.Scene.{config, event, shared, world}

-- Two events of one time, and a later one.
abbrev slot : List Event
slot = event 100 1 4 0 ∷ event 108 1 4 1 ∷ event 116 1 7 1 ∷ []

slot-IsSorted : IsSorted slot
slot-IsSorted = ground arith

at_time-insert_example :
    at_time 4 (insert (event 124 1 4 2) slot)
    ≡ event 100 1 4 0 ∷ event 108 1 4 1 ∷ event 124 1 4 2 ∷ []
at_time-insert_example = at_time-insert (event 124 1 4 2) slot 4 slot-IsSorted

shared-IsCalendar : IsCalendar config shared
shared-IsCalendar = record {
  epoch_start = refl;
  window = refl;
  current = refl;
  sorted = λ object slot. tt;
  placed = λ object slot. tt;
}

queue_insert-IsCalendar_example :
    IsCalendar config (queue_insert config (event 100 1 27 2) world).1.shared
queue_insert-IsCalendar_example =
    queue_insert-IsCalendar config (event 100 1 27 2) world shared-IsCalendar

-- With an event in the slot of the epoch, and with one in a later slot.
abbrev with_event : ℕ → Shared
with_event time = (queue_insert config (event 100 1 time 2) world).1.shared

with_event-IsCalendar : (time : ℕ) → IsCalendar config (with_event time)
with_event-IsCalendar time =
    queue_insert-IsCalendar config (event 100 1 time 2) world shared-IsCalendar

drained : (object : ℕ) → (with_event 27).queue object (with_event 27).current_index ≡ []
unfolding queue_insert
drained object = ground arith

update_timing-IsCalendar_example : IsCalendar config (update_timing config (with_event 27))
update_timing-IsCalendar_example =
    update_timing-IsCalendar config (with_event 27) (omega arith) drained (with_event-IsCalendar 27)

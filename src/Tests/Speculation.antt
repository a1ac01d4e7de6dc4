-- ===== src/Tests/Speculation.antt =====
-- Stragglers, retractions and executions.
use congenial_octo_telegram.Base.{
  ◌≡◌, List, [], ◌∷◌, Option, none, some, refl, arith, pos, update₂, update₂_cases, All,
}
use congenial_octo_telegram.Event.{Event}
use congenial_octo_telegram.World.{World}
use congenial_octo_telegram.Queue.{Status, accepted, refused}
use congenial_octo_telegram.Queue.Calendar.{IsCalendar, Placed}
use congenial_octo_telegram.Slot.Order.{IsSorted}
use congenial_octo_telegram.Speculation.{
  deliver, log_the_send, put_head_into_stack, put_into_stack, straggler, speculation_queue_insert,
}
use congenial_octo_telegram.Speculation.Clock.{clock}
use congenial_octo_telegram.Speculation.Causality.{
  IsCausal, Noticed, speculation_queue_insert-IsCausal, queue_elem_annihilation-IsCausal,
  execute-IsCausal,
}
use congenial_octo_telegram.Speculation.Grid.{speculation_queue_insert-IsCalendar}
use congenial_octo_telegram.Speculation.Annihilation.{
  Annihilated, queue_elem_annihilation-Annihilated,
}
use congenial_octo_telegram.Rollback.{request_rollback, queue_elem_annihilation}
use congenial_octo_telegram.Extract.{execute}
use congenial_octo_telegram.Stubs.{Request, schedule_new_event}
use congenial_octo_telegram.Stubs.Causality.{
  schedule_new_event-IsCausal, schedule_new_event-Quiet, too_large,
}
use congenial_octo_telegram.Tests.Scene.{config, event, shared, world}

world-IsCausal : IsCausal world
world-IsCausal object slot = tt

-- The world behind a step that went well.
abbrev outcome : Option World → World
outcome none = world
outcome (some w) = w

abbrev sent : Option (Status × World) → World
sent none = world
sent (some r) = r.1

-- Object 1 is at time 5 when it is sent an event of time 3.
late_send :
    speculation_queue_insert config (event 100 1 3 0) world
    ≡ some (accepted, sent (speculation_queue_insert config (event 100 1 3 0) world))
unfolding speculation_queue_insert deliver log_the_send straggler put_head_into_stack put_into_stack
late_send = refl

speculation_queue_insert-IsCausal_example :
    IsCausal (sent (speculation_queue_insert config (event 100 1 3 0) world))
speculation_queue_insert-IsCausal_example =
    speculation_queue_insert-IsCausal config (event 100 1 3 0) world
      (sent (speculation_queue_insert config (event 100 1 3 0) world)) accepted late_send
      world-IsCausal

late_straggler :
    straggler config 0 (event 100 1 3 0) world
    ≡ some (outcome (straggler config 0 (event 100 1 3 0) world))
unfolding straggler put_head_into_stack put_into_stack
late_straggler = refl

-- Two events in the epoch's slot of object 1.
abbrev waiting : List Event
waiting = event 100 1 7 0 ∷ event 108 1 9 1 ∷ []

abbrev held : World
held = record world { shared = record shared { queue = update₂ shared.queue 1 0 waiting } }

held-IsCausal : IsCausal held
held-IsCausal =
    update₂_cases (λ j l xs. All (Noticed (clock (world.speculation j))) xs) shared.queue 1 0
      waiting
      (
        record { noticed = λ behind. absurd (omega arith) },
        (record { noticed = λ behind. absurd (omega arith) }, tt),
      )
      (λ j l. tt)

held-IsCalendar : IsCalendar config held.shared
held-IsCalendar = record {
  epoch_start = refl;
  window = refl;
  current = refl;
  sorted =
      update₂_cases (λ j l xs. IsSorted xs) shared.queue 1 0 waiting (ground arith) (λ j l. tt);
  placed =
      update₂_cases (λ j l xs. All (Placed config 0 20000 j l) xs) shared.queue 1 0 waiting
        (
          record { to_object = refl; in_slot = refl; above = omega arith; below = omega arith },
          (
            record { to_object = refl; in_slot = refl; above = omega arith; below = omega arith },
            tt,
          ),
        )
        (λ j l. tt);
}

retraction :
    queue_elem_annihilation config (event 100 1 7 0) held
    ≡ some (outcome (queue_elem_annihilation config (event 100 1 7 0) held))
unfolding queue_elem_annihilation request_rollback put_into_stack
retraction = refl

queue_elem_annihilation-IsCausal_example :
    IsCausal (outcome (queue_elem_annihilation config (event 100 1 7 0) held))
queue_elem_annihilation-IsCausal_example =
    queue_elem_annihilation-IsCausal config (event 100 1 7 0) held
      (outcome (queue_elem_annihilation config (event 100 1 7 0) held)) retraction held-IsCausal

execute-IsCausal_example : IsCausal (execute 1 (event 100 1 7 0) (event 108 1 9 1 ∷ []) held)
execute-IsCausal_example =
    execute-IsCausal config 1 (event 100 1 7 0) (event 108 1 9 1 ∷ []) held (omega arith) refl
      held-IsCalendar refl held-IsCausal

-- A call of a handler of object 0, at time 2.
abbrev call : Request
call = record {
  destination = 1;
  timestamp = 3;
  event_type = 4;
  body = some (7 ∷ 8 ∷ []);
  size = pos 2;
}

abbrev large_call : Request
large_call = record call { size = pos 513 }

call_ran :
    schedule_new_event config (some 100) call world
    ≡ some (accepted, sent (schedule_new_event config (some 100) call world))
unfolding schedule_new_event speculation_queue_insert deliver log_the_send straggler
    put_head_into_stack put_into_stack
call_ran = refl

schedule_new_event-IsCausal_example :
    IsCausal (sent (schedule_new_event config (some 100) call world))
schedule_new_event-IsCausal_example =
    schedule_new_event-IsCausal config (some 100) call world
      (sent (schedule_new_event config (some 100) call world)) accepted call_ran
      (λ at_start. absurd (omega arith)) world-IsCausal

schedule_new_event-Quiet_example :
    schedule_new_event config (some 100) large_call world ≡ some (refused, world)
schedule_new_event-Quiet_example =
    schedule_new_event-Quiet config (some 100) large_call world refused
      (too_large 513 refl (omega arith))

world-IsCalendar : IsCalendar config world.shared
world-IsCalendar = record {
  epoch_start = refl;
  window = refl;
  current = refl;
  sorted = λ object slot. tt;
  placed = λ object slot. tt;
}

speculation_queue_insert-IsCalendar_example :
    IsCalendar config (sent (speculation_queue_insert config (event 100 1 3 0) world)).shared
speculation_queue_insert-IsCalendar_example =
    speculation_queue_insert-IsCalendar config (event 100 1 3 0) world
      (sent (speculation_queue_insert config (event 100 1 3 0) world)) accepted late_send
      world-IsCalendar

queue_elem_annihilation-Annihilated_example :
    Annihilated 0
      (event 100 1 7 0)
      held
      (outcome (queue_elem_annihilation config (event 100 1 7 0) held))
queue_elem_annihilation-Annihilated_example =
    queue_elem_annihilation-Annihilated config (event 100 1 7 0) held
      (outcome (queue_elem_annihilation config (event 100 1 7 0) held)) retraction

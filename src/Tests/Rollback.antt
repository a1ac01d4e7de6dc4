-- ===== src/Tests/Rollback.antt =====
-- Rollbacks.
use mathlib.Core.List.{reverse}
use congenial_octo_telegram.Base.{
  Option, none, true, ◌≡◌, List, [], ◌∷◌, some, refl, arith, ◌>>=◌, update,
}
use congenial_octo_telegram.Event.{Event, LogElement}
use congenial_octo_telegram.World.{World, Shared}
use congenial_octo_telegram.Rollback.{
  run_rollback, log_walk, rollback_speculation_queue, log_rollback, keep_log,
  restore_retractable_events,
}
use congenial_octo_telegram.Queue.Calendar.{IsCalendar}
use congenial_octo_telegram.Rollback.Grid.{run_rollback-IsCalendar}
use congenial_octo_telegram.Rollback.Undo.{
  logged_before, logged_from, annihilate_all, log_rollback_lem,
}
use congenial_octo_telegram.Rollback.Restore.{PutBack, restore_retractable_events_lem}
use congenial_octo_telegram.Speculation.Causality.{IsCausal}
use congenial_octo_telegram.Extract.{Next, goto, returns, lookup, acquire}
use congenial_octo_telegram.Extract.Acquire.{acquire-IsCausal}
use congenial_octo_telegram.Tests.Scene.{config, event, status_at, shared, world}

-- Object 1 sent two events beyond its epoch, at times 3 and 5.
abbrev sends : List Event
sends = event 100 2 13 3 ∷ event 108 3 15 5 ∷ []

abbrev with_sends : Shared
with_sends = record shared { speculation_queue = update shared.speculation_queue 1 sends }

-- And two within it, to objects 2 and 3.
abbrev log : List LogElement
log =
    record { the_element = event 116 2 6 3; send_time = 3 }
    ∷ record { the_element = event 124 3 8 5; send_time = 5 }
    ∷ []

abbrev with_log : World
with_log = record world { shared = record shared { log_queue = update shared.log_queue 1 log } }

log_rollback_lem_example : log_rollback config 1 4 with_log ≡ (
    annihilate_all config (reverse (logged_from 4 (with_log.log_queue 1))) with_log >>= λ w'.
    some (keep_log 1 (logged_before 4 (with_log.log_queue 1)) w'))
log_rollback_lem_example = log_rollback_lem config 1 4 with_log ((omega arith, tt), (tt, tt))

-- It executed two events of the epoch.
abbrev with_executed : Shared
with_executed = record shared {
  retractable_queue = update shared.retractable_queue 1 (event 132 1 3 0 ∷ event 140 1 5 0 ∷ []);
}

restore_retractable_events_lem_example :
    PutBack config 1 0
      (with_executed.retractable_queue 1)
      with_executed
      (restore_retractable_events config 1 with_executed)
restore_retractable_events_lem_example =
    restore_retractable_events_lem config 1 0 with_executed
      (
        record { to_object = refl; in_slot = refl; above = omega arith; below = omega arith },
        (record { to_object = refl; in_slot = refl; above = omega arith; below = omega arith }, tt),
      )
      (record {
        epoch_start = refl;
        window = refl;
        current = refl;
        sorted = λ object slot. tt;
        placed = λ object slot. tt;
      })

-- Object 1 executed an event of time 3 and one of time 5, when a straggler of time 4 was noticed.
abbrev behind : World
behind = record world {
  shared = record shared {
    retractable_queue = update shared.retractable_queue 1 (event 132 1 3 0 ∷ event 140 1 5 0 ∷ []);
    speculation =
        update shared.speculation 1
          (record (status_at 5) { standing_rollback = true; causality_violation_time = 4 });
  };
}

abbrev next_of : Option Next → World
next_of none = world
next_of (some (goto l w)) = w
next_of (some (returns e w)) = w

acquired : acquire config 1 behind ≡ some (goto lookup (next_of (acquire config 1 behind)))
unfolding acquire run_rollback log_rollback log_walk rollback_speculation_queue
acquired = refl

acquire-IsCausal_example : IsCausal (next_of (acquire config 1 behind))
acquire-IsCausal_example =
    acquire-IsCausal config 1 behind lookup (next_of (acquire config 1 behind)) acquired
      (record {
        epoch_start = refl;
        window = refl;
        current = refl;
        sorted = λ object slot. tt;
        placed = λ object slot. tt;
      })
      ((refl, omega arith), ((refl, omega arith), tt)) (λ object slot. tt)

abbrev world_after : Option World → World
world_after none = world
world_after (some w) = w

rolled_back : run_rollback config 1 4 behind ≡ some (world_after (run_rollback config 1 4 behind))
unfolding run_rollback log_rollback log_walk rollback_speculation_queue
rolled_back = refl

run_rollback-IsCalendar_example :
    IsCalendar config (world_after (run_rollback config 1 4 behind)).shared
    × ((world_after (run_rollback config 1 4 behind)).retractable_queue 1 ≡ [])
run_rollback-IsCalendar_example =
    run_rollback-IsCalendar config 1 0 4 behind (world_after (run_rollback config 1 4 behind))
      rolled_back
      (
        record { to_object = refl; in_slot = refl; above = omega arith; below = omega arith },
        (record { to_object = refl; in_slot = refl; above = omega arith; below = omega arith }, tt),
      )
      (record {
        epoch_start = refl;
        window = refl;
        current = refl;
        sorted = λ object slot. tt;
        placed = λ object slot. tt;
      })

-- ===== src/Rollback/Grid.antt =====
-- queue/queue.c and speculation/speculation.c: a rollback and the calendar.
use mathlib.Core.Path.{subst}
use mathlib.Core.List.{reverse}
use native.Mathlib.Decide.{ℕ_discrete}
use congenial_octo_telegram.Base.{
  ℕ, ◌≡◌, sym, ap, inl, inr, List, [], ◌∷◌, some, arith, Bool-cases, All, some_inj, >>=-eq-some,
  update, update_self, update_ne, leb,
}
use congenial_octo_telegram.Event.{Event, LogElement, Config}
use congenial_octo_telegram.Slot
use congenial_octo_telegram.Slot.Order.{unlink-All}
use congenial_octo_telegram.World.{World}
use congenial_octo_telegram.Queue.Calendar.{Placed, IsCalendar}
use congenial_octo_telegram.Speculation.Grid.{
  Grid, request_rollback-grid, queue_elem_annihilation-IsCalendar,
}
use congenial_octo_telegram.Rollback.{
  request_rollback, retract, queue_elem_annihilation, log_walk, log_rollback,
  rollback_speculation_queue, run_rollback,
}
use congenial_octo_telegram.Rollback.Causality.{request_rollback-rest, retract-rest}
use congenial_octo_telegram.Rollback.Restore.{restore_retractable_events_lem}

-- The calendar, and an object whose executed events belong to one slot of it.
pub record Held (c : Config) (object index : ℕ) (w : World) : Type 0 where
  pub calendar : IsCalendar c w.shared
  pub executed :
      All
        (Placed c w.current_min_limit w.current_max_limit object index)
        (w.retractable_queue object)

unlinked-Placed :
    (c : Config) (low high object index receiver addr : ℕ) (q : ℕ → List Event)
    → All (Placed c low high object index) (q object)
    → All
        (Placed c low high object index)
        (update q receiver (Slot.unlink addr (q receiver)) object)
unlinked-Placed c low high object index receiver addr q h = elim (ℕ_discrete receiver object) [
  | no other ↦ rw (update_ne q receiver (Slot.unlink addr (q receiver)) object other) h
  | yes same ↦
      subst (λ r. All (Placed c low high object index) (update q r (Slot.unlink addr (q r)) object))
        (sym same)
        (rw (update_self q object (Slot.unlink addr (q object))) (unlink-All _ addr (q object) h))
]

retract-high :
    (c : Config) (e : Event) (w : World) → (retract c e w).current_max_limit ≡ w.current_max_limit
unfolding retract
retract-high c e w = ground arith

queue_elem_annihilation-Held :
    (c : Config) (object index : ℕ) (e : Event) (w w' : World)
    → queue_elem_annihilation c e w ≡ some w'
    → Held c object index w
    → Held c object index w'
unfolding queue_elem_annihilation
queue_elem_annihilation-Held c object index e w w' h b =
    let (w₁, asked, done) = >>=-eq-some (request_rollback c e.destination e.timestamp w) _ h in
    let same = request_rollback-rest c e.destination e.timestamp w w₁ asked in
    let high : w₁.current_max_limit ≡ w.current_max_limit =
      ap (λ (g : Grid). g.high) (request_rollback-grid c e.destination e.timestamp w w₁ asked) in
    let end = retract-rest c e w₁ in
    record {
      calendar = queue_elem_annihilation-IsCalendar c e w w' h b.calendar;
      executed =
          subst
            (λ w'.
              All (Placed c w'.current_min_limit w'.current_max_limit object index)
                (w'.retractable_queue object))
            (some_inj done)
            (rw (end.0, end.2, retract-high c e w₁, same.0, same.1, high)
              (unlinked-Placed c w.current_min_limit w.current_max_limit object index e.destination
                e.addr w.retractable_queue b.executed));
    }

log_walk-Held :
    (c : Config) (object index time : ℕ) (xs kept : List LogElement) (w w' : World)
    → log_walk c time xs w ≡ some (kept, w')
    → Held c object index w
    → Held c object index w'
unfolding log_walk
log_walk-Held c object index time [] kept w w' h b =
    subst (Held c object index) (ap (λ r. r.1) (some_inj h)) b
log_walk-Held c object index time (x ∷ xs) kept w w' h b =
    elim (Bool-cases (leb time x.send_time)) [
      | inr stop ↦ subst (Held c object index) (ap (λ r. r.1) (some_inj (rw stop at h))) b
      | inl undo ↦
          let (w₁, undone, later) =
            >>=-eq-some (queue_elem_annihilation c x.the_element w) (log_walk c time xs)
              (rw undo at h) in
          log_walk-Held c object index time xs kept w₁ w' later
            (queue_elem_annihilation-Held c object index x.the_element w w₁ undone b)
    ]

log_rollback-Held :
    (c : Config) (object index time : ℕ) (w w' : World)
    → log_rollback c object time w ≡ some w'
    → Held c object index w
    → Held c object index w'
unfolding log_rollback
log_rollback-Held c object index time w w' h b =
    let (done, ran, kept) = >>=-eq-some (log_walk c time (reverse (w.log_queue object)) w) _ h in
    let after =
      log_walk-Held c object index time (reverse (w.log_queue object)) done.0 w done.1 ran b in
    subst (Held c object index) (some_inj kept)
      (record { calendar = after.calendar; executed = after.executed })

-- If the calendar is in order and the events an object has executed belong to one slot of the
-- window, then after each `run_rollback` of the object that does not end the program, whatever
-- sends it takes back, the calendar is in order and the object's retractable queue is empty.
pub run_rollback-IsCalendar :
    (c : Config) (object index time : ℕ) (w w' : World)
    → run_rollback c object time w ≡ some w'
    → All
        (Placed c w.current_min_limit w.current_max_limit object index)
        (w.retractable_queue object)
    → IsCalendar c w.shared
    → IsCalendar c w'.shared × (w'.retractable_queue object ≡ [])
unfolding run_rollback rollback_speculation_queue
run_rollback-IsCalendar c object index time w w' h executed v =
    let (w₁, ran, done) = >>=-eq-some (log_rollback c object time _) _ h in
    let b = log_rollback-Held c object index time _ w₁ ran (record {
      calendar = record {
        epoch_start = v.epoch_start;
        window = v.window;
        current = v.current;
        sorted = v.sorted;
        placed = v.placed;
      };
      executed = executed;
    }) in
    let back = restore_retractable_events_lem c object index w₁.shared b.executed b.calendar in
    subst (λ w'. IsCalendar c w'.shared × (w'.retractable_queue object ≡ [])) (some_inj done)
      (back.calendar, back.emptied)

-- ===== src/Rollback.antt =====
-- queue/queue.c and speculation/speculation.c: undoing what an object did past a time.
pub mod Undo
pub mod Restore
pub mod Causality
pub mod Grid
use mathlib.Core.List.{reverse}
use congenial_octo_telegram.Base.{
  ℕ, zero, suc, ◌+◌, ℤ, pos, negsuc, List, [], ◌∷◌, Option, some, true, ltb, leb, if◌then◌else◌,
  update, update₂, ◌>>=◌, length,
}
use congenial_octo_telegram.Event.{Event, LogElement, Config}
use congenial_octo_telegram.Slot
use congenial_octo_telegram.World.{
  Shared, World, busy, add_pending, add_speculation, add_retractable, set_status, with_shared,
  BackendCall,
}
use congenial_octo_telegram.Queue.{slot_index, queue_insert_in_slot}
use congenial_octo_telegram.Speculation.{is_free, put_into_stack}

-- The loop of `rollback_speculation_queue`, over the queue from its tail: what is left, and how many
-- events it freed.
unfoldable pub speculation_walk : ℕ → List Event → List Event × ℕ
speculation_walk time [] = ([], 0)
speculation_walk time (current ∷ prev) =
    let rest = speculation_walk time prev in
    if leb time current.send_time then (rest.0, rest.1 + 1) else (current ∷ prev, 0)

-- Adding -1 for each event freed.
abbrev pub minus : ℕ → ℤ
minus n = elim n [ zero ↦ pos 0 | suc k ↦ negsuc k ]

unfoldable pub rollback_speculation_queue : ℕ → ℕ → Shared → Shared
unfolding speculation_walk
rollback_speculation_queue object time s =
    let (kept, freed) = speculation_walk time (reverse (s.speculation_queue object)) in
    add_speculation (minus freed)
      (record s { speculation_queue = update s.speculation_queue object (reverse kept) })

-- Unlinking through the event's own pointers takes it out of whichever list holds it.
abbrev unlink_event : Config → Event → Shared → Shared
unlink_event c e s = record s {
  queue =
      update₂ s.queue e.destination (slot_index c e.timestamp)
        (Slot.unlink e.addr (s.queue e.destination (slot_index c e.timestamp)));
  retractable_queue =
      update s.retractable_queue e.destination
        (Slot.unlink e.addr (s.retractable_queue e.destination));
}

-- The first half of `queue_elem_annihilation`: the receiver must roll back before `time`.
unfoldable pub request_rollback : Config → ℕ → ℕ → World → Option World
request_rollback c object time w =
    let status = w.speculation object in
    let standing = record status { standing_rollback = true; causality_violation_time = time } in
    if status.standing_rollback
    then some (
        if ltb time status.causality_violation_time
        then with_shared
            (set_status object (record status { causality_violation_time = time }) w.shared) w
        else w)
    else if is_free status.the_state
    then put_into_stack c object (
        with_shared
          (set_status object (record standing { the_state = busy; owner = some w.me }) w.shared) w)
    else some (with_shared (set_status object standing w.shared) w)

-- The second half: which counter falls depends on how far the receiver has come.
unfoldable pub retract : Config → Event → World → World
retract c e w =
    with_shared
      (if ltb e.timestamp (w.speculation e.destination).current_time
        then add_retractable (negsuc 0) (unlink_event c e w.shared)
        else add_pending (negsuc 0) (unlink_event c e w.shared))
      w

unfoldable pub queue_elem_annihilation : Config → Event → World → Option World
queue_elem_annihilation c the_elem w = do
  w₁ ← request_rollback c the_elem.destination the_elem.timestamp w
  some (retract c the_elem w₁)

-- The loop of `log_rollback`, over the log from its tail.
unfoldable pub log_walk : Config → ℕ → List LogElement → World → Option (List LogElement × World)
log_walk c time [] w = some ([], w)
log_walk c time (current ∷ prev) w =
    let undo = queue_elem_annihilation c current.the_element w >>= log_walk c time prev in
    if leb time current.send_time then undo else some (current ∷ prev, w)

abbrev pub keep_log : ℕ → List LogElement → World → World
keep_log object kept w =
    with_shared (record w.shared { log_queue = update w.log_queue object kept }) w

unfoldable pub log_rollback : Config → ℕ → ℕ → World → Option World
unfolding log_walk
log_rollback c object time w = do
  done ← log_walk c time (reverse (w.log_queue object)) w
  some (keep_log object (reverse done.0) done.1)

-- The loop of `restore_retractable_events`, with the index of the first event.
unfoldable pub put_back : ℕ → List Event → Shared → Shared
put_back index [] s = s
put_back index (current ∷ rest) s = put_back index rest (queue_insert_in_slot current index s)

unfoldable pub restore_retractable_events : Config → ℕ → Shared → Shared
restore_retractable_events c object s = elim (s.retractable_queue object) [
  | [] ↦ s
  | first ∷ rest ↦ add_retractable (minus (length (first ∷ rest))) (
      put_back (slot_index c first.timestamp) (first ∷ rest)
        (record s { retractable_queue = update s.retractable_queue object [] }))
]

unfoldable pub run_rollback : Config → ℕ → ℕ → World → Option World
run_rollback c object time w = do
  let restored = record w.shared { backend = BackendCall.restore_object object ∷ w.shared.backend }
  w₁ ← log_rollback c object time (with_shared (rollback_speculation_queue object time restored) w)
  some (with_shared (restore_retractable_events c object w₁.shared) w₁)

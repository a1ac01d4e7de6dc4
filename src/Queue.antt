-- ===== src/Queue.antt =====
-- queue/queue.c: the calendar of slots, the fallback queue and the advance of the epoch.
pub mod Calendar
pub mod Epoch
use congenial_octo_telegram.Base.{
  ℕ, zero, suc, ◌+◌, ◌/◌, ◌%◌, ℤ, pos, negsuc, List, [], ◌∷◌, ◌++◌, Bool, true, false, ◌&&◌, ltb,
  leb, if◌then◌else◌, update₂,
}
use congenial_octo_telegram.Event.{Event, Config, num_slots}
use congenial_octo_telegram.Slot
use congenial_octo_telegram.World.{Shared, World, add_pending, with_shared}

-- `(int)(timestamp / SLOT_LEN) % NUM_SLOTS`
abbrev pub slot_index : Config → ℕ → ℕ
slot_index c timestamp = timestamp / c.lookahead % num_slots

abbrev pub link : ℕ → ℕ → Event → Shared → Shared
link object index elem s = record s {
  queue = update₂ s.queue object index (Slot.insert elem (s.queue object index));
}

-- `queue_insert_from_fallback`: the event is counted as pending already.
abbrev pub queue_insert_from_fallback : Config → Event → Shared → Shared
queue_insert_from_fallback c elem s = link elem.destination (slot_index c elem.timestamp) elem s

abbrev pub queue_insert_in_epoch : Config → Event → Shared → Shared
queue_insert_in_epoch c elem s =
    add_pending (pos 1) (link elem.destination (slot_index c elem.timestamp) elem s)

abbrev pub queue_insert_in_slot : Event → ℕ → Shared → Shared
queue_insert_in_slot elem index s = add_pending (pos 1) (link elem.destination index elem s)

-- What `queue_insert` and `ScheduleNewEvent` return: 0 or -1.
pub data Status : Type 0 where
  accepted refused : Status

abbrev append_fallback : Event → World → World
append_fallback elem w = record w {
  shared = add_pending (pos 1) w.shared;
  thread = record w.thread { fallback_queue = w.fallback_queue ++ (elem ∷ []) };
}

unfoldable pub queue_insert : Config → Event → World → Status × World
queue_insert c elem w =
    if ltb elem.timestamp w.current_min_limit
    then (refused, w)
    else if leb w.current_max_limit elem.timestamp
    then (accepted, append_fallback elem w)
    else (accepted, with_shared (queue_insert_in_epoch c elem w.shared) w)

-- The walk of `fallback_check`: each event whose time has come moves to its slot.
unfoldable pub fallback_walk : Config → List Event → Shared → List Event × Shared
fallback_walk c [] s = ([], s)
fallback_walk c (current ∷ next) s =
    let due = fallback_walk c next (queue_insert_from_fallback c current s) in
    let early = fallback_walk c next s in
    if ltb current.timestamp s.current_max_limit then due else (current ∷ early.0, early.1)

unfoldable pub fallback_check : Config → World → World
unfolding fallback_walk
fallback_check c w =
    let (kept, s) = fallback_walk c w.fallback_queue w.shared in
    record w { shared = s; thread = record w.thread { fallback_queue = kept } }

abbrev is_zero : ℤ → Bool
is_zero (pos zero) = true
is_zero (pos (suc n)) = false
is_zero (negsuc n) = false

unfoldable pub update_timing : Config → Shared → Shared
update_timing c s = record s {
  current_min_limit = s.current_min_limit + c.lookahead;
  current_max_limit = s.current_max_limit + c.lookahead;
  current_index = (s.current_index + 1) % num_slots;
  epochs = s.epochs + 1;
  object_identifiers = 0;
  shadow_object_identifiers = 0;
  retractable_object_identifiers = 0;
  object_identifiers_vector = λ node. 0;
  finished = if is_zero s.pending_events && is_zero s.speculation_events then true else s.finished;
}

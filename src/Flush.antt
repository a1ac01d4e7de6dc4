-- ===== src/Flush.antt =====
-- queue/queue.c: what is done for each object between two epochs. The workers share the objects out
-- by two counters, so one claim and the work that it leads to is one step.
pub mod Ends
use congenial_octo_telegram.Base.{
  ℕ, zero, suc, ◌+◌, sub_ℕ, List, [], ◌∷◌, Option, none, some, Bool, true, false, ltb,
  if◌then◌else◌, update, length,
}
use congenial_octo_telegram.Event.{Event, Config}
use congenial_octo_telegram.World.{
  ObjectStatus, Shared, World, free, add_speculation, add_retractable, set_status, with_shared,
  BackendCall,
}
use congenial_octo_telegram.Queue.{queue_insert}
use congenial_octo_telegram.Speculation.{flush_log}
use congenial_octo_telegram.Rollback.{minus}

-- What the next epoch starts from.
abbrev pub reset_status : ObjectStatus → ObjectStatus
reset_status status = record status {
  causality_violation_time = 0;
  standing_rollback = false;
  the_state = free;
  owner = none;
  already_taken = false;
}

-- The result of each insertion is ignored.
unfoldable pub insert_all : Config → List Event → World → World
insert_all c [] w = w
insert_all c (current ∷ next) w = insert_all c next (queue_insert c current w).1

-- One round of `speculation_queue_flush`, without AVOID_THROTTLING.
unfoldable pub flush_object : Config → ℕ → World → World
flush_object c object w =
    let ready = record (set_status object (reset_status (w.speculation object)) w.shared) {
      filter_message =
          update w.filter_message object (sub_ℕ (w.current_min_limit + c.lookahead) c.epsilon);
    } in
    let sent = w.speculation_queue object in
    let w₁ = insert_all c sent (with_shared (flush_log object ready) w) in
    with_shared
      (record (add_speculation (minus (length sent)) w₁.shared) {
        speculation_queue = update w₁.speculation_queue object [];
        backend = BackendCall.set_ckpt object ∷ w₁.shared.backend;
      })
      w₁

-- `__sync_fetch_and_add(&shadow_object_identifiers, 1)`, then the round or the return: `false` tells
-- that the worker leaves the loop.
unfoldable pub speculation_flush_another : Config → World → Bool × World
speculation_flush_another c w =
    let object = w.shared.shadow_object_identifiers in
    let claimed = with_shared (record w.shared { shadow_object_identifiers = object + 1 }) w in
    if ltb object c.objects then (true, flush_object c object claimed) else (false, claimed)

-- `none`: the fuel ran out.
unfoldable pub speculation_queue_flush : Config → ℕ → World → Option World
speculation_queue_flush c zero w = none
speculation_queue_flush c (suc fuel) w =
    let another = speculation_queue_flush c fuel (speculation_flush_another c w).1 in
    if (speculation_flush_another c w).0 then another else some (speculation_flush_another c w).1

-- One round of `retractable_queue_flush`: the events executed in the epoch are freed.
unfoldable pub retractable_flush_object : ℕ → Shared → Shared
retractable_flush_object object s =
    add_retractable (minus (length (s.retractable_queue object)))
      (record s { retractable_queue = update s.retractable_queue object [] })

unfoldable pub retractable_flush_another : Config → World → Bool × World
retractable_flush_another c w =
    let object = w.shared.retractable_object_identifiers in
    let claimed = record w.shared { retractable_object_identifiers = object + 1 } in
    if ltb object c.objects
    then (true, with_shared (retractable_flush_object object claimed) w)
    else (false, with_shared claimed w)

unfoldable pub retractable_queue_flush : Config → ℕ → World → Option World
retractable_queue_flush c zero w = none
retractable_queue_flush c (suc fuel) w =
    let another = retractable_queue_flush c fuel (retractable_flush_another c w).1 in
    if (retractable_flush_another c w).0 then another else some (retractable_flush_another c w).1

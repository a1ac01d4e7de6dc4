-- ===== src/Speculation.antt =====
-- speculation/speculation.c: the worker's stack of objects. queue/queue.c: the sends of an epoch.
pub mod Clock
pub mod Causality
pub mod Annihilation
pub mod Grid
use congenial_octo_telegram.Base.{
  ℕ, ◌+◌, pos, [], ◌∷◌, ◌++◌, Option, none, some, Bool, true, false, ◌&&◌, ltb, leb, if◌then◌else◌,
  update, ◌>>=◌, length,
}
use congenial_octo_telegram.Event.{Event, Config}
use congenial_octo_telegram.World.{
  ObjectStatus, Shared, World, ObjectState, free, busy, add_speculation, set_status, with_shared,
}
use congenial_octo_telegram.Queue.{Status, accepted, refused, queue_insert_in_epoch}

abbrev pub is_free : ObjectState → Bool
is_free free = true
is_free busy = false

abbrev mark_in_stack : ℕ → Bool → Shared → Shared
mark_in_stack object flag s =
    set_status object (record (s.speculation object) { in_stack = flag }) s

-- A stack with no room ends the program.
unfoldable pub put_into_stack : Config → ℕ → World → Option World
put_into_stack c object w =
    if leb c.objects (length w.object_stack)
    then none
    else some (record w {
      shared = mark_in_stack object true w.shared;
      thread = record w.thread { object_stack = object ∷ w.object_stack };
    })

-- The new entry is 0, below all others.
unfoldable pub put_head_into_stack : Config → ℕ → World → Option World
put_head_into_stack c object w =
    if leb c.objects (length w.object_stack)
    then none
    else some (record w {
      shared = mark_in_stack object true w.shared;
      thread = record w.thread { object_stack = w.object_stack ++ (object ∷ []) };
    })

-- `get_from_stack(&target)`
unfoldable pub get_from_stack : World → Bool × World
get_from_stack w = elim w.object_stack [
  | [] ↦ (false, w)
  | object ∷ rest ↦ (
    true,
    record w {
      shared = mark_in_stack object false w.shared;
      thread = record w.thread { target = some object; object_stack = rest };
    },
  )
]

unfoldable pub log_the_send : Event → ℕ → ℕ → Shared → Shared
log_the_send elem object now s = record s {
  log_queue =
      update s.log_queue object
        (s.log_queue object ++ (record { the_element = elem; send_time = now } ∷ []));
}

unfoldable pub flush_log : ℕ → Shared → Shared
flush_log object s = record s { log_queue = update s.log_queue object [] }

-- A tail insert into the sender's own queue.
abbrev append_speculation : ℕ → Event → Shared → Shared
append_speculation source elem s = add_speculation (pos 1) (record s {
  speculation_queue = update s.speculation_queue source (s.speculation_queue source ++ (elem ∷ []));
})

abbrev owned_by : ℕ → ObjectStatus → ObjectStatus
owned_by thread status = record status { the_state = busy; owner = some thread }

abbrev pub no_target : World → World
no_target w = record w { thread = record w.thread { target = none } }

-- A straggler: the destination has run past `elem`. A free destination is taken over, and its turn
-- comes before the sender's.
unfoldable pub straggler : Config → ℕ → Event → World → Option World
straggler c source elem w =
    let object = elem.destination in
    let status = w.speculation object in
    let standing = record status {
      standing_rollback = true;
      causality_violation_time = elem.timestamp;
    } in
    if status.standing_rollback
    then some (
        if ltb elem.timestamp status.causality_violation_time
        then with_shared
            (set_status object (record status { causality_violation_time = elem.timestamp })
              w.shared)
            w
        else w)
    else if is_free status.the_state
    then (do
      w₁ ←
          put_head_into_stack c source
            (with_shared (set_status object (owned_by w.me standing) w.shared) w)
      w₂ ← put_into_stack c object w₁
      some (no_target w₂))
    else some (with_shared (set_status object standing w.shared) w)

-- The destination has not come so far yet. Where it has been served in this epoch and is free, it is
-- taken again.
unfoldable pub resume : Config → ℕ → World → Option World
resume c object w =
    let status = w.speculation object in
    if is_free status.the_state && status.already_taken
    then put_into_stack c object (with_shared (set_status object (owned_by w.me status) w.shared) w)
    else some w

abbrev insert_in_epoch : Config → Event → World → World
insert_in_epoch c elem w = with_shared (queue_insert_in_epoch c elem w.shared) w

-- The part of `speculation_queue_insert` under the destination's lock.
unfoldable pub deliver : Config → ℕ → Event → World → Option World
deliver c source elem w =
    if leb elem.timestamp (w.speculation elem.destination).current_time
    then (straggler c source elem w >>= λ w₁. some (insert_in_epoch c elem w₁))
    else resume c elem.destination (insert_in_epoch c elem w)

unfoldable pub speculation_queue_insert : Config → Event → World → Option (Status × World)
speculation_queue_insert c elem w =
    let source = w.thread.current in
    let now = w.thread.current_time in
    let sent = record elem { send_time = now } in
    if ltb elem.timestamp w.current_min_limit
    then some (refused, w)
    else if leb (w.current_min_limit + c.lookahead) elem.timestamp
    then some (accepted, with_shared (append_speculation source sent w.shared) w)
    else (do
      w₁ ← deliver c source sent (with_shared (log_the_send sent source now w.shared) w)
      some (accepted, w₁))

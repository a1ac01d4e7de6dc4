-- ===== src/Extract.antt =====
-- queue/queue.c, `queue_extract`: one worker's search for the next event, as a machine whose states
-- are the labels of the function and the points where it takes a lock or waits at the barrier.
-- The build is the one of every benchmark: SPECULATION and NUMA_BALANCING, without DEBUG and
-- AVOID_THROTTLING.
pub mod Machine
pub mod Acquire
use congenial_octo_telegram.Base.{
  ℕ, ◌+◌, ◌%◌, pos, List, [], ◌∷◌, ◌++◌, Option, none, some, Bool, true, false, not, ◌&&◌, ltb, leb,
  ◌==◌, if◌then◌else◌, update, update₂, ◌>>=◌, sub_ℕ,
}
use congenial_octo_telegram.Event.{Event, Config}
use congenial_octo_telegram.Slot
use congenial_octo_telegram.World.{
  ObjectStatus, World, free, busy, add_pending, add_retractable, set_status, with_shared,
}
use congenial_octo_telegram.Speculation.{is_free, get_from_stack}
use congenial_octo_telegram.Rollback.{run_rollback}

-- The tables `c` and `min` of engine.c, and NUMA_NODES.
pub record Placement : Type 0 where
  pub nodes : ℕ
  pub counter : ℕ → ℕ
  pub first : ℕ → ℕ

-- `entry` is the call, and `end_of_epoch` the first barrier. The flushes loop on themselves.
pub data Label : Type 0 where
  entry start redo lookup exhausted check : Label
  barrier_flush retractable_flush speculation_flush barrier_timing barrier_index : Label
  barrier_start : Label

-- Where the worker goes on, or the event that the call returns; the `none` of a step is exit().
pub data Next : Type 0 where
  goto : Label → World → Next
  returns : Option Event → World → Next

abbrev set_target : Option ℕ → World → World
set_target target w = record w { thread = record w.thread { target = target } }

-- `__sync_fetch_and_add(&object_identifiers_vector[myNUMAindex], 1)`
abbrev pub ticket : World → ℕ
ticket w = w.shared.object_identifiers_vector w.thread.my_numa_index

abbrev take_ticket : World → World
take_ticket w = record w {
  shared = record w.shared {
    object_identifiers_vector =
        update w.shared.object_identifiers_vector w.thread.my_numa_index (ticket w + 1);
  };
}

-- The label `start` with no target: take a ticket; past the node's last object steal from the next
-- node, and past the last node settle for OBJECTS.
unfoldable pub claim : Config → Placement → World → World
claim c p w =
    let node = w.thread.my_numa_index in
    let next = take_ticket w in
    if leb (p.counter node) (ticket w)
    then (if ltb w.thread.steal_numa_index p.nodes
        then record next {
          thread = record w.thread {
            target = none;
            steal_numa_index = w.thread.steal_numa_index + 1;
            my_numa_index = (node + 1) % p.nodes;
          };
        }
        else set_target (some c.objects) next)
    else set_target (some (ticket w + p.first node)) next

abbrev owner_is : ℕ → Option ℕ → Bool
owner_is thread none = false
owner_is thread (some other) = other == thread

abbrev taken : ℕ → ObjectStatus → ObjectStatus
taken thread status = record status {
  the_state = busy;
  owner = if is_free status.the_state then some thread else status.owner;
  already_taken = true;
}

-- The label `redo` with a target below OBJECTS, up to the search of the slot.
unfoldable pub acquire : Config → ℕ → World → Option Next
acquire c object w =
    let status = w.speculation object in
    if not (is_free status.the_state) && not (owner_is w.me status.owner)
    then some (goto start (set_target none w))
    else if status.standing_rollback
    then (let time = status.causality_violation_time in
        let ready =
          with_shared
            (record (set_status object
              (record (taken w.me status) {
                standing_rollback = false;
                current_time = w.current_min_limit;
              })
              w.shared) { filter_message = update w.filter_message object (sub_ℕ time c.epsilon) })
            w in
        let rolled = run_rollback c object time ready >>= λ w₁. some (goto lookup w₁) in
        if ltb 0 time then rolled else some (goto lookup ready))
    else some (goto lookup (with_shared (set_status object (taken w.me status) w.shared) w))

abbrev release : ℕ → World → World
release object w =
    with_shared
      (set_status object (record (w.speculation object) { the_state = free; owner = none })
        w.shared)
      w

-- After an object with nothing to do: the stack first, then the next ticket. A ticket that is too
-- high is given up for one more, at `start`.
unfoldable pub next_target : Config → Placement → World → Next
next_target c p w =
    let (found, popped) = get_from_stack w in
    if found
    then goto redo popped
    else if leb (p.counter w.thread.my_numa_index) (ticket w)
    then goto start (set_target none (take_ticket w))
    else goto redo (set_target (some (ticket w + p.first w.thread.my_numa_index)) (take_ticket w))

-- The slot of the epoch is read under the object's lock.
unfoldable pub look : Config → Placement → ℕ → World → Next
look c p object w = elim (w.queue object w.my_index) [
  | [] ↦ next_target c p (release object w)
  | elem ∷ rest ↦ goto check w
]

-- The extraction itself, and the move to the queue of executed events.
unfoldable pub execute : ℕ → Event → List Event → World → World
execute object elem rest w =
    with_shared
      (add_pending (pos 1) (
        add_retractable (pos 1)
          (record (set_status object
            (record (w.speculation object) { current_time = elem.timestamp }) w.shared) {
              queue = update₂ w.queue object w.my_index rest;
              retractable_queue =
                  update w.retractable_queue object (w.retractable_queue object ++ (elem ∷ []));
            })))
      w

-- The last look under the lock: a rollback may have been asked for, or the slot emptied by one.
unfoldable pub take_event : Config → ℕ → World → Option Next
take_event c object w =
    if (w.speculation object).standing_rollback
    then some (goto redo w)
    else elim (Slot.extract (w.queue object w.my_index)) [
      | none ↦
          if (w.speculation object).in_stack
          then none
          else (let (found, popped) = get_from_stack (release object w) in
              if found
              then some (goto redo popped)
              else if w.finished
              then some (returns none popped)
              else some (goto redo popped))
      | some (elem, rest) ↦ some (returns (some elem) (execute object elem rest w))
    ]

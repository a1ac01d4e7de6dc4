-- ===== src/Stubs.antt =====
-- stubs/stubs.c: ScheduleNewEvent, through which a model's handler sends an event, in a build with
-- SPECULATION.
pub mod Causality
use congenial_octo_telegram.Base.{
  ℕ, zero, suc, ◌+◌, ℤ, pos, List, [], ◌∷◌, take, Option, none, some, Bool, true, false, ◌&&◌, ◌==◌,
  leb_ℤ, ltb_ℤ, pos_part, if◌then◌else◌,
}
use congenial_octo_telegram.Event.{Event, Config, max_event_size}
use congenial_octo_telegram.World.{Shared, World}
use congenial_octo_telegram.Queue.{Status, accepted, refused, queue_insert}
use congenial_octo_telegram.Speculation.{speculation_queue_insert}

-- The arguments of a call. A `body` of `none` is NULL; `size` is an int.
pub record Request : Type 0 where
  pub destination : ℕ
  pub timestamp : ℕ
  pub event_type : ℕ
  pub body : Option (List ℕ)
  pub size : ℤ

abbrev is_null : Option (List ℕ) → Bool
is_null none = true
is_null (some bytes) = false

abbrev bytes_of : Option (List ℕ) → List ℕ
bytes_of none = []
bytes_of (some bytes) = bytes

-- The three early returns of -1.
abbrev pub bad_request : Request → Bool
bad_request r =
    if ltb_ℤ (pos max_event_size) r.size
    then true
    else if ltb_ℤ r.size (pos 0)
    then true
    else ltb_ℤ (pos 0) r.size && is_null r.body

-- The event at the address that malloc gave. Its `send_time` is written where it is queued.
abbrev pub new_event : Request → ℕ → Event
new_event r addr = record {
  addr = addr;
  destination = r.destination;
  timestamp = r.timestamp;
  send_time = 0;
  event_type = r.event_type;
  payload = take (pos_part r.size) (bytes_of r.body);
  event_size = pos_part r.size;
}

-- Coasting forward: the object runs again what it had sent already.
abbrev pub is_filtered : World → Bool
is_filtered w = leb_ℤ (pos w.thread.current_time) (w.shared.filter_message w.thread.current)

-- `allocated` is what malloc returns, `none` for NULL. STARTUP_TIME is 0.
unfoldable pub schedule_new_event : Config → Option ℕ → Request → World → Option (Status × World)
schedule_new_event c allocated r w =
    if bad_request r
    then some (refused, w)
    else if is_filtered w
    then some (accepted, w)
    else elim allocated [
      | none ↦ some (refused, w)
      | some addr ↦
          if w.thread.current_time == 0
          then some (queue_insert c (new_event r addr) w)
          else speculation_queue_insert c (new_event r addr) w
    ]

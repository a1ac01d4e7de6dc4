-- ===== src/Event.antt =====
-- include/engine.h and include/queue.h: events, and the element that links one into a queue.
-- Simulation times are doubles that the code adds and compares. They are natural numbers here: the
-- multiples of a tick that divides LOOKAHEAD and `epsilon`.
use congenial_octo_telegram.Base.{ℕ, List}

-- `struct _event`, with its address. The constructor of an event copies destination and timestamp
-- into both halves of it, so each stands here once. `next` and `prev` are the lists' own order.
pub record Event : Type 0 where
  pub addr : ℕ
  pub destination : ℕ
  pub timestamp : ℕ
  pub send_time : ℕ
  pub event_type : ℕ
  pub payload : List ℕ
  pub event_size : ℕ

-- `struct _log_element`: a pointer to an event that was sent within the epoch, and when.
pub record LogElement : Type 0 where
  pub the_element : Event
  pub send_time : ℕ

-- MAX_EVENT_SIZE
abbrev pub max_event_size : ℕ
max_event_size = 512

-- NUM_SLOTS
abbrev pub num_slots : ℕ
num_slots = 2000

-- What the build chooses: OBJECTS, and LOOKAHEAD and `epsilon` in ticks.
pub record Config : Type 0 where
  pub objects : ℕ
  pub lookahead : ℕ
  pub epsilon : ℕ

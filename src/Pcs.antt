-- ===== src/Pcs.antt =====
-- models/pcs/application.c and application.h: a cell of the phone network. The state of a cell is that
-- of `lp_state_type`, less the fields that the handlers never use. `Double` is the type of doubles.
pub mod Radio
pub mod Channels
pub mod Bitmap
pub mod Ledger
pub mod Allocation
pub mod Calls
pub mod Handlers
pub mod Events
pub mod Process
pub mod Network
pub mod Pool
use congenial_octo_telegram.Base.{ℕ, ℤ, List, Option, Bool}
use congenial_octo_telegram.Random.{Seeds}
use congenial_octo_telegram.Random.Doubles.{Doubles}

-- The codes of application.h, INIT, and any other.
pub data EventType : Type 0 where
  init start_call end_call handoff_leave handoff_recv handoff_in other : EventType

pub record SirData (Double : Type 0) : Type 0 where
  pub fading : Double
  pub power : Double

-- `struct _channel`; `prev` and `next` are the order of the list.
pub record Channel (Double : Type 0) : Type 0 where
  pub channel_id : ℕ
  pub sir_data : SirData Double

pub record LpState (Double : Type 0) : Type 0 where
  pub cell_id : ℕ
  pub seeds : Seeds
  pub channel_counter : ℕ
  pub arriving_calls : ℕ
  pub complete_calls : ℕ
  pub blocked_on_setup : ℕ
  pub blocked_on_handoff : ℕ
  pub leaving_handoffs : ℕ
  pub arriving_handoffs : ℕ
  pub executed_events : ℕ
  pub lvt : Double
  pub ta : Double
  pub ref_ta : Double
  pub ta_duration : Double
  pub ta_change : Double
  -- the 32 bits of an int, as an unsigned number
  pub channels_per_cell : ℕ
  -- the words of the bitmap
  pub channel_state : ℕ → ℕ
  -- from `channels` along `prev`
  pub channels : List (Channel Double)

-- `event_content_type`. The -1 that `channel` starts with is always written over before it is sent.
pub record Content (Double : Type 0) : Type 0 where
  pub cell : ℤ
  pub sender : ℕ
  pub sent_at : Double
  pub channel : ℕ
  pub call_term_time : Double

-- The arguments of a call of ScheduleNewEvent. A `body` of `none` is NULL.
pub record Message (Double : Type 0) : Type 0 where
  pub receiver : ℕ
  pub timestamp : Double
  pub event_type : EventType
  pub body : Option (Content Double)

-- What the build chooses: OBJECTS, CHANNELS_PER_CELL, LOOKAHEAD, TA, and whether SPECULATION is
-- defined.
pub record Build (Double : Type 0) : Type 0 where
  pub objects : ℕ
  pub channels_per_cell : ℕ
  pub lookahead : Double
  pub ta : Double
  pub speculation : Bool

-- What the code reads without having written it: a double and words that malloc gave, a content on
-- the stack, and a variable of FindReceiver. `memory` is whether malloc gives a cell that has executed so
-- many events all the memory that its handler asks for then; an exit follows if it does not.
pub record Unwritten (Double : Type 0) : Type 0 where
  pub memory : ℕ → ℕ → Bool
  pub fading : Double
  pub words : ℕ → ℕ
  pub content : Content Double
  pub receiver : ℕ

-- ===== src/World.antt =====
-- The global variables of queue/queue.c and speculation/speculation.c (`Shared`), and one worker's
-- thread-local ones (`Thread`). An array is a function of its index. A section under a spin lock is
-- one step, so the locks themselves are not kept.
use congenial_octo_telegram.Base.{
  ℕ, ◌*◌, ℤ, pos, sub_ℕ, ◌+ℤ◌, List, [], Option, none, Bool, false, update,
}
use congenial_octo_telegram.Event.{Event, LogElement, Config, num_slots}

-- `the_state` of `object_status`
pub data ObjectState : Type 0 where
  free busy : ObjectState

-- `struct _object_status`; an `owner` of -1 is `none`. `checkpointed` is used under AVOID_THROTTLING
-- only.
pub record ObjectStatus : Type 0 where
  pub current_time : ℕ
  pub owner : Option ℕ
  pub causality_violation_time : ℕ
  pub standing_rollback : Bool
  pub in_stack : Bool
  pub the_state : ObjectState
  pub already_taken : Bool

-- A call of the checkpoint backend that the build links in (chunk_ckpt, grid_ckpt or MVMM).
pub data BackendCall : Type 0 where
  restore_object set_ckpt : ℕ → BackendCall

-- `end` is `finished`. `backend` holds the calls of the backend, the latest first.
pub record Shared : Type 0 where
  pub queue : ℕ → ℕ → List Event
  pub retractable_queue : ℕ → List Event
  pub log_queue : ℕ → List LogElement
  pub speculation_queue : ℕ → List Event
  pub speculation : ℕ → ObjectStatus
  pub filter_message : ℕ → ℤ
  pub current_min_limit : ℕ
  pub current_max_limit : ℕ
  pub current_index : ℕ
  pub epochs : ℕ
  pub pending_events : ℤ
  pub speculation_events : ℤ
  pub retractable_events : ℤ
  pub object_identifiers : ℕ
  pub shadow_object_identifiers : ℕ
  pub retractable_object_identifiers : ℕ
  pub object_identifiers_vector : ℕ → ℕ
  pub finished : Bool
  pub backend : List BackendCall

-- `target` and `current` are -1 where they are `none`. The stack's list has its top first.
pub record Thread : Type 0 where
  pub me : ℕ
  pub target : Option ℕ
  pub my_index : ℕ
  pub fallback_queue : List Event
  pub object_stack : List ℕ
  pub my_numa_node : ℕ
  pub my_numa_index : ℕ
  pub steal_numa_index : ℕ
  pub current : ℕ
  pub current_time : ℕ

pub record World : Type 0 where
  pub shared : Shared
  pub open shared use {
    queue, retractable_queue, log_queue, speculation_queue, speculation, filter_message,
    current_min_limit, current_max_limit, current_index, epochs, pending_events, speculation_events,
    retractable_events, finished,
  }
  pub thread : Thread
  pub open thread use {me, target, my_index, fallback_queue, object_stack}

-- The initialisers of `object_status`; `speculation_init` sets the owner.
abbrev pub idle_status : ObjectStatus
idle_status = record {
  current_time = 0;
  owner = none;
  causality_violation_time = 0;
  standing_rollback = false;
  in_stack = false;
  the_state = free;
  already_taken = false;
}

-- The program's start: the static initialisers, `queue_init` and `speculation_init`.
abbrev pub init : Config → Shared
init c = record {
  queue = λ object slot. [];
  retractable_queue = λ object. [];
  log_queue = λ object. [];
  speculation_queue = λ object. [];
  speculation = λ object. idle_status;
  filter_message = λ object. sub_ℕ 0 c.epsilon;
  current_min_limit = 0;
  current_max_limit = num_slots * c.lookahead;
  current_index = 0;
  epochs = 0;
  pending_events = pos 0;
  speculation_events = pos 0;
  retractable_events = pos 0;
  object_identifiers = 0;
  shadow_object_identifiers = 0;
  retractable_object_identifiers = 0;
  object_identifiers_vector = λ node. 0;
  finished = false;
  backend = [];
}

-- `__sync_fetch_and_add(&pending_events, n)`, and of the two other counters.
abbrev pub add_pending : ℤ → Shared → Shared
add_pending n s = record s { pending_events = s.pending_events +ℤ n }

abbrev pub add_speculation : ℤ → Shared → Shared
add_speculation n s = record s { speculation_events = s.speculation_events +ℤ n }

abbrev pub add_retractable : ℤ → Shared → Shared
add_retractable n s = record s { retractable_events = s.retractable_events +ℤ n }

abbrev pub set_status : ℕ → ObjectStatus → Shared → Shared
set_status object status s = record s { speculation = update s.speculation object status }

abbrev pub with_shared : Shared → World → World
with_shared s w = record w { shared = s }

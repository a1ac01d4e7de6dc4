-- ===== src/Tests/Scene.antt =====
-- A run of four objects, with a lookahead of ten ticks, in its first epoch: object 1 has run up to
-- time 5, and the worker is at object 0, at time 2.
use congenial_octo_telegram.Base.{ℕ, [], ◌==◌, if◌then◌else◌, some}
use congenial_octo_telegram.Event.{Event, Config}
use congenial_octo_telegram.World.{ObjectStatus, Shared, Thread, World, idle_status, init}

abbrev pub config : Config
config = record { objects = 4; lookahead = 10; epsilon = 1 }

-- An event at an address, for an object, at a time, sent at a time.
abbrev pub event : ℕ → ℕ → ℕ → ℕ → Event
event addr destination timestamp send_time = record {
  addr = addr;
  destination = destination;
  timestamp = timestamp;
  send_time = send_time;
  event_type = 0;
  payload = [];
  event_size = 0;
}

abbrev pub status_at : ℕ → ObjectStatus
status_at time = record idle_status { current_time = time }

abbrev pub shared : Shared
shared = record (init config) { speculation = λ j. status_at (if j == 1 then 5 else 0) }

abbrev pub worker : Thread
worker = record {
  me = 0;
  target = some 0;
  my_index = 0;
  fallback_queue = [];
  object_stack = [];
  my_numa_node = 0;
  my_numa_index = 0;
  steal_numa_index = 0;
  current = 0;
  current_time = 2;
}

abbrev pub world : World
world = record { shared = shared; thread = worker }

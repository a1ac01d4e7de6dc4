-- ===== src/Flush/Ends.antt =====
-- queue/queue.c: the course of speculation_queue_flush.
use congenial_octo_telegram.Base.{ℕ, ◌+◌, ◌≡◌, ℤ, sub_ℕ, List, []}
use congenial_octo_telegram.Event.{Event, LogElement, Config}
use congenial_octo_telegram.World.{ObjectStatus, with_shared, Shared, World}
use congenial_octo_telegram.Flush.{reset_status}

-- What an insertion does not touch.
pub record Rest : Type 0 where
  pub speculation_queue : ℕ → List Event
  pub log_queue : ℕ → List LogElement
  pub speculation : ℕ → ObjectStatus
  pub filter_message : ℕ → ℤ
  pub min_limit : ℕ
  pub shadow : ℕ

abbrev pub rest_of : Shared → Rest
rest_of s = record {
  speculation_queue = s.speculation_queue;
  log_queue = s.log_queue;
  speculation = s.speculation;
  filter_message = s.filter_message;
  min_limit = s.current_min_limit;
  shadow = s.shadow_object_identifiers;
}

-- An object as the next epoch finds it.
pub record Ready (c : Config) (object : ℕ) (r : Rest) : Type 0 where
  pub no_sends : r.speculation_queue object ≡ []
  pub no_log : r.log_queue object ≡ []
  pub status : (old : ObjectStatus) × (r.speculation object ≡ reset_status old)
  pub filter : r.filter_message object ≡ sub_ℕ (r.min_limit + c.lookahead) c.epsilon

abbrev pub IsReady : Config → ℕ → World → Type 0
IsReady c object w = Ready c object (rest_of w.shared)

abbrev claimed : World → World
claimed w =
    with_shared
      (record w.shared { shadow_object_identifiers = w.shared.shadow_object_identifiers + 1 }) w

-- ===== src/Queue/Calendar.antt =====
-- queue/queue.c: the invariant of the calendar of slots, and the insertions.
use congenial_octo_telegram.Base.{
  All, ℕ, ◌+◌, ◌*◌, ◌%◌, ◌≤◌, ◌<◌, ◌≡◌, refl, inl, inr, List, [], ◌∷◌, arith, ltb, leb, Bool-cases,
  update₂_cases,
}
use congenial_octo_telegram.Event.{Event, Config, num_slots}
use congenial_octo_telegram.Slot.Order.{IsSorted, insert-All, insert-IsSorted}
use congenial_octo_telegram.World.{Shared, World}
use congenial_octo_telegram.Queue.{
  slot_index, link, queue_insert_from_fallback, queue_insert, fallback_walk,
}

-- Where the code puts an event of the window from `low` to `high`: at its object, in its slot.
pub record Placed (c : Config) (low high object slot : ℕ) (e : Event) : Type 0 where
  pub to_object : e.destination ≡ object
  pub in_slot : slot_index c e.timestamp ≡ slot
  pub above : low ≤ e.timestamp
  pub below : e.timestamp < high

pub record Calendar (c : Config) (queue : ℕ → ℕ → List Event) (low high index epochs : ℕ)
    : Type 0 where
  pub epoch_start : low ≡ epochs * c.lookahead
  pub window : high ≡ low + num_slots * c.lookahead
  pub current : index ≡ epochs % num_slots
  pub sorted : (object slot : ℕ) → IsSorted (queue object slot)
  pub placed : (object slot : ℕ) → All (Placed c low high object slot) (queue object slot)

abbrev pub IsCalendar : Config → Shared → Type 0
IsCalendar c s = Calendar c s.queue s.current_min_limit s.current_max_limit s.current_index s.epochs

-- An event that belongs to a slot may be linked into it.
pub link-IsCalendar :
    (c : Config) (s : Shared) (object slot : ℕ) (e : Event)
    → Placed c s.current_min_limit s.current_max_limit object slot e
    → IsCalendar c s
    → IsCalendar c (link object slot e s)
link-IsCalendar c s object slot e here v = record {
  epoch_start = v.epoch_start;
  window = v.window;
  current = v.current;
  sorted =
      update₂_cases (λ j l xs. IsSorted xs) s.queue object slot _
        (insert-IsSorted e (s.queue object slot) (v.sorted object slot)) v.sorted;
  placed =
      update₂_cases (λ j l xs. All (Placed c s.current_min_limit s.current_max_limit j l) xs)
        s.queue object slot _
        (insert-All (Placed c s.current_min_limit s.current_max_limit object slot) e
          (s.queue object slot) here (v.placed object slot))
        v.placed;
}

-- If the calendar is in order (every slot sorted, every event at its object, in its slot and in the
-- window, the window's limits and index those of the epoch), `queue_insert` of any event keeps it
-- so.
pub queue_insert-IsCalendar :
    (c : Config) (e : Event) (w : World)
    → IsCalendar c w.shared
    → IsCalendar c (queue_insert c e w).1.shared
unfolding queue_insert
queue_insert-IsCalendar c e w v = elim (Bool-cases (ltb e.timestamp w.current_min_limit)) [
  | inl early ↦ rw early v
  | inr in_time ↦ elim (Bool-cases (leb w.current_max_limit e.timestamp)) [
    | inl late ↦ rw (in_time, late) v
    | inr now ↦
        rw (in_time, now)
          (link-IsCalendar c w.shared e.destination (slot_index c e.timestamp) e
            (record {
              to_object = refl;
              in_slot = refl;
              above = ground arith;
              below = ground arith;
            })
            v)
  ]
]

-- If no event of the fallback queue is before the window and the calendar is in order, the move of
-- the events that are due keeps it in order.
pub fallback_walk-IsCalendar :
    (c : Config) (xs : List Event) (s : Shared)
    → All (λ (e : Event). s.current_min_limit ≤ e.timestamp) xs
    → IsCalendar c s
    → IsCalendar c (fallback_walk c xs s).1
unfolding fallback_walk
fallback_walk-IsCalendar c [] s h v = v
fallback_walk-IsCalendar c (x ∷ xs) s h v =
    elim (Bool-cases (ltb x.timestamp s.current_max_limit)) [
      | inr early ↦ rw early (fallback_walk-IsCalendar c xs s h.1 v)
      | inl due ↦ rw due (
          fallback_walk-IsCalendar c xs (queue_insert_from_fallback c x s) h.1 (
            link-IsCalendar c s x.destination (slot_index c x.timestamp) x
              (record { to_object = refl; in_slot = refl; above = h.0; below = ground arith }) v))
    ]

-- ===== src/Queue/Epoch.antt =====
-- queue/queue.c: the slot of the current epoch, and the advance of the epoch.
use native.Mathlib.Nat.{le-div_iff_mul-le, div-lt_iff_lt-mul}
use native.Mathlib.Decide.{dec_lt, ℕ_discrete}
use congenial_octo_telegram.Base.{
  All, All-weaken, ℕ, ◌+◌, ◌*◌, ◌/◌, ◌%◌, ◌≤◌, ◌<◌, ◌≡◌, ◌≢◌, [], arith, ◌↔◌,
}
use congenial_octo_telegram.Event.{Event, Config, num_slots}
use congenial_octo_telegram.World.{Shared}
use congenial_octo_telegram.Queue.{update_timing}
use congenial_octo_telegram.Queue.Calendar.{Placed, IsCalendar}

-- A time of the window in the slot of the epoch is a time of the epoch.
epoch_of_slot :
    (t l epochs : ℕ)
    → 0 < l
    → epochs * l ≤ t
    → t < epochs * l + num_slots * l
    → (t / l % num_slots ≡ epochs % num_slots) ↔ (t < epochs * l + l)
epoch_of_slot t l epochs pos lo hi = (
  λ same. omega (
    arith,
    (div-lt_iff_lt-mul {k = l} {x = t} {y = epochs + 1} pos).0 (omega (arith, from, to, same)),
  ),
  λ now.
      omega (arith, from, (div-lt_iff_lt-mul {k = l} {x = t} {y = epochs + 1} pos).1 (omega arith)),
)
  where
    from : epochs ≤ t / l
    from = (le-div_iff_mul-le {k = l} {x = epochs} {y = t} pos).1 lo

    to : t / l < epochs + num_slots
    to = (div-lt_iff_lt-mul {k = l} {x = t} {y = epochs + num_slots} pos).1 (omega arith)

-- If the lookahead is positive and the calendar is in order, the slot at `current_index` of each
-- object holds only events of the current epoch, those from `current_min_limit` to less than a
-- lookahead later.
pub epoch_slot_lem :
    (c : Config) (s : Shared) (object : ℕ)
    → 0 < c.lookahead
    → IsCalendar c s
    → All
        (λ (e : Event).
          (s.current_min_limit ≤ e.timestamp) × (e.timestamp < s.current_min_limit + c.lookahead))
        (s.queue object s.current_index)
epoch_slot_lem c s object pos v =
    All-weaken _ _ (s.queue object s.current_index)
      (λ e p. (
        p.above,
        omega (
          arith,
          (epoch_of_slot e.timestamp c.lookahead s.epochs pos (omega arith) (omega arith)).0
              (omega arith),
        ),
      ))
      (v.placed object s.current_index)

-- An event outside that slot is not due before the next epoch.
pub later_slot :
    (c : Config) (s : Shared) (object slot : ℕ) (e : Event)
    → 0 < c.lookahead
    → IsCalendar c s
    → slot ≢ s.current_index
    → Placed c s.current_min_limit s.current_max_limit object slot e
    → Placed c (s.current_min_limit + c.lookahead) (s.current_max_limit + c.lookahead) object slot e
later_slot c s object slot e pos v other p = record {
  to_object = p.to_object;
  in_slot = p.in_slot;
  above = elim (dec_lt e.timestamp (s.current_min_limit + c.lookahead)) [
    | no late ↦ omega arith
    | yes now ↦ absurd (
        other (
          omega (
            arith,
            (epoch_of_slot e.timestamp c.lookahead s.epochs pos (omega arith) (omega arith)).1
                (omega arith),
          )))
  ];
  below = omega arith;
}

-- If the lookahead is positive, the calendar is in order and the slots of the current epoch are
-- empty, `update_timing` keeps the calendar in order: the slot of the epoch that ends becomes the
-- last one of the window.
pub update_timing-IsCalendar :
    (c : Config) (s : Shared)
    → 0 < c.lookahead
    → ((object : ℕ) → s.queue object s.current_index ≡ [])
    → IsCalendar c s
    → IsCalendar c (update_timing c s)
unfolding update_timing
update_timing-IsCalendar c s pos drained v = record {
  epoch_start = omega arith;
  window = omega arith;
  current = omega arith;
  sorted = v.sorted;
  placed = λ object slot. elim (ℕ_discrete slot s.current_index) [
    | no other ↦
        All-weaken _ _ (s.queue object slot) (λ e. later_slot c s object slot e pos v other)
          (v.placed object slot)
    | yes now ↦ rw (now, drained object) tt
  ];
}

-- ===== src/Rollback/Restore.antt =====
-- queue/queue.c, `restore_retractable_events`: the way back of what an object executed in the
-- epoch.
use mathlib.Core.Path.{subst}
use mathlib.Core.List.{Perm, perm_middle}
use mathlib.Core.List.Perm
use congenial_octo_telegram.Base.{
  ℕ, ◌≡◌, refl, sym, ap, ◌∙◌, List, [], ◌∷◌, ◌++◌, All, All-weaken, length, update, update₂, ◌+ℤ◌,
  pos, int_laws, update_self, update₂_self,
}
use congenial_octo_telegram.Event.{Event, Config}
use congenial_octo_telegram.Slot
use congenial_octo_telegram.Slot.Order.{insert-perm}
use congenial_octo_telegram.World.{Shared}
use congenial_octo_telegram.Queue.{queue_insert_in_slot}
use congenial_octo_telegram.Rollback.{put_back, minus, restore_retractable_events}
use congenial_octo_telegram.Queue.Calendar.{Placed, IsCalendar, link-IsCalendar}

put_back-perm :
    (object index : ℕ) (xs : List Event) (s : Shared)
    → All (λ (e : Event). e.destination ≡ object) xs
    → Perm ((put_back index xs s).queue object index) (xs ++ s.queue object index)
unfolding put_back
put_back-perm object index [] s h = Perm.refl (s.queue object index)
put_back-perm object index (x ∷ xs) s h =
    Perm.trans (put_back-perm object index xs (queue_insert_in_slot x index s) h.1)
      (Perm.trans (Perm.append_left xs linked) (perm_middle xs (s.queue object index)))
  where
    linked :
        Perm
          (update₂ s.queue x.destination index
            (Slot.insert x (s.queue x.destination index))
            object
            index)
          (x ∷ s.queue object index)
    linked =
        subst
          (λ d.
            Perm (update₂ s.queue d index (Slot.insert x (s.queue d index)) object index)
              (x ∷ s.queue object index))
          (sym h.0)
          (subst (λ q. Perm q (x ∷ s.queue object index))
            (sym (update₂_self s.queue object index (Slot.insert x (s.queue object index))))
            (insert-perm x (s.queue object index)))

put_back-pending :
    (index : ℕ) (xs : List Event) (s : Shared)
    → (put_back index xs s).pending_events ≡ s.pending_events +ℤ pos (length xs)
unfolding put_back
put_back-pending index [] s = omega int_laws
put_back-pending index (x ∷ xs) s =
    put_back-pending index xs (queue_insert_in_slot x index s) ∙ omega int_laws

put_back-others :
    (index : ℕ) (xs : List Event) (s : Shared)
    → ((put_back index xs s).retractable_queue ≡ s.retractable_queue)
      × ((put_back index xs s).retractable_events ≡ s.retractable_events)
      × ((put_back index xs s).speculation ≡ s.speculation)
unfolding put_back
put_back-others index [] s = (refl, refl, refl)
put_back-others index (x ∷ xs) s = put_back-others index xs (queue_insert_in_slot x index s)

put_back-IsCalendar :
    (c : Config) (object index : ℕ) (xs : List Event) (s : Shared)
    → All (Placed c s.current_min_limit s.current_max_limit object index) xs
    → IsCalendar c s
    → IsCalendar c (put_back index xs s)
unfolding put_back
put_back-IsCalendar c object index [] s h v = v
put_back-IsCalendar c object index (x ∷ xs) s h v =
    put_back-IsCalendar c object index xs (queue_insert_in_slot x index s) h.1 (
      link-IsCalendar c s x.destination index x
        (record { to_object = refl; in_slot = h.0.in_slot; above = h.0.above; below = h.0.below })
        v)

-- What is true once the executed events `xs` of an object are back in its slot.
pub record PutBack (c : Config) (object index : ℕ) (xs : List Event) (s s' : Shared) : Type 0 where
  pub emptied : s'.retractable_queue object ≡ []
  pub queued : Perm (s'.queue object index) (xs ++ s.queue object index)
  pub calendar : IsCalendar c s'
  pub pending : s'.pending_events ≡ s.pending_events +ℤ pos (length xs)
  pub retractable : s'.retractable_events ≡ s.retractable_events +ℤ minus (length xs)

restore_cases :
    (c : Config) (object index : ℕ) (xs : List Event) (s : Shared)
    → s.retractable_queue object ≡ xs
    → All (Placed c s.current_min_limit s.current_max_limit object index) xs
    → IsCalendar c s
    → PutBack c object index xs s (restore_retractable_events c object s)
unfolding restore_retractable_events
restore_cases c object index [] s e h v =
    rw (e, restore_retractable_events)
      (record {
        emptied = e;
        queued = Perm.refl (s.queue object index);
        calendar = v;
        pending = omega int_laws;
        retractable = omega int_laws;
      })
restore_cases c object index (x ∷ xs) s e h v =
    rw (e, restore_retractable_events, h.0.in_slot)
      (record {
        emptied =
            rw (put_back-others index (x ∷ xs) cleared).0
              (update_self s.retractable_queue object []);
        queued =
            put_back-perm object index (x ∷ xs) cleared
              (All-weaken _ _ (x ∷ xs) (λ y p. p.to_object) h);
        calendar = put_back-IsCalendar c object index (x ∷ xs) cleared h v;
        pending = put_back-pending index (x ∷ xs) cleared;
        retractable =
            ap (λ n. n +ℤ minus (length (x ∷ xs))) (put_back-others index (x ∷ xs) cleared).1;
      })
  where
    cleared : Shared
    cleared = record s { retractable_queue = update s.retractable_queue object [] }

-- If what an object has executed belongs to one slot and the calendar is in order,
-- `restore_retractable_events` empties its retractable queue, leaves in that slot these events and
-- what it held before, keeps the calendar in order, adds the number of these events to the pending
-- ones and takes it off the retractable ones.
pub restore_retractable_events_lem :
    (c : Config) (object index : ℕ) (s : Shared)
    → All
        (Placed c s.current_min_limit s.current_max_limit object index)
        (s.retractable_queue object)
    → IsCalendar c s
    → PutBack c object index (s.retractable_queue object) s (restore_retractable_events c object s)
restore_retractable_events_lem c object index s h v =
    restore_cases c object index (s.retractable_queue object) s refl h v

-- ===== src/Rollback/Undo.antt =====
-- queue/queue.c: what the two loops from the tail of a queue and of a log take back.
use mathlib.Core.List.{reverse, reverse-reverse}
use congenial_octo_telegram.Base.{
  ℕ, ◌+◌, ◌≡◌, ◌≢◌, length-reverse, refl, sym, inl, inr, List, [], ◌∷◌, Option, some, false, arith,
  ltb, leb, Bool-cases, All-weaken, select, select-reverse, Rising, Falling, Falling-reverse,
  select_below, select_none, >>=-regroup, length, ◌+ℤ◌, ◌>>=◌, update_self,
}
use congenial_octo_telegram.Event.{Event, LogElement, Config}
use congenial_octo_telegram.World.{Shared, World}
use congenial_octo_telegram.Rollback.{
  speculation_walk, minus, rollback_speculation_queue, log_walk, keep_log, log_rollback,
  queue_elem_annihilation,
}

abbrev send_time : Event → ℕ
send_time e = e.send_time

abbrev log_time : LogElement → ℕ
log_time e = e.send_time

-- Sent before a time.
abbrev pub before : ℕ → List Event → List Event
before time = select λ e. ltb e.send_time time

abbrev pub logged_before : ℕ → List LogElement → List LogElement
logged_before time = select λ e. ltb e.send_time time

walk-before :
    (time : ℕ) (xs : List Event)
    → Falling send_time xs
    → (speculation_walk time xs).0 ≡ before time xs
unfolding speculation_walk
walk-before time [] f = refl
walk-before time (x ∷ xs) f = elim (Bool-cases (leb time x.send_time)) [
  | inl undone ↦ rw undone (ground (arith, walk-before time xs f.1))
  | inr kept ↦
      rw kept (
        ground
          (arith, select_below send_time time xs (All-weaken _ _ xs (λ y h. ground arith) f.0)))
]

-- Whatever it keeps and whatever it frees make up the queue.
walk-count :
    (time : ℕ) (xs : List Event)
    → length (speculation_walk time xs).0 + (speculation_walk time xs).1 ≡ length xs
unfolding speculation_walk
walk-count time [] = omega arith
walk-count time (x ∷ xs) = ground (arith, walk-count time xs)

-- If the speculation queue of an object is in the order of its send times,
-- `rollback_speculation_queue` keeps exactly the sends before the rollback's time, in order, leaves
-- the queues of other objects as they were, and takes as many events off the counter as the queue
-- lost.
pub rollback_speculation_queue_lem :
    (object time : ℕ) (s : Shared)
    → Rising send_time (s.speculation_queue object)
    → let s' = rollback_speculation_queue object time s in
      (s'.speculation_queue object ≡ before time (s.speculation_queue object))
      × ((other : ℕ) → other ≢ object → s'.speculation_queue other ≡ s.speculation_queue other)
      × ((n : ℕ) × (length (s'.speculation_queue object) + n ≡ length (s.speculation_queue object))
          × (s'.speculation_events ≡ s.speculation_events +ℤ minus n))
unfolding rollback_speculation_queue
rollback_speculation_queue_lem object time s r = (
  rw update_self (
      rw (
        walk-before time (reverse q) (Falling-reverse send_time q r),
        select-reverse,
        reverse-reverse,
      )),
  (λ other ne. ground arith),
  (
    (speculation_walk time (reverse q)).1,
    rw update_self (
        omega (
          arith,
          length-reverse (speculation_walk time (reverse q)).0,
          length-reverse q,
          walk-count time (reverse q),
        )),
    refl,
  ),
)
  where
    q : List Event
    q = s.speculation_queue object

-- The annihilations of some logged sends, one after another.
unfoldable pub annihilate_all : Config → List LogElement → World → Option World
annihilate_all c [] w = some w
annihilate_all c (x ∷ xs) w = queue_elem_annihilation c x.the_element w >>= annihilate_all c xs

abbrev pub logged_from : ℕ → List LogElement → List LogElement
logged_from time = select λ e. leb time e.send_time

log_walk-eq :
    (c : Config) (time : ℕ) (xs : List LogElement) (w : World)
    → Falling log_time xs
    → log_walk c time xs w
      ≡ (annihilate_all c (logged_from time xs) w >>= λ w'. some (logged_before time xs, w'))
unfolding log_walk annihilate_all
log_walk-eq c time [] w f = refl
log_walk-eq c time (x ∷ xs) w f = elim (Bool-cases (leb time x.send_time)) [
  | inl undone ↦ rw undone (
      rw (let e : ltb x.send_time time ≡ false = ground arith in e) (
        >>=-regroup (queue_elem_annihilation c x.the_element w) (log_walk c time xs)
          (annihilate_all c (logged_from time xs)) _ (λ w'. log_walk-eq c time xs w' f.1)))
  | inr kept ↦ rw (
    kept,
    select_none (λ e. leb time e.send_time) xs (All-weaken _ _ xs (λ y h. ground arith) f.0),
    select_below log_time time (x ∷ xs) (ground arith, All-weaken _ _ xs (λ y h. ground arith) f.0),
  )
]

-- If the log of an object is in the order of its send times, `log_rollback` is: annihilate exactly
-- the sends at the rollback's time or later, the latest first, then keep the others in the log.
pub log_rollback_lem :
    (c : Config) (object time : ℕ) (w : World)
    → Rising log_time (w.log_queue object)
    → log_rollback c object time w ≡ (
        annihilate_all c (reverse (logged_from time (w.log_queue object))) w >>= λ w'.
        some (keep_log object (logged_before time (w.log_queue object)) w'))
unfolding log_rollback
log_rollback_lem c object time w r =
    rw
      (
        log_walk-eq c time (reverse log) w (Falling-reverse log_time log r),
        select-reverse,
        select-reverse,
      )
      (sym (
        >>=-regroup (annihilate_all c (reverse (logged_from time log)) w)
          (λ w'. some (keep_log object (logged_before time log) w'))
          (λ w'. some (reverse (logged_before time log), w'))
          (λ done. some (keep_log object (reverse done.0) done.1)) (λ w'. rw reverse-reverse)))
  where
    log : List LogElement
    log = w.log_queue object

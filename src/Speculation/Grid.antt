-- ===== src/Speculation/Grid.antt =====
-- queue/queue.c: deliveries, retractions and executions, and the calendar.
use mathlib.Core.Path.{subst}
use congenial_octo_telegram.Base.{
  ℕ, ◌+◌, ◌≤◌, ◌<◌, ◌≡◌, refl, sym, ap, inl, inr, List, ◌∷◌, some, arith, Bool-cases, All, some_inj,
  >>=-eq-some, update₂, update₂_cases, leb, ltb,
}
use congenial_octo_telegram.Event.{Event, Config}
use congenial_octo_telegram.Slot
use congenial_octo_telegram.Slot.Order.{IsSorted, unlink-All, unlink-IsSorted}
use congenial_octo_telegram.World.{Shared, World, with_shared}
use congenial_octo_telegram.Queue.{Status, slot_index}
use congenial_octo_telegram.Queue.Calendar.{Placed, Calendar, IsCalendar, link-IsCalendar}
use congenial_octo_telegram.Speculation.{
  put_into_stack, put_head_into_stack, straggler, resume, deliver, log_the_send, insert_in_epoch,
  speculation_queue_insert,
}
use congenial_octo_telegram.Rollback.{request_rollback, retract, queue_elem_annihilation}
use congenial_octo_telegram.Extract.{execute}

-- What the calendar's invariant is about.
pub record Grid : Type 0 where
  pub queue : ℕ → ℕ → List Event
  pub low : ℕ
  pub high : ℕ
  pub index : ℕ
  pub epochs : ℕ

abbrev pub grid : World → Grid
grid w = record {
  queue = w.queue;
  low = w.current_min_limit;
  high = w.current_max_limit;
  index = w.current_index;
  epochs = w.epochs;
}

pub same_grid-IsCalendar :
    (c : Config) (w w' : World) → grid w' ≡ grid w → IsCalendar c w.shared → IsCalendar c w'.shared
same_grid-IsCalendar c w w' same v =
    subst (λ (g : Grid). Calendar c g.queue g.low g.high g.index g.epochs) (sym same) v

straggler-grid :
    (c : Config) (source : ℕ) (e : Event) (w w' : World)
    → straggler c source e w ≡ some w'
    → grid w' ≡ grid w
unfolding straggler put_into_stack put_head_into_stack
straggler-grid c source e w w' h = ground arith

resume-grid :
    (c : Config) (object : ℕ) (w w' : World) → resume c object w ≡ some w' → grid w' ≡ grid w
unfolding resume put_into_stack
resume-grid c object w w' h = ground arith

pub request_rollback-grid :
    (c : Config) (object time : ℕ) (w w' : World)
    → request_rollback c object time w ≡ some w'
    → grid w' ≡ grid w
unfolding request_rollback put_into_stack
request_rollback-grid c object time w w' h = ground arith

insert_in_epoch-IsCalendar :
    (c : Config) (e : Event) (w : World)
    → w.current_min_limit ≤ e.timestamp
    → e.timestamp < w.current_min_limit + c.lookahead
    → IsCalendar c w.shared
    → IsCalendar c (insert_in_epoch c e w).shared
insert_in_epoch-IsCalendar c e w lo hi v =
    link-IsCalendar c w.shared e.destination (slot_index c e.timestamp) e
      (record { to_object = refl; in_slot = refl; above = lo; below = omega (arith, v.window, hi) })
      v

deliver-IsCalendar :
    (c : Config) (source : ℕ) (e : Event) (w w' : World)
    → deliver c source e w ≡ some w'
    → w.current_min_limit ≤ e.timestamp
    → e.timestamp < w.current_min_limit + c.lookahead
    → IsCalendar c w.shared
    → IsCalendar c w'.shared
unfolding deliver
deliver-IsCalendar c source e w w' h lo hi v =
    elim (Bool-cases (leb e.timestamp (w.speculation e.destination).current_time)) [
      | inl past ↦
          let (w₁, ran, done) = >>=-eq-some (straggler c source e w) _ (rw past at h) in
          let same = straggler-grid c source e w w₁ ran in
          let low : w₁.current_min_limit ≡ w.current_min_limit = ap (λ (g : Grid). g.low) same in
          subst (λ w'. IsCalendar c w'.shared) (some_inj done)
            (insert_in_epoch-IsCalendar c e w₁ (omega (arith, low, lo)) (omega (arith, low, hi))
              (same_grid-IsCalendar c w w₁ same v))
      | inr ahead ↦
          same_grid-IsCalendar c (insert_in_epoch c e w) w'
            (resume-grid c e.destination (insert_in_epoch c e w) w' (rw ahead at h))
            (insert_in_epoch-IsCalendar c e w lo hi v)
    ]

-- If the calendar is in order, it is so after each call of `speculation_queue_insert` that does not
-- end the program, whatever event it is given.
pub speculation_queue_insert-IsCalendar :
    (c : Config) (e : Event) (w w' : World) (status : Status)
    → speculation_queue_insert c e w ≡ some (status, w')
    → IsCalendar c w.shared
    → IsCalendar c w'.shared
unfolding speculation_queue_insert log_the_send
speculation_queue_insert-IsCalendar c e w w' status h v =
    elim (Bool-cases (ltb e.timestamp w.current_min_limit)) [
      | inl early ↦
          subst (λ w'. IsCalendar c w'.shared) (ap (λ r. r.1) (some_inj (rw early at h))) v
      | inr in_time ↦ elim (Bool-cases (leb (w.current_min_limit + c.lookahead) e.timestamp)) [
        | inl later ↦
            subst (λ w'. IsCalendar c w'.shared)
              (ap (λ r. r.1) (some_inj (rw (in_time, later) at h))) v
        | inr now ↦
            let sent = record e { send_time = w.thread.current_time } in
            let logged =
              with_shared (log_the_send sent w.thread.current w.thread.current_time w.shared) w in
            let (w₁, ran, done) =
              >>=-eq-some (deliver c w.thread.current sent logged) _ (rw (in_time, now) at h) in
            subst (λ w'. IsCalendar c w'.shared) (ap (λ r. r.1) (some_inj done))
              (deliver-IsCalendar c w.thread.current sent logged w₁ ran (ground arith)
                (ground arith) v)
      ]
    ]

unlinked-Calendar :
    (c : Config) (object slot addr : ℕ) (s : Shared)
    → IsCalendar c s
    → IsCalendar c
        (record s { queue = update₂ s.queue object slot (Slot.unlink addr (s.queue object slot)) })
unlinked-Calendar c object slot addr s v = record {
  epoch_start = v.epoch_start;
  window = v.window;
  current = v.current;
  sorted =
      update₂_cases (λ j l xs. IsSorted xs) s.queue object slot _
        (unlink-IsSorted addr (s.queue object slot) (v.sorted object slot)) v.sorted;
  placed =
      update₂_cases (λ j l xs. All (Placed c s.current_min_limit s.current_max_limit j l) xs)
        s.queue object slot _ (unlink-All _ addr (s.queue object slot) (v.placed object slot))
        v.placed;
}

-- If the calendar is in order, it is so after each `queue_elem_annihilation` that does not end the
-- program.
pub queue_elem_annihilation-IsCalendar :
    (c : Config) (e : Event) (w w' : World)
    → queue_elem_annihilation c e w ≡ some w'
    → IsCalendar c w.shared
    → IsCalendar c w'.shared
unfolding queue_elem_annihilation retract
queue_elem_annihilation-IsCalendar c e w w' h v =
    let (w₁, asked, done) = >>=-eq-some (request_rollback c e.destination e.timestamp w) _ h in
    let before =
      same_grid-IsCalendar c w w₁ (request_rollback-grid c e.destination e.timestamp w w₁ asked)
        v in
    let after =
      unlinked-Calendar c e.destination (slot_index c e.timestamp) e.addr w₁.shared before in
    subst (λ w'. IsCalendar c w'.shared) (some_inj done)
      (elim (Bool-cases (ltb e.timestamp (w₁.speculation e.destination).current_time)) [
        | inl past ↦ rw past (record {
          epoch_start = after.epoch_start;
          window = after.window;
          current = after.current;
          sorted = after.sorted;
          placed = after.placed;
        })
        | inr ahead ↦ rw ahead (record {
          epoch_start = after.epoch_start;
          window = after.window;
          current = after.current;
          sorted = after.sorted;
          placed = after.placed;
        })
      ])

-- If the calendar is in order, it is so after a worker extracted the first event of an object's
-- slot at its index.
pub execute-IsCalendar :
    (c : Config) (object : ℕ) (e : Event) (rest : List Event) (w : World)
    → w.queue object w.my_index ≡ e ∷ rest
    → IsCalendar c w.shared
    → IsCalendar c (execute object e rest w).shared
unfolding execute
execute-IsCalendar c object e rest w q v = record {
  epoch_start = v.epoch_start;
  window = v.window;
  current = v.current;
  sorted =
      update₂_cases (λ j l xs. IsSorted xs) w.queue object w.my_index rest
        (subst IsSorted q (v.sorted object w.my_index)).1 v.sorted;
  placed =
      update₂_cases (λ j l xs. All (Placed c w.current_min_limit w.current_max_limit j l) xs)
        w.queue object w.my_index rest
        (subst (All (Placed c w.current_min_limit w.current_max_limit object w.my_index)) q
          (v.placed object w.my_index)).1
        v.placed;
}

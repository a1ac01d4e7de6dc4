-- ===== src/Speculation/Causality.antt =====
-- queue/queue.c: the events that are behind their objects' clocks, and the rollbacks that stand for
-- them.
use congenial_octo_telegram.Base.{
  All, All-weaken, ℕ, ◌+◌, ◌≤◌, ◌<◌, ◌≡◌, refl, inl, inr, List, ◌∷◌, some, true, false, arith, ltb,
  leb, ◌==◌, Bool-cases, update₂_cases, >>=-eq-some, some_inj, sym, ap, ◌∙◌, update₂,
}
use mathlib.Core.Path.{subst}
use congenial_octo_telegram.Queue.Calendar.{IsCalendar, Placed}
use congenial_octo_telegram.Queue.Epoch.{epoch_slot_lem, later_slot}
use native.Mathlib.Decide.{ℕ_discrete}
use congenial_octo_telegram.Event.{Event, Config}
use congenial_octo_telegram.Slot
use congenial_octo_telegram.Slot.Order.{IsSorted, insert-All, unlink-All}
use congenial_octo_telegram.World.{World, with_shared}
use congenial_octo_telegram.Queue.{slot_index, Status}
use congenial_octo_telegram.Speculation.{
  log_the_send, deliver, straggler, insert_in_epoch, speculation_queue_insert,
}
use congenial_octo_telegram.Speculation.Clock.{
  Clock, clock, ClockStep, Lowered, straggler-Lowered, resume-clock, request_rollback-Lowered,
}
use congenial_octo_telegram.Rollback.{queue_elem_annihilation, request_rollback, retract}
use congenial_octo_telegram.Extract.{execute}

-- An event behind the object's time is covered by a standing rollback.
pub record Noticed (k : Clock) (e : Event) : Type 0 where
  pub noticed : e.timestamp < k.current_time → (k.standing ≡ true) × (k.violation ≤ e.timestamp)

abbrev pub IsCausal : World → Type 0
IsCausal w = (object slot : ℕ) → All (Noticed (clock (w.speculation object))) (w.queue object slot)

Lowered-Noticed :
    (t : ℕ) (old new : Clock) → Lowered t old new → (e : Event) → Noticed old e → Noticed new e
Lowered-Noticed t old new l e n = record { noticed = λ behind. grind (arith, l.only_lower) }

-- A step that lowers one clock keeps every event noticed.
ClockStep-IsCausal :
    (t object : ℕ) (w w' : World) → ClockStep (Lowered t) object w w' → IsCausal w → IsCausal w'
ClockStep-IsCausal t object w w' st v j slot = elim (ℕ_discrete j object) [
  | no other ↦ rw (st.queues, st.others j other) (v j slot)
  | yes here ↦
      rw (st.queues, here)
        (All-weaken _ _ (w.queue object slot)
          (Lowered-Noticed t (clock (w.speculation object)) (clock (w'.speculation object))
            st.at_object)
          (v object slot))
]

-- Linking a noticed event.
pub insert_in_epoch-IsCausal :
    (c : Config) (e : Event) (w : World)
    → Noticed (clock (w.speculation e.destination)) e
    → IsCausal w
    → IsCausal (insert_in_epoch c e w)
insert_in_epoch-IsCausal c e w n v =
    update₂_cases (λ j l xs. All (Noticed (clock (w.speculation j))) xs) w.queue e.destination
      (slot_index c e.timestamp) _
      (insert-All _ e (w.queue e.destination (slot_index c e.timestamp)) n
        (v e.destination (slot_index c e.timestamp)))
      v

straggler-Noticed :
    (t : ℕ) (old new : Clock) (e : Event) → e.timestamp ≡ t → Lowered t old new → Noticed new e
straggler-Noticed t old new e same l = record { noticed = λ behind. (l.stands, omega arith) }

same_clocks-IsCausal :
    (w w' : World)
    → w'.queue ≡ w.queue
    → ((j : ℕ) → clock (w'.speculation j) ≡ clock (w.speculation j))
    → IsCausal w
    → IsCausal w'
same_clocks-IsCausal w w' q k v j slot = rw (q, k j) (v j slot)

retract-IsCausal : (c : Config) (e : Event) (w : World) → IsCausal w → IsCausal (retract c e w)
unfolding retract
retract-IsCausal c e w v j slot =
    elim (Bool-cases (ltb e.timestamp (w.speculation e.destination).current_time)) [
      | inl past ↦ rw past (unlinked j slot)
      | inr ahead ↦ rw ahead (unlinked j slot)
    ]
  where
    unlinked :
        (j l : ℕ)
        → All (Noticed (clock (w.speculation j))) (
            update₂ w.queue e.destination
              (slot_index c e.timestamp)
              (Slot.unlink e.addr (w.queue e.destination (slot_index c e.timestamp)))
              j
              l)
    unlinked =
        update₂_cases (λ j l xs. All (Noticed (clock (w.speculation j))) xs) w.queue e.destination
          (slot_index c e.timestamp) _
          (unlink-All _ e.addr (w.queue e.destination (slot_index c e.timestamp))
            (v e.destination (slot_index c e.timestamp)))
          v

-- A delivery keeps every event noticed, the delivered one included.
pub deliver-IsCausal :
    (c : Config) (source : ℕ) (e : Event) (w w' : World)
    → deliver c source e w ≡ some w'
    → IsCausal w
    → IsCausal w'
unfolding deliver
deliver-IsCausal c source e w w' h v =
    elim (Bool-cases (leb e.timestamp (w.speculation e.destination).current_time)) [
      | inl past ↦
          let (w₁, ran, done) = >>=-eq-some (straggler c source e w) _ (rw past at h) in
          let st = straggler-Lowered c source e w w₁ ran in
          subst IsCausal (some_inj done) (
            insert_in_epoch-IsCausal c e w₁ (straggler-Noticed e.timestamp _ _ e refl st.at_object)
              (ClockStep-IsCausal e.timestamp e.destination w w₁ st v))
      | inr ahead ↦
          let same = resume-clock c e.destination (insert_in_epoch c e w) w' (rw ahead at h) in
          same_clocks-IsCausal (insert_in_epoch c e w) w' same.0 same.1 (
            insert_in_epoch-IsCausal c e w (record { noticed = λ behind. absurd (ground arith) }) v)
    ]

-- If every queued event that is behind the clock of its object has a rollback standing there, to
-- its time or before, then this is so after each call of `speculation_queue_insert` that does not
-- end the program.
pub speculation_queue_insert-IsCausal :
    (c : Config) (e : Event) (w w' : World) (status : Status)
    → speculation_queue_insert c e w ≡ some (status, w')
    → IsCausal w
    → IsCausal w'
unfolding speculation_queue_insert log_the_send
speculation_queue_insert-IsCausal c e w w' status h v =
    elim (Bool-cases (ltb e.timestamp w.current_min_limit)) [
      | inl early ↦ subst IsCausal (ap (λ r. r.1) (some_inj (rw early at h))) v
      | inr in_time ↦ elim (Bool-cases (leb (w.current_min_limit + c.lookahead) e.timestamp)) [
        | inl later ↦ subst IsCausal (ap (λ r. r.1) (some_inj (rw (in_time, later) at h))) v
        | inr now ↦
            let (w₁, ran, done) =
              >>=-eq-some
                (deliver c w.thread.current (record e { send_time = w.thread.current_time })
                  (with_shared
                    (log_the_send (record e { send_time = w.thread.current_time }) w.thread.current
                      w.thread.current_time w.shared)
                    w))
                _ (rw (in_time, now) at h) in
            subst IsCausal (ap (λ r. r.1) (some_inj done))
              (deliver-IsCausal c w.thread.current _ _ w₁ ran v)
      ]
    ]

-- If every queued event that is behind the clock of its object has a rollback standing there, to
-- its time or before, then this is so after each `queue_elem_annihilation` that does not end the
-- program.
pub queue_elem_annihilation-IsCausal :
    (c : Config) (e : Event) (w w' : World)
    → queue_elem_annihilation c e w ≡ some w'
    → IsCausal w
    → IsCausal w'
unfolding queue_elem_annihilation
queue_elem_annihilation-IsCausal c e w w' h v =
    let (w₁, ran, done) = >>=-eq-some (request_rollback c e.destination e.timestamp w) _ h in
    subst IsCausal (some_inj done) (
      retract-IsCausal c e w₁ (
        ClockStep-IsCausal e.timestamp e.destination w w₁
          (request_rollback-Lowered c e.destination e.timestamp w w₁ ran) v))

later-Noticed : (t : ℕ) (k : Clock) (y : Event) → k.current_time ≡ t → t ≤ y.timestamp → Noticed k y
later-Noticed t k y now later = record { noticed = λ behind. absurd (omega arith) }

-- If the lookahead is positive, the worker is in the current epoch, the calendar is in order and
-- every queued event behind its object's clock has a rollback standing there, then extracting the
-- first event of an object's slot of the epoch keeps the last of these: nothing in the object's
-- queue is earlier than the event it executes, so its clock passes none of them.
pub execute-IsCausal :
    (c : Config) (object : ℕ) (e : Event) (rest : List Event) (w : World)
    → 0 < c.lookahead
    → w.my_index ≡ w.current_index
    → IsCalendar c w.shared
    → w.queue object w.my_index ≡ e ∷ rest
    → IsCausal w
    → IsCausal (execute object e rest w)
unfolding execute
execute-IsCausal c object e rest w pos here cal q v j slot = elim (Bool-cases (object == j)) [
  | inr other ↦ rw other (v j slot)
  | inl same ↦ rw same (elim (Bool-cases (w.my_index == slot)) [
    | inl now ↦ rw now (
        All-weaken (λ y. e.timestamp ≤ y.timestamp) _ rest
          (λ y h. later-Noticed e.timestamp _ y refl h) first.0)
    | inr later ↦ rw later (
        All-weaken _ _ (w.queue j slot)
          (λ y p. later-Noticed e.timestamp _ y refl (next_epoch j slot later y p))
          (cal.placed j slot))
  ])
]
  where
    first : IsSorted (e ∷ rest)
    first = subst IsSorted q (cal.sorted object w.my_index)

    in_epoch : e.timestamp < w.current_min_limit + c.lookahead
    in_epoch =
        (subst (All _) (ap (w.queue object) (sym here) ∙ q)
          (epoch_slot_lem c w.shared object pos cal)).0.1

    next_epoch :
        (j slot : ℕ)
        → (w.my_index == slot) ≡ false
        → (y : Event) → Placed c w.current_min_limit w.current_max_limit j slot y
        → e.timestamp ≤ y.timestamp
    next_epoch j slot later y p =
        omega
          (arith, in_epoch, (later_slot c w.shared j slot y pos cal (λ same. ground arith) p).above)

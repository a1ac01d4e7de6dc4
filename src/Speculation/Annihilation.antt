-- ===== src/Speculation/Annihilation.antt =====
-- queue/queue.c: what `queue_elem_annihilation` does to the lists, the counters and the object.
use mathlib.Core.Path.{subst}
use congenial_octo_telegram.Base.{
  ℕ, ◌≤◌, ◌<◌, ◌≡◌, ◌≢◌, refl, ap, ◌∙◌, inl, inr, List, [], ◌∷◌, ◌++◌, some, true, false,
  if◌then◌else◌, ◌==◌, arith, Bool-cases, All, some_inj, >>=-eq-some, ltb, negsuc, ◌+ℤ◌, update₂,
  update₂_self, update, update_self, ◌⊎◌,
}
use congenial_octo_telegram.Event.{Event, Config}
use congenial_octo_telegram.Slot
use congenial_octo_telegram.World.{World}
use congenial_octo_telegram.Queue.{slot_index}
use congenial_octo_telegram.Speculation.{put_into_stack}
use congenial_octo_telegram.Speculation.Clock.{Clock, clock}
use congenial_octo_telegram.Rollback.{request_rollback, retract, queue_elem_annihilation}

-- The list without the event, from where it stood, or as it was if the event is not in it.
pub record Removed (e : Event) (xs ys : List Event) : Type 0 where
  pub there :
      (before later : List Event)
      → xs ≡ before ++ (e ∷ later)
      → All (λ x. x.addr ≢ e.addr) before
      → ys ≡ before ++ later
  pub elsewhere : All (λ x. x.addr ≢ e.addr) xs → ys ≡ xs

unlink-middle :
    (e : Event) (before later : List Event)
    → All (λ x. x.addr ≢ e.addr) before
    → Slot.unlink e.addr (before ++ (e ∷ later)) ≡ before ++ later
unfolding Slot.unlink
unlink-middle e [] later h = ground arith
unlink-middle e (x ∷ xs) later (other, rest) =
    let miss : (x.addr == e.addr) ≡ false = ground (arith, other) in
    rw (miss, unlink-middle e xs later rest) refl

unlink-absent :
    (e : Event) (xs : List Event) → All (λ x. x.addr ≢ e.addr) xs → Slot.unlink e.addr xs ≡ xs
unfolding Slot.unlink
unlink-absent e [] h = refl
unlink-absent e (x ∷ xs) (other, rest) =
    let miss : (x.addr == e.addr) ≡ false = ground (arith, other) in
    rw (miss, unlink-absent e xs rest) refl

unlink-Removed : (e : Event) (xs : List Event) → Removed e xs (Slot.unlink e.addr xs)
unlink-Removed e xs = record {
  there =
      λ before later same away. ap (Slot.unlink e.addr) same ∙ unlink-middle e before later away;
  elsewhere = λ away. unlink-absent e xs away;
}

-- The clock of an object after a rollback to `time` was requested.
abbrev pub requested : ℕ → Clock → Clock
requested time old = record {
  current_time = old.current_time;
  standing = true;
  violation =
      if old.standing then (if ltb time old.violation then time else old.violation) else time;
}

-- What is left by the annihilation of an event `e` at its object's slot `slot`.
pub record Annihilated (slot : ℕ) (e : Event) (w w' : World) : Type 0 where
  pub in_slot : Removed e (w.queue e.destination slot) (w'.queue e.destination slot)
  pub in_queue : Removed e (w.retractable_queue e.destination) (w'.retractable_queue e.destination)
  pub other_slots : (j l : ℕ) → (j ≢ e.destination) ⊎ (l ≢ slot) → w'.queue j l ≡ w.queue j l
  pub other_queues : (j : ℕ) → j ≢ e.destination → w'.retractable_queue j ≡ w.retractable_queue j
  pub executed :
      e.timestamp < (w.speculation e.destination).current_time
      → (w'.retractable_events ≡ w.retractable_events +ℤ negsuc 0)
        × (w'.pending_events ≡ w.pending_events)
  pub waiting :
      (w.speculation e.destination).current_time ≤ e.timestamp
      → (w'.pending_events ≡ w.pending_events +ℤ negsuc 0)
        × (w'.retractable_events ≡ w.retractable_events)
  pub rollback :
      clock (w'.speculation e.destination)
      ≡ requested e.timestamp (clock (w.speculation e.destination))
  pub other_objects : (j : ℕ) → j ≢ e.destination → w'.speculation j ≡ w.speculation j

-- What the request of the rollback leaves: all but the object's status and the worker's stack.
record Asked (object time : ℕ) (w w' : World) : Type 0 where
  pub queues : w'.queue ≡ w.queue
  pub retractable : w'.retractable_queue ≡ w.retractable_queue
  pub pending : w'.pending_events ≡ w.pending_events
  pub executed : w'.retractable_events ≡ w.retractable_events
  pub rollback : clock (w'.speculation object) ≡ requested time (clock (w.speculation object))
  pub others : (j : ℕ) → j ≢ object → w'.speculation j ≡ w.speculation j

request_rollback-Asked :
    (c : Config) (object time : ℕ) (w w' : World)
    → request_rollback c object time w ≡ some w'
    → Asked object time w w'
unfolding request_rollback put_into_stack
request_rollback-Asked c object time w w' h = record {
  queues = ground arith;
  retractable = ground arith;
  pending = ground arith;
  executed = ground arith;
  rollback = ground arith;
  others = λ j other. ground arith;
}

-- The lists after the event was unlinked, whichever counter goes with it.
retract-queue :
    (c : Config) (e : Event) (w : World)
    → (retract c e w).queue
      ≡ update₂ w.queue e.destination
          (slot_index c e.timestamp)
          (Slot.unlink e.addr (w.queue e.destination (slot_index c e.timestamp)))
unfolding retract
retract-queue c e w =
    elim (Bool-cases (ltb e.timestamp (w.speculation e.destination).current_time)) [
      | inl past ↦ rw past refl
      | inr ahead ↦ rw ahead refl
    ]

retract-retractable_queue :
    (c : Config) (e : Event) (w : World)
    → (retract c e w).retractable_queue
      ≡ update w.retractable_queue e.destination
          (Slot.unlink e.addr (w.retractable_queue e.destination))
unfolding retract
retract-retractable_queue c e w =
    elim (Bool-cases (ltb e.timestamp (w.speculation e.destination).current_time)) [
      | inl past ↦ rw past refl
      | inr ahead ↦ rw ahead refl
    ]

retract-speculation :
    (c : Config) (e : Event) (w : World) → (retract c e w).speculation ≡ w.speculation
unfolding retract
retract-speculation c e w =
    elim (Bool-cases (ltb e.timestamp (w.speculation e.destination).current_time)) [
      | inl past ↦ rw past refl
      | inr ahead ↦ rw ahead refl
    ]

retract-Annihilated :
    (c : Config) (e : Event) (w w₁ : World)
    → Asked e.destination e.timestamp w w₁
    → Annihilated (slot_index c e.timestamp) e w (retract c e w₁)
unfolding retract
retract-Annihilated c e w w₁ asked =
    let object = e.destination in
    let slot = slot_index c e.timestamp in
    let same_time : (w₁.speculation object).current_time ≡ (w.speculation object).current_time =
      ap (λ (k : Clock). k.current_time) asked.rollback in
    record {
      in_slot =
          rw (retract-queue c e w₁, asked.queues)
            (rw (update₂_self w.queue object slot (Slot.unlink e.addr (w.queue object slot)))
              (unlink-Removed e (w.queue object slot)));
      in_queue =
          rw (retract-retractable_queue c e w₁, asked.retractable)
            (rw
              (update_self w.retractable_queue object
                (Slot.unlink e.addr (w.retractable_queue object)))
              (unlink-Removed e (w.retractable_queue object)));
      other_slots = λ j l other. rw (retract-queue c e w₁, asked.queues) (ground (arith, other));
      other_queues = λ j other.
          rw (retract-retractable_queue c e w₁, asked.retractable) (ground (arith, other));
      executed = λ behind.
          let past : ltb e.timestamp (w₁.speculation object).current_time ≡ true =
            ground (arith, behind, same_time) in
          (rw past (ap (λ n. n +ℤ negsuc 0) asked.executed), rw past asked.pending);
      waiting = λ before.
          let ahead : ltb e.timestamp (w₁.speculation object).current_time ≡ false =
            ground (arith, before, same_time) in
          (rw ahead (ap (λ n. n +ℤ negsuc 0) asked.pending), rw ahead asked.executed);
      rollback = rw (retract-speculation c e w₁) asked.rollback;
      other_objects = λ j other. rw (retract-speculation c e w₁) (asked.others j other);
    }

-- After each `queue_elem_annihilation` that does not end the program: the event is out of its slot
-- and of its object's retractable queue, the events before and behind it are as they were, and so
-- are all other slots and retractable queues; the retractable events are one less if the object's
-- clock had passed the event, and the pending ones if not; and a rollback stands at the object, to
-- the event's time or to that of the rollback that stood there, whichever is earlier, while the
-- object's clock and all other objects are as they were.
pub queue_elem_annihilation-Annihilated :
    (c : Config) (e : Event) (w w' : World)
    → queue_elem_annihilation c e w ≡ some w'
    → Annihilated (slot_index c e.timestamp) e w w'
unfolding queue_elem_annihilation
queue_elem_annihilation-Annihilated c e w w' h =
    let (w₁, asked, done) = >>=-eq-some (request_rollback c e.destination e.timestamp w) _ h in
    subst (Annihilated (slot_index c e.timestamp) e w) (some_inj done)
      (retract-Annihilated c e w w₁ (request_rollback-Asked c e.destination e.timestamp w w₁ asked))

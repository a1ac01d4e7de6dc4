-- ===== src/Stubs/Causality.antt =====
-- stubs/stubs.c: the calls of ScheduleNewEvent without an effect, and the events behind their
-- objects' clocks.
use mathlib.Core.Path.{subst}
use congenial_octo_telegram.Base.{
  ℕ, ℤ, pos, negsuc, leb_ℤ, List, ◌≤◌, ◌<◌, ◌≡◌, ◌≢◌, refl, Option, none, some, true, false, ◌==◌,
  ◌⊎◌, inl, inr, leb, ltb, arith, Bool-cases, some_inj, ap,
}
use congenial_octo_telegram.Event.{Event, Config, max_event_size}
use congenial_octo_telegram.World.{World}
use congenial_octo_telegram.Queue.{Status, accepted, refused, queue_insert}
use congenial_octo_telegram.Speculation.Causality.{
  IsCausal, speculation_queue_insert-IsCausal, insert_in_epoch-IsCausal,
}
use congenial_octo_telegram.Stubs.{Request, bad_request, is_filtered, new_event, schedule_new_event}

-- Why a call leaves the world as it is, with what it returns: a body larger than MAX_EVENT_SIZE, a
-- negative size, no body where the size is not 0; else a time that the object coasts forward to; else
-- no memory for the event.
pub data Quiet (allocated : Option ℕ) (r : Request) (w : World) : Status → Type 0 where
  too_large : (n : ℕ) → r.size ≡ pos n → max_event_size < n → Quiet allocated r w refused
  negative : (n : ℕ) → r.size ≡ negsuc n → Quiet allocated r w refused
  no_body : (n : ℕ) → r.size ≡ pos n → n ≢ 0 → r.body ≡ none → Quiet allocated r w refused
  coasting :
      (n t : ℕ)
      → r.size ≡ pos n
      → n ≤ max_event_size
      → (n ≡ 0) ⊎ ((bytes : List ℕ) × (r.body ≡ some bytes))
      → w.shared.filter_message w.thread.current ≡ pos t
      → w.thread.current_time ≤ t
      → Quiet allocated r w accepted
  no_memory :
      (n : ℕ)
      → r.size ≡ pos n
      → n ≤ max_event_size
      → (n ≡ 0) ⊎ ((bytes : List ℕ) × (r.body ≡ some bytes))
      → ((t : ℕ) → w.shared.filter_message w.thread.current ≡ pos t → t < w.thread.current_time)
      → allocated ≡ none
      → Quiet allocated r w refused

bad_request-good :
    (r : Request) (n : ℕ)
    → r.size ≡ pos n
    → n ≤ max_event_size
    → (n ≡ 0) ⊎ ((bytes : List ℕ) × (r.body ≡ some bytes))
    → bad_request r ≡ false
bad_request-good r n sized fits (inl empty) = rw (sized, empty) (ground arith)
bad_request-good r n sized fits (inr (bytes, given)) = rw (sized, given) (ground (arith, fits))

not_filtered :
    (w : World)
    → ((t : ℕ) → w.shared.filter_message w.thread.current ≡ pos t → t < w.thread.current_time)
    → is_filtered w ≡ false
not_filtered w ahead = of_filter (w.shared.filter_message w.thread.current) ahead
  where
    of_filter :
        (filter : ℤ)
        → ((t : ℕ) → filter ≡ pos t → t < w.thread.current_time)
        → leb_ℤ (pos w.thread.current_time) filter ≡ false
    of_filter (pos t) h = let lt = h t refl in ground arith
    of_filter (negsuc t) h = ground arith

-- A call of ScheduleNewEvent with a body larger than MAX_EVENT_SIZE, with a negative size, or
-- without a body where the size is not 0 returns -1; any other returns 0 while the object coasts
-- forward, whose filter is then its time or later, and else -1 if malloc fails. Each of these
-- leaves the world as it is.
pub schedule_new_event-Quiet :
    (c : Config) (allocated : Option ℕ) (r : Request) (w : World) (status : Status)
    → Quiet allocated r w status
    → schedule_new_event c allocated r w ≡ some (status, w)
unfolding schedule_new_event
schedule_new_event-Quiet c allocated r w _ (too_large n sized over) =
    let bad : bad_request r ≡ true = rw sized (ground (arith, over)) in rw bad refl
schedule_new_event-Quiet c allocated r w _ (negative n sized) =
    let bad : bad_request r ≡ true = rw sized (ground arith) in rw bad refl
schedule_new_event-Quiet c allocated r w _ (no_body n sized some_size missing) =
    let bad : bad_request r ≡ true = rw (sized, missing) (ground (arith, some_size)) in rw bad refl
schedule_new_event-Quiet c allocated r w _ (coasting n t sized fits body filter behind) =
    let good = bad_request-good r n sized fits body in
    let filtered : is_filtered w ≡ true = rw filter (ground (arith, behind)) in
    rw (good, filtered) refl
schedule_new_event-Quiet c allocated r w _ (no_memory n sized fits body ahead failed) =
    let good = bad_request-good r n sized fits body in
    let sent = not_filtered w ahead in rw (good, sent, failed) refl

-- Without memory the world stays as it is.
failed-world :
    (c : Config) (r : Request) (w w' : World) (status : Status)
    → schedule_new_event c none r w ≡ some (status, w')
    → w ≡ w'
unfolding schedule_new_event
failed-world c r w w' status h = elim (Bool-cases (bad_request r)) [
  | inl bad ↦ ap (λ x. x.1) (some_inj (rw bad at h))
  | inr good ↦ elim (Bool-cases (is_filtered w)) [
    | inl filtered ↦ ap (λ x. x.1) (some_inj (rw (good, filtered) at h))
    | inr sent ↦ ap (λ x. x.1) (some_inj (rw (good, sent) at h))
  ]
]

-- An insertion at startup, when no object has left time 0.
queue_insert-IsCausal :
    (c : Config) (e : Event) (w : World)
    → ((j : ℕ) → (w.speculation j).current_time ≡ 0)
    → IsCausal w
    → IsCausal (queue_insert c e w).1
unfolding queue_insert
queue_insert-IsCausal c e w start v = elim (Bool-cases (ltb e.timestamp w.current_min_limit)) [
  | inl early ↦ rw early v
  | inr in_time ↦ elim (Bool-cases (leb w.current_max_limit e.timestamp)) [
    | inl late ↦ rw (in_time, late) v
    | inr now ↦
        rw (in_time, now)
          (insert_in_epoch-IsCausal c e w
            (record { noticed = λ behind. absurd (omega (arith, start e.destination)) }) v)
  ]
]

-- If every queued event behind its object's clock has a rollback standing there, and if no object
-- has left time 0 in case the caller is at time 0, then the first of these is so after each call of
-- ScheduleNewEvent that does not end the program.
pub schedule_new_event-IsCausal :
    (c : Config) (allocated : Option ℕ) (r : Request) (w w' : World) (status : Status)
    → schedule_new_event c allocated r w ≡ some (status, w')
    → (w.thread.current_time ≡ 0 → (j : ℕ) → (w.speculation j).current_time ≡ 0)
    → IsCausal w
    → IsCausal w'
unfolding schedule_new_event
schedule_new_event-IsCausal c none r w w' status h start v =
    subst IsCausal (failed-world c r w w' status h) v
schedule_new_event-IsCausal c (some addr) r w w' status h start v =
    elim (Bool-cases (bad_request r)) [
      | inl bad ↦ subst IsCausal (ap (λ x. x.1) (some_inj (rw bad at h))) v
      | inr good ↦ elim (Bool-cases (is_filtered w)) [
        | inl filtered ↦ subst IsCausal (ap (λ x. x.1) (some_inj (rw (good, filtered) at h))) v
        | inr sent ↦ elim (Bool-cases (w.thread.current_time == 0)) [
          | inl startup ↦
              subst IsCausal (ap (λ x. x.1) (some_inj (rw (good, sent, startup) at h)))
                (queue_insert-IsCausal c (new_event r addr) w (start (ground arith)) v)
          | inr running ↦
              speculation_queue_insert-IsCausal c (new_event r addr) w w' status
                (rw (good, sent, running) at h) v
        ]
      ]
    ]

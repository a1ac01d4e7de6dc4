-- ===== src/Rollback/Causality.antt =====
-- queue/queue.c and speculation/speculation.c: a rollback, and the events behind their objects'
-- clocks.
use mathlib.Core.Path.{subst}
use mathlib.Core.List.{reverse}
use native.Mathlib.Decide.{ℕ_discrete}
use congenial_octo_telegram.Base.{
  ℕ, ◌≤◌, ◌≡◌, refl, sym, ap, inl, inr, List, [], ◌∷◌, some, arith, Bool-cases, All, All-weaken,
  some_inj, >>=-eq-some, update, update₂_cases, update_self, update_ne, leb,
}
use congenial_octo_telegram.Event.{Event, LogElement, Config}
use congenial_octo_telegram.Slot
use congenial_octo_telegram.Slot.Order.{insert-All, unlink-All}
use congenial_octo_telegram.World.{Shared, World, with_shared}
use congenial_octo_telegram.Queue.{slot_index, queue_insert_in_slot}
use congenial_octo_telegram.Speculation.{put_into_stack}
use congenial_octo_telegram.Speculation.Clock.{clock}
use congenial_octo_telegram.Speculation.Causality.{
  Noticed, IsCausal, queue_elem_annihilation-IsCausal,
}
use congenial_octo_telegram.Rollback.{
  request_rollback, retract, queue_elem_annihilation, log_walk, log_rollback,
  rollback_speculation_queue, put_back, restore_retractable_events, run_rollback,
}

-- What is executed again belongs to the object and to the epoch.
abbrev pub Executed : ℕ → ℕ → List Event → Type 0
Executed object low = All (λ (e : Event). (e.destination ≡ object) × (low ≤ e.timestamp))

-- An object that is back at the start of the epoch.
pub record Back (object : ℕ) (w : World) : Type 0 where
  pub causal : IsCausal w
  pub clock_back : (w.speculation object).current_time ≤ w.current_min_limit
  pub executed : Executed object w.current_min_limit (w.retractable_queue object)

pub request_rollback-rest :
    (c : Config) (receiver time : ℕ) (w w' : World)
    → request_rollback c receiver time w ≡ some w'
    → (w'.current_min_limit ≡ w.current_min_limit) × (w'.retractable_queue ≡ w.retractable_queue)
unfolding request_rollback put_into_stack
request_rollback-rest c receiver time w w' h = (ground arith, ground arith)

request_rollback-time :
    (c : Config) (receiver time object : ℕ) (w w' : World)
    → request_rollback c receiver time w ≡ some w'
    → (w'.speculation object).current_time ≡ (w.speculation object).current_time
unfolding request_rollback put_into_stack
request_rollback-time c receiver time object w w' h = ground arith

pub retract-rest :
    (c : Config) (e : Event) (w : World)
    → ((retract c e w).current_min_limit ≡ w.current_min_limit)
      × ((retract c e w).speculation ≡ w.speculation)
      × ((retract c e w).retractable_queue
          ≡ update w.retractable_queue e.destination
              (Slot.unlink e.addr (w.retractable_queue e.destination)))
unfolding retract
retract-rest c e w = (ground arith, ground arith, ground arith)

unlinked-Executed :
    (object low receiver addr : ℕ) (q : ℕ → List Event)
    → Executed object low (q object)
    → Executed object low (update q receiver (Slot.unlink addr (q receiver)) object)
unlinked-Executed object low receiver addr q h = elim (ℕ_discrete receiver object) [
  | no other ↦ rw (update_ne q receiver (Slot.unlink addr (q receiver)) object other) h
  | yes same ↦
      subst (λ r. Executed object low (update q r (Slot.unlink addr (q r)) object)) (sym same)
        (rw (update_self q object (Slot.unlink addr (q object))) (unlink-All _ addr (q object) h))
]

queue_elem_annihilation-Back :
    (c : Config) (object : ℕ) (e : Event) (w w' : World)
    → queue_elem_annihilation c e w ≡ some w'
    → Back object w
    → Back object w'
unfolding queue_elem_annihilation
queue_elem_annihilation-Back c object e w w' h b =
    let (w₁, asked, done) = >>=-eq-some (request_rollback c e.destination e.timestamp w) _ h in
    let same = request_rollback-rest c e.destination e.timestamp w w₁ asked in
    let time = request_rollback-time c e.destination e.timestamp object w w₁ asked in
    let end = retract-rest c e w₁ in
    record {
      causal = queue_elem_annihilation-IsCausal c e w w' h b.causal;
      clock_back =
          subst (λ w'. (w'.speculation object).current_time ≤ w'.current_min_limit) (some_inj done)
            (rw (end.0, end.1, time, same.0) b.clock_back);
      executed =
          subst (λ w'. Executed object w'.current_min_limit (w'.retractable_queue object))
            (some_inj done)
            (rw (end.0, end.2, same.0, same.1)
              (unlinked-Executed object w.current_min_limit e.destination e.addr w.retractable_queue
                b.executed));
    }

log_walk-Back :
    (c : Config) (object time : ℕ) (xs kept : List LogElement) (w w' : World)
    → log_walk c time xs w ≡ some (kept, w')
    → Back object w
    → Back object w'
unfolding log_walk
log_walk-Back c object time [] kept w w' h b = subst (Back object) (ap (λ r. r.1) (some_inj h)) b
log_walk-Back c object time (x ∷ xs) kept w w' h b = elim (Bool-cases (leb time x.send_time)) [
  | inr stop ↦ subst (Back object) (ap (λ r. r.1) (some_inj (rw stop at h))) b
  | inl undo ↦
      let (w₁, undone, later) =
        >>=-eq-some (queue_elem_annihilation c x.the_element w) (log_walk c time xs)
          (rw undo at h) in
      log_walk-Back c object time xs kept w₁ w' later
        (queue_elem_annihilation-Back c object x.the_element w w₁ undone b)
]

log_rollback-Back :
    (c : Config) (object time : ℕ) (w w' : World)
    → log_rollback c object time w ≡ some w'
    → Back object w
    → Back object w'
unfolding log_rollback
log_rollback-Back c object time w w' h b =
    let (done, ran, kept) = >>=-eq-some (log_walk c time (reverse (w.log_queue object)) w) _ h in
    let after = log_walk-Back c object time (reverse (w.log_queue object)) done.0 w done.1 ran b in
    subst (Back object) (some_inj kept)
      (record { causal = after.causal; clock_back = after.clock_back; executed = after.executed })

put_back-IsCausal :
    (object index : ℕ) (xs : List Event) (s : Shared)
    → Executed object (s.speculation object).current_time xs
    → ((j l : ℕ) → All (Noticed (clock (s.speculation j))) (s.queue j l))
    → (j l : ℕ)
    → All (Noticed (clock ((put_back index xs s).speculation j))) ((put_back index xs s).queue j l)
unfolding put_back
put_back-IsCausal object index [] s h v = v
put_back-IsCausal object index (x ∷ xs) s h v =
    put_back-IsCausal object index xs (queue_insert_in_slot x index s) h.1 (
      update₂_cases (λ j l ys. All (Noticed (clock (s.speculation j))) ys) s.queue x.destination
        index _
        (insert-All _ x (s.queue x.destination index)
          (record {
            noticed = λ behind.
                absurd
                  (omega (arith, ap (λ d. (s.speculation d).current_time) h.0.0, behind, h.0.1));
          })
          (v x.destination index))
        v)

restore_cases-IsCausal :
    (c : Config) (object : ℕ) (w : World) (xs : List Event)
    → w.retractable_queue object ≡ xs
    → Back object w
    → (j l : ℕ)
    → All
        (Noticed (clock ((restore_retractable_events c object w.shared).speculation j)))
        ((restore_retractable_events c object w.shared).queue j l)
unfolding restore_retractable_events
restore_cases-IsCausal c object w [] e b j l = rw (e, restore_retractable_events) (b.causal j l)
restore_cases-IsCausal c object w (x ∷ xs) e b j l =
    rw (e, restore_retractable_events)
      (put_back-IsCausal object (slot_index c x.timestamp) (x ∷ xs)
        (record w.shared { retractable_queue = update w.retractable_queue object [] })
        (All-weaken _ _ (x ∷ xs) (λ y p. (p.0, omega (arith, p.1, b.clock_back)))
          (subst (Executed object w.current_min_limit) e b.executed))
        b.causal j l)

restore-IsCausal :
    (c : Config) (object : ℕ) (w : World)
    → Back object w
    → IsCausal (with_shared (restore_retractable_events c object w.shared) w)
restore-IsCausal c object w b j l =
    restore_cases-IsCausal c object w (w.retractable_queue object) refl b j l

-- A rollback of an object that is back at the start of the epoch keeps every queued event noticed.
pub run_rollback-IsCausal :
    (c : Config) (object time : ℕ) (w w' : World)
    → run_rollback c object time w ≡ some w'
    → Back object w
    → IsCausal w'
unfolding run_rollback rollback_speculation_queue
run_rollback-IsCausal c object time w w' h b =
    let (w₁, ran, done) = >>=-eq-some (log_rollback c object time _) _ h in
    subst IsCausal (some_inj done) (
      restore-IsCausal c object w₁ (
        log_rollback-Back c object time _ w₁ ran
          (record { causal = b.causal; clock_back = b.clock_back; executed = b.executed })))

-- ===== src/Extract/Acquire.antt =====
-- queue/queue.c, `queue_extract`: taking an object up, with the rollback that stands at it.
use mathlib.Core.Path.{subst}
use congenial_octo_telegram.Base.{
  ℕ, ◌≡◌, sym, ap, inl, inr, some, false, not, ◌&&◌, arith, Bool-cases, All, All-weaken, some_inj,
  >>=-eq-some, update_cases, update, ltb, sub_ℕ,
}
use congenial_octo_telegram.Event.{Config}
use congenial_octo_telegram.World.{World, ObjectStatus, with_shared, set_status}
use congenial_octo_telegram.Queue.Calendar.{IsCalendar}
use congenial_octo_telegram.Speculation.{is_free}
use congenial_octo_telegram.Speculation.Clock.{clock}
use congenial_octo_telegram.Speculation.Causality.{Noticed, IsCausal}
use congenial_octo_telegram.Rollback.{run_rollback}
use congenial_octo_telegram.Rollback.Causality.{Back, Executed, run_rollback-IsCausal}
use congenial_octo_telegram.Extract.{Label, Next, goto, returns, acquire, taken, owner_is}

-- The world in which a step goes on.
abbrev world_of : Next → World
world_of (goto l w) = w
world_of (returns e w) = w

-- The object back at the start of the epoch, before its rollback.
abbrev ready : Config → ℕ → World → World
ready c object w =
    with_shared
      (record (set_status object
        (record (taken w.me (w.speculation object)) {
          standing_rollback = false;
          current_time = w.current_min_limit;
        })
        w.shared) {
          filter_message =
              update w.filter_message object
                (sub_ℕ (w.speculation object).causality_violation_time c.epsilon);
        })
      w

ready-Back :
    (c : Config) (object : ℕ) (w : World)
    → IsCalendar c w.shared
    → Executed object w.current_min_limit (w.retractable_queue object)
    → IsCausal w
    → Back object (ready c object w)
ready-Back c object w cal executed v = record {
  causal =
      update_cases (λ j st. (l : ℕ) → All (Noticed (clock st)) (w.queue j l)) w.speculation object _
        (λ l.
          All-weaken _ _ (w.queue object l)
            (λ y p. record { noticed = λ behind. absurd (omega (arith, p.above, behind)) })
            (cal.placed object l))
        v;
  clock_back = ground arith;
  executed = executed;
}

same_clock-IsCausal :
    (object : ℕ) (st : ObjectStatus) (w : World)
    → clock st ≡ clock (w.speculation object)
    → IsCausal w
    → IsCausal (with_shared (set_status object st w.shared) w)
same_clock-IsCausal object st w same v =
    update_cases (λ j st. (l : ℕ) → All (Noticed (clock st)) (w.queue j l)) w.speculation object st
      (λ l. subst (λ k. All (Noticed k) (w.queue object l)) (sym same) (v object l)) v

-- If the calendar is in order, the events an object has executed are its own and of the epoch or
-- later, and every queued event behind its object's clock has a rollback standing there, then the
-- last of these is so after a worker took the object up, with the rollback that stood at it,
-- whatever objects this rollback reaches, unless the worker ends the program.
pub acquire-IsCausal :
    (c : Config) (object : ℕ) (w : World) (l : Label) (w' : World)
    → acquire c object w ≡ some (goto l w')
    → IsCalendar c w.shared
    → Executed object w.current_min_limit (w.retractable_queue object)
    → IsCausal w
    → IsCausal w'
unfolding acquire
acquire-IsCausal c object w l w' h cal executed v =
    elim (Bool-cases (
      not (is_free (w.speculation object).the_state)
      && not (owner_is w.me (w.speculation object).owner))) [
        | inl other ↦ subst IsCausal (ap world_of (some_inj (rw other at h))) v
        | inr mine ↦ elim (Bool-cases (w.speculation object).standing_rollback) [
          | inr going_on ↦ subst IsCausal (ap world_of (some_inj (rw (mine, going_on) at h))) (
              same_clock-IsCausal object
                (record (taken w.me (w.speculation object)) { standing_rollback = false }) w
                (ap
                  (λ standing. record {
                    current_time = (w.speculation object).current_time;
                    standing = standing;
                    violation = (w.speculation object).causality_violation_time;
                  })
                  (sym going_on))
                v)
          | inl standing ↦
              elim (Bool-cases (ltb 0 (w.speculation object).causality_violation_time)) [
                | inr at_start ↦
                    subst IsCausal (ap world_of (some_inj (rw (mine, standing, at_start) at h)))
                      (ready-Back c object w cal executed v).causal
                | inl later ↦
                    let (w₁, ran, done) =
                      >>=-eq-some
                        (run_rollback c object (w.speculation object).causality_violation_time
                          (ready c object w))
                        _ (rw (mine, standing, later) at h) in
                    subst IsCausal (ap world_of (some_inj done)) (
                      run_rollback-IsCausal c object _ (ready c object w) w₁ ran
                        (ready-Back c object w cal executed v))
              ]
        ]
      ]

-- ===== src/Speculation/Clock.antt =====
-- queue/queue.c: what the scheduling of rollbacks does to the objects' clocks.
use congenial_octo_telegram.Base.{ℕ, ◌≤◌, ◌≡◌, ◌≢◌, some, Bool, true, arith}
use congenial_octo_telegram.Event.{Event, Config}
use congenial_octo_telegram.World.{ObjectStatus, World}
use congenial_octo_telegram.Speculation.{put_into_stack, put_head_into_stack, straggler, resume}
use congenial_octo_telegram.Rollback.{request_rollback}

-- The part of a status that decides whether a straggler has been noticed.
pub record Clock : Type 0 where
  pub current_time : ℕ
  pub standing : Bool
  pub violation : ℕ

abbrev pub clock : ObjectStatus → Clock
clock st = record {
  current_time = st.current_time;
  standing = st.standing_rollback;
  violation = st.causality_violation_time;
}

-- The queues and the other clocks are as they were, and the clock at `object` moved by `R`.
pub record ClockStep {ℓ} (R : Clock → Clock → Type ℓ) (object : ℕ) (w w' : World) : Type ℓ where
  pub queues : w'.queue ≡ w.queue
  pub others : (j : ℕ) → j ≢ object → clock (w'.speculation j) ≡ clock (w.speculation j)
  pub at_object : R (clock (w.speculation object)) (clock (w'.speculation object))

-- A rollback to `time`, or to an earlier time, stands.
pub record Lowered (time : ℕ) (old new : Clock) : Type 0 where
  pub same_time : new.current_time ≡ old.current_time
  pub stands : new.standing ≡ true
  pub covers : new.violation ≤ time
  pub only_lower : old.standing ≡ true → new.violation ≤ old.violation

-- Taking an object up again moves no clock.
pub resume-clock :
    (c : Config) (object : ℕ) (w w' : World)
    → resume c object w ≡ some w'
    → (w'.queue ≡ w.queue) × ((j : ℕ) → clock (w'.speculation j) ≡ clock (w.speculation j))
unfolding resume put_into_stack
resume-clock c object w w' e = (ground arith, λ j. ground arith)

-- Where the handling of a straggler does not end the program, a rollback stands at the straggler's
-- object after it, to the straggler's time or before, and no later than one that stood there
-- already; the clock of the object, the clocks of other objects and all slots are as they were.
pub straggler-Lowered :
    (c : Config) (source : ℕ) (elem : Event) (w w' : World)
    → straggler c source elem w ≡ some w'
    → ClockStep (Lowered elem.timestamp) elem.destination w w'
unfolding straggler put_into_stack put_head_into_stack
straggler-Lowered c source elem w w' e = record {
  queues = ground arith;
  others = λ j ne. ground arith;
  at_object = ground arith;
}

-- So does the retraction of an event that was sent to an object.
pub request_rollback-Lowered :
    (c : Config) (object time : ℕ) (w w' : World)
    → request_rollback c object time w ≡ some w'
    → ClockStep (Lowered time) object w w'
unfolding request_rollback put_into_stack
request_rollback-Lowered c object time w w' e = record {
  queues = ground arith;
  others = λ j ne. ground arith;
  at_object = ground arith;
}

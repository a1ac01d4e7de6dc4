-- ===== src/Tests/Barriers.antt =====
-- The barrier of two threads: thread 0 leads the first round, and has come back for the second.
use congenial_octo_telegram.Base.{ℕ, ◌≤◌, ◌≡◌, List, ◌∷◌, [], some, refl, arith, false, get_elem?}
use congenial_octo_telegram.Barrier.{
  outside, wait, Worker, Barrier, turn, barrier_step, barrier_start, Reachable, start, then_step,
}
use congenial_octo_telegram.Barrier.Counts.{sum}
use congenial_octo_telegram.Barrier.Liveness.{Reachable-way_out}
use congenial_octo_telegram.Barrier.Order.{AllOut, Reachable-order, Reachable-leaders}
use congenial_octo_telegram.Barrier.Phases.{led_of}
use congenial_octo_telegram.Barrier.Progress.{turns}

-- Thread 0 up to its wait, thread 1 up to its wait, and both out.
abbrev one_round : List ℕ
one_round = 0 ∷ 0 ∷ 0 ∷ 0 ∷ 0 ∷ 1 ∷ 1 ∷ 1 ∷ 1 ∷ 1 ∷ 0 ∷ 0 ∷ 1 ∷ 1 ∷ []

turns-Reachable :
    (threads : ℕ) (schedule : List ℕ) (s : Barrier)
    → Reachable threads s
    → Reachable threads (turns threads schedule s)
turns-Reachable threads [] s r = r
turns-Reachable threads (i ∷ rest) s r =
    turns-Reachable threads rest (barrier_step threads i s) (then_step i r)

abbrev after_round : Barrier
after_round = turns 2 one_round (barrier_start 2)

after_round-Reachable : Reachable 2 after_round
after_round-Reachable = turns-Reachable 2 one_round (barrier_start 2) start

after_round_lem : after_round ≡ record {
  control_counter = 2;
  era_counter = 2;
  workers =
      record { point = outside; begun = 1; ended = 1; led = 1 }
      ∷ record { point = outside; begun = 1; ended = 1; led = 0 }
      ∷ [];
}
unfolding barrier_step turn
after_round_lem = refl

abbrev leader : Worker
leader = record { point = outside; begun = 1; ended = 1; led = 1 }

abbrev follower : Worker
follower = record { point = wait false; begun = 1; ended = 0; led = 0 }

-- Thread 0 has left, thread 1 has not.
abbrev after_leader : Barrier
after_leader = turns 2 (0 ∷ 0 ∷ 0 ∷ 0 ∷ 0 ∷ 1 ∷ 1 ∷ 1 ∷ 1 ∷ 1 ∷ 0 ∷ 0 ∷ []) (barrier_start 2)

after_leader-Reachable : Reachable 2 after_leader
after_leader-Reachable =
    turns-Reachable 2 (0 ∷ 0 ∷ 0 ∷ 0 ∷ 0 ∷ 1 ∷ 1 ∷ 1 ∷ 1 ∷ 1 ∷ 0 ∷ 0 ∷ []) (barrier_start 2) start

leader_there : get_elem? after_leader.workers 0 ≡ some leader
unfolding barrier_step turn
leader_there = refl

follower_there : get_elem? after_leader.workers 1 ≡ some follower
unfolding barrier_step turn
follower_there = refl

Reachable-order_example : leader.ended ≤ follower.begun
Reachable-order_example =
    Reachable-order 2 0 1 leader follower after_leader after_leader-Reachable leader_there
      follower_there

after_round-AllOut : AllOut 1 after_round
unfolding barrier_step turn
after_round-AllOut = ((refl, refl), ((refl, refl), tt))

Reachable-leaders_example : sum led_of after_round.workers ≡ 1
Reachable-leaders_example =
    Reachable-leaders 2 1 after_round (omega arith) after_round-Reachable after_round-AllOut

Reachable-way_out_example :
    (schedule : List ℕ) × (i : ℕ) × (w : Worker) × (get_elem?
        (turns 2 schedule after_round).workers
        i
      ≡ some w)
    × (w.point ≡ outside)
Reachable-way_out_example = Reachable-way_out 2 after_round (omega arith) after_round-Reachable

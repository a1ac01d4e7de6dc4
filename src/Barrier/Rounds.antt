-- ===== src/Barrier/Rounds.antt =====
-- queue/barrier-synchronization.c: the rounds of the barrier, from the start on.
use congenial_octo_telegram.Base.{
  ℕ, zero, suc, ◌+◌, ◌≤◌, ◌≡◌, inl, inr, refl, ◌∙◌, List, [], ◌∷◌, some, get_elem?, length,
  length-set, replicate, length-replicate, arith, All, Option-cases,
}
use congenial_octo_telegram.Barrier.{
  outside, Worker, Barrier, barrier_step, barrier_start, Reachable, start, then_step,
}
use congenial_octo_telegram.Barrier.Counts.{sum, All-get_elem?}
use congenial_octo_telegram.Barrier.Phases.{led_of, Gathers, Counts, Drains, InRound, moved, worker}
use congenial_octo_telegram.Barrier.Phases.Gather.{Gathering-moved}
use congenial_octo_telegram.Barrier.Phases.Count.{Counting-moved}
use congenial_octo_telegram.Barrier.Phases.Drain.{Draining-moved}

pub record IsBarrier (threads : ℕ) (s : Barrier) : Type 0 where
  pub size : length s.workers ≡ threads
  pub round : ℕ
  pub phase : InRound threads round s

get_elem?-length : (ws : List Worker) (i : ℕ) (w : Worker) → get_elem? ws i ≡ some w → 1 ≤ length ws
get_elem?-length [] i w h = cc
get_elem?-length (x ∷ rest) i w h = omega arith

fresh_workers :
    (n : ℕ)
    → let ws = replicate n (worker outside 0 0 0) in All (Gathers 0) ws × (sum led_of ws ≡ 0)
fresh_workers zero = (tt, refl)
fresh_workers (suc n) = (((refl, refl), (fresh_workers n).0), omega (arith, (fresh_workers n).1))

barrier_start-IsBarrier : (threads : ℕ) → IsBarrier threads (barrier_start threads)
barrier_start-IsBarrier threads = record {
  size = length-replicate threads (worker outside 0 0 0);
  round = 0;
  phase = inl (record {
    control = refl;
    era = refl;
    all = (fresh_workers threads).0;
    led = (fresh_workers threads).1;
  });
}

moved-IsBarrier :
    (threads i : ℕ) (s : Barrier) (w : Worker)
    → get_elem? s.workers i ≡ some w
    → IsBarrier threads s
    → IsBarrier threads (moved threads i s w)
moved-IsBarrier threads i s w h v =
    let some_ : 1 ≤ threads = omega (arith, get_elem?-length s.workers i w h, v.size) in
    let size = length-set s.workers i _ ∙ v.size in
    elim v.phase [
      | inl g ↦ record {
        size = size;
        round = v.round;
        phase =
            Gathering-moved threads v.round i w.point w.begun w.ended w.led s g h some_
              (All-get_elem? (Gathers v.round) s.workers i w h g.all);
      }
      | inr (inl g) ↦ record {
        size = size;
        round = v.round;
        phase =
            Counting-moved threads v.round i w.point w.begun w.ended w.led s g h v.size
              (All-get_elem? (Counts v.round) s.workers i w h g.all);
      }
      | inr (inr g) ↦
          elim (Draining-moved threads v.round i w.point w.begun w.ended w.led s g h
            (All-get_elem? (Drains v.round) s.workers i w h g.all)) [
              | inl same ↦ record { size = size; round = v.round; phase = same }
              | inr next ↦ record { size = size; round = v.round + 1; phase = next }
            ]
    ]

pub barrier_step-IsBarrier :
    (threads i : ℕ) (s : Barrier)
    → IsBarrier threads s
    → IsBarrier threads (barrier_step threads i s)
unfolding barrier_step
barrier_step-IsBarrier threads i s v = elim (Option-cases (get_elem? s.workers i)) [
  | inl none_ ↦ rw (none_, barrier_step) v
  | inr (w, h) ↦ rw (h, barrier_step) (moved-IsBarrier threads i s w h v)
]

pub Reachable-IsBarrier : (threads : ℕ) {s : Barrier} → Reachable threads s → IsBarrier threads s
Reachable-IsBarrier threads start = barrier_start-IsBarrier threads
Reachable-IsBarrier threads (then_step i r) =
    barrier_step-IsBarrier threads i _ (Reachable-IsBarrier threads r)

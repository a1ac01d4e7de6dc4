-- ===== src/Barrier/Progress.antt =====
-- queue/barrier-synchronization.c: the way out of the barrier.
use congenial_octo_telegram.Base.{
  ℕ, zero, suc, ◌≤◌, ◌<◌, ◌≡◌, ◌⊎◌, inl, inr, refl, List, [], ◌∷◌, some, true, ◌==◌, get_elem?,
  get_elem?-set_self, set, length, arith, All, Bool-cases,
}
use congenial_octo_telegram.Barrier.{
  Point, outside, spin, spin_control, swap, reset, add, wait, leave, Worker, Barrier, turn,
  barrier_step,
}
use congenial_octo_telegram.Barrier.Counts.{sum, sum-set}
use congenial_octo_telegram.Barrier.Phases.{waits_at, pends_at, GathersAt, CountsAt, moved, worker}

-- The turns of some threads, in that order.
abbrev pub turns : ℕ → List ℕ → Barrier → Barrier
turns threads [] s = s
turns threads (i ∷ rest) s = turns threads rest (barrier_step threads i s)

-- How far a thread is from the end of its call.
abbrev pub rank_at : Point → ℕ
rank_at outside = 0
rank_at spin = 7
rank_at spin_control = 6
rank_at swap = 5
rank_at reset = 4
rank_at (add ret) = 3
rank_at (wait ret) = 2
rank_at (leave ret) = 1

abbrev pub rank : Worker → ℕ
rank w = rank_at w.point

-- A thread with some property.
pub record Found (P : Worker → Type 0) (ws : List Worker) : Type 0 where
  pub index : ℕ
  pub who : Worker
  pub there : get_elem? ws index ≡ some who
  pub fact : P who

Found-later : (P : Worker → Type 0) (w : Worker) (ws : List Worker) → Found P ws → Found P (w ∷ ws)
Found-later P w ws f = record { index = suc f.index; who = f.who; there = f.there; fact = f.fact }

pub Found-outside : (ws : List Worker) → Found (λ w. rank w ≡ 0) ws ⊎ All (λ w. 1 ≤ rank w) ws
Found-outside [] = inr tt
Found-outside (w ∷ rest) = elim (Bool-cases (rank w == 0)) [
  | inl out ↦ inl (record { index = 0; who = w; there = refl; fact = ground arith })
  | inr inside ↦ elim (Found-outside rest) [
    | inl f ↦ inl (Found-later (λ w. rank w ≡ 0) w rest f)
    | inr all ↦ inr (ground arith, all)
  ]
]

pub Found-less :
    (f : Worker → ℕ) (ws : List Worker) → sum f ws < length ws → Found (λ w. f w ≡ 0) ws
Found-less f [] h = absurd (omega arith)
Found-less f (w ∷ rest) h = elim (Bool-cases (f w == 0)) [
  | inl none_ ↦ record { index = 0; who = w; there = refl; fact = ground arith }
  | inr some_ ↦
      let more : 1 ≤ f w = ground arith in
      Found-later (λ w. f w ≡ 0) w rest (Found-less f rest (omega arith))
]

pub Found-more : (f : Worker → ℕ) (ws : List Worker) → 1 ≤ sum f ws → Found (λ w. 1 ≤ f w) ws
Found-more f [] h = absurd (omega arith)
Found-more f (w ∷ rest) h = elim (Bool-cases (f w == 0)) [
  | inl none_ ↦
      let less : f w ≡ 0 = ground arith in
      Found-later (λ w. 1 ≤ f w) w rest (Found-more f rest (omega arith))
  | inr some_ ↦ record { index = 0; who = w; there = refl; fact = ground arith }
]

-- Turns that bring the threads nearer to the end of their calls, all in all.
pub record Nearer (threads : ℕ) (s : Barrier) : Type 0 where
  pub schedule : List ℕ
  pub nearer : sum rank (turns threads schedule s).workers < sum rank s.workers

barrier_step-moved :
    (threads i : ℕ) (s : Barrier) (w : Worker)
    → get_elem? s.workers i ≡ some w
    → barrier_step threads i s ≡ moved threads i s w
unfolding barrier_step
barrier_step-moved threads i s w h = rw (h, barrier_step) refl

one_turn :
    (threads i : ℕ) (s : Barrier) (w : Worker)
    → get_elem? s.workers i ≡ some w
    → rank (turn threads w.point s.control_counter s.era_counter w).0 < rank w
    → Nearer threads s
one_turn threads i s w h less = record {
  schedule = i ∷ [];
  nearer = rw (barrier_step-moved threads i s w h) (
      omega (
        arith,
        less,
        sum-set rank s.workers i w (turn threads w.point s.control_counter s.era_counter w).0 h,
      ));
}

get_elem?-bound : (ws : List Worker) (i : ℕ) (w : Worker) → get_elem? ws i ≡ some w → i < length ws
get_elem?-bound [] i w h = cc
get_elem?-bound (x ∷ rest) zero w h = omega arith
get_elem?-bound (x ∷ rest) (suc i) w h = omega (arith, get_elem?-bound rest i w h)

-- A thread between its two reads goes back to the first, and from there to the swap.
two_turns :
    (threads i b e l : ℕ) (s : Barrier)
    → s.control_counter ≡ threads
    → s.era_counter ≡ threads
    → get_elem? s.workers i ≡ some (worker spin_control b e l)
    → Nearer threads s
unfolding turn
two_turns threads i b e l s control era h =
    let full : (s.control_counter == threads) ≡ true = ground (arith, control) in
    let last : (s.era_counter == threads) ≡ true = ground (arith, era) in
    record {
      schedule = i ∷ i ∷ [];
      nearer =
          rw
            (
              barrier_step-moved threads i s (worker spin_control b e l) h,
              full,
              barrier_step-moved threads i back (worker spin b e l) (
                  get_elem?-set_self s.workers i (worker spin b e l)
                    (get_elem?-bound s.workers i (worker spin_control b e l) h)),
              last,
            )
            (omega (
              arith,
              sum-set rank s.workers i (worker spin_control b e l) (worker spin b e l) h,
              sum-set rank back.workers i (worker spin b e l) (worker swap b e l) (
                  get_elem?-set_self s.workers i (worker spin b e l)
                    (get_elem?-bound s.workers i (worker spin_control b e l) h)),
            ));
    }
  where
    back : Barrier
    back = record s { workers = set s.workers i (worker spin b e l) }

pub gathering-Nearer :
    (threads i k : ℕ) (p : Point) (b e l : ℕ) (s : Barrier)
    → s.control_counter ≡ threads
    → s.era_counter ≡ threads
    → get_elem? s.workers i ≡ some (worker p b e l)
    → GathersAt k p b e
    → 1 ≤ rank_at p
    → Nearer threads s
unfolding turn
gathering-Nearer threads i k outside b e l s control era h v in_ = absurd (omega arith)
gathering-Nearer threads i k spin b e l s control era h v in_ =
    one_turn threads i s (worker spin b e l) h (ground (arith, era))
gathering-Nearer threads i k spin_control b e l s control era h v in_ =
    two_turns threads i b e l s control era h
gathering-Nearer threads i k swap b e l s control era h v in_ =
    one_turn threads i s (worker swap b e l) h (ground (arith, control))
gathering-Nearer threads i k reset b e l s control era h v in_ = absurd v
gathering-Nearer threads i k (add ret) b e l s control era h v in_ = absurd v
gathering-Nearer threads i k (wait ret) b e l s control era h v in_ = absurd v
gathering-Nearer threads i k (leave ret) b e l s control era h v in_ = absurd v

pub counting-Nearer :
    (threads i k : ℕ) (p : Point) (b e l : ℕ) (s : Barrier)
    → s.control_counter < threads
    → get_elem? s.workers i ≡ some (worker p b e l)
    → CountsAt k p b e
    → 1 ≤ rank_at p
    → waits_at p ≡ 0
    → Nearer threads s
unfolding turn
counting-Nearer threads i k outside b e l s control h v in_ no_wait = absurd (omega arith)
counting-Nearer threads i k spin b e l s control h v in_ no_wait =
    one_turn threads i s (worker spin b e l) h (ground arith)
counting-Nearer threads i k spin_control b e l s control h v in_ no_wait =
    one_turn threads i s (worker spin_control b e l) h (ground (arith, control))
counting-Nearer threads i k swap b e l s control h v in_ no_wait =
    one_turn threads i s (worker swap b e l) h (ground (arith, control))
counting-Nearer threads i k reset b e l s control h v in_ no_wait =
    one_turn threads i s (worker reset b e l) h (omega arith)
counting-Nearer threads i k (add ret) b e l s control h v in_ no_wait =
    one_turn threads i s (worker (add ret) b e l) h (omega arith)
counting-Nearer threads i k (wait ret) b e l s control h v in_ no_wait = absurd (omega arith)
counting-Nearer threads i k (leave ret) b e l s control h v in_ no_wait = absurd v

pub draining-Nearer :
    (threads i k : ℕ) (p : Point) (b e l : ℕ) (s : Barrier)
    → s.control_counter ≡ threads
    → get_elem? s.workers i ≡ some (worker p b e l)
    → 1 ≤ pends_at p
    → Nearer threads s
unfolding turn
draining-Nearer threads i k outside b e l s control h v = absurd (omega arith)
draining-Nearer threads i k spin b e l s control h v = absurd (omega arith)
draining-Nearer threads i k spin_control b e l s control h v = absurd (omega arith)
draining-Nearer threads i k swap b e l s control h v = absurd (omega arith)
draining-Nearer threads i k reset b e l s control h v = absurd (omega arith)
draining-Nearer threads i k (add ret) b e l s control h v = absurd (omega arith)
draining-Nearer threads i k (wait ret) b e l s control h v =
    one_turn threads i s (worker (wait ret) b e l) h (ground (arith, control))
draining-Nearer threads i k (leave ret) b e l s control h v =
    one_turn threads i s (worker (leave ret) b e l) h (omega arith)

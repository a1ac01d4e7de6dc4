-- ===== src/Barrier/Phases/Gather.antt =====
-- queue/barrier-synchronization.c: a turn before the first swap of a round.
use congenial_octo_telegram.Base.{
  ℕ, ◌+◌, ◌≤◌, ◌≡◌, inl, inr, refl, some, true, ◌==◌, get_elem?, set, arith,
}
use congenial_octo_telegram.Barrier.{
  Point, outside, spin, spin_control, swap, reset, add, wait, leave, Worker, Barrier, turn,
}
use congenial_octo_telegram.Barrier.Counts.{sum, sum-set, All-set, All-get_elem?, All-map, sum-zero}
use congenial_octo_telegram.Barrier.Phases.{
  waits, resets, leads, led_of, Gathers, Counts, GathersAt, CountsAt, waits_at, leads_at, Gathering,
  Counting, InRound, moved, worker,
}

gathers_waits :
    (k : ℕ) (p : Point) (b e : ℕ) → GathersAt k p b e → (waits_at p ≡ 0) × (leads_at p ≡ 0)
gathers_waits k outside b e h = (refl, refl)
gathers_waits k spin b e h = (refl, refl)
gathers_waits k spin_control b e h = (refl, refl)
gathers_waits k swap b e h = (refl, refl)
gathers_waits k reset b e h = absurd h
gathers_waits k (add ret) b e h = absurd h
gathers_waits k (wait ret) b e h = absurd h
gathers_waits k (leave ret) b e h = absurd h

gathers_counts : (k : ℕ) (p : Point) (b e : ℕ) → GathersAt k p b e → CountsAt k p b e
gathers_counts k outside b e h = h
gathers_counts k spin b e h = h
gathers_counts k spin_control b e h = h
gathers_counts k swap b e h = h
gathers_counts k reset b e h = absurd h
gathers_counts k (add ret) b e h = absurd h
gathers_counts k (wait ret) b e h = absurd h
gathers_counts k (leave ret) b e h = absurd h

-- A turn that leaves the counters as they are.
still-Gathering :
    (threads k i : ℕ) (s : Barrier) (w w' : Worker)
    → Gathering threads k s
    → get_elem? s.workers i ≡ some w
    → w'.led ≡ w.led
    → Gathers k w'
    → Gathering threads k (record s { workers = set s.workers i w' })
still-Gathering threads k i s w w' g h same ok = record {
  control = g.control;
  era = g.era;
  all = All-set (Gathers k) s.workers i w' ok g.all;
  led = omega (arith, sum-set led_of s.workers i w w' h, g.led, same);
}

-- The swap that succeeds.
first_swap :
    (threads k i b e l : ℕ) (s : Barrier)
    → Gathering threads k s
    → get_elem? s.workers i ≡ some (worker swap b e l)
    → 1 ≤ threads
    → Counting threads k (record {
      control_counter = 0;
      era_counter = s.era_counter;
      workers = set s.workers i (worker reset b e l);
    })
first_swap threads k i b e l s g h some_ = record {
  control = some_;
  waiting =
      omega
        (arith, sum-set waits s.workers i (worker swap b e l) (worker reset b e l) h, none_waits);
  leading =
      omega
        (arith, sum-set leads s.workers i (worker swap b e l) (worker reset b e l) h, none_leads);
  era = λ none_resets. absurd (
      omega (
        arith,
        none_resets,
        sum-set resets s.workers i (worker swap b e l) (worker reset b e l) h,
      ));
  all =
      All-set (Counts k) s.workers i (worker reset b e l)
        (All-get_elem? (Gathers k) s.workers i (worker swap b e l) h g.all)
        (All-map (Gathers k) (Counts k) s.workers (λ x. gathers_counts k x.point x.begun x.ended)
          g.all);
  led = omega (arith, sum-set led_of s.workers i (worker swap b e l) (worker reset b e l) h, g.led);
}
  where
    none_waits : sum waits s.workers ≡ 0
    none_waits = sum-zero waits s.workers (
        All-map (Gathers k) (λ x. waits x ≡ 0) s.workers
          (λ x v. (gathers_waits k x.point x.begun x.ended v).0) g.all)

    none_leads : sum leads s.workers ≡ 0
    none_leads = sum-zero leads s.workers (
        All-map (Gathers k) (λ x. leads x ≡ 0) s.workers
          (λ x v. (gathers_waits k x.point x.begun x.ended v).1) g.all)

pub Gathering-moved :
    (threads k i : ℕ) (p : Point) (b e l : ℕ) (s : Barrier)
    → Gathering threads k s
    → get_elem? s.workers i ≡ some (worker p b e l)
    → 1 ≤ threads
    → GathersAt k p b e
    → InRound threads k (moved threads i s (worker p b e l))
unfolding turn
Gathering-moved threads k i outside b e l s g h some_ v = inl (
    still-Gathering threads k i s (worker outside b e l) (worker spin (b + 1) e l) g h refl
      (omega (arith, v.0), v.1))
Gathering-moved threads k i spin b e l s g h some_ v =
    let full : (s.era_counter == threads) ≡ true = ground (arith, g.era) in
    rw full (inl (still-Gathering threads k i s (worker spin b e l) (worker swap b e l) g h refl v))
Gathering-moved threads k i spin_control b e l s g h some_ v =
    let full : (s.control_counter == threads) ≡ true = ground (arith, g.control) in
    rw full (
      inl
        (still-Gathering threads k i s (worker spin_control b e l) (worker spin b e l) g h refl v))
Gathering-moved threads k i swap b e l s g h some_ v =
    let full : (s.control_counter == threads) ≡ true = ground (arith, g.control) in
    rw full (inr (inl (first_swap threads k i b e l s g h some_)))
Gathering-moved threads k i reset b e l s g h some_ v = absurd v
Gathering-moved threads k i (add ret) b e l s g h some_ v = absurd v
Gathering-moved threads k i (wait ret) b e l s g h some_ v = absurd v
Gathering-moved threads k i (leave ret) b e l s g h some_ v = absurd v

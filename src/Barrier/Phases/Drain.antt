-- ===== src/Barrier/Phases/Drain.antt =====
-- queue/barrier-synchronization.c: a turn while the threads leave.
use congenial_octo_telegram.Base.{
  ℕ, ◌+◌, ◌<◌, ◌≡◌, ◌⊎◌, inl, inr, refl, List, some, Bool, true, false, ◌==◌, ltb, get_elem?, set,
  arith, All, Bool-cases,
}
use congenial_octo_telegram.Barrier.{
  Point, outside, spin, spin_control, swap, reset, add, wait, leave, Worker, Barrier, turn,
}
use congenial_octo_telegram.Barrier.Counts.{
  sum, sum-set, All-set, All-map, All-both, sum-zero, zero-sum,
}
use congenial_octo_telegram.Barrier.Phases.{
  pends, leads, led_of, Drains, Gathers, DrainsAt, GathersAt, pends_at, leads_at, Draining,
  Gathering, InRound, moved, worker,
}

-- A turn that leaves the counters as they are, and the roles of the thread.
still-Draining :
    (threads k i : ℕ) (s : Barrier) (w w' : Worker)
    → Draining threads k s
    → get_elem? s.workers i ≡ some w
    → (pends w' ≡ pends w) × (leads w' ≡ leads w) × (w'.led ≡ w.led)
    → Drains k w'
    → Draining threads k (record s { workers = set s.workers i w' })
still-Draining threads k i s w w' g h same ok = record {
  control = g.control;
  era = g.era;
  pending = omega (arith, sum-set pends s.workers i w w' h, g.pending, same.0);
  all = All-set (Drains k) s.workers i w' ok g.all;
  led = omega (
    arith,
    sum-set leads s.workers i w w' h,
    sum-set led_of s.workers i w w' h,
    g.led,
    same.1,
    same.2,
  );
}

drained_gathers :
    (k : ℕ) (p : Point) (b e : ℕ)
    → (pends_at p ≡ 0) × DrainsAt k p b e
    → GathersAt (k + 1) p b e × (leads_at p ≡ 0)
drained_gathers k outside b e v = (v.1, refl)
drained_gathers k spin b e v = ((omega (arith, v.1.0), v.1.1), refl)
drained_gathers k spin_control b e v = ((omega (arith, v.1.0), v.1.1), refl)
drained_gathers k swap b e v = absurd v.1
drained_gathers k reset b e v = absurd v.1
drained_gathers k (add ret) b e v = absurd v.1
drained_gathers k (wait ret) b e v = absurd (omega (arith, v.0))
drained_gathers k (leave ret) b e v = absurd (omega (arith, v.0))

-- The increment of era_counter.
module _ (threads k i b e l l' : ℕ) (ret : Bool) (s : Barrier) (g : Draining threads k s)
    (h : get_elem? s.workers i ≡ some (worker (leave ret) b e l))
    (led : l' ≡ l + leads_at (leave ret)) (v : DrainsAt k (leave ret) b e) where
  abbrev left_workers : List Worker
  left_workers = set s.workers i (worker outside b (e + 1) l')

  pends_less : sum pends left_workers + 1 ≡ sum pends s.workers
  pends_less =
      omega (
        arith,
        sum-set pends s.workers i (worker (leave ret) b e l) (worker outside b (e + 1) l') h,
      )

  led_more : sum led_of left_workers + sum leads left_workers ≡ k + 1
  led_more = omega (
    arith,
    sum-set leads s.workers i (worker (leave ret) b e l) (worker outside b (e + 1) l') h,
    sum-set led_of s.workers i (worker (leave ret) b e l) (worker outside b (e + 1) l') h,
    g.led,
    led,
  )

  still-Drains : All (Drains k) left_workers
  still-Drains =
      All-set (Drains k) s.workers i (worker outside b (e + 1) l') (v.0, omega (arith, v.1)) g.all

  leave_not_last :
      s.era_counter + 1 < threads
      → Draining threads k (record {
        control_counter = s.control_counter;
        era_counter = s.era_counter + 1;
        workers = left_workers;
      })
  leave_not_last more = record {
    control = g.control;
    era = more;
    pending = omega (arith, pends_less, g.pending);
    all = still-Drains;
    led = led_more;
  }

  leave_last :
      s.era_counter + 1 ≡ threads
      → Gathering threads (k + 1) (record {
        control_counter = s.control_counter;
        era_counter = s.era_counter + 1;
        workers = left_workers;
      })
  leave_last last =
      let every =
        All-map (λ w. (pends w ≡ 0) × Drains k w) (λ w. Gathers (k + 1) w × (leads w ≡ 0))
          left_workers (λ w u. drained_gathers k w.point w.begun w.ended u)
          (All-both (λ w. pends w ≡ 0) (Drains k) left_workers
            (zero-sum pends left_workers (omega (arith, pends_less, g.pending, last)))
            still-Drains) in
      let none_leads = sum-zero leads left_workers (
        All-map (λ w. Gathers (k + 1) w × (leads w ≡ 0)) (λ w. leads w ≡ 0) left_workers
          (λ w u. u.1) every) in
      record {
        control = g.control;
        era = last;
        all =
            All-map (λ w. Gathers (k + 1) w × (leads w ≡ 0)) (Gathers (k + 1)) left_workers
              (λ w u. u.0) every;
        led = omega (arith, led_more, none_leads);
      }

leave_moved :
    (threads k i b e l l' : ℕ) (ret : Bool) (s : Barrier)
    → Draining threads k s
    → get_elem? s.workers i ≡ some (worker (leave ret) b e l)
    → l' ≡ l + leads_at (leave ret)
    → DrainsAt k (leave ret) b e
    → let next : Barrier = record {
      control_counter = s.control_counter;
      era_counter = s.era_counter + 1;
      workers = set s.workers i (worker outside b (e + 1) l');
    } in
      InRound threads k next ⊎ InRound threads (k + 1) next
leave_moved threads k i b e l l' ret s g h led v =
    elim (Bool-cases (ltb (s.era_counter + 1) threads)) [
      | inl more ↦
          inl (inr (inr (leave_not_last threads k i b e l l' ret s g h led v (ground arith))))
      | inr last ↦
          inr (inl (leave_last threads k i b e l l' ret s g h led v (ground (arith, g.era))))
    ]

pub Draining-moved :
    (threads k i : ℕ) (p : Point) (b e l : ℕ) (s : Barrier)
    → Draining threads k s
    → get_elem? s.workers i ≡ some (worker p b e l)
    → DrainsAt k p b e
    → InRound threads k (moved threads i s (worker p b e l))
      ⊎ InRound threads (k + 1) (moved threads i s (worker p b e l))
unfolding turn
Draining-moved threads k i outside b e l s g h v = inl (
    inr (
      inr (
        still-Draining threads k i s (worker outside b e l) (worker spin (b + 1) e l) g h
          (refl, refl, refl) (omega (arith, v.0), v.1))))
Draining-moved threads k i spin b e l s g h v =
    let other : (s.era_counter == threads) ≡ false = ground (arith, g.era) in
    rw other (
      inl (
        inr (
          inr (
            still-Draining threads k i s (worker spin b e l) (worker spin_control b e l) g h
              (refl, refl, refl) v))))
Draining-moved threads k i spin_control b e l s g h v =
    let full : (s.control_counter == threads) ≡ true = ground (arith, g.control) in
    rw full (
      inl (
        inr (
          inr (
            still-Draining threads k i s (worker spin_control b e l) (worker spin b e l) g h
              (refl, refl, refl) v))))
Draining-moved threads k i swap b e l s g h v = absurd v
Draining-moved threads k i reset b e l s g h v = absurd v
Draining-moved threads k i (add ret) b e l s g h v = absurd v
Draining-moved threads k i (wait ret) b e l s g h v =
    let full : (s.control_counter == threads) ≡ true = ground (arith, g.control) in
    rw full (
      inl (
        inr (
          inr (
            still-Draining threads k i s (worker (wait ret) b e l) (worker (leave ret) b e l) g h
              (refl, refl, refl) v))))
Draining-moved threads k i (leave true) b e l s g h v =
    leave_moved threads k i b e l (l + 1) true s g h refl v
Draining-moved threads k i (leave false) b e l s g h v =
    leave_moved threads k i b e l l false s g h (omega arith) v

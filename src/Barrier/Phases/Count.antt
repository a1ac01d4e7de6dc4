-- ===== src/Barrier/Phases/Count.antt =====
-- queue/barrier-synchronization.c: a turn while control_counter counts the threads.
use congenial_octo_telegram.Base.{
  ℕ, ◌+◌, ◌≤◌, ◌<◌, ◌≡◌, inl, inr, refl, sym, ◌∙◌, List, some, Bool, true, false, ◌==◌, ltb,
  get_elem?, set, length, length-set, arith, All, Bool-cases,
}
use congenial_octo_telegram.Barrier.{
  Point, outside, spin, spin_control, swap, reset, add, wait, leave, Worker, Barrier, turn,
}
use congenial_octo_telegram.Barrier.Counts.{
  sum, sum-set, All-set, All-map, All-every, All-both, sum-zero, full-sum, sum-ones,
}
use congenial_octo_telegram.Barrier.Phases.{
  waits, resets, leads, pends, led_of, Counts, Drains, CountsAt, DrainsAt, waits_at, pends_at,
  resets_at, Counting, Draining, InRound, moved, worker,
}

-- A turn that leaves the counters as they are, and the roles of the thread.
still-Counting :
    (threads k i : ℕ) (s : Barrier) (w w' : Worker)
    → Counting threads k s
    → get_elem? s.workers i ≡ some w
    → (waits w' ≡ waits w) × (resets w' ≡ resets w) × (leads w' ≡ leads w) × (w'.led ≡ w.led)
    → Counts k w'
    → Counting threads k (record s { workers = set s.workers i w' })
still-Counting threads k i s w w' g h same ok = record {
  control = g.control;
  waiting = omega (arith, sum-set waits s.workers i w w' h, g.waiting, same.0);
  leading = omega (arith, sum-set leads s.workers i w w' h, g.leading, same.2);
  era = λ e. g.era (omega (arith, sum-set resets s.workers i w w' h, e, same.1));
  all = All-set (Counts k) s.workers i w' ok g.all;
  led = omega (arith, sum-set led_of s.workers i w w' h, g.led, same.3);
}

-- The reset of era_counter.
reset_done :
    (threads k i b e l : ℕ) (s : Barrier)
    → Counting threads k s
    → get_elem? s.workers i ≡ some (worker reset b e l)
    → CountsAt k reset b e
    → Counting threads k (record {
      control_counter = s.control_counter;
      era_counter = 0;
      workers = set s.workers i (worker (add true) b e l);
    })
reset_done threads k i b e l s g h v = record {
  control = g.control;
  waiting = omega (
    arith,
    sum-set waits s.workers i (worker reset b e l) (worker (add true) b e l) h,
    g.waiting,
  );
  leading = omega (
    arith,
    sum-set leads s.workers i (worker reset b e l) (worker (add true) b e l) h,
    g.leading,
  );
  era = λ none_. refl;
  all = All-set (Counts k) s.workers i (worker (add true) b e l) v g.all;
  led =
      omega
        (arith, sum-set led_of s.workers i (worker reset b e l) (worker (add true) b e l) h, g.led);
}

waits_or_not : (p : Point) → waits_at p ≤ 1
waits_or_not (wait ret) = omega arith
waits_or_not outside = omega arith
waits_or_not spin = omega arith
waits_or_not spin_control = omega arith
waits_or_not swap = omega arith
waits_or_not reset = omega arith
waits_or_not (add ret) = omega arith
waits_or_not (leave ret) = omega arith

counted_drains :
    (k : ℕ) (p : Point) (b e : ℕ)
    → (waits_at p ≡ 1) × CountsAt k p b e
    → DrainsAt k p b e × (pends_at p ≡ 1) × (resets_at p ≡ 0)
counted_drains k (wait ret) b e v = (v.1, refl, refl)
counted_drains k outside b e v = absurd (omega (arith, v.0))
counted_drains k spin b e v = absurd (omega (arith, v.0))
counted_drains k spin_control b e v = absurd (omega (arith, v.0))
counted_drains k swap b e v = absurd (omega (arith, v.0))
counted_drains k reset b e v = absurd (omega (arith, v.0))
counted_drains k (add ret) b e v = absurd (omega (arith, v.0))
counted_drains k (leave ret) b e v = absurd (omega (arith, v.0))

-- The increment of control_counter.
module _ (threads k i b e l : ℕ) (ret : Bool) (s : Barrier) (g : Counting threads k s)
    (h : get_elem? s.workers i ≡ some (worker (add ret) b e l)) (v : CountsAt k (add ret) b e) where
  abbrev waiting_workers : List Worker
  waiting_workers = set s.workers i (worker (wait ret) b e l)

  counted_one : sum waits waiting_workers ≡ s.control_counter + 1
  counted_one = omega (
    arith,
    sum-set waits s.workers i (worker (add ret) b e l) (worker (wait ret) b e l) h,
    g.waiting,
  )

  leads_one : sum leads waiting_workers ≡ 1
  leads_one = omega (
    arith,
    sum-set leads s.workers i (worker (add ret) b e l) (worker (wait ret) b e l) h,
    g.leading,
  )

  led_same : sum led_of waiting_workers ≡ k
  led_same = omega (
    arith,
    sum-set led_of s.workers i (worker (add ret) b e l) (worker (wait ret) b e l) h,
    g.led,
  )

  resets_same : sum resets waiting_workers ≡ sum resets s.workers
  resets_same =
      omega (arith, sum-set resets s.workers i (worker (add ret) b e l) (worker (wait ret) b e l) h)

  after-Counts : All (Counts k) waiting_workers
  after-Counts = All-set (Counts k) s.workers i (worker (wait ret) b e l) v g.all

  add_not_last :
      s.control_counter + 1 < threads
      → Counting threads k (record {
        control_counter = s.control_counter + 1;
        era_counter = s.era_counter;
        workers = waiting_workers;
      })
  add_not_last more = record {
    control = more;
    waiting = counted_one;
    leading = leads_one;
    era = λ none_. g.era (sym resets_same ∙ none_);
    all = after-Counts;
    led = led_same;
  }

  after-Drains :
      length s.workers ≡ threads
      → s.control_counter + 1 ≡ threads
      → All (λ w. Drains k w × (pends w ≡ 1) × (resets w ≡ 0)) waiting_workers
  after-Drains size last =
      All-map (λ w. (waits w ≡ 1) × Counts k w) (λ w. Drains k w × (pends w ≡ 1) × (resets w ≡ 0))
        waiting_workers (λ w u. counted_drains k w.point w.begun w.ended u)
        (All-both (λ w. waits w ≡ 1) (Counts k) waiting_workers
          (full-sum waits waiting_workers
            (All-every (λ w. waits w ≤ 1) waiting_workers (λ w. waits_or_not w.point))
            (counted_one
              ∙ last
              ∙ sym size
              ∙ sym (length-set s.workers i (worker (wait ret) b e l))))
          after-Counts)

  add_last :
      length s.workers ≡ threads
      → s.control_counter + 1 ≡ threads
      → Draining threads k (record {
        control_counter = s.control_counter + 1;
        era_counter = s.era_counter;
        workers = waiting_workers;
      })
  add_last size last =
      let every = after-Drains size last in
      let pending = sum-ones pends waiting_workers (
        All-map (λ w. Drains k w × (pends w ≡ 1) × (resets w ≡ 0)) (λ w. pends w ≡ 1)
          waiting_workers (λ w u. u.1) every) in
      let no_resets = sum-zero resets waiting_workers (
        All-map (λ w. Drains k w × (pends w ≡ 1) × (resets w ≡ 0)) (λ w. resets w ≡ 0)
          waiting_workers (λ w u. u.2) every) in
      let era = g.era (sym resets_same ∙ no_resets) in
      record {
        control = last;
        era = omega (arith, era, last);
        pending =
            omega (arith, pending, era, size, length-set s.workers i (worker (wait ret) b e l));
        all =
            All-map (λ w. Drains k w × (pends w ≡ 1) × (resets w ≡ 0)) (Drains k) waiting_workers
              (λ w u. u.0) every;
        led = omega (arith, led_same, leads_one);
      }

pub Counting-moved :
    (threads k i : ℕ) (p : Point) (b e l : ℕ) (s : Barrier)
    → Counting threads k s
    → get_elem? s.workers i ≡ some (worker p b e l)
    → length s.workers ≡ threads
    → CountsAt k p b e
    → InRound threads k (moved threads i s (worker p b e l))
unfolding turn
Counting-moved threads k i outside b e l s g h size v = inr (
    inl (
      still-Counting threads k i s (worker outside b e l) (worker spin (b + 1) e l) g h
        (refl, refl, refl, refl) (omega (arith, v.0), v.1)))
Counting-moved threads k i spin b e l s g h size v = elim (Bool-cases (s.era_counter == threads)) [
  | inl full ↦ rw full (
      inr (
        inl (
          still-Counting threads k i s (worker spin b e l) (worker swap b e l) g h
            (refl, refl, refl, refl) v)))
  | inr other ↦ rw other (
      inr (
        inl (
          still-Counting threads k i s (worker spin b e l) (worker spin_control b e l) g h
            (refl, refl, refl, refl) v)))
]
Counting-moved threads k i spin_control b e l s g h size v =
    let other : (s.control_counter == threads) ≡ false = ground (arith, g.control) in
    rw other (
      inr (
        inl (
          still-Counting threads k i s (worker spin_control b e l) (worker swap b e l) g h
            (refl, refl, refl, refl) v)))
Counting-moved threads k i swap b e l s g h size v =
    let other : (s.control_counter == threads) ≡ false = ground (arith, g.control) in
    rw other (
      inr (
        inl (
          still-Counting threads k i s (worker swap b e l) (worker (add false) b e l) g h
            (refl, refl, refl, refl) v)))
Counting-moved threads k i reset b e l s g h size v =
    inr (inl (reset_done threads k i b e l s g h v))
Counting-moved threads k i (add ret) b e l s g h size v =
    elim (Bool-cases (ltb (s.control_counter + 1) threads)) [
      | inl more ↦ inr (inl (add_not_last threads k i b e l ret s g h v (ground arith)))
      | inr last ↦
          inr (inr (add_last threads k i b e l ret s g h v size (ground (arith, g.control))))
    ]
Counting-moved threads k i (wait ret) b e l s g h size v =
    let other : (s.control_counter == threads) ≡ false = ground (arith, g.control) in
    rw other (
      inr (
        inl (
          still-Counting threads k i s (worker (wait ret) b e l) (worker (wait ret) b e l) g h
            (refl, refl, refl, refl) v)))
Counting-moved threads k i (leave ret) b e l s g h size v = absurd v

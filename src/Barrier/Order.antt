-- ===== src/Barrier/Order.antt =====
-- queue/barrier-synchronization.c: when a thread may leave the barrier, and which call returns true.
use congenial_octo_telegram.Base.{
  ℕ, ◌+◌, ◌≤◌, ◌≡◌, inl, inr, refl, sym, ap, ◌∙◌, List, [], ◌∷◌, some, get_elem?, length, arith,
  All,
}
use congenial_octo_telegram.Barrier.{
  Point, outside, spin, spin_control, swap, reset, add, wait, leave, Worker, Barrier, Reachable,
}
use congenial_octo_telegram.Barrier.Counts.{sum, All-get_elem?, All-map, sum-zero}
use congenial_octo_telegram.Barrier.Phases.{
  led_of, leads_at, pends_at, Gathers, Counts, Drains, GathersAt, CountsAt, DrainsAt,
}
use congenial_octo_telegram.Barrier.Rounds.{Reachable-IsBarrier}

gathers_order : (k : ℕ) (p : Point) (b e : ℕ) → GathersAt k p b e → (k ≤ b) × (e ≡ k)
gathers_order k outside b e v = (omega (arith, v.0), v.1)
gathers_order k spin b e v = (omega (arith, v.0), v.1)
gathers_order k spin_control b e v = (omega (arith, v.0), v.1)
gathers_order k swap b e v = (omega (arith, v.0), v.1)
gathers_order k reset b e v = absurd v
gathers_order k (add ret) b e v = absurd v
gathers_order k (wait ret) b e v = absurd v
gathers_order k (leave ret) b e v = absurd v

counts_order : (k : ℕ) (p : Point) (b e : ℕ) → CountsAt k p b e → (k ≤ b) × (e ≡ k)
counts_order k outside b e v = (omega (arith, v.0), v.1)
counts_order k spin b e v = (omega (arith, v.0), v.1)
counts_order k spin_control b e v = (omega (arith, v.0), v.1)
counts_order k swap b e v = (omega (arith, v.0), v.1)
counts_order k reset b e v = (omega (arith, v.0), v.1)
counts_order k (add ret) b e v = (omega (arith, v.0), v.1)
counts_order k (wait ret) b e v = (omega (arith, v.0), v.1)
counts_order k (leave ret) b e v = absurd v

drains_order : (k : ℕ) (p : Point) (b e : ℕ) → DrainsAt k p b e → (k + 1 ≤ b) × (e ≤ k + 1)
drains_order k outside b e v = (omega (arith, v.0), omega (arith, v.1))
drains_order k spin b e v = (omega (arith, v.0), omega (arith, v.1))
drains_order k spin_control b e v = (omega (arith, v.0), omega (arith, v.1))
drains_order k swap b e v = absurd v
drains_order k reset b e v = absurd v
drains_order k (add ret) b e v = absurd v
drains_order k (wait ret) b e v = (omega (arith, v.0), omega (arith, v.1))
drains_order k (leave ret) b e v = (omega (arith, v.0), omega (arith, v.1))

-- Whatever the threads do in turn from the initial state of the barrier on, no thread has ended
-- more calls of it than another has begun: none leaves before all have come.
pub Reachable-order :
    (threads i j : ℕ) (t u : Worker) (s : Barrier)
    → Reachable threads s
    → get_elem? s.workers i ≡ some t
    → get_elem? s.workers j ≡ some u
    → t.ended ≤ u.begun
Reachable-order threads i j t u s r hi hj =
    let v = Reachable-IsBarrier threads r in
    elim v.phase [
      | inl g ↦ omega (
        arith,
        gathers_order v.round t.point t.begun t.ended
            (All-get_elem? (Gathers v.round) s.workers i t hi g.all),
        gathers_order v.round u.point u.begun u.ended
            (All-get_elem? (Gathers v.round) s.workers j u hj g.all),
      )
      | inr (inl g) ↦ omega (
        arith,
        counts_order v.round t.point t.begun t.ended
            (All-get_elem? (Counts v.round) s.workers i t hi g.all),
        counts_order v.round u.point u.begun u.ended
            (All-get_elem? (Counts v.round) s.workers j u hj g.all),
      )
      | inr (inr g) ↦ omega (
        arith,
        drains_order v.round t.point t.begun t.ended
            (All-get_elem? (Drains v.round) s.workers i t hi g.all),
        drains_order v.round u.point u.begun u.ended
            (All-get_elem? (Drains v.round) s.workers j u hj g.all),
      )
    ]

-- All threads are outside, after `n` calls each.
abbrev pub AllOut : ℕ → Barrier → Type 0
AllOut n s = All (λ w. (w.point ≡ outside) × (w.ended ≡ n)) s.workers

first_ended :
    (P : Worker → Type 0) (k n : ℕ) (ws : List Worker)
    → 1 ≤ length ws
    → ((w : Worker) → P w → w.ended ≡ k)
    → All P ws
    → All (λ w. (w.point ≡ outside) × (w.ended ≡ n)) ws
    → k ≡ n
first_ended P k n [] some_ f v out = absurd (omega arith)
first_ended P k n (x ∷ rest) some_ f v out = sym (f x v.0) ∙ out.0.1

out_zero :
    (f : Point → ℕ) (n : ℕ) (s : Barrier)
    → f outside ≡ 0
    → AllOut n s
    → sum (λ w. f w.point) s.workers ≡ 0
out_zero f n s h out =
    sum-zero (λ w. f w.point) s.workers
      (All-map (λ w. (w.point ≡ outside) × (w.ended ≡ n)) (λ w. f w.point ≡ 0) s.workers
        (λ w v. ap f v.0 ∙ h) out)

-- With at least one thread, in a state that the barrier can get into, where all threads are out of
-- it after the same number of calls, exactly as many of their calls returned true: one in each
-- round.
pub Reachable-leaders :
    (threads n : ℕ) (s : Barrier)
    → 1 ≤ threads
    → Reachable threads s
    → AllOut n s
    → sum led_of s.workers ≡ n
Reachable-leaders threads n s some_ r out =
    let v = Reachable-IsBarrier threads r in
    elim v.phase [
      | inl g ↦
          g.led
          ∙ first_ended (Gathers v.round) v.round n s.workers (omega (arith, v.size))
              (λ w u. (gathers_order v.round w.point w.begun w.ended u).1) g.all out
      | inr (inl g) ↦ absurd (omega (arith, g.leading, out_zero leads_at n s refl out))
      | inr (inr g) ↦ absurd (omega (arith, g.pending, g.era, out_zero pends_at n s refl out))
    ]

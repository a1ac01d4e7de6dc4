-- ===== src/Barrier/Liveness.antt =====
-- queue/barrier-synchronization.c: a schedule that brings a thread out of the barrier.
use congenial_octo_telegram.Base.{
  ℕ, zero, suc, ◌≤◌, ◌≡◌, inl, inr, refl, List, [], ◌∷◌, ◌++◌, some, get_elem?, length, arith, All,
}
use congenial_octo_telegram.Barrier.{
  Point, outside, spin, spin_control, swap, reset, add, wait, leave, Worker, Barrier, barrier_step,
  Reachable,
}
use congenial_octo_telegram.Barrier.Counts.{sum, All-get_elem?}
use congenial_octo_telegram.Barrier.Phases.{waits, pends, Gathers, Counts}
use congenial_octo_telegram.Barrier.Progress.{
  turns, rank_at, rank, Found, Nearer, Found-outside, Found-less, Found-more, gathering-Nearer,
  counting-Nearer, draining-Nearer,
}
use congenial_octo_telegram.Barrier.Rounds.{IsBarrier, barrier_step-IsBarrier, Reachable-IsBarrier}

first_worker : (ws : List Worker) → 1 ≤ length ws → (w : Worker) × (get_elem? ws 0 ≡ some w)
first_worker [] h = absurd (omega arith)
first_worker (w ∷ rest) h = (w, refl)

-- Where all threads are inside, some turns bring them nearer to the end.
inside-Nearer :
    (threads : ℕ) (s : Barrier)
    → 1 ≤ threads
    → IsBarrier threads s
    → All (λ w. 1 ≤ rank w) s.workers
    → Nearer threads s
inside-Nearer threads s some_ v inside = elim v.phase [
  | inl g ↦
      let (w, h) = first_worker s.workers (omega (arith, v.size)) in
      gathering-Nearer threads 0 v.round w.point w.begun w.ended w.led s g.control g.era h
        (All-get_elem? (Gathers v.round) s.workers 0 w h g.all)
        (All-get_elem? (λ x. 1 ≤ rank x) s.workers 0 w h inside)
  | inr (inl g) ↦
      let f = Found-less waits s.workers (omega (arith, g.waiting, g.control, v.size)) in
      counting-Nearer threads f.index v.round f.who.point f.who.begun f.who.ended f.who.led s
        g.control f.there (All-get_elem? (Counts v.round) s.workers f.index f.who f.there g.all)
        (All-get_elem? (λ x. 1 ≤ rank x) s.workers f.index f.who f.there inside) f.fact
  | inr (inr g) ↦
      let f = Found-more pends s.workers (omega (arith, g.pending, g.era)) in
      draining-Nearer threads f.index v.round f.who.point f.who.begun f.who.ended f.who.led s
        g.control f.there f.fact
]

turns-append :
    (threads : ℕ) (before after : List ℕ) (s : Barrier)
    → turns threads (before ++ after) s ≡ turns threads after (turns threads before s)
turns-append threads [] after s = refl
turns-append threads (i ∷ rest) after s = turns-append threads rest after (barrier_step threads i s)

turns-IsBarrier :
    (threads : ℕ) (schedule : List ℕ) (s : Barrier)
    → IsBarrier threads s
    → IsBarrier threads (turns threads schedule s)
turns-IsBarrier threads [] s v = v
turns-IsBarrier threads (i ∷ rest) s v =
    turns-IsBarrier threads rest (barrier_step threads i s) (barrier_step-IsBarrier threads i s v)

inside_sum : (ws : List Worker) → 1 ≤ length ws → All (λ w. 1 ≤ rank w) ws → 1 ≤ sum rank ws
inside_sum [] h inside = absurd (omega arith)
inside_sum (w ∷ rest) h inside = omega (arith, inside.0)

-- By the distance that is left.
way_out :
    (fuel threads : ℕ) (s : Barrier)
    → 1 ≤ threads
    → IsBarrier threads s
    → sum rank s.workers ≤ fuel
    → (schedule : List ℕ) × Found (λ w. rank w ≡ 0) (turns threads schedule s).workers
way_out zero threads s some_ v enough = elim (Found-outside s.workers) [
  | inl out ↦ ([], out)
  | inr inside ↦ absurd (omega (arith, inside_sum s.workers (omega (arith, v.size)) inside))
]
way_out (suc fuel) threads s some_ v enough = elim (Found-outside s.workers) [
  | inl out ↦ ([], out)
  | inr inside ↦
      let n = inside-Nearer threads s some_ v inside in
      let (later, out) =
        way_out fuel threads (turns threads n.schedule s) some_
          (turns-IsBarrier threads n.schedule s v) (omega (arith, n.nearer)) in
      (n.schedule ++ later, rw (turns-append threads n.schedule later s) out)
]

rank-outside : (p : Point) → rank_at p ≡ 0 → p ≡ outside
rank-outside outside h = refl
rank-outside spin h = absurd (omega arith)
rank-outside spin_control h = absurd (omega arith)
rank-outside swap h = absurd (omega arith)
rank-outside reset h = absurd (omega arith)
rank-outside (add ret) h = absurd (omega arith)
rank-outside (wait ret) h = absurd (omega arith)
rank-outside (leave ret) h = absurd (omega arith)

-- With at least one thread, from each state that the barrier can get into there are turns after
-- which a thread is out of it: the barrier never comes to a state that all threads are stuck in.
pub Reachable-way_out :
    (threads : ℕ) (s : Barrier)
    → 1 ≤ threads
    → Reachable threads s
    → (schedule : List ℕ) × (i : ℕ) × (w : Worker) × (get_elem? (turns threads schedule s).workers i
        ≡ some w)
      × (w.point ≡ outside)
Reachable-way_out threads s some_ r =
    let (schedule, out) =
      way_out (sum rank s.workers) threads s some_ (Reachable-IsBarrier threads r) (omega arith) in
    (schedule, out.index, out.who, out.there, rank-outside out.who.point out.fact)

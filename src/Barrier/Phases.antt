-- ===== src/Barrier/Phases.antt =====
-- queue/barrier-synchronization.c: the phases of a round of the barrier, and the turns in each.
pub mod Gather
pub mod Count
pub mod Drain
use congenial_octo_telegram.Base.{
  ℕ, zero, suc, ◌+◌, ◌≤◌, ◌<◌, ◌≡◌, ◌⊎◌, refl, List, [], ◌∷◌, Option, none, some, Bool, true, false,
  get_elem?, set, length, All, length-set,
}
use congenial_octo_telegram.Barrier.{
  Point, outside, spin, spin_control, swap, reset, add, wait, leave, Worker, Barrier, turn,
}
use congenial_octo_telegram.Barrier.Counts.{sum}

abbrev pub one_if : Bool → ℕ
one_if true = 1
one_if false = 0

abbrev pub waits_at : Point → ℕ
waits_at (wait ret) = 1
waits_at p = 0

-- Not out of the round yet, when all have come.
abbrev pub pends_at : Point → ℕ
pends_at (wait ret) = 1
pends_at (leave ret) = 1
pends_at p = 0

abbrev pub resets_at : Point → ℕ
resets_at reset = 1
resets_at p = 0

-- The thread whose call returns true.
abbrev pub leads_at : Point → ℕ
leads_at reset = 1
leads_at (add ret) = one_if ret
leads_at (wait ret) = one_if ret
leads_at (leave ret) = one_if ret
leads_at p = 0

abbrev pub waits : Worker → ℕ
waits w = waits_at w.point

abbrev pub pends : Worker → ℕ
pends w = pends_at w.point

abbrev pub resets : Worker → ℕ
resets w = resets_at w.point

abbrev pub leads : Worker → ℕ
leads w = leads_at w.point

abbrev pub led_of : Worker → ℕ
led_of w = w.led

-- A thread before round `k` has its first.
abbrev pub GathersAt : ℕ → Point → ℕ → ℕ → Type 0
GathersAt k outside begun ended = (begun ≡ k) × (ended ≡ k)
GathersAt k spin begun ended = (begun ≡ k + 1) × (ended ≡ k)
GathersAt k spin_control begun ended = (begun ≡ k + 1) × (ended ≡ k)
GathersAt k swap begun ended = (begun ≡ k + 1) × (ended ≡ k)
GathersAt k p begun ended = ⊥

-- A thread while some are to be counted.
abbrev pub CountsAt : ℕ → Point → ℕ → ℕ → Type 0
CountsAt k outside begun ended = (begun ≡ k) × (ended ≡ k)
CountsAt k (leave ret) begun ended = ⊥
CountsAt k p begun ended = (begun ≡ k + 1) × (ended ≡ k)

-- A thread while some are to leave.
abbrev pub DrainsAt : ℕ → Point → ℕ → ℕ → Type 0
DrainsAt k outside begun ended = (begun ≡ k + 1) × (ended ≡ k + 1)
DrainsAt k spin begun ended = (begun ≡ k + 2) × (ended ≡ k + 1)
DrainsAt k spin_control begun ended = (begun ≡ k + 2) × (ended ≡ k + 1)
DrainsAt k (wait ret) begun ended = (begun ≡ k + 1) × (ended ≡ k)
DrainsAt k (leave ret) begun ended = (begun ≡ k + 1) × (ended ≡ k)
DrainsAt k p begun ended = ⊥

abbrev pub Gathers : ℕ → Worker → Type 0
Gathers k w = GathersAt k w.point w.begun w.ended

abbrev pub Counts : ℕ → Worker → Type 0
Counts k w = CountsAt k w.point w.begun w.ended

abbrev pub Drains : ℕ → Worker → Type 0
Drains k w = DrainsAt k w.point w.begun w.ended

-- Round `k` before the first swap.
pub record Gathering (threads k : ℕ) (s : Barrier) : Type 0 where
  pub control : s.control_counter ≡ threads
  pub era : s.era_counter ≡ threads
  pub all : All (Gathers k) s.workers
  pub led : sum led_of s.workers ≡ k

-- From the swap to the last increment of control_counter.
pub record Counting (threads k : ℕ) (s : Barrier) : Type 0 where
  pub control : s.control_counter < threads
  pub waiting : sum waits s.workers ≡ s.control_counter
  pub leading : sum leads s.workers ≡ 1
  pub era : sum resets s.workers ≡ 0 → s.era_counter ≡ 0
  pub all : All (Counts k) s.workers
  pub led : sum led_of s.workers ≡ k

-- To the last increment of era_counter.
pub record Draining (threads k : ℕ) (s : Barrier) : Type 0 where
  pub control : s.control_counter ≡ threads
  pub era : s.era_counter < threads
  pub pending : sum pends s.workers + s.era_counter ≡ threads
  pub all : All (Drains k) s.workers
  pub led : sum led_of s.workers + sum leads s.workers ≡ k + 1

abbrev pub InRound : ℕ → ℕ → Barrier → Type 0
InRound threads k s = Gathering threads k s ⊎ (Counting threads k s ⊎ Draining threads k s)

abbrev pub worker : Point → ℕ → ℕ → ℕ → Worker
worker point begun ended led = record { point = point; begun = begun; ended = ended; led = led }

-- The state after the turn of thread `i`, which was `w`.
abbrev pub moved : ℕ → ℕ → Barrier → Worker → Barrier
moved threads i s w =
    let (next, control, era) = turn threads w.point s.control_counter s.era_counter w in
    record { control_counter = control; era_counter = era; workers = set s.workers i next }

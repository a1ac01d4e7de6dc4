-- ===== src/Barrier.antt =====
-- queue/barrier-synchronization.c: the threads of the engine in `barrier`, which they call again and again.
-- A turn of a thread is one access to a shared counter; any thread may take the next turn.
pub mod Counts
pub mod Liveness
pub mod Order
pub mod Phases
pub mod Progress
pub mod Rounds
use congenial_octo_telegram.Base.{
  ℕ, zero, suc, ◌+◌, List, [], ◌∷◌, Option, none, some, Bool, true, false, ◌==◌, if◌then◌else◌,
  get_elem?, set, replicate,
}

-- Where a thread is in the code. `spin` is about to read era_counter, `spin_control` to read
-- control_counter after it; `add`, `wait` and `leave` have what the call returns.
pub data Point : Type 0 where
  outside : Point
  spin : Point
  spin_control : Point
  swap : Point
  reset : Point
  add : Bool → Point
  wait : Bool → Point
  leave : Bool → Point

-- A thread, the calls it has begun and ended, and those that returned true.
pub record Worker : Type 0 where
  pub point : Point
  pub begun : ℕ
  pub ended : ℕ
  pub led : ℕ

pub record Barrier : Type 0 where
  pub control_counter : ℕ
  pub era_counter : ℕ
  pub workers : List Worker

-- The next access of a thread, among `threads` of them, and the two counters after it.
unfoldable pub turn : ℕ → Point → ℕ → ℕ → Worker → Worker × ℕ × ℕ
turn threads outside control era w = (record w { point = spin; begun = w.begun + 1 }, control, era)
turn threads spin control era w =
    (record w { point = if era == threads then swap else spin_control }, control, era)
turn threads spin_control control era w =
    (record w { point = if control == threads then spin else swap }, control, era)
turn threads swap control era w =
    if control == threads
    then (record w { point = reset }, 0, era)
    else (record w { point = add false }, control, era)
turn threads reset control era w = (record w { point = add true }, control, 0)
turn threads (add ret) control era w = (record w { point = wait ret }, control + 1, era)
turn threads (wait ret) control era w =
    (record w { point = if control == threads then leave ret else wait ret }, control, era)
turn threads (leave ret) control era w = (
  record w { point = outside; ended = w.ended + 1; led = if ret then w.led + 1 else w.led },
  control,
  era + 1,
)

unfoldable pub barrier_step : ℕ → ℕ → Barrier → Barrier
barrier_step threads i s = elim (get_elem? s.workers i) [
  | none ↦ s
  | some w ↦
      let (next, control, era) = turn threads w.point s.control_counter s.era_counter w in
      record { control_counter = control; era_counter = era; workers = set s.workers i next }
]

-- `control_counter = THREADS` and `era_counter = THREADS`, with all threads outside.
abbrev pub barrier_start : ℕ → Barrier
barrier_start threads = record {
  control_counter = threads;
  era_counter = threads;
  workers = replicate threads (record { point = outside; begun = 0; ended = 0; led = 0 });
}

pub data Reachable (threads : ℕ) : Barrier → Type 0 where
  start : Reachable threads (barrier_start threads)
  then_step :
      {s : Barrier} (i : ℕ) → Reachable threads s → Reachable threads (barrier_step threads i s)

-- ===== src/Random.antt =====
-- random/random.c: the generator of an object. A double in the result is kept exact: the integer before
-- the multiplication by 2.328306435454494e-10.
pub mod Doubles
use native.Mathlib.Nat.{div-lt_iff_lt-mul, mul-lt-mul_of_pos_left}
use congenial_octo_telegram.Base.{ℕ, ◌+◌, ◌*◌, ◌/◌, ◌%◌, ◌^◌, ◌<◌, ◌≡◌, arith, Bool, ltb}

-- `*seed1` and `*seed2`, each a uint32_t.
pub record Seeds : Type 0 where
  pub seed1 : ℕ
  pub seed2 : ℕ

-- 2.328306435454494e-10 is `magic / scale`.
abbrev pub magic : ℕ
magic = 2328306435454494

abbrev pub scale : ℕ
scale = 10000000000000000000000000

abbrev step_seeds : Seeds → Seeds
step_seeds r = record {
  seed1 = (36969 * (r.seed1 % 2 ^ 16) + r.seed1 / 2 ^ 16) % 2 ^ 32;
  seed2 = (18000 * (r.seed2 % 2 ^ 16) + r.seed2 / 2 ^ 16) % 2 ^ 32;
}

-- The sum of the seeds' halves wraps; the 1.0 is added to a double.
abbrev mix : Seeds → ℕ
mix r = (r.seed1 * 2 ^ 16 % 2 ^ 32 + r.seed1 / 2 ^ 16 + r.seed2) % 2 ^ 32 + 1

-- `Random`: the number drawn is the first result times `magic / scale`.
unfoldable pub random : Seeds → ℕ × Seeds
random r = (mix (step_seeds r), step_seeds r)

-- `(int)(n * Random(s1, s2))` of a draw.
unfoldable pub scaled : ℕ → ℕ → ℕ
scaled n v = n * (v * magic) / scale

-- `Random(s1, s2) < 0.5` of a draw.
unfoldable pub below_half : ℕ → Bool
below_half v = ltb (2 * (v * magic)) scale

-- A draw is strictly between 0 and 1.
pub random-range : (r : Seeds) → (0 < (random r).0 * magic) × ((random r).0 * magic < scale)
unfolding random
random-range r = (omega arith, omega arith)

-- A number drawn from any seeds and scaled to a positive `n` is one of the indices below `n`.
pub scaled-random : (n : ℕ) (r : Seeds) → 0 < n → scaled n (random r).0 < n
unfolding scaled
scaled-random n r h =
    (div-lt_iff_lt-mul (omega arith)).1 (mul-lt-mul_of_pos_left (random-range r).1 h)

-- If the second seed is 0, it is 0 after each call of Random.
pub random-seed2 : (r : Seeds) → r.seed2 ≡ 0 → (random r).1.seed2 ≡ 0
unfolding random
random-seed2 r h = rw h (omega arith)

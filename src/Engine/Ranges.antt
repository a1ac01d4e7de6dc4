-- ===== src/Engine/Ranges.antt =====
-- engine/engine.c: the workers' ranges of objects.
use native.Mathlib.Nat.{
  le-div_iff_mul-le, div-lt_iff_lt-mul, div-add-mod, mod-lt, mul-add, mul-one, add-mul, one-mul,
}
use congenial_octo_telegram.Base.{
  ℕ, ◌+◌, ◌*◌, ◌/◌, ◌%◌, ◌≤◌, ◌<◌, ◌≡◌, ◌↔◌, arith, ltb, ◌==◌, ap, inl, inr, Bool-cases, tests,
}
use congenial_octo_telegram.Engine.{share, startup_info}

-- All workers together have room for all objects.
pub share-enough : (objects threads : ℕ) → 0 < threads → objects ≤ threads * share objects threads
share-enough objects threads h = elim (Bool-cases (objects % threads == 0)) [
  | inl even ↦
      let none_left : objects % threads ≡ 0 = ground arith in
      rw even (
        omega
          (arith, none_left, div-add-mod objects threads, mul-add threads (objects / threads) 0))
  | inr odd ↦ rw odd (
      omega (
        arith,
        mod-lt objects h,
        div-add-mod objects threads,
        mul-add threads (objects / threads) 1,
        mul-one threads,
      ))
]

pub share-pos : (objects threads : ℕ) → 0 < threads → 0 < objects → 0 < share objects threads
share-pos objects threads h k = elim (Bool-cases (ltb 0 (share objects threads))) [
  | inl pos ↦ omega tests
  | inr none ↦
      let empty : share objects threads ≡ 0 = ground arith in
      absurd (omega (arith, share-enough objects threads h, ap (λ n. threads * n) empty))
]

-- With at least one worker, each object is in the range of exactly one worker that exists: the
-- worker numbered by the object's number divided by the size of a share.
pub startup_info-owner :
    (objects threads object : ℕ)
    → 0 < threads
    → object < objects
    → let owner = object / share objects threads in
      (owner < threads)
      × ((i : ℕ)
          → (((startup_info objects threads (i * share objects threads)).min_id ≤ object)
              × (object ≤ (startup_info objects threads (i * share objects threads)).max_id))
            ↔ (i ≡ owner))
startup_info-owner objects threads object some_threads inside = (
  (div-lt_iff_lt-mul {k = n} {x = object} {y = threads} pos).1
      (omega (arith, inside, share-enough objects threads some_threads)),
  λ i. (
    λ range. omega (
      arith,
      (le-div_iff_mul-le {k = n} {x = i} {y = object} pos).1 range.0,
      (div-lt_iff_lt-mul {k = n} {x = object} {y = i + 1} pos).1
          (let below = range.1 in let row = add-mul i 1 n in ground arith),
    ),
    λ mine. (
      (le-div_iff_mul-le {k = n} {x = i} {y = object} pos).0 (omega (arith, mine)),
      let below : object < (i + 1) * n =
            (div-lt_iff_lt-mul {k = n} {x = object} {y = i + 1} pos).0 (omega (arith, mine)) in
          let row : (i + 1) * n ≡ i * n + n = omega (arith, add-mul i 1 n, one-mul n) in
          ground arith,
    ),
  ),
)
  where
    n : ℕ
    n = share objects threads

    pos : 0 < n
    pos = share-pos objects threads some_threads (omega (arith, inside))

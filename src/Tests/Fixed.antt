-- ===== src/Tests/Fixed.antt =====
-- A fixed-point arithmetic in place of the doubles.
use congenial_octo_telegram.Base.{ℕ, ◌+◌, ◌-◌, ◌*◌, ◌/◌, ◌^◌, ltb, leb, ◌==◌, arith, refl}
use congenial_octo_telegram.Random.Doubles.{Doubles, IsOrderly}

abbrev pub one : ℕ
one = 10 ^ 12

-- Multiples of 10^-12.
abbrev pub fixed : Doubles
fixed = record {
  Double = ℕ;
  of_nat = λ n. n * one;
  to_nat = λ x. x / one;
  decimal = λ m e. m * one / 10 ^ e;
  add = λ x y. x + y;
  sub = λ x y. x - y;
  mul = λ x y. x * y / one;
  div = λ x y. x * one / y;
  less = ltb;
  less_equal = leb;
  equal = ◌==◌;
  pow = λ x y. x ^ (y / one);
}

pub fixed-IsOrderly : IsOrderly fixed
fixed-IsOrderly = record { unsigned = λ n. ground arith; reflexive = refl }

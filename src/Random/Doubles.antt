-- ===== src/Random/Doubles.antt =====
-- random/random.c, `Expent`, and the floating-point operations that it and the models use. The hardware
-- and the mathematical library provide those, so they are a parameter: a type and operations on it.
use congenial_octo_telegram.Base.{ℕ, Option, none, some, Bool, false, ◌≡◌, if◌then◌else◌, if_false}
use congenial_octo_telegram.Random.{Seeds, random}

pub record Doubles : Type 1 where
  pub Double : Type 0
  -- a conversion from an integer, also in a literal such as 1.0, and to an integer by `(int)`
  pub of_nat : ℕ → Double
  pub to_nat : Double → ℕ
  -- `decimal m e` is the literal m * 10^-e with a fraction.
  pub decimal : ℕ → ℕ → Double
  pub add : Double → Double → Double
  pub sub : Double → Double → Double
  pub mul : Double → Double → Double
  pub div : Double → Double → Double
  -- `<`, `<=` and `==`
  pub less : Double → Double → Bool
  pub less_equal : Double → Double → Bool
  pub equal : Double → Double → Bool
  -- `pow` of math.h
  pub pow : Double → Double → Double

-- What IEEE arithmetic promises of the comparisons: no number that was converted from an unsigned
-- integer is below 0, and 0 equals itself.
pub record IsOrderly (d : Doubles) : Type 0 where
  pub unsigned : (n : ℕ) → d.less (d.of_nat n) (d.of_nat 0) ≡ false
  pub reflexive : d.equal (d.of_nat 0) (d.of_nat 0) ≡ Bool.true

module _ (d : Doubles) where
  -- `Random`, as the double it returns.
  unfoldable pub draw : Seeds → d.Double × Seeds
  draw r = let (v, r') = random r in (d.mul (d.of_nat v) (d.decimal 2328306435454494 25), r')

  -- `Expent`; `none` is the call of exit.
  unfoldable pub expent : d.Double → Seeds → Option (d.Double × Seeds)
  unfolding draw
  expent mean r =
      let (u, r') = draw r in
      if d.less mean (d.of_nat 0)
      then none
      else some
          (d.mul mean (d.div (d.of_nat 1) (d.mul (d.of_nat 3) (d.sub (d.decimal 101 2) u))), r')

-- Expent with a mean that is not negative.
pub expent-some :
    (d : Doubles) (mean : d.Double) (r : Seeds)
    → d.less mean (d.of_nat 0) ≡ false
    → (x : d.Double × Seeds) × (expent d mean r ≡ some x)
unfolding expent
expent-some d mean r h = (_, if_false _ _ h)

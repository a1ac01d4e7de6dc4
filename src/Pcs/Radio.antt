-- ===== src/Pcs/Radio.antt =====
-- models/pcs/application.c: the gains, the fading and the power of a channel, and the rate of calls over
-- a week.
use congenial_octo_telegram.Base.{
  ℕ, zero, suc, ◌*◌, ◌%◌, List, [], ◌∷◌, Option, none, some, if◌then◌else◌, ltb,
}
use congenial_octo_telegram.Random.{Seeds}
use congenial_octo_telegram.Random.Doubles.{Doubles, draw, expent}
use congenial_octo_telegram.Pcs.{SirData, Channel}

abbrev day : ℕ
day = 24 * 3600

-- The comparisons of `recompute_ta`. `8.5 * HOUR` is a double, the other bounds are integers.
module _ (d : Doubles) where
  unfoldable pub recompute_ta : d.Double → d.Double → d.Double
  recompute_ta ref_ta time_now =
      let week_time = d.to_nat time_now % (7 * day) in
      let now = week_time % day in
      if ltb (5 * day) week_time
      then d.mul ref_ta (d.of_nat 5)
      else if d.less (d.of_nat now) (d.mul (d.decimal 85 1) (d.of_nat 3600))
      then d.mul ref_ta (d.of_nat 4)
      else if ltb now (13 * 3600)
      then d.mul ref_ta (d.decimal 8 1)
      else if ltb now (15 * 3600)
      then d.mul ref_ta (d.decimal 25 1)
      else if ltb now (19 * 3600)
      then d.mul ref_ta (d.of_nat 2)
      else if ltb now (21 * 3600)
      then d.mul ref_ta (d.decimal 22 1)
      else d.mul ref_ta (d.decimal 45 1)

  -- The loop of `my_pow`, by the factors left.
  unfoldable pub pow_loop : ℕ → d.Double → d.Double → d.Double
  pow_loop zero x result = result
  pow_loop (suc y) x result = pow_loop y x (d.mul result x)

  unfoldable pub my_pow : d.Double → ℕ → d.Double
  my_pow x y = pow_loop y x (d.of_nat 1)

  unfoldable pub generate_cross_path_gain : Seeds → d.Double × Seeds
  unfolding draw my_pow
  generate_cross_path_gain r =
      let (u, r') = draw d r in
      let variation =
        my_pow (d.of_nat 10) (d.to_nat (d.div (d.mul (d.of_nat 10) u) (d.of_nat 10))) in
      (d.mul (d.decimal 5 14) variation, r')

  unfoldable pub generate_path_gain : Seeds → d.Double × Seeds
  unfolding draw
  generate_path_gain r =
      let (u, r') = draw d r in
      let variation = d.pow (d.of_nat 10) (d.div (d.mul (d.of_nat 10) u) (d.of_nat 10)) in
      (d.mul (d.decimal 1 10) variation, r')

  -- `fading_recheck`, by the channels left; `none` is the exit of Expent.
  unfoldable pub fading_recheck :
      List (Channel d.Double) → Seeds → Option (List (Channel d.Double) × Seeds)
  fading_recheck [] r = some ([], r)
  fading_recheck (ch ∷ rest) r = elim (expent d (d.of_nat 1) r) [
    | none ↦ none
    | some (fading, r') ↦ elim (fading_recheck rest r') [
      | none ↦ none
      | some (rest', r'') ↦
          some (record ch { sir_data = record ch.sir_data { fading = fading } } ∷ rest', r'')
    ]
  ]

  -- The sum in `allocation` over the other channels.
  unfoldable pub interference : List (Channel d.Double) → d.Double → Seeds → d.Double × Seeds
  unfolding generate_cross_path_gain
  interference [] summ r = (summ, r)
  interference (ch ∷ rest) summ r =
      let (gain, r') = generate_cross_path_gain r in
      interference rest (d.add summ (d.mul (d.mul gain ch.sir_data.power) ch.sir_data.fading)) r'

  -- The two tests against MIN_POWER and MAX_POWER.
  unfoldable pub clamp : d.Double → d.Double
  clamp p =
      let q = if d.less p (d.of_nat 3) then d.of_nat 3 else p in
      if d.less (d.of_nat 3000) q then d.of_nat 3000 else q

  -- The fading and the power that `allocation` gives a new channel, where malloc gave `fading`.
  unfoldable pub new_sir_data :
      d.Double → List (Channel d.Double) → Seeds → Option (SirData d.Double × Seeds)
  unfolding interference clamp generate_path_gain
  new_sir_data unwritten others r =
      let (summ, r1) = interference others (d.of_nat 0) r in
      if d.equal summ (d.of_nat 0)
      then some (record { fading = unwritten; power = d.of_nat 3 }, r1)
      else elim (expent d (d.of_nat 1) r1) [
        | none ↦ none
        | some (fading, r2) ↦
            let (gain, r3) = generate_path_gain r2 in
            some (
              record {
                fading = fading;
                power = clamp (d.div (d.mul (d.of_nat 10) summ) (d.mul gain fading));
              },
              r3,
            )
      ]

-- ===== src/Tests/Highway.antt =====
-- A road of two stretches, in a fixed-point arithmetic.
use congenial_octo_telegram.Base.{
  ℕ, ◌≡◌, refl, List, Option, [], ◌∷◌, ◌++◌, some, none, Bool, true, arith, get_or, drop,
}
use congenial_octo_telegram.Random.{random}
use congenial_octo_telegram.Random.Doubles.{draw, expent}
use congenial_octo_telegram.Simulation.{
  Model, Run, first_events, started, dispatch, IsReached, start,
}
use congenial_octo_telegram.Tests.Fixed.{one, fixed}
use congenial_octo_telegram.Highway.Traffic.{
  Road, CarMessage, TrafficBuild, other, init_road, initial_cars,
}
use congenial_octo_telegram.Highway.Loads.{IsTraffic, IsLane, cars_awaited, cars_on}
use congenial_octo_telegram.Highway.Network.{highway_model, traffic-balance, traffic-continues}

abbrev short_road : TrafficBuild ℕ
short_road = record { objects = 2; lookahead = one; speculation = true }

short_road-IsTraffic : IsTraffic fixed short_road
short_road-IsTraffic = record { few_objects = omega arith; time_sign = refl }

-- Cars of no more bytes than those written.
abbrev memory : ℕ → ℕ → Option (List ℕ)
memory me handled = some []

abbrev road_model : Model Road (CarMessage ℕ)
road_model = highway_model fixed short_road (λ x. x) memory

abbrev road_run : Run Road (CarMessage ℕ)
road_run = started road_model

abbrev no_message : CarMessage ℕ
no_message = record { receiver = 0; timestamp = 0; event_type = other; car_type = none }

abbrev first_message : CarMessage ℕ
first_message = get_or road_run.pending 0 no_message

traffic-balance_example :
    let state = road_run.states 1 in
    IsLane state.right_lane state.right_load
    × IsLane state.left_lane state.left_load
    × ((right : Bool) → cars_awaited 1 right road_run.pending ≡ cars_on state right)
traffic-balance_example =
    traffic-balance fixed short_road (λ x. x) memory short_road-IsTraffic road_run 1
      (start road_run refl) (omega arith)

split_pending : road_run.pending ≡ [] ++ (first_message ∷ drop 1 road_run.pending)
unfolding started first_events init_road initial_cars expent draw random
split_pending = refl

traffic-continues_example :
    (after : Run Road (CarMessage ℕ)) × (dispatch road_model first_message
        (record road_run { pending = [] ++ drop 1 road_run.pending })
      ≡ some after)
    × IsReached road_model after
traffic-continues_example =
    traffic-continues fixed short_road (λ x. x) memory short_road-IsTraffic road_run first_message
      [] (drop 1 road_run.pending) (start road_run refl) split_pending ([], refl)

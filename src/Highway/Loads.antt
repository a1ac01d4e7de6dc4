-- ===== src/Highway/Loads.antt =====
-- models/highway/application.c: the load of a lane is the number of its cars, and no car leaves an empty lane.
use mathlib.Core.Path.{subst}
use congenial_octo_telegram.Base.{
  ℕ, suc, ◌+◌, ◌^◌, ◌<◌, ◌≡◌, ◌≢◌, refl, sym, ap, ◌∙◌, ℤ, pos, pos_part, neg_part, ◌+ℤ◌, ◌-ℤ◌,
  +ℤ_parts, -ℤ_parts, eq_of_parts, List, [], ◌∷◌, Option, none, some, Bool, true, false,
  if◌then◌else◌, arith, All, length, length-append,
}
use congenial_octo_telegram.Random.Doubles.{Doubles}
use congenial_octo_telegram.Simulation.{events_awaited}
use congenial_octo_telegram.Highway.{Car, add_car, del_car, traversal}
use congenial_octo_telegram.Highway.Lane.{
  IsOrdered, traversal-add_car, del_car-first, length-traversal, traversal-IsOrdered,
  init-IsOrdered,
}
use congenial_octo_telegram.Highway.Traffic.{
  TrafficEvent, init, car_traversal_right, car_leaving_right, car_traversal_left, car_leaving_left,
  other, Road, CarMessage, TrafficBuild,
}

-- A lane in order of residence times, and its load.
pub record IsLane (lane : List Car) (load : ℤ) : Type 0 where
  pub ordered : IsOrdered lane
  pub counted : load ≡ pos (length lane)

one_more_car : (n : ℕ) (load : ℤ) → load ≡ pos n → load +ℤ pos 1 ≡ pos (suc n)
one_more_car n load h =
    eq_of_parts (load +ℤ pos 1) (pos (suc n))
      (omega (arith, +ℤ_parts load (pos 1), ap pos_part h, ap neg_part h))

one_car_less : (n : ℕ) (load : ℤ) → load ≡ pos (suc n) → load -ℤ pos 1 ≡ pos n
one_car_less n load h =
    eq_of_parts (load -ℤ pos 1) (pos n)
      (omega (arith, -ℤ_parts load (pos 1), ap pos_part h, ap neg_part h))

pub enter-IsLane :
    (car : Car) (lane : List Car) (load : ℤ)
    → IsLane lane load
    → IsLane (traversal (add_car car lane)) (load +ℤ pos 1)
      × (length (traversal (add_car car lane)) ≡ suc (length lane))
unfolding add_car
enter-IsLane car lane load v =
    let longer = length-traversal (add_car car lane) in
    (
      record {
        ordered = (traversal-add_car car lane v.ordered).0;
        counted = one_more_car (length lane) load v.counted ∙ ap pos (sym longer);
      },
      longer,
    )

pub leave-IsLane :
    (lane : List Car) (load : ℤ)
    → IsLane lane load
    → length lane ≢ 0
    → (car : Car) × (left : List Car) × (del_car lane ≡ some (car, left))
      × IsLane (traversal left) (load -ℤ pos 1)
      × (suc (length (traversal left)) ≡ length lane)
leave-IsLane [] load v h = absurd (h refl)
leave-IsLane (first ∷ rest) load v h =
    let (car, left, ran, least, same) = del_car-first first rest v.ordered in
    let shorter : suc (length (traversal left)) ≡ length (first ∷ rest) =
      omega (arith, length-traversal left, ap length same, length-append left (car ∷ [])) in
    (
      car,
      left,
      ran,
      record {
        ordered =
            traversal-IsOrdered left
              (init-IsOrdered left car (subst IsOrdered (sym same) v.ordered));
        counted = one_car_less (length (traversal left)) load (v.counted ∙ ap pos (sym shorter));
      },
      shorter,
    )

-- The events that take a car off the lane to the right (`true`) or to the left.
abbrev pub takes_off : TrafficEvent → Bool → ℕ
takes_off init right = 0
takes_off car_traversal_right right = 0
takes_off car_leaving_right right = if right then 1 else 0
takes_off car_traversal_left right = 0
takes_off car_leaving_left right = if right then 0 else 1
takes_off other right = 0

-- The events that the handlers send.
abbrev pub IsOnRoad : TrafficEvent → Option ℕ → Type 0
IsOnRoad init type = ⊥
IsOnRoad car_traversal_right none = ⊥
IsOnRoad car_traversal_right (some type) = Unit {0}
IsOnRoad car_leaving_right type = Unit {0}
IsOnRoad car_traversal_left none = ⊥
IsOnRoad car_traversal_left (some type) = Unit {0}
IsOnRoad car_leaving_left type = Unit {0}
IsOnRoad other type = ⊥

abbrev pub IsCarSent : {Double : Type 0} → ℕ → CarMessage Double → Type 0
IsCarSent objects m = (m.receiver < objects) × IsOnRoad m.event_type m.car_type

pub record IsRoad (state : Road) : Type 0 where
  pub right : IsLane state.right_lane state.right_load
  pub left : IsLane state.left_lane state.left_load

abbrev pub cars_on : Road → Bool → ℕ
cars_on state right = if right then length state.right_lane else length state.left_lane

-- What the build is assumed to be: a number of objects that fits, and a mean time that is not
-- negative.
pub record IsTraffic (d : Doubles) (b : TrafficBuild d.Double) : Type 0 where
  pub few_objects : b.objects < 2 ^ 31
  pub time_sign : d.less (d.mul b.lookahead (d.of_nat 12)) (d.of_nat 0) ≡ false

abbrev pub cars_awaited : {Double : Type 0} → ℕ → Bool → List (CarMessage Double) → ℕ
cars_awaited i right events =
    events_awaited (λ m. m.receiver) (λ m. takes_off m.event_type) i right events

-- One car more, or less, in the lane of one side.
pub more_right :
    (a a' l : ℕ) (right : Bool)
    → a' ≡ suc a
    → (if right then a' else l) + 0 ≡ (if right then a else l) + (if right then 1 else 0)
more_right a a' l true h = omega (arith, h)
more_right a a' l false h = omega arith

pub more_left :
    (a a' l : ℕ) (right : Bool)
    → a' ≡ suc a
    → (if right then l else a') + 0 ≡ (if right then l else a) + (if right then 0 else 1)
more_left a a' l true h = omega arith
more_left a a' l false h = omega (arith, h)

pub less_right :
    (a a' l : ℕ) (right : Bool)
    → suc a' ≡ a
    → (if right then a' else l) + (if right then 1 else 0) ≡ (if right then a else l) + 0
less_right a a' l true h = omega (arith, h)
less_right a a' l false h = omega arith

pub less_left :
    (a a' l : ℕ) (right : Bool)
    → suc a' ≡ a
    → (if right then l else a') + (if right then 0 else 1) ≡ (if right then l else a) + 0
less_left a a' l true h = omega arith
less_left a a' l false h = omega (arith, h)

-- What a handler that is given `given` cars leaves.
pub record IsDriven {Double : Type 0} (objects me : ℕ) (given : Bool → ℕ) (state : Road)
    (r : Road × List (CarMessage Double)) : Type 0 where
  pub road : IsRoad r.0
  pub sent : All (IsCarSent objects) r.1
  pub same :
      (right : Bool)
      → cars_on r.0 right + given right ≡ cars_on state right + cars_awaited me right r.1
  pub others : (i : ℕ) (right : Bool) → i ≢ me → cars_awaited i right r.1 ≡ 0

-- malloc gives the stretch a car for the event that it handles next.
abbrev pub HasMemory : (ℕ → ℕ → Option (List ℕ)) → ℕ → Road → Type 0
HasMemory malloc me state = (bytes : List ℕ) × (malloc me state.event_count ≡ some bytes)

-- ===== src/Highway/Traffic.antt =====
-- models/highway/application.c: ProcessEvent. A handler gives the new state and the events it schedules, or
-- `none` for a call of exit. UNBALANCE is defined, as in the file.
use congenial_octo_telegram.Base.{
  ℕ, zero, suc, ◌+◌, ◌-◌, ◌*◌, ◌/◌, ℤ, pos, leb_ℤ, ◌+ℤ◌, ◌-ℤ◌, pos_part, List, [], ◌∷◌, ◌++◌,
  Option, none, some, Bool, ltb, leb, ◌&&◌, ◌==◌, if◌then◌else◌, ◌>>=◌,
}
use congenial_octo_telegram.Random.{Seeds}
use congenial_octo_telegram.Random.Doubles.{Doubles, draw, expent}
use congenial_octo_telegram.Topology.{inc}
use congenial_octo_telegram.Highway.{Car, add_car, del_car, traversal}

pub data TrafficEvent : Type 0 where
  init car_traversal_right car_leaving_right car_traversal_left car_leaving_left other :
      TrafficEvent

pub record Road : Type 0 where
  pub event_count : ℕ
  pub seeds : Seeds
  pub right_lane : List Car
  pub right_load : ℤ
  pub left_lane : List Car
  pub left_load : ℤ

-- The arguments of a call of ScheduleNewEvent; `car_type` is the content, or NULL.
pub record CarMessage (Double : Type 0) : Type 0 where
  pub receiver : ℕ
  pub timestamp : Double
  pub event_type : TrafficEvent
  pub car_type : Option ℕ

-- OBJECTS, LOOKAHEAD, and whether SPECULATION is defined.
pub record TrafficBuild (Double : Type 0) : Type 0 where
  pub objects : ℕ
  pub lookahead : Double
  pub speculation : Bool

-- _130KM_MAX_CAR_COUNT and INITIAL_CARS
abbrev pub max_car_count : ℕ
max_car_count = 1000 / 40 * 3

-- The residence of a car is its time in ticks, `ticks`. `malloc me n` is what malloc
-- gives the stretch `me` when it has handled `n` events, of which INIT is the first: the bytes of a car
-- that the handler does not write, or `none` for NULL.
module _ (d : Doubles) (b : TrafficBuild d.Double) (ticks : d.Double → ℕ)
    (malloc : ℕ → ℕ → Option (List ℕ)) (me : ℕ) (now : d.Double) where
  -- TA
  abbrev pub mean_time : d.Double
  mean_time = d.mul b.lookahead (d.of_nat 12)

  -- When a car leaves, for a draw of `x`: `tested` is compared with the limit, `load` scales.
  abbrev pub car_time : ℤ → ℤ → d.Double → d.Double
  car_time tested load x =
      let limit = d.of_nat max_car_count in
      let scaling =
        if leb_ℤ tested (pos max_car_count)
        then d.of_nat 1
        else d.div limit (d.of_nat (pos_part load)) in
      let time = d.add now (d.mul (d.div (d.of_nat 1) scaling) x) in
      let bound = d.add now b.lookahead in
      if b.speculation then time else (if d.less time bound then bound else time)

  unfoldable pub leaving_time : ℤ → ℤ → Seeds → Option (d.Double × Seeds)
  leaving_time tested load r = elim (expent d mean_time r) [
    | none ↦ none
    | some (x, r') ↦ some (car_time tested load x, r')
  ]

  -- The next stretch to the right, which keeps the cars of each half in it, and to the left.
  unfoldable pub right_of : ℕ
  right_of =
      let dest = inc me in
      if ltb me (b.objects / 2) && leb (b.objects / 2) dest
      then 0
      else (if leb b.objects dest then b.objects / 2 else dest)

  unfoldable pub left_of : ℕ
  left_of = if me == 0 then b.objects - 1 else me - 1

  abbrev pub arriving_car : List ℕ → d.Double → ℕ → Car
  arriving_car bytes timestamp type = record {
    residence = ticks timestamp;
    car_type = type;
    info = bytes;
  }

  abbrev pub car_messages :
      d.Double → TrafficEvent → ℕ → TrafficEvent → ℕ → List (CarMessage d.Double)
  car_messages timestamp leaving dest traversing type =
      record { receiver = me; timestamp = timestamp; event_type = leaving; car_type = none }
      ∷ record {
        receiver = dest;
        timestamp = timestamp;
        event_type = traversing;
        car_type = some type;
      }
      ∷ []

  unfoldable pub traverse_right : ℕ → Road → Option (Road × List (CarMessage d.Double))
  unfolding leaving_time right_of
  traverse_right type state = do
    bytes ← malloc me state.event_count
    let load = state.right_load +ℤ pos 1
    (timestamp, r) ← leaving_time load load state.seeds
    some (
      record state {
        seeds = r;
        right_load = load;
        right_lane = traversal (add_car (arriving_car bytes timestamp type) state.right_lane);
      },
      car_messages timestamp car_leaving_right right_of car_traversal_right type,
    )

  -- The test of the load to the left is of `right_load`.
  unfoldable pub traverse_left : ℕ → Road → Option (Road × List (CarMessage d.Double))
  unfolding leaving_time left_of
  traverse_left type state = do
    bytes ← malloc me state.event_count
    let load = state.left_load +ℤ pos 1
    (timestamp, r) ← leaving_time state.right_load load state.seeds
    some (
      record state {
        seeds = r;
        left_load = load;
        left_lane = traversal (add_car (arriving_car bytes timestamp type) state.left_lane);
      },
      car_messages timestamp car_leaving_left left_of car_traversal_left type,
    )

  unfoldable pub leave_right : Road → Option (Road × List (CarMessage d.Double))
  leave_right state = elim (del_car state.right_lane) [
    | none ↦ none
    | some (car, lane) ↦
        some
          (record state { right_load = state.right_load -ℤ pos 1; right_lane = traversal lane }, [])
  ]

  unfoldable pub leave_left : Road → Option (Road × List (CarMessage d.Double))
  leave_left state = elim (del_car state.left_lane) [
    | none ↦ none
    | some (car, lane) ↦
        some (record state { left_load = state.left_load -ℤ pos 1; left_lane = traversal lane }, [])
  ]

  -- HIGH, REGULAR and LOW, by PHIGH and PREGULAR.
  abbrev pub drawn_type : d.Double → ℕ
  drawn_type p =
      if d.less_equal p (d.decimal 33 2)
      then 0
      else (if d.less_equal p (d.decimal 66 2) then 1 else 2)

  -- The cars that INIT starts in one direction, by the cars left.
  unfoldable pub initial_cars :
      TrafficEvent → ℕ → Seeds → Option (Seeds × List (CarMessage d.Double))
  unfolding draw
  initial_cars kind zero r = some (r, [])
  initial_cars kind (suc left) r = elim (expent d mean_time r) [
    | none ↦ none
    | some (x, r1) ↦
        let (p, r2) = draw d r1 in
        elim (initial_cars kind left r2) [
          | none ↦ none
          | some (r3, rest) ↦
              let car : CarMessage d.Double = record {
                receiver = me;
                timestamp = d.mul (d.decimal 1 3) x;
                event_type = kind;
                car_type = some (drawn_type p);
              } in
              some (r3, car ∷ rest)
        ]
  ]

  -- INIT, after malloc gave the memory; the first half of the objects starts all the cars, the others
  -- about half of them.
  unfoldable pub init_road : Option (Road × List (CarMessage d.Double))
  unfolding initial_cars
  init_road = do
    let cars = if ltb me (b.objects / 2) then max_car_count else max_car_count - max_car_count / 2
    (r1, right) ← initial_cars car_traversal_right cars (record { seed1 = inc me; seed2 = 0 })
    (r2, left) ← initial_cars car_traversal_left cars r1
    some (
      record {
        event_count = 0;
        seeds = r2;
        right_lane = [];
        right_load = pos 0;
        left_lane = [];
        left_load = pos 0;
      },
      right ++ left,
    )

  abbrev with_type :
      Option ℕ
      → (ℕ → Option (Road × List (CarMessage d.Double)))
      → Option (Road × List (CarMessage d.Double))
  with_type none f = none
  with_type (some type) f = f type

  -- The switch of `ProcessEvent`. A car that arrives without its type is a fault.
  unfoldable pub handle_car :
      TrafficEvent → Option ℕ → Road → Option (Road × List (CarMessage d.Double))
  handle_car init type state = elim (malloc me 0) [ none ↦ none | some bytes ↦ init_road ]
  handle_car car_traversal_right type state = with_type type (λ t. traverse_right t state)
  handle_car car_leaving_right type state = leave_right state
  handle_car car_traversal_left type state = with_type type (λ t. traverse_left t state)
  handle_car car_leaving_left type state = leave_left state
  handle_car other type state = none

  abbrev pub counted :
      Option (Road × List (CarMessage d.Double)) → Option (Road × List (CarMessage d.Double))
  counted none = none
  counted (some (after, sent)) = some (record after { event_count = after.event_count + 1 }, sent)

  -- `ProcessEvent`, from INIT on. The event is counted when its handler has ended.
  unfoldable pub process_car :
      TrafficEvent → Option ℕ → Road → Option (Road × List (CarMessage d.Double))
  unfolding handle_car
  process_car kind type state = counted (handle_car kind type state)

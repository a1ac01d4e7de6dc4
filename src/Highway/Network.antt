-- ===== src/Highway/Network.antt =====
-- models/highway/application.c: the whole road, and the events that its stretches have scheduled and not
-- handled yet.
use mathlib.Core.Path.{subst}
use congenial_octo_telegram.Base.{
  ℕ, zero, suc, ◌+◌, ◌-◌, ◌/◌, ◌≤◌, ◌<◌, ◌≡◌, refl, sym, ◌∙◌, List, [], ◌∷◌, ◌++◌, Option, none,
  some, Bool, true, false, ltb, if◌then◌else◌, arith, All, All-append, pos, inl, inr,
}
use congenial_octo_telegram.Random.{Seeds}
use congenial_octo_telegram.Random.Doubles.{Doubles, draw, expent-some}
use congenial_octo_telegram.Simulation.{
  Model, Run, dispatch, IsReached, events_awaited, Books, IsKept, IsKeeping, Ends,
}
use congenial_octo_telegram.Simulation.Safety.{
  IsReached-IsSound, IsReached-continues, events_awaited-append,
}
use congenial_octo_telegram.Topology.{inc}
use congenial_octo_telegram.Highway.Traffic.{
  TrafficEvent, init, car_traversal_right, car_leaving_right, car_traversal_left, car_leaving_left,
  other, Road, CarMessage, TrafficBuild, initial_cars, init_road, handle_car, process_car,
  mean_time, max_car_count, drawn_type, counted,
}
use congenial_octo_telegram.Highway.Loads.{
  takes_off, IsOnRoad, IsRoad, IsLane, cars_on, IsCarSent, IsTraffic, cars_awaited, IsDriven,
  HasMemory,
}
use congenial_octo_telegram.Highway.Drivers.{
  traverse_right-IsDriven, traverse_left-IsDriven, leave_right-IsDriven, leave_left-IsDriven,
}

-- A state of an object before INIT, of which INIT reads nothing.
abbrev no_road : Road
no_road = record {
  event_count = 0;
  seeds = record { seed1 = 0; seed2 = 0 };
  right_lane = [];
  right_load = pos 0;
  left_lane = [];
  left_load = pos 0;
}

abbrev or_no_road :
    {Double : Type 0} → Option (Road × List (CarMessage Double)) → Road × List (CarMessage Double)
or_no_road none = (no_road, [])
or_no_road (some r) = r

-- The events of the first cars hold no car yet.
IsFirst : {Double : Type 0} → ℕ → List (CarMessage Double) → Type 0
IsFirst objects events =
    All (IsCarSent objects) events × ((i : ℕ) (right : Bool) → cars_awaited i right events ≡ 0)

module _ (d : Doubles) (b : TrafficBuild d.Double) (ticks : d.Double → ℕ)
    (malloc : ℕ → ℕ → Option (List ℕ)) where
  module _ (me : ℕ) (now : d.Double) (ok : IsTraffic d b) (lt : me < b.objects) where
    abbrev first_car : d.Double → TrafficEvent → d.Double → CarMessage d.Double
    first_car x kind p = record {
      receiver = me;
      timestamp = d.mul (d.decimal 1 3) x;
      event_type = kind;
      car_type = some (drawn_type d b ticks malloc me now p);
    }

    -- Whatever event a stretch handles that it can be sent, of a car that it has where the event takes
    -- one off: the handler ends, and the loads are the numbers of the cars.
    handle_car-IsDriven :
        (kind : TrafficEvent) (type : Option ℕ) (state : Road)
        → IsRoad state
        → IsOnRoad kind type
        → ((right : Bool) → takes_off kind right ≤ cars_on state right)
        → Ends
            (HasMemory malloc me state)
            (IsDriven b.objects me (takes_off kind) state)
            (handle_car d b ticks malloc me now kind type state)
    unfolding handle_car
    handle_car-IsDriven init type state v h cars = elim h [ ]
    handle_car-IsDriven car_traversal_right none state v h cars = elim h [ ]
    handle_car-IsDriven car_traversal_right (some type) state v h cars =
        traverse_right-IsDriven d b ticks malloc me now ok lt type state v
    handle_car-IsDriven car_leaving_right type state v h cars = inr (
        leave_right-IsDriven d b ticks malloc me now ok lt state v
          (λ e. omega (arith, cars true, e)))
    handle_car-IsDriven car_traversal_left none state v h cars = elim h [ ]
    handle_car-IsDriven car_traversal_left (some type) state v h cars =
        traverse_left-IsDriven d b ticks malloc me now ok lt type state v
    handle_car-IsDriven car_leaving_left type state v h cars = inr (
        leave_left-IsDriven d b ticks malloc me now ok lt state v
          (λ e. omega (arith, cars false, e)))
    handle_car-IsDriven other type state v h cars = elim h [ ]

    process_car-IsDriven :
        (kind : TrafficEvent) (type : Option ℕ) (state : Road)
        → IsRoad state
        → IsOnRoad kind type
        → ((right : Bool) → takes_off kind right ≤ cars_on state right)
        → Ends
            (HasMemory malloc me state)
            (IsDriven b.objects me (takes_off kind) state)
            (process_car d b ticks malloc me now kind type state)
    unfolding process_car
    process_car-IsDriven kind type state v h cars =
        elim (handle_car-IsDriven kind type state v h cars) [
          | inl (ran, refused) ↦ inl (rw (ran, process_car) refl, refused)
          | inr (r, ran, w) ↦ inr (
            (record r.0 { event_count = r.0.event_count + 1 }, r.1),
            rw (ran, process_car) refl,
            record {
              road = record { right = w.road.right; left = w.road.left };
              sent = w.sent;
              same = w.same;
              others = w.others;
            },
          )
        ]

    initial_cars-IsFirst :
        (right : Bool) (left : ℕ) (r : Seeds)
        → (x : Seeds × List (CarMessage d.Double)) × (initial_cars d b ticks malloc me now
              (if right then car_traversal_right else car_traversal_left)
              left
              r
            ≡ some x)
          × IsFirst b.objects x.1
    unfolding initial_cars IsFirst events_awaited
    initial_cars-IsFirst right zero r = ((r, []), refl, (tt, λ i side. refl))
    initial_cars-IsFirst true (suc left) r =
        let ((x, r1), drawn) = expent-some d (mean_time d b ticks malloc me now) r ok.time_sign in
        let (p, r2) = draw d r1 in
        let ((r3, rest), ran, (sent, none_)) = initial_cars-IsFirst true left r2 in
        (
          (r3, first_car x car_traversal_right p ∷ rest),
          rw (drawn, ran, initial_cars) refl,
          (((lt, tt), sent), λ i side. ground (arith, none_ i side)),
        )
    initial_cars-IsFirst false (suc left) r =
        let ((x, r1), drawn) = expent-some d (mean_time d b ticks malloc me now) r ok.time_sign in
        let (p, r2) = draw d r1 in
        let ((r3, rest), ran, (sent, none_)) = initial_cars-IsFirst false left r2 in
        (
          (r3, first_car x car_traversal_left p ∷ rest),
          rw (drawn, ran, initial_cars) refl,
          (((lt, tt), sent), λ i side. ground (arith, none_ i side)),
        )

    abbrev first_cars : ℕ
    first_cars = if ltb me (b.objects / 2) then max_car_count else max_car_count - max_car_count / 2

    init_road-some :
        (x y : Seeds × List (CarMessage d.Double))
        → initial_cars d b ticks malloc me now car_traversal_right first_cars
            (record { seed1 = inc me; seed2 = 0 })
          ≡ some x
        → initial_cars d b ticks malloc me now car_traversal_left first_cars x.0 ≡ some y
        → counted d b ticks malloc me now (init_road d b ticks malloc me now)
          ≡ some (record no_road { event_count = 1; seeds = y.0 }, x.1 ++ y.1)
    unfolding init_road
    init_road-some x y ran ran' = rw (ran, ran', init_road) refl

    -- INIT does not exit; it leaves a road with no cars, and the events of its first ones.
    init_road-IsFirst :
        (r : Road × List (CarMessage d.Double)) × (counted d b ticks malloc me now
            (init_road d b ticks malloc me now)
          ≡ some r)
        × IsRoad r.0
        × ((right : Bool) → cars_on r.0 right ≡ 0)
        × IsFirst b.objects r.1
    unfolding IsFirst
    init_road-IsFirst =
        let ((r1, right), ran, (sent, none_)) =
          initial_cars-IsFirst true first_cars (record { seed1 = inc me; seed2 = 0 }) in
        let ((r2, left), ran', (sent', none')) = initial_cars-IsFirst false first_cars r1 in
        (
          (record no_road { event_count = 1; seeds = r2 }, right ++ left),
          init_road-some (r1, right) (r2, left) ran ran',
          record {
            right = record { ordered = tt; counted = refl };
            left = record { ordered = tt; counted = refl };
          },
          λ right. ground arith,
          (
            All-append (IsCarSent b.objects) right left sent sent',
            λ i side.
                events_awaited-append (λ m. m.receiver) (λ m. takes_off m.event_type) i side right
                  left
                ∙ omega (arith, none_ i side, none' i side),
          ),
        )

  -- Each stretch starts with what INIT leaves and schedules, once malloc gave it memory.
  abbrev pub highway_model : Model Road (CarMessage d.Double)
  highway_model = record {
    objects = b.objects;
    receiver = λ m. m.receiver;
    init = λ i.
        or_no_road
          (counted d b ticks malloc i (d.of_nat 0) (init_road d b ticks malloc i (d.of_nat 0)));
    process_event = λ m state.
        process_car d b ticks malloc m.receiver m.timestamp m.event_type m.car_type state;
  }

  -- By direction: the cars in the lane, and the events that take one off it.
  abbrev pub highway_books : Books highway_model
  highway_books = record {
    Key = Bool;
    IsReady = IsRoad;
    IsSent = IsCarSent b.objects;
    IsServed = λ e state. HasMemory malloc e.receiver state;
    holds = cars_on;
    gives = λ m. takes_off m.event_type;
  }

  module _ (ok : IsTraffic d b) where
    init-IsKept :
        (i : ℕ)
        → i < b.objects
        → IsKept highway_model highway_books i
            (cars_on (highway_model.init i).0)
            (highway_model.init i).0
            (highway_model.init i)
    unfolding IsFirst
    init-IsKept i lt =
        let (r, ran, road, empty, (sent, none_)) = init_road-IsFirst i (d.of_nat 0) ok lt in
        subst
          (λ s.
            IsKept highway_model highway_books i (cars_on (or_no_road s).0) (or_no_road s).0
              (or_no_road s))
          (sym ran)
          (record {
            ready = road;
            sent = sent;
            same = λ right. omega (arith, none_ i right, empty right);
            others = λ j right h. none_ j right;
          })

    highway_model-IsKeeping : IsKeeping highway_model highway_books
    highway_model-IsKeeping = record {
      in_range = λ e sent. sent.0;
      initial = init-IsKept;
      each = λ e state ready sent cars.
          elim (process_car-IsDriven e.receiver e.timestamp ok sent.0 e.event_type e.car_type state
            ready sent.1 cars) [
              | inl exits ↦ inl exits
              | inr (r, ran, h) ↦ inr (
                r,
                ran,
                record { ready = h.road; sent = h.sent; same = h.same; others = h.others },
              )
            ];
    }

    -- Under the same conditions, whatever order the events are handled in, once each stretch has
    -- handled its INIT: both lanes of a stretch are in order of residence times, the load of each
    -- is the number of its cars, and as many pending events will take a car off it.
    pub traffic-balance :
        (run : Run Road (CarMessage d.Double)) (i : ℕ)
        → IsReached highway_model run
        → i < b.objects
        → let state = run.states i in
          IsLane state.right_lane state.right_load
          × IsLane state.left_lane state.left_load
          × ((right : Bool) → cars_awaited i right run.pending ≡ cars_on state right)
    traffic-balance run i reached lt =
        let v = IsReached-IsSound highway_model highway_books highway_model-IsKeeping run reached in
        ((v.states i lt).right, (v.states i lt).left, λ right. v.same i right lt)

    -- If the objects are fewer than 2^31 and the mean time is not negative, then, once each stretch
    -- of the road has handled its INIT and whatever order the events were handled in, any of those
    -- that are pending can be handled next, if malloc gives a car to its stretch then: no car is
    -- taken off an empty lane, no handler exits, and what results is again a run that the events
    -- lead to.
    pub traffic-continues :
        (run : Run Road (CarMessage d.Double)) (e : CarMessage d.Double)
        (before later : List (CarMessage d.Double))
        → IsReached highway_model run
        → run.pending ≡ before ++ (e ∷ later)
        → HasMemory malloc e.receiver (run.states e.receiver)
        → (after : Run Road (CarMessage d.Double)) × (dispatch highway_model e
              (record run { pending = before ++ later })
            ≡ some after)
          × IsReached highway_model after
    traffic-continues run e before later reached eq given =
        IsReached-continues highway_model highway_books highway_model-IsKeeping run e before later
          reached eq given

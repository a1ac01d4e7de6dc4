-- ===== src/Highway/Drivers.antt =====
-- models/highway/application.c: what the handlers leave in a stretch of the road, and schedule.
use congenial_octo_telegram.Base.{
  ℕ, ◌+◌, ◌<◌, ◌≡◌, ◌≢◌, refl, sym, ap, ◌∙◌, ℤ, pos, ◌+ℤ◌, ◌-ℤ◌, List, [], some, Bool, true, false,
  ◌==◌, if◌then◌else◌, arith, length, if_true, if_false, Option, inl, inr, Option-cases,
  some_not_none,
}
use congenial_octo_telegram.Random.{Seeds}
use congenial_octo_telegram.Random.Doubles.{Doubles, expent-some}
use congenial_octo_telegram.Simulation.{events_awaited, Ends}
use congenial_octo_telegram.Highway.{add_car, traversal}
use congenial_octo_telegram.Highway.Traffic.{
  TrafficEvent, car_traversal_right, car_leaving_right, car_traversal_left, car_leaving_left, Road,
  CarMessage, TrafficBuild, leaving_time, right_of, left_of, car_messages, mean_time, car_time,
  arriving_car, traverse_right, traverse_left, leave_right, leave_left,
}
use congenial_octo_telegram.Highway.Loads.{
  enter-IsLane, leave-IsLane, takes_off, IsRoad, cars_on, IsTraffic, cars_awaited, more_right,
  more_left, less_right, less_left, IsDriven, HasMemory,
}

module _ (d : Doubles) (b : TrafficBuild d.Double) (ticks : d.Double → ℕ)
    (malloc : ℕ → ℕ → Option (List ℕ)) (me : ℕ) (now : d.Double) (ok : IsTraffic d b)
    (lt : me < b.objects) where
  -- A stretch has a neighbour on each side.
  pub right_of-inside : right_of d b ticks malloc me now < b.objects
  unfolding right_of
  right_of-inside = ground (arith, ok.few_objects, lt)

  pub left_of-inside : left_of d b ticks malloc me now < b.objects
  unfolding left_of
  left_of-inside = ground (arith, lt)

  pub leaving_time-some :
      (tested load : ℤ) (r : Seeds)
      → (x : d.Double × Seeds) × (leaving_time d b ticks malloc me now tested load r ≡ some x)
  unfolding leaving_time
  leaving_time-some tested load r =
      let (x, drawn) = expent-some d (mean_time d b ticks malloc me now) r ok.time_sign in
      ((car_time d b ticks malloc me now tested load x.0, x.1), rw (drawn, leaving_time) refl)

  abbrev sent_cars : d.Double → TrafficEvent → ℕ → TrafficEvent → ℕ → List (CarMessage d.Double)
  sent_cars time leaving dest traversing type =
      car_messages d b ticks malloc me now time leaving dest traversing type

  -- The two events of a car that passes.
  sent_cars-awaited :
      (time : d.Double) (leaving traversing : TrafficEvent) (dest type i : ℕ) (right : Bool)
      → takes_off traversing right ≡ 0
      → cars_awaited i right (sent_cars time leaving dest traversing type)
        ≡ (if me == i then takes_off leaving right else 0)
  unfolding events_awaited
  sent_cars-awaited time leaving traversing dest type i right h = ground (arith, h)

  to_me : (me == me) ≡ true
  to_me = ground arith

  to_another : (i : ℕ) → i ≢ me → (me == i) ≡ false
  to_another i h = ground (arith, h)

  pub traverse_right-IsDriven :
      (type : ℕ) (state : Road)
      → IsRoad state
      → Ends
          (HasMemory malloc me state)
          (IsDriven b.objects me (λ right. 0) state)
          (traverse_right d b ticks malloc me now type state)
  unfolding traverse_right
  traverse_right-IsDriven type state v = elim (Option-cases (malloc me state.event_count)) [
    | inl refused ↦ inl (rw refused refl, λ given. some_not_none (sym given.1 ∙ refused))
    | inr (bytes, given) ↦
        let load = state.right_load +ℤ pos 1 in
        let ((time, seeds), drawn) = leaving_time-some load load state.seeds in
        let car = arriving_car d b ticks malloc me now bytes time type in
        let (lane, longer) = enter-IsLane car state.right_lane state.right_load v.right in
        let dest = right_of d b ticks malloc me now in
        inr (
          (
            record state {
              seeds = seeds;
              right_load = load;
              right_lane = traversal (add_car car state.right_lane);
            },
            sent_cars time car_leaving_right dest car_traversal_right type,
          ),
          rw (given, drawn) refl,
          record {
            road = record { right = lane; left = v.left };
            sent = ((lt, tt), ((right_of-inside, tt), tt));
            same = λ right.
                more_right (length state.right_lane) _ (length state.left_lane) right longer
                ∙ ap (λ n. cars_on state right + n)
                    (sym (
                      sent_cars-awaited time car_leaving_right car_traversal_right dest type me
                        right refl
                      ∙ if_true _ _ to_me));
            others = λ i right h.
                sent_cars-awaited time car_leaving_right car_traversal_right dest type i right refl
                ∙ if_false _ _ (to_another i h);
          },
        )
  ]

  pub traverse_left-IsDriven :
      (type : ℕ) (state : Road)
      → IsRoad state
      → Ends
          (HasMemory malloc me state)
          (IsDriven b.objects me (λ right. 0) state)
          (traverse_left d b ticks malloc me now type state)
  unfolding traverse_left
  traverse_left-IsDriven type state v = elim (Option-cases (malloc me state.event_count)) [
    | inl refused ↦ inl (rw refused refl, λ given. some_not_none (sym given.1 ∙ refused))
    | inr (bytes, given) ↦
        let load = state.left_load +ℤ pos 1 in
        let ((time, seeds), drawn) = leaving_time-some state.right_load load state.seeds in
        let car = arriving_car d b ticks malloc me now bytes time type in
        let (lane, longer) = enter-IsLane car state.left_lane state.left_load v.left in
        let dest = left_of d b ticks malloc me now in
        inr (
          (
            record state {
              seeds = seeds;
              left_load = load;
              left_lane = traversal (add_car car state.left_lane);
            },
            sent_cars time car_leaving_left dest car_traversal_left type,
          ),
          rw (given, drawn) refl,
          record {
            road = record { right = v.right; left = lane };
            sent = ((lt, tt), ((left_of-inside, tt), tt));
            same = λ right.
                more_left (length state.left_lane) _ (length state.right_lane) right longer
                ∙ ap (λ n. cars_on state right + n)
                    (sym (
                      sent_cars-awaited time car_leaving_left car_traversal_left dest type me right
                        refl
                      ∙ if_true _ _ to_me));
            others = λ i right h.
                sent_cars-awaited time car_leaving_left car_traversal_left dest type i right refl
                ∙ if_false _ _ (to_another i h);
          },
        )
  ]

  pub leave_right-IsDriven :
      (state : Road)
      → IsRoad state
      → length state.right_lane ≢ 0
      → (r : Road × List (CarMessage d.Double)) × (leave_right d b ticks malloc me now state
          ≡ some r)
        × IsDriven b.objects me (takes_off car_leaving_right) state r
  unfolding leave_right events_awaited
  leave_right-IsDriven state v cars =
      let (car, left, ran, lane, shorter) =
        leave-IsLane state.right_lane state.right_load v.right cars in
      (
        (record state { right_load = state.right_load -ℤ pos 1; right_lane = traversal left }, []),
        rw (ran, leave_right) refl,
        record {
          road = record { right = lane; left = v.left };
          sent = tt;
          same = λ right.
              less_right (length state.right_lane) (length (traversal left))
                (length state.left_lane) right shorter;
          others = λ i right h. refl;
        },
      )

  pub leave_left-IsDriven :
      (state : Road)
      → IsRoad state
      → length state.left_lane ≢ 0
      → (r : Road × List (CarMessage d.Double)) × (leave_left d b ticks malloc me now state
          ≡ some r)
        × IsDriven b.objects me (takes_off car_leaving_left) state r
  unfolding leave_left events_awaited
  leave_left-IsDriven state v cars =
      let (car, left, ran, lane, shorter) =
        leave-IsLane state.left_lane state.left_load v.left cars in
      (
        (record state { left_load = state.left_load -ℤ pos 1; left_lane = traversal left }, []),
        rw (ran, leave_left) refl,
        record {
          road = record { right = v.right; left = lane };
          sent = tt;
          same = λ right.
              less_left (length state.left_lane) (length (traversal left)) (length state.right_lane)
                right shorter;
          others = λ i right h. refl;
        },
      )

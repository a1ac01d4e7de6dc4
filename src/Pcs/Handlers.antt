-- ===== src/Pcs/Handlers.antt =====
-- models/pcs/application.c: what each handler of ProcessEvent leaves in a cell, and schedules.
use congenial_octo_telegram.Base.{
  ℕ, ◌+◌, ◌^◌, ◌<◌, ◌≡◌, ◌≢◌, inl, inr, refl, ◌∙◌, List, [], ◌∷◌, ◌++◌, Option, none, some, Bool,
  true, false, ◌==◌, if◌then◌else◌, arith, Bool-cases, All, if_true, if_false,
}
use congenial_octo_telegram.Random.{Seeds}
use congenial_octo_telegram.Random.Doubles.{Doubles, IsOrderly}
use congenial_octo_telegram.Simulation.{events_awaited}
use congenial_octo_telegram.Simulation.Safety.{events_awaited-append}
use congenial_octo_telegram.Topology.{hexagon}
use congenial_octo_telegram.Topology.Receiver.{find_receiver-ends}
use congenial_octo_telegram.Pcs.{
  EventType, init, start_call, end_call, handoff_leave, handoff_recv, handoff_in, other, LpState,
  Content, Message, Build, Unwritten,
}
use congenial_octo_telegram.Pcs.Calls.{schedule_call, handoff_shift, end_of_call, handoff_of_call}
use congenial_octo_telegram.Pcs.Bitmap.{bit}
use congenial_octo_telegram.Pcs.Ledger.{IsCell, occurrences, busy_ids}

-- The channel that an event gives back when it is handled.
abbrev pub released : {Double : Type 0} → EventType → Option (Content Double) → Option ℕ
released init body = none
released start_call body = none
released end_call none = none
released end_call (some content) = some content.channel
released handoff_leave none = none
released handoff_leave (some content) = some content.channel
released handoff_recv body = none
released handoff_in body = none
released other body = none

abbrev pub is_channel : Option ℕ → ℕ → ℕ
is_channel none c = 0
is_channel (some ch) c = bit (ch == c)

abbrev pub gives_back : {Double : Type 0} → Message Double → ℕ → ℕ
gives_back m c = is_channel (released m.event_type m.body) c

-- How many of the events will give the channel `c` of the cell `i` back.
abbrev pub awaited : {Double : Type 0} → ℕ → ℕ → List (Message Double) → ℕ
awaited i c events = events_awaited (λ m. m.receiver) gives_back i c events

pub awaited-append :
    {Double : Type 0} (i c : ℕ) (xs ys : List (Message Double))
    → awaited i c (xs ++ ys) ≡ awaited i c xs + awaited i c ys
awaited-append i c xs ys = events_awaited-append (λ m. m.receiver) gives_back i c xs ys

-- The events that the handlers send: to a cell that exists, of a kind that has what its handler reads.
abbrev pub IsKnown : {Double : Type 0} → EventType → Option (Content Double) → Type 0
IsKnown init body = ⊥
IsKnown start_call body = Unit {0}
IsKnown end_call none = ⊥
IsKnown end_call (some content) = Unit {0}
IsKnown handoff_leave none = ⊥
IsKnown handoff_leave (some content) = Unit {0}
IsKnown handoff_recv body = ⊥
IsKnown handoff_in body = Unit {0}
IsKnown other body = ⊥

abbrev pub IsSent : {Double : Type 0} → ℕ → Message Double → Type 0
IsSent objects m = (m.receiver < objects) × IsKnown m.event_type m.body

module _ (d : Doubles) where
  -- A cell that keeps its books, and whose means are not negative.
  pub record IsReady (state : LpState d.Double) : Type 0 where
    pub cell : IsCell state
    pub ta_sign : d.less state.ta (d.of_nat 0) ≡ false
    pub duration_sign : d.less state.ta_duration (d.of_nat 0) ≡ false
    pub change_sign : d.less state.ta_change (d.of_nat 0) ≡ false

  -- The seeds, the counts and the last time of a cell do not matter to its books.
  pub counts-IsReady :
      (state : LpState d.Double) {lvt : d.Double} {seeds : Seeds}
      {arriving complete setup handoff leaving arriving' executed : ℕ}
      → IsReady state
      → IsReady (record state {
        seeds = seeds;
        arriving_calls = arriving;
        complete_calls = complete;
        blocked_on_setup = setup;
        blocked_on_handoff = handoff;
        leaving_handoffs = leaving;
        arriving_handoffs = arriving';
        executed_events = executed;
        lvt = lvt;
      })
  counts-IsReady state ready = record {
    cell = record {
      channels = ready.cell.channels;
      counted = ready.cell.counted;
      small = ready.cell.small;
    };
    ta_sign = ready.ta_sign;
    duration_sign = ready.duration_sign;
    change_sign = ready.change_sign;
  }

  pub record IsHandled (objects me : ℕ) (given : ℕ → ℕ) (state : LpState d.Double)
      (r : LpState d.Double × List (Message d.Double)) : Type 0 where
    pub ready : IsReady r.0
    pub sent : All (IsSent objects) r.1
    pub calls :
        (c : ℕ)
        → occurrences c (busy_ids r.0.channels) + given c
          ≡ occurrences c (busy_ids state.channels) + awaited me c r.1
    pub others : (i c : ℕ) → i ≢ me → awaited i c r.1 ≡ 0

-- What the build is assumed to be: an arithmetic that is IEEE's, numbers that fit, and rates of calls
-- that are not negative.
pub record IsBuild (d : Doubles) (b : Build d.Double) : Type 0 where
  pub orderly : IsOrderly d
  pub few_objects : b.objects < 2 ^ 31
  pub few_channels : b.channels_per_cell < 2 ^ 31
  pub ta_sign : d.less b.ta (d.of_nat 0) ≡ false
  pub half_ta_sign : d.less (d.div b.ta (d.of_nat 2)) (d.of_nat 0) ≡ false

module _ (d : Doubles) (b : Build d.Double) (u : Unwritten d.Double) (me : ℕ) (now : d.Double)
    (ok : IsBuild d b) (lt : me < b.objects) where
  pub to_me : (me == me) ≡ true
  to_me = ground arith

  pub to_another : (i : ℕ) → i ≢ me → (me == i) ≡ false
  to_another i h = ground (arith, h)

  -- One event that goes to the cell itself.
  one_awaited :
      (time : d.Double) (kind : EventType) (body : Option (Content d.Double)) (i c : ℕ)
      → awaited {Double = d.Double} i c
          (record { receiver = me; timestamp = time; event_type = kind; body = body } ∷ [])
        ≡ (if me == i then is_channel (released kind body) c else 0)
  unfolding events_awaited
  one_awaited time kind body i c = omega arith

  -- The scheduled end of a call that holds `content.channel`.
  pub record IsScheduled (ch : ℕ) (state : LpState d.Double)
      (r : LpState d.Double × List (Message d.Double)) : Type 0 where
    pub seeds : Seeds
    pub same : r.0 ≡ record state { seeds = seeds }
    pub sent : All (IsSent b.objects) r.1
    pub calls : (i c : ℕ) → awaited i c r.1 ≡ (if me == i then bit (ch == c) else 0)

  handoff_of_call-IsSent :
      (arrives : Bool) (content : Content d.Double) (time : d.Double) (cell : ℕ)
      → cell < b.objects
      → All (IsSent b.objects) (handoff_of_call d b u me now arrives content time cell)
  handoff_of_call-IsSent true content time cell inside = ((lt, tt), ((inside, tt), tt))
  handoff_of_call-IsSent false content time cell inside = ((lt, tt), tt)

  handoff_of_call-awaited :
      (arrives : Bool) (content : Content d.Double) (time : d.Double) (cell i c : ℕ)
      → awaited i c (handoff_of_call d b u me now arrives content time cell)
        ≡ (if me == i then bit (content.channel == c) else 0)
  unfolding events_awaited
  handoff_of_call-awaited true content time cell i c = ground arith
  handoff_of_call-awaited false content time cell i c = omega arith

  pub schedule_call-IsScheduled :
      (arrives : Bool) (content : Content d.Double) (handoff_time : d.Double)
      (state : LpState d.Double)
      → (r : LpState d.Double × List (Message d.Double)) × (schedule_call d b u me now arrives
            content handoff_time state
          ≡ some r)
        × IsScheduled content.channel state r
  unfolding schedule_call events_awaited
  schedule_call-IsScheduled arrives content handoff_time state =
      elim (Bool-cases
        (d.less_equal content.call_term_time (handoff_shift d b u me now handoff_time))) [
          | inl ends ↦ (
            (state, end_of_call d b u me now content),
            if_true _ _ ends,
            record {
              seeds = state.seeds;
              same = refl;
              sent = ((lt, tt), tt);
              calls = λ i c. omega arith;
            },
          )
          | inr moves ↦
              let ((cell, seeds), found, inside) =
                find_receiver-ends u.receiver b.objects me hexagon state.seeds ok.few_objects lt
                  (λ e. cc) (λ e. cc) in
              (
                (
                  record state { seeds = seeds },
                  handoff_of_call d b u me now arrives content handoff_time cell,
                ),
                if_false _ _ moves ∙ rw found refl,
                record {
                  seeds = seeds;
                  same = refl;
                  sent = handoff_of_call-IsSent arrives content handoff_time cell inside;
                  calls = handoff_of_call-awaited arrives content handoff_time cell;
                },
              )
        ]

-- ===== src/Pcs/Calls.antt =====
-- models/pcs/application.c: ProcessEvent. A handler gives the new state and the events it schedules, or
-- `none` for a call of abort or exit.
use congenial_octo_telegram.Base.{
  ℕ, zero, suc, ◌+◌, ◌-◌, ◌/◌, ◌%◌, ◌^◌, pos, negsuc, List, [], ◌∷◌, ◌++◌, Option, none, some, Bool,
  true, false, ltb, ◌==◌, if◌then◌else◌, ◌>>=◌,
}
use congenial_octo_telegram.Random.{Seeds}
use congenial_octo_telegram.Random.Doubles.{Doubles, draw, expent}
use congenial_octo_telegram.Topology.{hexagon, find_receiver, inc}
use congenial_octo_telegram.Pcs.{
  EventType, init, start_call, end_call, handoff_leave, handoff_recv, handoff_in, other, LpState,
  Content, Message, Build, Unwritten,
}
use congenial_octo_telegram.Pcs.Channels.{allocation, deallocation}

module _ (d : Doubles) (b : Build d.Double) (u : Unwritten d.Double) (me : ℕ) (now : d.Double) where
  -- `barrier`, the end of the window that `now` is in
  abbrev pub barrier : d.Double
  barrier =
      d.add (d.add (d.mul (d.of_nat (d.to_nat (d.div now b.lookahead))) b.lookahead) b.lookahead)
        (d.decimal 1 8)

  -- Without SPECULATION a time before the barrier is moved to it.
  abbrev pub held_back : d.Double → d.Double → d.Double
  held_back bound time = if b.speculation then time else (if d.less time bound then bound else time)

  abbrev pub handoff_shift : d.Double → d.Double
  handoff_shift time = d.add time (d.decimal 1 6)

  abbrev pub end_of_call : Content d.Double → List (Message d.Double)
  end_of_call content =
      record {
        receiver = me;
        timestamp = content.call_term_time;
        event_type = end_call;
        body = some content;
      }
      ∷ []

  abbrev pub handoff_of_call : Bool → Content d.Double → d.Double → ℕ → List (Message d.Double)
  handoff_of_call arrives content handoff_time cell =
      let sent : Content d.Double = record content { cell = pos cell } in
      let leave : Message d.Double = record {
        receiver = me;
        timestamp = handoff_time;
        event_type = handoff_leave;
        body = some sent;
      } in
      let enter : Message d.Double = record {
        receiver = cell;
        timestamp = handoff_shift handoff_time;
        event_type = handoff_in;
        body = some sent;
      } in
      leave ∷ (if arrives then enter ∷ [] else [])

  -- The end of a call, or its handoff to a neighbour, which is told of it if `arrives` is set.
  unfoldable pub schedule_call :
      Bool
      → Content d.Double
      → d.Double
      → LpState d.Double
      → Option (LpState d.Double × List (Message d.Double))
  schedule_call arrives content handoff_time state =
      if d.less_equal content.call_term_time (handoff_shift handoff_time)
      then some (state, end_of_call content)
      else elim (find_receiver u.receiver 6 b.objects me hexagon state.seeds) [
        | none ↦ none
        | some (cell, seeds) ↦
            some (record state { seeds = seeds }, handoff_of_call arrives content handoff_time cell)
      ]

  -- START_CALL and HANDOFF_IN, once the arrival is counted: the call is blocked or takes a channel.
  unfoldable pub take_call : LpState d.Double → Option (LpState d.Double × List (Message d.Double))
  unfolding schedule_call
  take_call state =
      if state.channel_counter == 0
      then some (record state { blocked_on_setup = inc state.blocked_on_setup }, [])
      else (do
        (index, st) ←
            allocation d (u.memory me state.executed_events) u.fading
              (record state { channel_counter = state.channel_counter - 1 })
        (duration, r1) ← expent d st.ta_duration st.seeds
        (change, r2) ← expent d st.ta_change r1
        schedule_call true
            (record {
              cell = negsuc 0;
              sender = me;
              sent_at = now;
              channel = index;
              call_term_time = held_back barrier (d.add now duration);
            })
            (held_back barrier (d.add now change)) (record st { seeds = r2 }))

  -- The next arrival of a new call, by the `init_calls` of the cell.
  unfoldable pub next_call : LpState d.Double → Option (LpState d.Double × List (Message d.Double))
  next_call state = do
    (wait, r) ← expent d state.ta state.seeds
    let init_calls = d.to_nat (d.div (d.of_nat 120) state.ta)
    some (
      record state { seeds = r },
      record {
        receiver = me;
        timestamp =
            held_back (d.add now b.lookahead) (d.add now (d.mul (d.of_nat init_calls) wait));
        event_type = start_call;
        body = none;
      }
          ∷ [],
    )

  -- HANDOFF_IN falls through to START_CALL, with a `new_call` of 0.
  unfoldable pub call_arrives :
      Bool → LpState d.Double → Option (LpState d.Double × List (Message d.Double))
  unfolding take_call next_call
  call_arrives new_call state = do
    (st, sent) ← take_call (record state { arriving_calls = inc state.arriving_calls })
    (st', next) ← (if new_call then next_call st else some (st, []))
    some (st', sent ++ next)

  -- HANDOFF_RECV. Of the content only what is written here and the content's end of the call are
  -- defined.
  unfoldable pub receive_call :
      Content d.Double → LpState d.Double → Option (LpState d.Double × List (Message d.Double))
  unfolding schedule_call
  receive_call content state =
      let counted : LpState d.Double = record state {
        arriving_handoffs = inc state.arriving_handoffs;
        arriving_calls = inc state.arriving_calls;
      } in
      if state.channel_counter == 0
      then some (record counted { blocked_on_handoff = inc state.blocked_on_handoff }, [])
      else (do
        (index, st) ←
            allocation d (u.memory me state.executed_events) u.fading
              (record counted { channel_counter = state.channel_counter - 1 })
        (change, r1) ← expent d st.ta_change st.seeds
        schedule_call false
            (record u.content {
              cell = negsuc 0;
              channel = index;
              call_term_time = content.call_term_time;
            })
            (d.add now change) (record st { seeds = r1 }))

  -- END_CALL and HANDOFF_LEAVE: the channel is given back.
  abbrev pub give_back : ℕ → LpState d.Double → Option (LpState d.Double × List (Message d.Double))
  give_back ch state = do
    st ← deallocation ch (record state { channel_counter = inc state.channel_counter })
    some (st, [])

  abbrev with_body :
      Option (Content d.Double)
      → (Content d.Double → Option (LpState d.Double × List (Message d.Double)))
      → Option (LpState d.Double × List (Message d.Double))
  with_body none f = none
  with_body (some content) f = f content

  -- The calls that INIT starts, by the calls left.
  unfoldable pub initial_calls : ℕ → Seeds → Seeds × List (Message d.Double)
  unfolding draw
  initial_calls zero r = (r, [])
  initial_calls (suc left) r =
      let (v, r1) = draw d r in
      let (r2, rest) = initial_calls left r1 in
      let call : Message d.Double = record {
        receiver = me;
        timestamp = d.mul (d.decimal 2 2) v;
        event_type = start_call;
        body = none;
      } in
      (r2, call ∷ rest)

  -- INIT, with UNBALANCE, after malloc gave the memory: the state that `alloc_lp_state_memory` clears, then filled in. The words of
  -- the bitmap past those it clears stay unwritten. CHANNELS_PER_CELL becomes 32 bits in the
  -- int and in the unsigned counter.
  unfoldable pub init_state : LpState d.Double
  init_state =
      let seed1 = inc me in
      let channels = b.channels_per_cell % 2 ^ 32 in
      let ta = if ltb me (b.objects / 2) then d.div b.ta (d.of_nat 2) else b.ta in
      record {
        cell_id = me;
        seeds = record { seed1 = seed1; seed2 = 0 };
        channel_counter = channels;
        arriving_calls = 0;
        complete_calls = 0;
        blocked_on_setup = 0;
        blocked_on_handoff = 0;
        leaving_handoffs = 0;
        arriving_handoffs = 0;
        executed_events = 0;
        lvt = d.of_nat 0;
        ta = ta;
        ref_ta = ta;
        ta_duration = d.of_nat 120;
        ta_change = d.of_nat 300;
        channels_per_cell = channels;
        channel_state = λ w. if ltb w (channels / 32 + 1) then 0 else u.words w;
        channels = [];
      }

  abbrev pub handle_init : LpState d.Double × List (Message d.Double)
  handle_init =
      let calls = d.to_nat (d.div (d.of_nat 120) init_state.ta) in
      let (r, sent) = initial_calls calls init_state.seeds in
      (record init_state { seeds = r }, sent)

  -- The switch of `ProcessEvent`, on a state that has counted the event. An event that has no content
  -- where the handler reads it is a fault.
  unfoldable pub handle :
      EventType
      → Option (Content d.Double)
      → LpState d.Double
      → Option (LpState d.Double × List (Message d.Double))
  handle init body state = if u.memory me state.executed_events then some handle_init else none
  handle handoff_in body state = call_arrives false state
  handle start_call body state = call_arrives true state
  handle end_call body state = with_body body (λ content.
      give_back content.channel (record state { complete_calls = inc state.complete_calls }))
  handle handoff_leave body state = with_body body (λ content.
      give_back content.channel (record state { leaving_handoffs = inc state.leaving_handoffs }))
  handle handoff_recv body state = with_body body (λ content. receive_call content state)
  handle other body state = none

  -- `ProcessEvent`; before INIT there is no state, and only INIT can be handled.
  unfoldable pub process_event :
      EventType
      → Option (Content d.Double)
      → Option (LpState d.Double)
      → Option (LpState d.Double × List (Message d.Double))
  process_event kind body (some state) =
      handle kind body (record state { lvt = now; executed_events = inc state.executed_events })
  process_event init body none = if u.memory me 0 then some handle_init else none
  process_event start_call body none = none
  process_event end_call body none = none
  process_event handoff_leave body none = none
  process_event handoff_recv body none = none
  process_event handoff_in body none = none
  process_event other body none = none

-- ===== src/Pcs/Process.antt =====
-- models/pcs/application.c: ProcessEvent, from INIT on.
use native.Mathlib.Nat.{zero-div}
use congenial_octo_telegram.Base.{
  ℕ, zero, suc, ◌+◌, ◌/◌, ◌^◌, ◌≤◌, ◌<◌, ◌≡◌, ◌≢◌, refl, sym, ap, ◌∙◌, [], Option, none, some, true,
  false, inl, inr, ◌==◌, ltb, arith, All, if_true, ◌%◌,
}
use congenial_octo_telegram.Random.{Seeds}
use congenial_octo_telegram.Random.Doubles.{Doubles, draw}
use congenial_octo_telegram.Byte.{test_bit}
use congenial_octo_telegram.Simulation.{events_awaited, Ends}
use congenial_octo_telegram.Topology.{inc}
use congenial_octo_telegram.Pcs.{
  EventType, init, start_call, end_call, handoff_leave, handoff_recv, handoff_in, other, LpState,
  Content, Build, Unwritten,
}
use congenial_octo_telegram.Pcs.Calls.{
  handle, process_event, init_state, initial_calls, handle_init,
}
use congenial_octo_telegram.Pcs.Channels.{check_channel, deallocation}
use congenial_octo_telegram.Pcs.Bitmap.{bit, count_where_none, AreWords}
use congenial_octo_telegram.Pcs.Ledger.{occurrences, busy_ids}
use congenial_octo_telegram.Pcs.Allocation.{deallocation-IsCell, one_more, without_channel}
use congenial_octo_telegram.Pcs.Handlers.{
  released, is_channel, awaited, IsKnown, IsSent, IsReady, IsHandled, IsBuild, counts-IsReady,
}
use congenial_octo_telegram.Pcs.Events.{call_arrives-IsHandled, recounted-IsHandled}

abbrev completed : {Double : Type 0} → LpState Double → LpState Double
completed state = record state { complete_calls = inc state.complete_calls }

abbrev left_cell : {Double : Type 0} → LpState Double → LpState Double
left_cell state = record state { leaving_handoffs = inc state.leaving_handoffs }

holds :
    {Double : Type 0} (ch : ℕ) (state : LpState Double)
    → bit (ch == ch) ≤ occurrences ch (busy_ids state.channels)
    → occurrences ch (busy_ids state.channels) ≢ 0
holds ch state h e = let here : (ch == ch) ≡ true = ground arith in omega (arith, h, e, ap bit here)

module _ (d : Doubles) (b : Build d.Double) (u : Unwritten d.Double) (me : ℕ) (now : d.Double)
    (ok : IsBuild d b) (lt : me < b.objects) where
  given_back-IsHandled :
      (ch : ℕ) (state : LpState d.Double)
      → IsReady d state
      → occurrences ch (busy_ids state.channels) ≢ 0
      → (after : LpState d.Double) × (deallocation ch (one_more state) ≡ some after)
        × IsHandled d b.objects me (λ c. bit (ch == c)) state (after, [])
  unfolding events_awaited
  given_back-IsHandled ch state ready taken =
      let (left, ran, cell, others) = (deallocation-IsCell ch state ready.cell).0 taken in
      (
        without_channel ch left (one_more state),
        ran,
        record {
          ready = record {
            cell = cell;
            ta_sign = ready.ta_sign;
            duration_sign = ready.duration_sign;
            change_sign = ready.change_sign;
          };
          sent = tt;
          calls = λ c. omega (arith, others c);
          others = λ i c h. refl;
        },
      )

  -- Whatever event a cell handles that it can be sent, of a channel that it has taken where the event
  -- gives one back: the handler ends, the cell keeps its books, and the events that it sends give
  -- back the channels that it took, unless it exits for want of memory.
  handle-IsHandled :
      (kind : EventType) (body : Option (Content d.Double)) (state : LpState d.Double)
      → IsReady d state
      → IsKnown kind body
      → ((c : ℕ) → is_channel (released kind body) c ≤ occurrences c (busy_ids state.channels))
      → Ends
          (u.memory me state.executed_events ≡ true)
          (IsHandled d b.objects me (is_channel (released kind body)) state)
          (handle d b u me now kind body state)
  unfolding handle
  handle-IsHandled init body state ready h taken = elim h [ ]
  handle-IsHandled start_call body state ready h taken =
      call_arrives-IsHandled d b u me now ok lt true state ready
  handle-IsHandled end_call none state ready h taken = elim h [ ]
  handle-IsHandled end_call (some content) state ready h taken =
      let (after, ran, v) =
        given_back-IsHandled content.channel (completed state) (counts-IsReady d state ready)
          (holds content.channel state (taken content.channel)) in
      inr (
        (after, []),
        rw ran refl,
        recounted-IsHandled d b u me now ok lt (λ c. bit (content.channel == c)) (completed state)
            state (after, []) refl v,
      )
  handle-IsHandled handoff_leave none state ready h taken = elim h [ ]
  handle-IsHandled handoff_leave (some content) state ready h taken =
      let (after, ran, v) =
        given_back-IsHandled content.channel (left_cell state) (counts-IsReady d state ready)
          (holds content.channel state (taken content.channel)) in
      inr (
        (after, []),
        rw ran refl,
        recounted-IsHandled d b u me now ok lt (λ c. bit (content.channel == c)) (left_cell state)
            state (after, []) refl v,
      )
  handle-IsHandled handoff_recv body state ready h taken = elim h [ ]
  handle-IsHandled handoff_in body state ready h taken =
      call_arrives-IsHandled d b u me now ok lt false state ready
  handle-IsHandled other body state ready h taken = elim h [ ]

  -- If a cell keeps its books, ProcessEvent, of an event of a kind that the cells send and of a
  -- channel that the cell has taken where the event gives one back, neither aborts nor exits, unless for want of memory: the cell
  -- keeps its books, the events it sends are of such a kind and go to cells that exist, those that will
  -- give a channel back go to the cell itself, and a channel is busy after it as often as before, less
  -- those given back and more those whose return it schedules.
  pub process_event-IsHandled :
      (kind : EventType) (body : Option (Content d.Double)) (state : LpState d.Double)
      → IsReady d state
      → IsKnown kind body
      → ((c : ℕ) → is_channel (released kind body) c ≤ occurrences c (busy_ids state.channels))
      → Ends
          (u.memory me (inc state.executed_events) ≡ true)
          (IsHandled d b.objects me (is_channel (released kind body)) state)
          (process_event d b u me now kind body (some state))
  unfolding process_event
  process_event-IsHandled kind body state ready known taken =
      let counted : LpState d.Double = record state {
        lvt = now;
        executed_events = inc state.executed_events;
      } in
      elim (handle-IsHandled kind body counted (counts-IsReady d state ready) known taken) [
        | inl exits ↦ inl exits
        | inr (r, ran, v) ↦ inr (
          r,
          ran,
          recounted-IsHandled d b u me now ok lt (is_channel (released kind body)) counted state r
              refl v,
        )
      ]

  -- INIT clears the bits of all the channels.
  cleared_bit :
      (i : ℕ)
      → i < b.channels_per_cell % 2 ^ 32
      → check_channel (init_state d b u me now).channel_state i ≡ false
  unfolding init_state
  cleared_bit i h =
      let cleared : ltb (i / 32) (b.channels_per_cell % 2 ^ 32 / 32 + 1) ≡ true = ground arith in
      let none_ : test_bit 0 (i % 32) ≡ false = rw (zero-div (2 ^ (i % 32))) refl in
      ap (λ w. test_bit w (i % 32)) (if_true 0 (u.words (i / 32)) cleared) ∙ none_

  init_state-IsReady : AreWords u.words → IsReady d (init_state d b u me now)
  unfolding init_state
  init_state-IsReady words = record {
    cell = record {
      channels = record {
        are_words = λ j. ground (arith, words j);
        listed = λ i h. sym (ap bit (cleared_bit i h));
        inside = λ i h. refl;
        busy =
            count_where_none (b.channels_per_cell % 2 ^ 32)
              (check_channel (init_state d b u me now).channel_state) cleared_bit;
      };
      counted = omega arith;
      small = omega (arith, ok.few_channels);
    };
    ta_sign = ground (arith, ok.ta_sign, ok.half_ta_sign);
    duration_sign = ok.orderly.unsigned 120;
    change_sign = ok.orderly.unsigned 300;
  }

  initial_calls-IsSent :
      (left : ℕ) (r : Seeds)
      → All (IsSent b.objects) (initial_calls d b u me now left r).1
        × ((i c : ℕ) → awaited i c (initial_calls d b u me now left r).1 ≡ 0)
  unfolding initial_calls events_awaited
  initial_calls-IsSent zero r = (tt, λ i c. refl)
  initial_calls-IsSent (suc left) r =
      let (sent, none_) = initial_calls-IsSent left (draw d r).1 in
      (((lt, tt), sent), λ i c. ground (arith, none_ i c))

  -- After INIT a cell keeps its books, and the calls it starts hold no channel yet.
  pub handle_init-IsReady :
      AreWords u.words
      → IsReady d (handle_init d b u me now).0
        × ((handle_init d b u me now).0.channels ≡ [])
        × All (IsSent b.objects) (handle_init d b u me now).1
        × ((i c : ℕ) → awaited i c (handle_init d b u me now).1 ≡ 0)
  unfolding init_state
  handle_init-IsReady words =
      let (sent, none_) =
        initial_calls-IsSent (d.to_nat (d.div (d.of_nat 120) (init_state d b u me now).ta))
          (init_state d b u me now).seeds in
      (counts-IsReady d (init_state d b u me now) (init_state-IsReady words), refl, sent, none_)

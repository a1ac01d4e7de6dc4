-- ===== src/Pcs/Network.antt =====
-- models/pcs/application.c: all the cells, and the events that they have scheduled and not handled yet.
use congenial_octo_telegram.Base.{
  ℕ, ◌+◌, ◌<◌, ◌≡◌, ap, ◌∙◌, List, ◌∷◌, ◌++◌, some, arith, true, inl, inr,
}
use congenial_octo_telegram.Random.Doubles.{Doubles}
use congenial_octo_telegram.Simulation.{Model, Run, dispatch, IsReached, Books, IsKept, IsKeeping}
use congenial_octo_telegram.Simulation.Safety.{IsReached-IsSound, IsReached-continues}
use congenial_octo_telegram.Topology.{inc}
use congenial_octo_telegram.Pcs.{LpState, Message, Build, Unwritten}
use congenial_octo_telegram.Pcs.Calls.{process_event, handle_init}
use congenial_octo_telegram.Pcs.Channels.{check_channel}
use congenial_octo_telegram.Pcs.Bitmap.{bit, count_where, AreWords}
use congenial_octo_telegram.Pcs.Ledger.{occurrences, busy_ids}
use congenial_octo_telegram.Pcs.Handlers.{awaited, gives_back, IsSent, IsReady, IsBuild}
use congenial_octo_telegram.Pcs.Process.{process_event-IsHandled, handle_init-IsReady}

module _ (d : Doubles) (b : Build d.Double) (u : Unwritten d.Double) where
  abbrev pub pcs_model : Model (LpState d.Double) (Message d.Double)
  pcs_model = record {
    objects = b.objects;
    receiver = λ m. m.receiver;
    init = λ i. handle_init d b u i (d.of_nat 0);
    process_event =
        λ m state. process_event d b u m.receiver m.timestamp m.event_type m.body (some state);
  }

  -- By channel: whether it is busy, and what will give it back.
  abbrev pub pcs_books : Books pcs_model
  pcs_books = record {
    Key = ℕ;
    IsReady = IsReady d;
    IsSent = IsSent b.objects;
    IsServed = λ e state. u.memory e.receiver (inc state.executed_events) ≡ true;
    holds = λ state c. occurrences c (busy_ids state.channels);
    gives = gives_back;
  }

  module _ (ok : IsBuild d b) (words : AreWords u.words) where
    init-IsKept :
        (i : ℕ)
        → i < b.objects
        → IsKept pcs_model pcs_books i
            (pcs_books.holds (pcs_model.init i).0)
            (pcs_model.init i).0
            (pcs_model.init i)
    init-IsKept i lt =
        let (ready, empty, sent, none_) = handle_init-IsReady d b u i (d.of_nat 0) ok lt words in
        record {
          ready = ready;
          sent = sent;
          same = λ c. omega (arith, none_ i c, ap (λ l. occurrences c (busy_ids l)) empty);
          others = λ j c h. none_ j c;
        }

    pcs_model-IsKeeping : IsKeeping pcs_model pcs_books
    pcs_model-IsKeeping = record {
      in_range = λ e sent. sent.0;
      initial = init-IsKept;
      each = λ e state ready sent taken.
          elim (process_event-IsHandled d b u e.receiver e.timestamp ok sent.0 e.event_type e.body
            state ready sent.1 taken) [
              | inl exits ↦ inl exits
              | inr (r, ran, h) ↦ inr (
                r,
                ran,
                record { ready = h.ready; sent = h.sent; same = h.calls; others = h.others },
              )
            ];
    }

    -- Under the same conditions on the build and the bitmap, whatever order the events are handled
    -- in, once each cell has handled its INIT: in each cell the counter is the number of the
    -- channels whose bit is not set, and a channel awaits exactly one pending event that gives it
    -- back if its bit is set, and none if not.
    pub network-balance :
        (run : Run (LpState d.Double) (Message d.Double)) (i : ℕ)
        → IsReached pcs_model run
        → i < b.objects
        → let state : LpState d.Double = run.states i in
          (state.channel_counter
              + count_where state.channels_per_cell (check_channel state.channel_state)
            ≡ state.channels_per_cell)
          × ((c : ℕ)
              → c < state.channels_per_cell
              → awaited i c run.pending ≡ bit (check_channel state.channel_state c))
    network-balance run i reached lt =
        let v = IsReached-IsSound pcs_model pcs_books pcs_model-IsKeeping run reached in
        let ready = v.states i lt in
        (
          omega (arith, ready.cell.counted, ready.cell.channels.busy),
          λ c inside. v.same i c lt ∙ ready.cell.channels.listed c inside,
        )

    -- If the arithmetic of the doubles is orderly, the objects are fewer than 2^31, the channels
    -- fewer than 2^31, the rates of calls not negative, and what malloc left in the bitmap are
    -- unsigned ints, then, once each cell has handled its INIT and whatever order the events were
    -- handled in, any of those that are pending can be handled next, if malloc gives the memory
    -- that its cell asks for then: the cell neither aborts nor exits, and what results is again a
    -- network that the events lead to.
    pub network-continues :
        (run : Run (LpState d.Double) (Message d.Double)) (e : Message d.Double)
        (before later : List (Message d.Double))
        → IsReached pcs_model run
        → run.pending ≡ before ++ (e ∷ later)
        → u.memory e.receiver (inc (run.states e.receiver).executed_events) ≡ true
        → (after : Run (LpState d.Double) (Message d.Double)) × (dispatch pcs_model e
              (record run { pending = before ++ later })
            ≡ some after)
          × IsReached pcs_model after
    network-continues run e before later reached eq given =
        IsReached-continues pcs_model pcs_books pcs_model-IsKeeping run e before later reached eq
          given

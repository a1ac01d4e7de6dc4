-- ===== src/Tests/Pcs.antt =====
-- A phone network of one cell with three channels, in a fixed-point arithmetic.
use mathlib.Core.Option
use congenial_octo_telegram.Base.{
  ℕ, ◌+◌, ◌*◌, ◌/◌, ◌^◌, ◌<◌, ◌≡◌, ◌≢◌, refl, [], ◌∷◌, ◌++◌, some, none, true, false, arith, negsuc,
  update,
}
use congenial_octo_telegram.Random.{random, Seeds}
use congenial_octo_telegram.Random.Doubles.{draw}
use congenial_octo_telegram.Tests.Fixed.{one, fixed, fixed-IsOrderly}
use congenial_octo_telegram.Pcs.{start_call, LpState, Message, Build, Unwritten}
use congenial_octo_telegram.Pcs.Channels.{allocation, deallocation, check_channel}
use congenial_octo_telegram.Pcs.Calls.{init_state, initial_calls, handle_init}
use congenial_octo_telegram.Pcs.Bitmap.{bit, count_where, AreWords}
use congenial_octo_telegram.Pcs.Ledger.{IsCell}
use congenial_octo_telegram.Pcs.Allocation.{one_less, one_more}
use congenial_octo_telegram.Pcs.Handlers.{IsReady, IsBuild, awaited}
use congenial_octo_telegram.Pcs.Process.{handle_init-IsReady}
use congenial_octo_telegram.Pcs.Network.{pcs_model, network-balance, network-continues}
use congenial_octo_telegram.Simulation.{Model, Run, started, dispatch, IsReached, start}
use congenial_octo_telegram.Pcs.Pool.{least_free, leave, busy_set, pool_refines}

abbrev small_build : Build ℕ
small_build = record {
  objects = 1;
  channels_per_cell = 3;
  lookahead = one;
  ta = 60 * one;
  speculation = true;
}

abbrev garbage : Unwritten ℕ
garbage = record {
  memory = λ me executed. true;
  fading = 5;
  words = λ j. 7;
  content = record { cell = negsuc 0; sender = 0; sent_at = 0; channel = 0; call_term_time = 0 };
  receiver = 0;
}

garbage-AreWords : AreWords garbage.words
garbage-AreWords = λ j. omega arith

small_build-IsBuild : IsBuild fixed small_build
small_build-IsBuild = record {
  orderly = fixed-IsOrderly;
  few_objects = omega arith;
  few_channels = omega arith;
  ta_sign = refl;
  half_ta_sign = refl;
}

abbrev new_cell : LpState ℕ
new_cell = (handle_init fixed small_build garbage 0 0).0

new_cell-IsReady : IsReady fixed new_cell
new_cell-IsReady =
    (handle_init-IsReady fixed small_build garbage 0 0 small_build-IsBuild (omega arith)
      garbage-AreWords).0

three_free : new_cell.channel_counter ≢ 0
unfolding init_state
three_free = λ e. omega (arith, e)

pool_refines_example :
    (new_cell.channel_counter ≢ 0
      → (k : ℕ) × (after : LpState ℕ) × (allocation fixed true 5 (one_less new_cell)
          ≡ some (k, after))
        × IsCell after
        × (least_free new_cell.channels_per_cell (busy_set new_cell) ≡ some k)
        × (busy_set after ≡ update (busy_set new_cell) k true))
    × (allocation fixed false 5 (one_less new_cell) ≡ none)
    × (Option.map busy_set (deallocation 2 (one_more new_cell))
        ≡ leave new_cell.channels_per_cell 2 (busy_set new_cell))
pool_refines_example = pool_refines fixed 5 2 new_cell fixed-IsOrderly new_cell-IsReady.cell

abbrev model : Model (LpState ℕ) (Message ℕ)
model = pcs_model fixed small_build garbage

abbrev run : Run (LpState ℕ) (Message ℕ)
run = started model

abbrev new_call : ℕ → Message ℕ
new_call time = record { receiver = 0; timestamp = time; event_type = start_call; body = none }

abbrev seeds0 : Seeds
seeds0 = record { seed1 = 1; seed2 = 0 }

abbrev call1 : Message ℕ
call1 = new_call (2 * one / 10 ^ 2 * (draw fixed seeds0).0 / one)

abbrev call2 : Message ℕ
call2 = new_call (2 * one / 10 ^ 2 * (draw fixed (draw fixed seeds0).1).0 / one)

two_calls : run.pending ≡ call1 ∷ call2 ∷ []
unfolding started init_state initial_calls draw random
two_calls = refl

network-continues_example :
    (after : Run (LpState ℕ) (Message ℕ)) × (dispatch model call1
        (record run { pending = [] ++ (call2 ∷ []) })
      ≡ some after)
    × IsReached model after
network-continues_example =
    network-continues fixed small_build garbage small_build-IsBuild garbage-AreWords run call1 []
      (call2 ∷ []) (start run refl) two_calls refl

network-balance_example :
    let state : LpState ℕ = run.states 0 in
    (state.channel_counter + count_where state.channels_per_cell (check_channel state.channel_state)
      ≡ state.channels_per_cell)
    × ((c : ℕ)
        → c < state.channels_per_cell
        → awaited 0 c run.pending ≡ bit (check_channel state.channel_state c))
network-balance_example =
    network-balance fixed small_build garbage small_build-IsBuild garbage-AreWords run 0
      (start run refl) (omega arith)

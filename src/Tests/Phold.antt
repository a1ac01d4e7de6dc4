-- ===== src/Tests/Phold.antt =====
-- The synthetic benchmark with two objects, in a fixed-point arithmetic.
use congenial_octo_telegram.Base.{
  ℕ, ◌*◌, ◌≡◌, refl, List, [], ◌∷◌, ◌++◌, some, false, arith, get_or, drop, length, get_elem?,
}
use congenial_octo_telegram.Random.{random}
use congenial_octo_telegram.Random.Doubles.{draw, expent}
use congenial_octo_telegram.Simulation.{
  Model, Run, first_events, started, dispatch, IsReached, start,
}
use congenial_octo_telegram.Tests.Fixed.{one, fixed}
use congenial_octo_telegram.Phold.{
  Words, PholdState, PholdMessage, PholdBuild, other, update_chunks, process_phold, init_event,
  initial_events,
}
use congenial_octo_telegram.Phold.Chunks.{updated, map_option, update_chunks_lem}
use congenial_octo_telegram.Phold.Handlers.{IsPhold}
use congenial_octo_telegram.Phold.Network.{phold_model, phold-balance, phold-continues}

abbrev two_objects : PholdBuild ℕ
two_objects = record {
  objects = 2;
  events = 1;
  chunks_in_list = 1000;
  lookahead = one;
  speculation = false;
}

two_objects-IsPhold : IsPhold fixed two_objects
two_objects-IsPhold = record { some_objects = omega arith; time_sign = refl }

abbrev phold : Model PholdState (PholdMessage ℕ)
phold = phold_model fixed two_objects (1 ∷ 2 ∷ 3 ∷ []) (4 ∷ [])

abbrev phold_run : Run PholdState (PholdMessage ℕ)
phold_run = started phold

abbrev no_event : PholdMessage ℕ
no_event = record { receiver = 0; timestamp = 0; event_type = other }

abbrev first_event : PholdMessage ℕ
first_event = get_or phold_run.pending 0 no_event

split_events : phold_run.pending ≡ [] ++ (first_event ∷ drop 1 phold_run.pending)
unfolding started first_events process_phold init_event initial_events expent draw random
split_events = refl

phold-balance_example :
    (length phold_run.pending ≡ 2 * 1)
    × (length (phold_run.states 1).p1 ≡ 1000)
    × (length (phold_run.states 1).p2 ≡ 1000)
phold-balance_example =
    phold-balance fixed two_objects (1 ∷ 2 ∷ 3 ∷ []) (4 ∷ []) two_objects-IsPhold phold_run 1
      (start phold_run refl) (omega arith)

phold-continues_example :
    (after : Run PholdState (PholdMessage ℕ)) × (dispatch phold first_event
        (record phold_run { pending = [] ++ drop 1 phold_run.pending })
      ≡ some after)
    × IsReached phold after
phold-continues_example =
    phold-continues fixed two_objects (1 ∷ 2 ∷ 3 ∷ []) (4 ∷ []) two_objects-IsPhold phold_run
      first_event [] (drop 1 phold_run.pending) (start phold_run refl) split_events

abbrev stack : List Words
stack = (1 ∷ []) ∷ (2 ∷ []) ∷ (3 ∷ []) ∷ (4 ∷ []) ∷ (5 ∷ []) ∷ []

update_chunks_lem_example :
    (p' : List Words) × (update_chunks 2 stack ≡ some p')
    × (length p' ≡ 5)
    × ((i : ℕ) → get_elem? p' i ≡ map_option (updated 2 i) (get_elem? stack i))
update_chunks_lem_example = update_chunks_lem 2 stack (omega arith)

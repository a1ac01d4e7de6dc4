-- ===== src/Phold/Network.antt =====
-- models/phold/application.c: all the objects, and the events that they have scheduled and not handled yet.
use mathlib.Core.Path.{subst}
use native.Mathlib.Nat.{add-mul}
use congenial_octo_telegram.Base.{
  ℕ, zero, suc, ◌*◌, ◌≤◌, ◌<◌, ◌≡◌, refl, sym, ap, ◌∙◌, List, [], ◌∷◌, ◌++◌, some, arith, All,
  length, length-append, some_inj, inr,
}
use congenial_octo_telegram.Random.Doubles.{Doubles}
use congenial_octo_telegram.Simulation.{
  Model, Run, first_events, started, dispatch, IsReached, start, handled, events_awaited, Books,
  IsKept, IsKeeping,
}
use congenial_octo_telegram.Simulation.Safety.{
  IsReached-IsSound, IsReached-continues, dispatch-sent,
}
use congenial_octo_telegram.Phold.{
  Words, PholdEvent, init, normal, other, PholdState, PholdMessage, PholdBuild, process_phold,
}
use congenial_octo_telegram.Phold.Handlers.{
  IsFull, IsNormal, IsPholdSent, IsPhold, no_state, or_no_state, normal_event-IsFull,
  init_event-IsFull,
}

module _ (d : Doubles) (b : PholdBuild d.Double) (fresh1 fresh2 : Words) where
  -- Each object starts with what INIT leaves and schedules.
  abbrev pub phold_model : Model PholdState (PholdMessage d.Double)
  phold_model = record {
    objects = b.objects;
    receiver = λ m. m.receiver;
    init = λ i. or_no_state (process_phold d b fresh1 fresh2 i (d.of_nat 0) init no_state);
    process_event =
        λ m state. process_phold d b fresh1 fresh2 m.receiver m.timestamp m.event_type state;
  }

  -- No event has anything to give back.
  abbrev pub phold_books : Books phold_model
  phold_books = record {
    Key = Unit {0};
    IsReady = IsFull b.chunks_in_list;
    IsSent = IsPholdSent b.objects;
    IsServed = λ e state. Unit {0};
    holds = λ state key. 0;
    gives = λ e key. 0;
  }

  nothing_awaited :
      (i : ℕ) (events : List (PholdMessage d.Double))
      → events_awaited {Key = Unit {0}} (λ m. m.receiver) (λ m key. 0) i tt events ≡ 0
  unfolding events_awaited
  nothing_awaited i [] = refl
  nothing_awaited i (e ∷ rest) = ground (arith, nothing_awaited i rest)

  module _ (ok : IsPhold d b) where
    each_event :
        (e : PholdMessage d.Double) (state : PholdState)
        → IsFull b.chunks_in_list state
        → IsPholdSent b.objects e
        → (r : PholdState × List (PholdMessage d.Double)) × (phold_model.process_event e state
            ≡ some r)
          × IsFull b.chunks_in_list r.0
          × All (IsPholdSent b.objects) r.1
          × (length r.1 ≡ 1)
    unfolding process_phold
    each_event e state v sent = of_kind e.event_type sent.1
      where
        of_kind :
            (kind : PholdEvent)
            → IsNormal kind
            → (r : PholdState × List (PholdMessage d.Double)) × (process_phold d b fresh1 fresh2
                  e.receiver e.timestamp kind state
                ≡ some r)
              × IsFull b.chunks_in_list r.0
              × All (IsPholdSent b.objects) r.1
              × (length r.1 ≡ 1)
        of_kind init h = elim h [ ]
        of_kind normal h = normal_event-IsFull d b fresh1 fresh2 e.receiver e.timestamp ok state v
        of_kind other h = elim h [ ]

    init-IsKept :
        (i : ℕ)
        → i < b.objects
        → IsKept phold_model phold_books i (λ key. 0) (phold_model.init i).0 (phold_model.init i)
          × (length (phold_model.init i).1 ≡ b.events)
    init-IsKept i lt =
        let (r, ran, full, sent, count) =
          init_event-IsFull d b fresh1 fresh2 i (d.of_nat 0) ok lt in
        subst
          (λ s.
            IsKept phold_model phold_books i (λ key. 0) (or_no_state s).0 (or_no_state s)
            × (length (or_no_state s).1 ≡ b.events))
          (sym ran)
          (
            record {
              ready = full;
              sent = sent;
              same = λ key. omega (arith, nothing_awaited i r.1);
              others = λ j key h. nothing_awaited j r.1;
            },
            count,
          )

    phold_model-IsKeeping : IsKeeping phold_model phold_books
    phold_model-IsKeeping = record {
      in_range = λ e sent. sent.0;
      initial = λ i lt. (init-IsKept i lt).0;
      each = λ e state full sent taken.
          let (r, ran, full', sent', one) = each_event e state full sent in
          inr (
            r,
            ran,
            record {
              ready = full';
              sent = sent';
              same = λ key. omega (arith, nothing_awaited e.receiver r.1);
              others = λ j key h. nothing_awaited j r.1;
            },
          );
    }

    first_count : (n : ℕ) → n ≤ b.objects → length (first_events phold_model n) ≡ n * b.events
    unfolding first_events
    first_count zero h = omega arith
    first_count (suc n) h = omega (
      arith,
      length-append (first_events phold_model n) (phold_model.init n).1,
      first_count n (omega arith),
      (init-IsKept n (omega arith)).1,
      add-mul n 1 b.events,
    )

    pending_count :
        (run : Run PholdState (PholdMessage d.Double))
        → IsReached phold_model run
        → length run.pending ≡ b.objects * b.events
    unfolding started dispatch
    pending_count run (start same e) =
        ap (λ (r : Run PholdState (PholdMessage d.Double)). length r.pending) e
        ∙ first_count b.objects (omega arith)
    pending_count after (handled run same e before later reached eq ran) =
        let (full, sent, r, ran', more) =
          dispatch-sent phold_model phold_books phold_model-IsKeeping run after e before later
            reached eq ran in
        let (r', ran'', full', sent', one) = each_event e (run.states e.receiver) full sent in
        omega (
          arith,
          pending_count run reached,
          ap length eq,
          length-append before (e ∷ later),
          ap length more,
          length-append (before ++ later) r.1,
          length-append before later,
          ap (λ (x : PholdState × List (PholdMessage d.Double)). length x.1)
              (some_inj (sym ran' ∙ ran'')),
          one,
        )

    -- Under the same conditions, whatever order the events are handled in, once each object has
    -- handled its INIT: the pending events are M times the objects, and both stacks of each object
    -- have CHUNKS_IN_LIST chunks.
    pub phold-balance :
        (run : Run PholdState (PholdMessage d.Double)) (i : ℕ)
        → IsReached phold_model run
        → i < b.objects
        → (length run.pending ≡ b.objects * b.events)
          × (length (run.states i).p1 ≡ b.chunks_in_list)
          × (length (run.states i).p2 ≡ b.chunks_in_list)
    phold-balance run i reached lt =
        let v =
          (IsReached-IsSound phold_model phold_books phold_model-IsKeeping run reached).states i
            lt in
        (pending_count run reached, v.full1, v.full2)

    -- If there is an object, the mean time is not negative and malloc gives each chunk, then, once
    -- each object has handled its INIT and whatever order the events were handled in, any of those
    -- that are pending can be handled next: the walks over the chunks follow no NULL pointer, no
    -- handler exits, and what results is again a run that the events lead to.
    pub phold-continues :
        (run : Run PholdState (PholdMessage d.Double)) (e : PholdMessage d.Double)
        (before later : List (PholdMessage d.Double))
        → IsReached phold_model run
        → run.pending ≡ before ++ (e ∷ later)
        → (after : Run PholdState (PholdMessage d.Double)) × (dispatch phold_model e
              (record run { pending = before ++ later })
            ≡ some after)
          × IsReached phold_model after
    phold-continues run e before later reached eq =
        IsReached-continues phold_model phold_books phold_model-IsKeeping run e before later reached
          eq tt

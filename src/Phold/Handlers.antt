-- ===== src/Phold/Handlers.antt =====
-- models/phold/application.c: what ProcessEvent leaves in an object, and schedules.
use congenial_octo_telegram.Base.{
  ℕ, zero, suc, ◌+◌, ◌/◌, ◌<◌, ◌≡◌, refl, ap, ◌∙◌, List, [], ◌∷◌, Option, none, some, false, not,
  ◌&&◌, arith, All, length, Bool-cases, inl, inr,
}
use congenial_octo_telegram.Random.{Seeds, random, scaled, scaled-random}
use congenial_octo_telegram.Random.Doubles.{Doubles, expent, expent-some}
use congenial_octo_telegram.Topology.{inc}
use congenial_octo_telegram.Phold.{
  Words, PholdEvent, init, normal, other, PholdState, PholdMessage, PholdBuild, update_chunks,
  dell_chunks, add_chunks, next_time, normal_event, initial_events, init_event, process_phold, mean,
}
use congenial_octo_telegram.Phold.Chunks.{length-dell_chunks, length-add_chunks, update_chunks_lem}

-- Both stacks have CHUNKS_IN_LIST chunks.
pub record IsFull (chunks : ℕ) (state : PholdState) : Type 0 where
  pub full1 : length state.p1 ≡ chunks
  pub full2 : length state.p2 ≡ chunks

abbrev pub IsNormal : PholdEvent → Type 0
IsNormal init = ⊥
IsNormal normal = Unit {0}
IsNormal other = ⊥

abbrev pub IsPholdSent : {Double : Type 0} → ℕ → PholdMessage Double → Type 0
IsPholdSent objects m = (m.receiver < objects) × IsNormal m.event_type

-- What the build is assumed to be: at least one object, a mean time that is not negative.
pub record IsPhold (d : Doubles) (b : PholdBuild d.Double) : Type 0 where
  pub some_objects : 0 < b.objects
  pub time_sign : d.less (d.mul b.lookahead (d.of_nat 1)) (d.of_nat 0) ≡ false

abbrev pub no_state : PholdState
no_state = record { event_count = 0; seeds = record { seed1 = 0; seed2 = 0 }; p1 = []; p2 = [] }

abbrev pub or_no_state :
    {Double : Type 0}
    → Option (PholdState × List (PholdMessage Double))
    → PholdState × List (PholdMessage Double)
or_no_state none = (no_state, [])
or_no_state (some r) = r

module _ (d : Doubles) (b : PholdBuild d.Double) (fresh1 fresh2 : Words) where
  module _ (me : ℕ) (now : d.Double) (ok : IsPhold d b) where
    drawn :
        (r : Seeds) → (x : d.Double × Seeds) × (expent d (mean d b fresh1 fresh2 me now) r ≡ some x)
    drawn r = expent-some d (mean d b fresh1 fresh2 me now) r ok.time_sign

    next_time-some :
        (r : Seeds) → (x : d.Double × Seeds) × (next_time d b fresh1 fresh2 me now r ≡ some x)
    unfolding next_time
    next_time-some r =
        let ((x, r1), ran) = drawn r in
        let ((y, r2), again) = drawn r1 in
        let early = not b.speculation && d.less_equal (d.add now x) (d.add now b.lookahead) in
        elim (Bool-cases early) [
          | inl soon ↦ ((d.add (d.add now b.lookahead) y, r2), rw (ran, soon, again) refl)
          | inr late ↦ ((d.add now x, r1), rw (ran, late) refl)
        ]

    -- The reallocation and the update of one stack.
    renewed :
        (fresh : Words) (p : List Words)
        → length p ≡ b.chunks_in_list
        → let n = b.chunks_in_list / 1000 in
          (p' : List Words) × (update_chunks
              (b.chunks_in_list / 32)
              (add_chunks n fresh (dell_chunks n p))
            ≡ some p')
          × (length p' ≡ b.chunks_in_list)
    renewed fresh p full =
        let n = b.chunks_in_list / 1000 in
        let long : length (add_chunks n fresh (dell_chunks n p)) ≡ b.chunks_in_list =
          omega
            (arith, length-add_chunks n fresh (dell_chunks n p), length-dell_chunks n p, full) in
        let (p', ran, same, places) =
          update_chunks_lem (b.chunks_in_list / 32) (add_chunks n fresh (dell_chunks n p))
            (omega (arith, long)) in
        (p', ran, same ∙ long)

    -- One event to one of the objects, and full stacks.
    pub normal_event-IsFull :
        (state : PholdState)
        → IsFull b.chunks_in_list state
        → (r : PholdState × List (PholdMessage d.Double)) × (normal_event d b fresh1 fresh2 me now
              state
            ≡ some r)
          × IsFull b.chunks_in_list r.0
          × All (IsPholdSent b.objects) r.1
          × (length r.1 ≡ 1)
    unfolding normal_event
    normal_event-IsFull state v =
        let ((time, r1), timed) = next_time-some state.seeds in
        let (p1, ran1, full1) = renewed fresh1 state.p1 v.full1 in
        let (p2, ran2, full2) = renewed fresh2 state.p2 v.full2 in
        (
          (
            record { event_count = state.event_count + 1; seeds = (random r1).1; p1 = p1; p2 = p2 },
            record {
              receiver = scaled b.objects (random r1).0;
              timestamp = time;
              event_type = normal;
            }
                ∷ [],
          ),
          rw (timed, ran1, ran2) refl,
          record { full1 = full1; full2 = full2 },
          ((scaled-random b.objects r1 ok.some_objects, tt), tt),
          refl,
        )

    initial_events-some :
        (lt : me < b.objects) (left : ℕ) (r : Seeds)
        → (x : Seeds × List (PholdMessage d.Double)) × (initial_events d b fresh1 fresh2 me now left
              r
            ≡ some x)
          × All (IsPholdSent b.objects) x.1
          × (length x.1 ≡ left)
    unfolding initial_events
    initial_events-some lt zero r = ((r, []), refl, tt, refl)
    initial_events-some lt (suc left) r =
        let ((x, r1), ran) = drawn r in
        let ((r2, rest), ran', sent, count) = initial_events-some lt left r1 in
        (
          (
            r2,
            record { receiver = me; timestamp = d.mul (d.decimal 1 2) x; event_type = normal }
                ∷ rest,
          ),
          rw (ran, ran', initial_events) refl,
          ((lt, tt), sent),
          ap suc count,
        )

    pub init_event-IsFull :
        me < b.objects
        → (r : PholdState × List (PholdMessage d.Double)) × (process_phold d b fresh1 fresh2 me now
              init no_state
            ≡ some r)
          × IsFull b.chunks_in_list r.0
          × All (IsPholdSent b.objects) r.1
          × (length r.1 ≡ b.events)
    unfolding process_phold init_event
    init_event-IsFull lt =
        let ((r, sent), ran, known, count) =
          initial_events-some lt b.events (record { seed1 = inc me; seed2 = 0 }) in
        (
          (
            record {
              event_count = 0;
              seeds = r;
              p1 = add_chunks b.chunks_in_list fresh1 [];
              p2 = add_chunks b.chunks_in_list fresh2 [];
            },
            sent,
          ),
          rw ran refl,
          record {
            full1 = omega (arith, length-add_chunks b.chunks_in_list fresh1 []);
            full2 = omega (arith, length-add_chunks b.chunks_in_list fresh2 []);
          },
          known,
          count,
        )

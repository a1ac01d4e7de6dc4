-- ===== src/Pcs/Events.antt =====
-- models/pcs/application.c: ProcessEvent, event by event.
use mathlib.Core.Path.{subst}
use congenial_octo_telegram.Base.{
  ℕ, ◌+◌, ◌<◌, ◌≡◌, inl, inr, refl, sym, ap, ◌∙◌, List, [], ◌∷◌, ◌++◌, none, some, Bool, true,
  false, ◌==◌, arith, Bool-cases, All-append, if_true, if_false, negsuc, not_both,
}
use congenial_octo_telegram.Random.Doubles.{Doubles, expent-some}
use congenial_octo_telegram.Simulation.{events_awaited, Ends}
use congenial_octo_telegram.Topology.{inc}
use congenial_octo_telegram.Pcs.{start_call, LpState, Content, Message, Build, Unwritten}
use congenial_octo_telegram.Pcs.Calls.{
  take_call, next_call, call_arrives, receive_call, held_back, barrier,
}
use congenial_octo_telegram.Pcs.Bitmap.{bit}
use congenial_octo_telegram.Pcs.Ledger.{occurrences, busy_ids}
use congenial_octo_telegram.Pcs.Allocation.{
  allocation-IsCell, allocation-none, with_channel, one_less,
}
use congenial_octo_telegram.Pcs.Handlers.{
  awaited, awaited-append, IsSent, IsReady, IsHandled, IsBuild, counts-IsReady, IsScheduled,
  schedule_call-IsScheduled, to_me, to_another,
}

module _ (d : Doubles) (b : Build d.Double) (u : Unwritten d.Double) (me : ℕ) (now : d.Double)
    (ok : IsBuild d b) (lt : me < b.objects) where
  -- A handler that has put a call on the channel `k`.
  on_channel-IsHandled :
      (k : ℕ) (state st : LpState d.Double) (r : LpState d.Double × List (Message d.Double))
      → IsReady d st
      → busy_ids st.channels ≡ k ∷ busy_ids state.channels
      → IsScheduled d b u me now ok lt k st r
      → IsHandled d b.objects me (λ c. 0) state r
  on_channel-IsHandled k state st r ready taken v = record {
    ready = subst (IsReady d) (sym v.same) (counts-IsReady d st ready);
    sent = v.sent;
    calls = λ c. omega (
      arith,
      ap (λ (s : LpState d.Double). occurrences c (busy_ids s.channels)) v.same,
      ap (occurrences c) taken,
      v.calls me c ∙ if_true (bit (k == c)) 0 (to_me d b u me now ok lt),
    );
    others = λ i c h. v.calls i c ∙ if_false (bit (k == c)) 0 (to_another d b u me now ok lt i h);
  }

  -- A handler that finds no free channel.
  unchanged-IsHandled :
      (state st : LpState d.Double)
      → IsReady d st
      → busy_ids st.channels ≡ busy_ids state.channels
      → IsHandled d b.objects me (λ c. 0) state (st, [])
  unfolding events_awaited
  unchanged-IsHandled state st ready same = record {
    ready = ready;
    sent = tt;
    calls = λ c. omega (arith, ap (occurrences c) same);
    others = λ i c h. refl;
  }

  take_call-IsHandled :
      (state : LpState d.Double)
      → IsReady d state
      → Ends
          (u.memory me state.executed_events ≡ true)
          (IsHandled d b.objects me (λ c. 0) state)
          (take_call d b u me now state)
  unfolding take_call
  take_call-IsHandled state ready = elim (Bool-cases (state.channel_counter == 0)) [
    | inl full ↦ inr (
      (record state { blocked_on_setup = inc state.blocked_on_setup }, []),
      if_true _ _ full,
      unchanged-IsHandled state (record state { blocked_on_setup = inc state.blocked_on_setup })
          (counts-IsReady d state ready) refl,
    )
    | inr room ↦ elim (Bool-cases (u.memory me state.executed_events)) [
      | inr refused ↦ inl (
        if_false _ _ room ∙ rw (refused, allocation-none d u.fading (one_less state)) refl,
        λ given. not_both given refused,
      )
      | inl given ↦
          let (k, sir, seeds, taken, cell, inside, free, first) =
            allocation-IsCell d u.fading state ok.orderly ready.cell (λ e. ground (arith, room)) in
          let ((duration, r1), e1) = expent-some d state.ta_duration seeds ready.duration_sign in
          let ((change, r2), e2) = expent-some d state.ta_change r1 ready.change_sign in
          let (r, ran, v) =
            schedule_call-IsScheduled d b u me now ok lt true (call k duration)
              (held_back d b u me now (barrier d b u me now) (d.add now change))
              (record (with_channel k sir seeds (one_less state)) { seeds = r2 }) in
          inr (
            r,
            if_false _ _ room ∙ rw (given, taken, e1, e2) ran,
            on_channel-IsHandled k state
                (record (with_channel k sir seeds (one_less state)) { seeds = r2 }) r
                (record {
                  cell = record {
                    channels = cell.channels;
                    counted = cell.counted;
                    small = cell.small;
                  };
                  ta_sign = ready.ta_sign;
                  duration_sign = ready.duration_sign;
                  change_sign = ready.change_sign;
                })
                refl v,
          )
    ]
  ]
    where
      call : ℕ → d.Double → Content d.Double
      call k duration = record {
        cell = negsuc 0;
        sender = me;
        sent_at = now;
        channel = k;
        call_term_time = held_back d b u me now (barrier d b u me now) (d.add now duration);
      }

  next_call-some :
      (state : LpState d.Double)
      → IsReady d state
      → (r : LpState d.Double × List (Message d.Double)) × (next_call d b u me now state ≡ some r)
        × IsHandled d b.objects me (λ c. 0) state r
  unfolding next_call events_awaited
  next_call-some state ready =
      let ((wait, r), drawn) = expent-some d state.ta state.seeds ready.ta_sign in
      let call : Message d.Double = record {
        receiver = me;
        timestamp =
            held_back d b u me now (d.add now b.lookahead)
              (d.add now (d.mul (d.of_nat (d.to_nat (d.div (d.of_nat 120) state.ta))) wait));
        event_type = start_call;
        body = none;
      } in
      (
        (record state { seeds = r }, call ∷ []),
        rw drawn refl,
        record {
          ready = counts-IsReady d state ready;
          sent = ((lt, tt), tt);
          calls = λ c. ground arith;
          others = λ i c h. ground arith;
        },
      )

  -- A handler in two steps.
  then-IsHandled :
      (given : ℕ → ℕ) (state : LpState d.Double) (r r' : LpState d.Double × List (Message d.Double))
      → IsHandled d b.objects me given state r
      → IsHandled d b.objects me (λ c. 0) r.0 r'
      → IsHandled d b.objects me given state (r'.0, r.1 ++ r'.1)
  then-IsHandled given state r r' v v' = record {
    ready = v'.ready;
    sent = All-append (IsSent b.objects) r.1 r'.1 v.sent v'.sent;
    calls = λ c. omega (arith, v.calls c, v'.calls c, awaited-append me c r.1 r'.1);
    others = λ i c h. omega (arith, v.others i c h, v'.others i c h, awaited-append i c r.1 r'.1);
  }

  -- A handler that starts from a state with other counts.
  pub recounted-IsHandled :
      (given : ℕ → ℕ) (st state : LpState d.Double) (r : LpState d.Double × List (Message d.Double))
      → busy_ids st.channels ≡ busy_ids state.channels
      → IsHandled d b.objects me given st r
      → IsHandled d b.objects me given state r
  recounted-IsHandled given st state r same v = record {
    ready = v.ready;
    sent = v.sent;
    calls = λ c. v.calls c ∙ ap (λ l. occurrences c l + awaited me c r.1) same;
    others = v.others;
  }

  abbrev arrived : LpState d.Double → LpState d.Double
  arrived state = record state { arriving_calls = inc state.arriving_calls }

  pub call_arrives-IsHandled :
      (new_call : Bool) (state : LpState d.Double)
      → IsReady d state
      → Ends
          (u.memory me state.executed_events ≡ true)
          (IsHandled d b.objects me (λ c. 0) state)
          (call_arrives d b u me now new_call state)
  unfolding call_arrives
  call_arrives-IsHandled true state ready =
      elim (take_call-IsHandled (arrived state) (counts-IsReady d state ready)) [
        | inl (ran, refused) ↦ inl (rw ran refl, refused)
        | inr (r, ran, v) ↦
            let (r', ran', v') = next_call-some r.0 v.ready in
            inr (
              (r'.0, r.1 ++ r'.1),
              rw (ran, ran') refl,
              then-IsHandled (λ c. 0) state r r'
                  (recounted-IsHandled (λ c. 0) (arrived state) state r refl v) v',
            )
      ]
  call_arrives-IsHandled false state ready =
      elim (take_call-IsHandled (arrived state) (counts-IsReady d state ready)) [
        | inl (ran, refused) ↦ inl (rw ran refl, refused)
        | inr (r, ran, v) ↦ inr (
          (r.0, r.1 ++ []),
          rw ran refl,
          then-IsHandled (λ c. 0) state r (r.0, [])
              (recounted-IsHandled (λ c. 0) (arrived state) state r refl v)
              (unchanged-IsHandled r.0 r.0 v.ready refl),
        )
      ]

  -- HANDOFF_RECV, which no handler sends.
  abbrev received : LpState d.Double → LpState d.Double
  received state = record state {
    arriving_handoffs = inc state.arriving_handoffs;
    arriving_calls = inc state.arriving_calls;
  }

  pub receive_call-IsHandled :
      (content : Content d.Double) (state : LpState d.Double)
      → IsReady d state
      → Ends
          (u.memory me state.executed_events ≡ true)
          (IsHandled d b.objects me (λ c. 0) state)
          (receive_call d b u me now content state)
  unfolding receive_call
  receive_call-IsHandled content state ready = elim (Bool-cases (state.channel_counter == 0)) [
    | inl full ↦ inr (
      (record (received state) { blocked_on_handoff = inc state.blocked_on_handoff }, []),
      if_true _ _ full,
      unchanged-IsHandled state
          (record (received state) { blocked_on_handoff = inc state.blocked_on_handoff })
          (counts-IsReady d state ready) refl,
    )
    | inr room ↦ elim (Bool-cases (u.memory me state.executed_events)) [
      | inr refused ↦ inl (
        if_false _ _ room
            ∙ rw (refused, allocation-none d u.fading (one_less (received state))) refl,
        λ given. not_both given refused,
      )
      | inl given ↦
          let (k, sir, seeds, taken, cell, inside, free, first) =
            allocation-IsCell d u.fading (received state) ok.orderly
              (record {
                channels = ready.cell.channels;
                counted = ready.cell.counted;
                small = ready.cell.small;
              })
              (λ e. ground (arith, room)) in
          let ((change, r1), e1) = expent-some d state.ta_change seeds ready.change_sign in
          let (r, ran, v) =
            schedule_call-IsScheduled d b u me now ok lt false
              (record u.content {
                cell = negsuc 0;
                channel = k;
                call_term_time = content.call_term_time;
              })
              (d.add now change)
              (record (with_channel k sir seeds (one_less (received state))) { seeds = r1 }) in
          inr (
            r,
            if_false _ _ room ∙ rw (given, taken, e1) ran,
            on_channel-IsHandled k state
                (record (with_channel k sir seeds (one_less (received state))) { seeds = r1 }) r
                (record {
                  cell = record {
                    channels = cell.channels;
                    counted = cell.counted;
                    small = cell.small;
                  };
                  ta_sign = ready.ta_sign;
                  duration_sign = ready.duration_sign;
                  change_sign = ready.change_sign;
                })
                refl v,
          )
    ]
  ]

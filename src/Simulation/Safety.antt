-- ===== src/Simulation/Safety.antt =====
-- Models that keep their books: no order of the events makes a handler exit or abort, if malloc gives it
-- the memory it asks for.
use mathlib.Core.Path.{subst}
use native.Mathlib.Decide.{ℕ_discrete}
use congenial_octo_telegram.Base.{
  ℕ, zero, suc, ◌+◌, ◌≤◌, ◌<◌, ◌≡◌, refl, sym, ap, ◌∙◌, List, [], ◌∷◌, ◌++◌, none, some, true, inl,
  inr, some_not_none, false, ◌==◌, if◌then◌else◌, arith, All, All-append, update, update_self,
  update_ne, if_true, if_false, some_inj,
}
use congenial_octo_telegram.Simulation.{
  Model, Run, first_events, started, dispatch, IsReached, start, handled, events_awaited, Books,
  Ends, IsKept, IsKeeping, IsSound,
}

pub events_awaited-append :
    {Event Key : Type 0} (receiver : Event → ℕ) (gives : Event → Key → ℕ) (i : ℕ) (key : Key)
    (xs ys : List Event)
    → events_awaited receiver gives i key (xs ++ ys)
      ≡ events_awaited receiver gives i key xs + events_awaited receiver gives i key ys
unfolding events_awaited
events_awaited-append receiver gives i key [] ys = omega arith
events_awaited-append receiver gives i key (e ∷ xs) ys =
    omega (arith, events_awaited-append receiver gives i key xs ys)

All-middle {ℓ κ} :
    {A : Type ℓ} (P : A → Type κ) (xs : List A) (y : A) (ys : List A)
    → All P (xs ++ (y ∷ ys))
    → P y × All P (xs ++ ys)
All-middle P [] y ys h = h
All-middle P (x ∷ xs) y ys h = let (p, rest) = All-middle P xs y ys h.1 in (p, (h.0, rest))

module _ {State Event : Type 0} (m : Model State Event) (b : Books m) (k : IsKeeping m b) where
  abbrev awaits : ℕ → b.Key → List Event → ℕ
  awaits i key events = events_awaited m.receiver b.gives i key events

  awaits-append :
      (i : ℕ) (key : b.Key) (xs ys : List Event)
      → awaits i key (xs ++ ys) ≡ awaits i key xs + awaits i key ys
  awaits-append i key xs ys = events_awaited-append m.receiver b.gives i key xs ys

  -- The first events of the objects below `n`, seen from the object `i`.
  first_events-IsSent :
      (n : ℕ)
      → n ≤ m.objects
      → All b.IsSent (first_events m n)
        × ((i : ℕ) (key : b.Key) → n ≤ i → awaits i key (first_events m n) ≡ 0)
        × ((i : ℕ) (key : b.Key)
            → i < n
            → awaits i key (first_events m n) ≡ b.holds (m.init i).0 key)
  unfolding first_events events_awaited
  first_events-IsSent zero h = (tt, λ i key le. refl, λ i key lt. absurd (omega arith))
  first_events-IsSent (suc n) h =
      let (sent, past, before) = first_events-IsSent n (omega arith) in
      let v = k.initial n (omega arith) in
      (
        All-append b.IsSent (first_events m n) (m.init n).1 sent v.sent,
        λ i key le. omega (
          arith,
          awaits-append i key (first_events m n) (m.init n).1,
          past i key (omega arith),
          v.others i key (λ e. omega arith),
        ),
        λ i key lt. elim (ℕ_discrete i n) [
          | yes last ↦
              subst
                (λ j. awaits j key (first_events m n ++ (m.init n).1) ≡ b.holds (m.init j).0 key)
                (sym last)
                (omega (
                  arith,
                  awaits-append n key (first_events m n) (m.init n).1,
                  past n key (omega arith),
                  v.same key,
                ))
          | no less ↦ omega (
            arith,
            awaits-append i key (first_events m n) (m.init n).1,
            before i key (omega (arith, less)),
            v.others i key less,
          )
        ],
      )

  started-IsSound : IsSound m b (started m)
  unfolding started
  started-IsSound =
      let (sent, past, before) = first_events-IsSent m.objects (omega arith) in
      record {
        states = λ i lt. (k.initial i lt).ready;
        same = λ i key lt. before i key lt;
        sent = sent;
      }

  -- The events around the one that is handled.
  awaits-middle :
      (i : ℕ) (key : b.Key) (before later : List Event) (e : Event)
      → awaits i key (before ++ (e ∷ later))
        ≡ (if m.receiver e == i then b.gives e key else 0) + awaits i key (before ++ later)
  unfolding events_awaited
  awaits-middle i key before later e =
      omega (arith, awaits-append i key before (e ∷ later), awaits-append i key before later)

  -- The run after the object of `e` went over to `r.0` and sent `r.1`.
  abbrev after_event : Run State Event → Event → List Event → State × List Event → Run State Event
  after_event run e others r = record {
    states = update run.states (m.receiver e) r.0;
    pending = others ++ r.1;
  }

  dispatch-some :
      (run : Run State Event) (e : Event) (others : List Event) (r : State × List Event)
      → m.process_event e (run.states (m.receiver e)) ≡ some r
      → dispatch m e (record run { pending = others }) ≡ some (after_event run e others r)
  unfolding dispatch
  dispatch-some run e others r ran = rw (ran, dispatch) refl

  -- In step with the books of the objects, before the event `e` is handled.
  abbrev IsTaken : Run State Event → Event → List Event → Type 0
  IsTaken run e others =
      (i : ℕ) (key : b.Key)
      → i < m.objects
      → (if m.receiver e == i then b.gives e key else 0) + awaits i key others
        ≡ b.holds (run.states i) key

  same_object :
      (run : Run State Event) (state : State) (j i : ℕ)
      → j ≡ i
      → update run.states j state i ≡ state
  same_object run state j i same =
      ap (update run.states j state) (sym same) ∙ update_self run.states j state

  after_event-same :
      (run : Run State Event) (e : Event) (others : List Event) (r : State × List Event) (i : ℕ)
      (key : b.Key)
      → i < m.objects
      → IsTaken run e others
      → IsKept m b (m.receiver e) (b.gives e) (run.states (m.receiver e)) r
      → awaits i key (others ++ r.1) ≡ b.holds (update run.states (m.receiver e) r.0 i) key
  after_event-same run e others r i key lt taken h = elim (ℕ_discrete (m.receiver e) i) [
    | yes same ↦
        let here : (m.receiver e == m.receiver e) ≡ true = ground arith in
        let mine : m.receiver e < m.objects = omega (arith, same, lt) in
        ap (λ j. awaits j key (others ++ r.1)) (sym same)
        ∙ omega (
          arith,
          awaits-append (m.receiver e) key others r.1,
          taken (m.receiver e) key mine,
          if_true (b.gives e key) 0 here,
          h.same key,
        )
        ∙ ap (λ s. b.holds s key) (sym (same_object run r.0 (m.receiver e) i same))
    | no other ↦
        let there : (m.receiver e == i) ≡ false = ground (arith, other) in
        omega (
          arith,
          awaits-append i key others r.1,
          taken i key lt,
          if_false (b.gives e key) 0 there,
          h.others i key (λ x. other (sym x)),
        )
        ∙ ap (λ s. b.holds s key) (sym (update_ne run.states (m.receiver e) r.0 i other))
  ]

  dispatch-none :
      (run : Run State Event) (e : Event) (others : List Event)
      → m.process_event e (run.states (m.receiver e)) ≡ none
      → dispatch m e (record run { pending = others }) ≡ none
  unfolding dispatch
  dispatch-none run e others ran = rw (ran, dispatch) refl

  -- The run after a pending event that a handler ended with, from a run in step.
  after_event-IsSound :
      (run : Run State Event) (e : Event) (before later : List Event) (r : State × List Event)
      → IsSound m b run
      → IsTaken run e (before ++ later)
      → All b.IsSent (before ++ later)
      → IsKept m b (m.receiver e) (b.gives e) (run.states (m.receiver e)) r
      → IsSound m b (after_event run e (before ++ later) r)
  after_event-IsSound run e before later r v taken rest h = record {
    states = λ i lt. elim (ℕ_discrete (m.receiver e) i) [
      | yes same ↦ rw (same_object run r.0 (m.receiver e) i same) h.ready
      | no other ↦ rw (update_ne run.states (m.receiver e) r.0 i other) (v.states i lt)
    ];
    same = λ i key lt. after_event-same run e (before ++ later) r i key lt taken h;
    sent = All-append b.IsSent (before ++ later) r.1 rest h.sent;
  }

  dispatch-IsSound :
      (run : Run State Event) (e : Event) (before later : List Event)
      → IsSound m b run
      → run.pending ≡ before ++ (e ∷ later)
      → Ends
          (b.IsServed e (run.states (m.receiver e)))
          (IsSound m b)
          (dispatch m e (record run { pending = before ++ later }))
  dispatch-IsSound run e before later v eq =
      let (mine, rest) = All-middle b.IsSent before e later (subst (All b.IsSent) eq v.sent) in
      let inside = k.in_range e mine in
      let here : (m.receiver e == m.receiver e) ≡ true = ground arith in
      let taken : IsTaken run e (before ++ later) = λ i key lt.
        sym (awaits-middle i key before later e) ∙ ap (awaits i key) (sym eq) ∙ v.same i key lt in
      elim (k.each e (run.states (m.receiver e)) (v.states (m.receiver e) inside) mine
        (λ key. omega (arith, taken (m.receiver e) key inside, if_true (b.gives e key) 0 here))) [
          | inl (ran, unserved) ↦ inl (dispatch-none run e (before ++ later) ran, unserved)
          | inr (r, ran, h) ↦ inr (
            after_event run e (before ++ later) r,
            dispatch-some run e (before ++ later) r ran,
            after_event-IsSound run e before later r v taken rest h,
          )
        ]

  pub IsReached-IsSound : (run : Run State Event) → IsReached m run → IsSound m b run
  IsReached-IsSound run (start same e) = subst (IsSound m b) (sym e) started-IsSound
  IsReached-IsSound after (handled run same e before later reached eq ran) =
      elim (dispatch-IsSound run e before later (IsReached-IsSound run reached) eq) [
        | inl (ran', unserved) ↦ elim (some_not_none (sym ran ∙ ran')) [ ]
        | inr (next, ran', sound) ↦ subst (IsSound m b) (some_inj (sym ran' ∙ ran)) sound
      ]

  -- Whatever order the events of a model that keeps its books were handled in, any of those that are
  -- pending can be handled next, without an exit or an abort, if it is served.
  pub IsReached-continues :
      (run : Run State Event) (e : Event) (before later : List Event)
      → IsReached m run
      → run.pending ≡ before ++ (e ∷ later)
      → b.IsServed e (run.states (m.receiver e))
      → (after : Run State Event) × (dispatch m e (record run { pending = before ++ later })
          ≡ some after)
        × IsReached m after
  IsReached-continues run e before later reached eq served =
      elim (dispatch-IsSound run e before later (IsReached-IsSound run reached) eq) [
        | inl (ran, unserved) ↦ elim (unserved served) [ ]
        | inr (after, ran, sound) ↦ (after, ran, handled run after e before later reached eq ran)
      ]

  -- What the handling of a pending event adds to the events, from a run that was reached.
  pub dispatch-sent :
      (run after : Run State Event) (e : Event) (before later : List Event)
      → IsReached m run
      → run.pending ≡ before ++ (e ∷ later)
      → dispatch m e (record run { pending = before ++ later }) ≡ some after
      → b.IsReady (run.states (m.receiver e))
        × b.IsSent e
        × (r : State × List Event) × (m.process_event e (run.states (m.receiver e)) ≡ some r)
        × (after.pending ≡ (before ++ later) ++ r.1)
  dispatch-sent run after e before later reached eq ran =
      let v = IsReached-IsSound run reached in
      let (mine, rest) = All-middle b.IsSent before e later (subst (All b.IsSent) eq v.sent) in
      let here : (m.receiver e == m.receiver e) ≡ true = ground arith in
      let inside = k.in_range e mine in
      elim (k.each e (run.states (m.receiver e)) (v.states (m.receiver e) inside) mine (λ key.
        omega (
          arith,
          sym (awaits-middle (m.receiver e) key before later e)
              ∙ ap (awaits (m.receiver e) key) (sym eq)
              ∙ v.same (m.receiver e) key inside,
          if_true (b.gives e key) 0 here,
        ))) [
          | inl (ran', unserved) ↦
              elim (some_not_none (sym ran ∙ dispatch-none run e (before ++ later) ran')) [ ]
          | inr (r, ran', h) ↦ (
            v.states (m.receiver e) inside,
            mine,
            r,
            ran',
            ap (λ (s : Run State Event). s.pending)
                (some_inj (sym ran ∙ dispatch-some run e (before ++ later) r ran')),
          )
        ]

-- ===== src/Simulation.antt =====
-- engine/engine.c and `ProcessEvent` of models: the objects of a model, the events they have scheduled
-- and not handled yet, and the handling of those one after the other. The queue fixes the order of the
-- events; here it is any order.
pub mod Safety
use congenial_octo_telegram.Base.{
  ℕ, zero, suc, ◌+◌, ◌≤◌, ◌<◌, ◌≡◌, ◌≢◌, ◌⊎◌, List, [], ◌∷◌, ◌++◌, Option, none, some, ◌==◌,
  if◌then◌else◌, All, update, arith,
}

-- A model: the object that an event goes to, the state and the events that INIT gives an object, and
-- the handler, where `none` is a call of exit or abort.
pub record Model (State Event : Type 0) : Type 0 where
  pub objects : ℕ
  pub receiver : Event → ℕ
  pub init : ℕ → State × List Event
  pub process_event : Event → State → Option (State × List Event)

pub record Run (State Event : Type 0) : Type 0 where
  pub states : ℕ → State
  pub pending : List Event

module _ {State Event : Type 0} (m : Model State Event) where
  unfoldable pub first_events : ℕ → List Event
  first_events zero = []
  first_events (suc n) = first_events n ++ (m.init n).1

  -- Each object has handled its INIT.
  unfoldable pub started : Run State Event
  unfolding first_events
  started = record { states = λ i. (m.init i).0; pending = first_events m.objects }

  -- One of the events is handled, by the object it goes to.
  unfoldable pub dispatch : Event → Run State Event → Option (Run State Event)
  dispatch e run = elim (m.process_event e (run.states (m.receiver e))) [
    | none ↦ none
    | some (state, sent) ↦
        some (record {
          states = update run.states (m.receiver e) state;
          pending = run.pending ++ sent;
        })
  ]

  -- The runs that the events lead to, in any order.
  pub data IsReached : Run State Event → Type 0 where
    start : (run : Run State Event) → run ≡ started → IsReached run
    handled :
        (run after : Run State Event) (e : Event) (before later : List Event)
        → IsReached run
        → run.pending ≡ before ++ (e ∷ later)
        → dispatch e (record run { pending = before ++ later }) ≡ some after
        → IsReached after

-- How much of `key` the events to the object `i` will give back.
unfoldable pub events_awaited :
    {Event Key : Type 0} → (Event → ℕ) → (Event → Key → ℕ) → ℕ → Key → List Event → ℕ
events_awaited receiver gives i key [] = 0
events_awaited receiver gives i key (e ∷ rest) =
    (if receiver e == i then gives e key else 0) + events_awaited receiver gives i key rest

-- A handler exits or aborts only if it is not served, and ends otherwise with an outcome as stated.
abbrev pub Ends : {R : Type 0} → Type 0 → (R → Type 0) → Option R → Type 0
Ends {R} served P o = ((o ≡ none) × (served → ⊥)) ⊎ ((r : R) × (o ≡ some r) × P r)

-- Books that the handlers keep: what a state holds, by a key, is what the pending events give back.
-- An event is served if malloc gives the memory that its handler asks for.
pub record Books {State Event : Type 0} (m : Model State Event) : Type 1 where
  pub Key : Type 0
  pub IsReady : State → Type 0
  pub IsSent : Event → Type 0
  pub IsServed : Event → State → Type 0
  pub holds : State → Key → ℕ
  pub gives : Event → Key → ℕ

-- What a handler that is given `given` leaves.
pub record IsKept {State Event : Type 0} (m : Model State Event) (b : Books m) (me : ℕ)
    (given : b.Key → ℕ) (state : State) (r : State × List Event) : Type 0 where
  pub ready : b.IsReady r.0
  pub sent : All b.IsSent r.1
  pub same :
      (key : b.Key)
      → b.holds r.0 key + given key
        ≡ b.holds state key + events_awaited m.receiver b.gives me key r.1
  pub others : (i : ℕ) (key : b.Key) → i ≢ me → events_awaited m.receiver b.gives i key r.1 ≡ 0

-- The laws of a model that keeps its books.
pub record IsKeeping {State Event : Type 0} (m : Model State Event) (b : Books m) : Type 0 where
  pub in_range : (e : Event) → b.IsSent e → m.receiver e < m.objects
  pub initial :
      (i : ℕ) → i < m.objects → IsKept m b i (b.holds (m.init i).0) (m.init i).0 (m.init i)
  pub each :
      (e : Event) (state : State)
      → b.IsReady state
      → b.IsSent e
      → ((key : b.Key) → b.gives e key ≤ b.holds state key)
      → Ends
          (b.IsServed e state)
          (IsKept m b (m.receiver e) (b.gives e) state)
          (m.process_event e state)

-- Each object keeps its books.
pub record IsSound {State Event : Type 0} (m : Model State Event) (b : Books m)
    (run : Run State Event) : Type 0 where
  pub states : (i : ℕ) → i < m.objects → b.IsReady (run.states i)
  pub same :
      (i : ℕ) (key : b.Key)
      → i < m.objects
      → events_awaited m.receiver b.gives i key run.pending ≡ b.holds (run.states i) key
  pub sent : All b.IsSent run.pending
